-- ===== src/Detect/Request.antt =====
-- dacloud.c, what `da_cloud_detect` sends: the URL of a server and the header lines.
use deviceatlas_cloud_c.Prelude.{List, [], ◌∷◌, ◌++◌, map, take, Bytes, codes, print_ulong}
use deviceatlas_cloud_c.Header.{Header}
use deviceatlas_cloud_c.Server.{Server}

-- snprintf into an array of 256 bytes keeps 255.
abbrev pub snprintf_256 : Bytes → Bytes
snprintf_256 = take 255

-- DETECT_URL_FORMAT
unfoldable pub detect_url : Server → Bytes → Bytes
detect_url s licence_key = snprintf_256 (
    s.host
    ++ codes ":"
    ++ print_ulong s.port
    ++ codes "/v1/detect/properties?licenceKey="
    ++ licence_key)

-- DETECT_HDR_FORMAT
unfoldable pub header_line : Header → Bytes
header_line h = snprintf_256 (h.key ++ codes ": " ++ h.value)

unfoldable pub header_lines : List Header → List Bytes
unfolding header_line
header_lines list =
    map header_line list ++ codes "Accept: application/json" ∷ codes "User-Agent: c/2.0.0" ∷ []

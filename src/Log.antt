-- ===== src/Log.antt =====
-- dacloud.c, `da_cloud_log`: a line with the time onto a stream.
use deviceatlas_cloud_c.Prelude.{
  Option, none, some, [], ◌∷◌, ◌++◌, ◌==◌, if◌then◌else◌, Bytes, codes,
}

-- strchr(strnow, '\n'), and the zero written there: the text in front of the first newline.
unfoldable pub before_newline : Bytes → Bytes
before_newline [] = []
before_newline (c ∷ cs) = if c == 10 then [] else c ∷ before_newline cs

-- Onto what a stream holds; `none` is a null stream. `strnow` is what ctime_r gives of the time, and
-- `message` is what vfprintf writes of the format and its arguments.
unfoldable pub log : Option Bytes → Option Bytes → Bytes → Option Bytes
unfolding before_newline
log none strnow message = none
log (some out) none message = some out
log (some out) (some strnow) message =
    some (out ++ codes "[" ++ before_newline strnow ++ codes "]: " ++ message ++ 10 ∷ [])

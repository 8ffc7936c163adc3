-- ===== src/Examples/Gateway.antt =====
-- examples/dacloud_fcgi.c: a page with the properties for each request.
use deviceatlas_cloud_c.Prelude.{
  ℕ, Option, none, some, List, [], ◌∷◌, ◌++◌, true, Bytes, codes, done, failed, Outcome, returns,
  crashes, ◌>>=◌,
}
use deviceatlas_cloud_c.Mem.{Allocator}
use deviceatlas_cloud_c.Header.{HeaderHead, header_init, header_free, useragent_add}
use deviceatlas_cloud_c.Property.{Property, print_property, properties_free}
use deviceatlas_cloud_c.Cache.{CacheOps}
use deviceatlas_cloud_c.Server.{Server}
use deviceatlas_cloud_c.Detect.{Services, Detected, detect}

-- What is written to the two streams: the properties go to stdin.
pub record Page : Type 0 where
  pub out : Bytes
  pub input : Bytes

abbrev pub line : Bytes → Bytes
line t = t ++ 10 ∷ []

abbrev pub page_start : Bytes → Bytes → Bytes
page_start user_agent cache_id =
    line (codes "<html>")
    ++ line (codes "<head></head>")
    ++ line (codes "<body>")
    ++ line (codes "<h2>User-Agent: " ++ user_agent ++ codes "</h2>")
    ++ line (codes "<h3>Cache type: " ++ cache_id ++ codes "</h3>")

abbrev pub page_end : Bytes
page_end = line (codes "</body>") ++ line (codes "</html>")

-- The loop over the properties.
unfoldable pub each_paragraph : Page → List Property → Page
unfolding print_property
each_paragraph page [] = page
each_paragraph page (p ∷ rest) =
    let out = page.out ++ codes "<p>" ++ line (codes "</p>") in
    elim (print_property (some page.input) p) [
      | none ↦ each_paragraph (record { out = out; input = page.input }) rest
      | some input ↦ each_paragraph (record { out = out; input = input }) rest
    ]

abbrev pub page_source : Bytes → Bytes → Bytes
page_source cachesource cachekey =
    line (codes "<p>Cache source:" ++ cachesource ++ codes "</p>")
    ++ line (codes "<p>Cache key:" ++ cachekey ++ codes "</p>")

module _ (A : Allocator) (xxh64 : Bytes → ℕ → ℕ) (C : CacheOps A) (V : Services)
    (licence_key : Bytes) (servers : List Server) (cache_id : Bytes) where
  open A use {State}
  open C use {Cfg}
  open V use {Net}

  -- What a request leaves.
  pub record Served : Type 0 where
    pub page : Page
    pub cfg : Cfg
    pub net : Net
    pub heap : State

  -- Behind da_cloud_detect. Where it failed, a pool that it made is not freed.
  unfoldable pub finish_page : Page → HeaderHead → Detected A C V → Outcome Served
  unfolding each_paragraph properties_free header_free
  finish_page page headers d =
      let bare : Served = record {
        page = record page { out = page.out ++ page_end };
        cfg = d.cfg;
        net = d.net;
        heap = header_free A d.heap headers;
      } in
      elim d.status [
        | failed ↦ returns bare
        | done ↦ elim d.phead [
          | none ↦ returns bare
          | some phead ↦
              let shown = each_paragraph page phead.list in
              returns (record {
                page = record shown {
                  out = shown.out ++ page_source phead.cachesource headers.cachekey ++ page_end;
                };
                cfg = d.cfg;
                net = d.net;
                heap = header_free A (properties_free A d.heap phead).0 headers;
              })
        ]
      ]

  -- The body of the loop for a user agent that is not empty.
  unfoldable pub serve : State → Cfg → Net → Page → Bytes → Outcome Served
  unfolding header_init useragent_add detect finish_page
  serve s cfg net page user_agent =
      let (headers, s') = header_init A s in
      elim headers [
        | none ↦ crashes
        | some h ↦ do
          r ← useragent_add A xxh64 s' h user_agent
          d ← detect A C V r.heap cfg net r.head licence_key servers true
          finish_page (record page { out = page.out ++ page_start user_agent cache_id }) r.head d
      ]

  -- The loop, over what getenv gives after each FCGI_Accept.
  unfoldable pub serve_each : State → Cfg → Net → Page → List (Option Bytes) → Outcome Served
  unfolding serve
  serve_each s cfg net page [] = returns (record { page = page; cfg = cfg; net = net; heap = s })
  serve_each s cfg net page (none ∷ requests) = serve_each s cfg net page requests
  serve_each s cfg net page (some [] ∷ requests) = serve_each s cfg net page requests
  serve_each s cfg net page (some (c ∷ cs) ∷ requests) = do
    r ← serve s cfg net page (c ∷ cs)
    serve_each r.heap r.cfg r.net r.page requests

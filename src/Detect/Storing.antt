-- ===== src/Detect/Storing.antt =====
-- dacloud.c, what the loop of `da_cloud_detect` over the servers gives the cache.
use deviceatlas_cloud_c.Prelude.{
  ◌≡◌, refl, ap, inl, inr, List, [], ◌∷◌, Bool-cases, Option-cases, length, Bytes, c_text, returns,
  Ensures, Ensures-known, Ensures-bind, subst,
}
use deviceatlas_cloud_c.Mem.{Allocator}
use deviceatlas_cloud_c.Cache.{CString, Left, CacheOps}
use deviceatlas_cloud_c.Cache.Remembering.{Remembers}
use deviceatlas_cloud_c.Server.{Server}
use deviceatlas_cloud_c.Detect.Reader.{
  Buffer, null, block, dangling, DataReader, Transferred, transfer, data_reader_free,
}
use deviceatlas_cloud_c.Detect.{
  Services, Fetch, Fetched, answered, refused, unreachable, keep_answer, accept, fetch,
  opens_object, sizeof_reader,
}

abbrev body_of : Fetched → Bytes
body_of (answered (p, body)) = body
body_of refused = []
body_of unreachable = []

module _ (A : Allocator) (C : CacheOps A) (W : Services) (R : Remembers A C) where
  open A use {State}
  open C use {Cfg}
  open W use {Net}

  -- A text was given to `set` under the key, and the provider is as that call left it.
  pub record Put (key text : Bytes) (cfg : Cfg) : Type 0 where
    pub heap : State
    pub old : Cfg
    pub left : Left State Cfg
    pub was_ready : R.Ready old key
    pub ran : C.set heap old key text ≡ returns left
    pub now : cfg ≡ left.cfg

  -- The loop over the servers has an answer only if its text was given to the cache.
  abbrev pub PutIfAnswered : Bytes → Fetch A C W → Type 0
  PutIfAnswered key f = (v : CString) → f.result ≡ answered v → Put key v.1 f.cfg

  keep_answer-Put :
      (net : Net) (key : Bytes) (dr : DataReader) (text : Bytes) (left : Left State Cfg)
      → Put key text left.cfg
      → Ensures (PutIfAnswered key) (keep_answer A C W net dr text left)
  unfolding keep_answer
  keep_answer-Put net key dr text left put =
      elim (Option-cases (A.strdup left.heap (length text)).0) [
        | inl lost ↦
            rw (keep_answer, lost)
              (Ensures-bind _ (data_reader_free A _ dr) _ λ s v same. absurd (cc))
        | inr (q, copied) ↦
            rw (keep_answer, copied)
              (Ensures-bind _ (data_reader_free A _ dr) _
                λ s v same. subst (λ b. Put key b left.cfg) (ap body_of same) put)
      ]

  accept-Put :
      (cfg : Cfg) (net : Net) (key : Bytes) (t : Transferred State) (buf : Buffer)
      → t.reader.buf ≡ buf
      → R.Ready cfg key
      → Ensures (PutIfAnswered key) (accept A C W cfg net key t)
  unfolding accept keep_answer
  accept-Put cfg net key t null e ready = rw (accept, e) tt
  accept-Put cfg net key t dangling e ready = rw (accept, e) tt
  accept-Put cfg net key t (block p bytes) e ready = elim (Bool-cases (opens_object bytes)) [
    | inl object ↦
        rw (accept, e, object)
          (Ensures-known _ (C.set t.heap cfg key (c_text bytes)) _ λ left ran.
            keep_answer-Put net key t.reader (c_text bytes) left (record {
              heap = t.heap;
              old = cfg;
              left = left;
              was_ready = ready;
              ran = ran;
              now = refl;
            }))
    | inr other ↦
        rw (accept, e, other)
          (Ensures-bind _ (data_reader_free A t.heap t.reader) _ λ s v same. absurd (cc))
  ]

  pub fetch-Put :
      (s : State) (cfg : Cfg) (net : Net) (key licence_key : Bytes) (lines : List Bytes)
      (servers : List Server)
      → R.Ready cfg key
      → Ensures (PutIfAnswered key) (fetch A C W s cfg net key licence_key lines servers)
  unfolding fetch
  fetch-Put s cfg net key licence_key lines [] ready = λ v same. absurd (cc)
  fetch-Put s cfg net key licence_key lines (srv ∷ servers) ready =
      elim (Option-cases (A.alloc s sizeof_reader).0) [
        | inl lost ↦ rw (fetch, lost) tt
        | inr (d, got) ↦
            rw (fetch, got)
              (Ensures-bind _ (transfer A (A.alloc s sizeof_reader).1 _ _ _) _ λ t.
                elim (Bool-cases t.is_ok) [
                  | inl ok ↦ rw (ok) (accept-Put cfg _ key t t.reader.buf refl ready)
                  | inr bad ↦ rw (bad) (
                      Ensures-bind _ (data_reader_free A t.heap t.reader) _
                        λ freed. fetch-Put freed cfg _ key licence_key lines servers ready)
                ])
      ]

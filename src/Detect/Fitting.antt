-- ===== src/Detect/Fitting.antt =====
-- dacloud.c, a detection behind another one whose answer fits into the pool that da_cloud_detect makes.
use deviceatlas_cloud_c.Prelude.{
  ℕ, ◌*◌, ◌≤◌, ◌≡◌, some, [], List, All, length, true, arith, Bytes, done, Returns, Lands-Returns,
}
use deviceatlas_cloud_c.Mem.{Allocator, AllocatorLaws}
use deviceatlas_cloud_c.Membuf.{Membuf, membuf_create}
use deviceatlas_cloud_c.Membuf.Creation.{Created-some, membuf_create-Created}
use deviceatlas_cloud_c.Membuf.Fitting.{HasRoom, HasRoom-Overruns, total}
use deviceatlas_cloud_c.Header.{HeaderHead}
use deviceatlas_cloud_c.Cache.{CacheOps}
use deviceatlas_cloud_c.Cache.Remembering.{Remembers}
use deviceatlas_cloud_c.Server.{Server}
use deviceatlas_cloud_c.Detect.Members.{IsShort, requests}
use deviceatlas_cloud_c.Detect.Again.{Stored, AnsweredFromCache, OverrunsAfterGet, detect_again}
use deviceatlas_cloud_c.Detect.{Services, Detected, detect}

module _ (A : Allocator) (L : AllocatorLaws A) (C : CacheOps A) (W : Services) (R : Remembers A C)
    (short : (text : Bytes) → All IsShort (W.json_loads (some text)).properties) where
  open A use {State}
  open W use {Net}

  -- A new pool has room for members that fit.
  new_pool-HasRoom :
      (s : State) (d : Membuf) (sizes : List ℕ)
      → (membuf_create A s (1024 * 4)).0 ≡ some d
      → total sizes ≤ 4096
      → HasRoom (record { before = []; dcm = d }) sizes
  new_pool-HasRoom s d sizes pool small =
      let created = membuf_create-Created A L s (1024 * 4) (omega arith) in
      let fresh = (Created-some A L (1024 * 4) (L.live s) _ d created pool).1 in
      record { fits = omega (arith, fresh.ends, small); in_space = fresh.in_space }

  -- Over a lawful allocator, a cache that remembers and no answer with texts of 2 ^ 61 bytes or
  -- more, where a detection has given a text to the cache's set under its cache key and the set
  -- returned 0, and the structs, names and texts of the members of the text, with four bytes more
  -- for each, take at most the 4096 bytes of the pool of da_cloud_detect, a later detection for
  -- that cache key that gets memory for its pool and for the cache's copy does not crash: it
  -- returns 0 with the source "cache", asks no server, reads its list of properties from the same
  -- text, and leaves the text in the cache.
  pub detect_again_fits :
      (key : Bytes) (r : Detected A C W) (st : Stored A L C W R short key r) (s : State) (net : Net)
      (head : HeaderHead) (licence_key : Bytes) (servers : List Server) (d : Membuf) (q : ℕ)
      → st.put.left.status ≡ done
      → head.cachekey ≡ key
      → (membuf_create A s (1024 * 4)).0 ≡ some d
      → (A.strdup (membuf_create A s (1024 * 4)).1 (length st.text)).0 ≡ some q
      → total (requests (W.json_loads (some st.text)).properties) ≤ 4096
      → Returns
          (AnsweredFromCache A L C W R short key st.text net)
          (detect A C W s r.cfg net head licence_key servers true)
  detect_again_fits key r st s net head licence_key servers d q ok same pool copied small =
      Lands-Returns (AnsweredFromCache A L C W R short key st.text net)
        (OverrunsAfterGet A L C W R short r.cfg head.cachekey s d st.text) _
        (λ over.
          HasRoom-Overruns A over.0.heap (record { before = []; dcm = d }) _
            (new_pool-HasRoom s d _ pool small) over.2)
        (detect_again A L C W R short key r st s net head licence_key servers d q ok same pool
          copied)

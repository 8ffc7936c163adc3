-- ===== src/FileCache/Paths.antt =====
-- file_cache_provider.c, the paths of the files.
use mathlib.Core.List.{append_assoc}
use deviceatlas_cloud_c.Prelude.{
  ◌+◌, ◌-◌, ◌≤◌, ◌<◌, ◌≡◌, refl, sym, ◌∙◌, [], ◌∷◌, ◌++◌, length, length-append, take, drop, arith,
  Bytes, codes,
}
use deviceatlas_cloud_c.FileCache.{path_of, path_max}

abbrev suffix : Bytes → Bytes
suffix key = (codes "/" ++ take 1 key) ++ (codes "/" ++ drop 1 key)

path_of-eq : (dir key : Bytes) → path_of dir key ≡ dir ++ suffix key
unfolding path_of
path_of-eq dir key = append_assoc dir (codes "/" ++ take 1 key) (codes "/" ++ drop 1 key)

length-suffix : (key : Bytes) → length (suffix key) ≤ length key + 2
length-suffix [] = omega arith
length-suffix (c ∷ key) = omega arith

-- For a directory that file_cache_init accepts and a key that fits into the header's array, the
-- path and its terminator stay inside the array of PATH_MAX bytes.
pub path_of_bound :
    (dir key : Bytes)
    → length dir < path_max - 67
    → length key ≤ 64
    → length (path_of dir key) < path_max
path_of_bound dir key short small =
    rw (path_of-eq dir key) (omega (arith, length-append dir (suffix key), length-suffix key))

append_cancel : (dir a b : Bytes) → dir ++ a ≡ dir ++ b → a ≡ b
append_cancel [] a b e = e
append_cancel (c ∷ dir) a b e = append_cancel dir a b (cc)

suffix_injective : (a b : Bytes) → suffix a ≡ suffix b → a ≡ b
suffix_injective [] [] e = refl
suffix_injective [] (c ∷ b) e = absurd (cc)
suffix_injective (c ∷ a) [] e = absurd (cc)
suffix_injective (c ∷ a) (d ∷ b) e = cc

-- In one directory different keys have different paths, so that no key reads another key's file.
pub path_of_injective : (dir a b : Bytes) → path_of dir a ≡ path_of dir b → a ≡ b
path_of_injective dir a b e =
    suffix_injective a b
      (append_cancel dir (suffix a) (suffix b) (sym (path_of-eq dir a) ∙ e ∙ path_of-eq dir b))

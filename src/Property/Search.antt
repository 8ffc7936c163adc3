-- ===== src/Property/Search.antt =====
-- What the searches of dacloud_header_property.c through the properties find.
use deviceatlas_cloud_c.Prelude.{
  ℕ, ◌+◌, ◌<◌, ◌%◌, ◌^◌, ◌≡◌, refl, ap, inl, inr, Option, none, some, List, [], ◌∷◌, ◌++◌, true,
  false, Bool-cases, length, All, arith, Bytes, same_text_nocase, done, failed,
}
use deviceatlas_cloud_c.Property.{
  Property, PropertyHead, search_list, found, find_property, count_list, property_count,
}

-- The first property of that name, in any spelling of its letters, or none of that name.
pub data Finds (pname : Bytes) (list : List Property) : Option Property → Type 0 where
  first :
      (before after : List Property) (p : Property)
      → list ≡ before ++ p ∷ after
      → All (λ q. same_text_nocase q.name pname ≡ false) before
      → same_text_nocase p.name pname ≡ true
      → Finds pname list (some p)
  absent : All (λ q. same_text_nocase q.name pname ≡ false) list → Finds pname list none

Finds-cons :
    (pname : Bytes) (q : Property) (list : List Property) {r : Option Property}
    → same_text_nocase q.name pname ≡ false
    → Finds pname list r
    → Finds pname (q ∷ list) r
Finds-cons pname q list miss (first before after p split none_before hit) =
    first (q ∷ before) after p (ap (◌∷◌ q) split) (miss, none_before) hit
Finds-cons pname q list miss (absent all) = absent (miss, all)

search_list-Finds :
    (pname : Bytes) (list : List Property) → Finds pname list (search_list pname list)
unfolding search_list
search_list-Finds pname [] = absent tt
search_list-Finds pname (q ∷ list) = elim (Bool-cases (same_text_nocase q.name pname)) [
  | inl hit ↦ rw hit (first [] list q refl tt hit)
  | inr miss ↦ rw miss (Finds-cons pname q list miss (search_list-Finds pname list))
]

-- With somewhere to put it, the search returns 0 with the first property of the name, letters
-- compared without their case, or -1 with a null pointer if there is none; without, it returns -1.
pub find_property-Finds :
    (phead : PropertyHead) (pname : Bytes) (old : Option Property)
    → ((r : Option Property) × Finds pname phead.list r
        × (find_property phead pname (some old) ≡ found r))
      × (find_property phead pname none ≡ (failed, none))
unfolding find_property
find_property-Finds phead pname old =
    ((search_list pname phead.list, search_list-Finds pname phead.list, refl), refl)

count_list-length :
    (ct : ℕ) (list : List Property)
    → ct + length list < 2 ^ 64
    → count_list ct list ≡ ct + length list
unfolding count_list
count_list-length ct [] h = omega arith
count_list-length ct (p ∷ rest) h =
    let step : (ct + 1) % 2 ^ 64 ≡ ct + 1 = omega arith in
    rw step (omega (arith, count_list-length (ct + 1) rest (omega arith)))

-- With somewhere to put it and fewer than 2 ^ 64 properties, the count is their number and the call
-- returns 0.
pub property_count-length :
    (phead : PropertyHead) (old : ℕ)
    → length phead.list < 2 ^ 64
    → property_count phead (some old) ≡ (done, some (length phead.list))
unfolding property_count
property_count-length phead old h = ground (arith, count_list-length 0 phead.list)

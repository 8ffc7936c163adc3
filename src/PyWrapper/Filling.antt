-- ===== src/PyWrapper/Filling.antt =====
-- py3wrapper/dacloud.c, the dictionary against the list of properties.
use deviceatlas_cloud_c.Prelude.{
  ◌≡◌, refl, ap, ◌∙◌, Option, some, List, [], ◌∷◌, ◌++◌, true, false, Bool-cases, inl, inr,
  if◌then◌else◌, Bytes, same_text, All, returns, Returns, Returns-mono,
}
use deviceatlas_cloud_c.Property.{Property}
use deviceatlas_cloud_c.PyWrapper.{Python, PyValue, py_value, fill_props}

-- What is relied on: an item that was set is found under its key, and no other changes.
pub record KeepsItems (Y : Python) : Type 0 where
  pub item :
      (d : Y.Dict) (key other : Bytes) (v : PyValue)
      → Y.get_item (Y.set_item d key v) other
        ≡ (if same_text other key then some v else Y.get_item d other)

module _ (Y : Python) (K : KeepsItems Y) where
  -- Python can make an object of the property.
  abbrev pub IsReadable : Property → Type 0
  IsReadable p = (v : PyValue) × (py_value Y p ≡ returns v)

  -- What is found under a name, where `old` was before: the object for the last property of that name,
  -- or `old` if there is none.
  pub data Holds (name : Bytes) (list : List Property) (old : Option PyValue)
      : Option PyValue → Type 0 where
    last :
        {r : Option PyValue} (before after : List Property) (p : Property) (v : PyValue)
        → list ≡ before ++ p ∷ after
        → same_text name p.name ≡ true
        → All (λ q. same_text name q.name ≡ false) after
        → py_value Y p ≡ returns v
        → r ≡ some v
        → Holds name list old r
    kept :
        {r : Option PyValue}
        → All (λ q. same_text name q.name ≡ false) list
        → r ≡ old
        → Holds name list old r

  set_twice :
      (d : Y.Dict) (key other : Bytes) (v : PyValue)
      → Y.get_item (Y.set_item (Y.set_item d key v) key v) other
        ≡ (if same_text other key then some v else Y.get_item d other)
  set_twice d key other v = elim (Bool-cases (same_text other key)) [
    | inl same ↦ rw (K.item (Y.set_item d key v) key other v, same) refl
    | inr not_same ↦
        rw (K.item (Y.set_item d key v) key other v, not_same, K.item d key other v, not_same) refl
  ]

  Holds-cons :
      (name : Bytes) (p : Property) (rest : List Property) (v : PyValue) (d : Y.Dict)
      {r : Option PyValue}
      → py_value Y p ≡ returns v
      → Holds name rest (Y.get_item (Y.set_item (Y.set_item d p.name v) p.name v) name) r
      → Holds name (p ∷ rest) (Y.get_item d name) r
  Holds-cons name p rest v d made (last before after q w split hit none_after made_q e) =
      last (p ∷ before) after q w (ap (◌∷◌ p) split) hit none_after made_q e
  Holds-cons name p rest v d made (kept all e) = elim (Bool-cases (same_text name p.name)) [
    | inl hit ↦
        let now : Y.get_item (Y.set_item (Y.set_item d p.name v) p.name v) name ≡ some v =
          rw (set_twice d p.name name v, hit) refl in
        last [] rest p v refl hit all made (e ∙ now)
    | inr miss ↦
        let now : Y.get_item (Y.set_item (Y.set_item d p.name v) p.name v) name
            ≡ Y.get_item d name =
          rw (set_twice d p.name name v, miss) refl in
        kept (miss, all) (e ∙ now)
  ]

  -- Where Python can make an object of each property, the loop of dacloudmod_detect returns, and
  -- the dictionary has under every name the object for the last property of exactly that name, or
  -- what it had before where there is none.
  pub fill_props-Holds :
      (list : List Property) (d : Y.Dict) (name : Bytes)
      → All IsReadable list
      → Returns
          (λ filled. Holds name list (Y.get_item d name) (Y.get_item filled name))
          (fill_props Y d list)
  unfolding fill_props
  fill_props-Holds [] d name readable = kept tt refl
  fill_props-Holds (p ∷ rest) d name ((v, made), readable) =
      let next = Y.set_item (Y.set_item d p.name v) p.name v in
      rw (fill_props, made)
        (Returns-mono (λ filled. Holds name rest (Y.get_item next name) (Y.get_item filled name))
          (λ filled. Holds name (p ∷ rest) (Y.get_item d name) (Y.get_item filled name)) _
          (λ filled. Holds-cons name p rest v d made) (fill_props-Holds rest next name readable))

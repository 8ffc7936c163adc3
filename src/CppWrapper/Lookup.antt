-- ===== src/CppWrapper/Lookup.antt =====
-- cppwrapper/dacloud.cpp, the map against the list of properties.
use deviceatlas_cloud_c.Prelude.{
  ◌≡◌, refl, ap, ◌∙◌, Option, none, some, Option-cases, List, [], ◌∷◌, Bool, true, false,
  Bool-cases, inl, inr, if◌then◌else◌, Bytes, same_text, same_text→eq,
}
use deviceatlas_cloud_c.Property.{Property}
use deviceatlas_cloud_c.CppWrapper.{Properties, lookup, insert, insert_each}

-- The first property of exactly that name.
abbrev pub first_named : Bytes → List Property → Option Property
first_named pname [] = none
first_named pname (p ∷ rest) = if same_text pname p.name then some p else first_named pname rest

abbrev or_else : Option Property → Option Property → Option Property
or_else none b = b
or_else (some a) b = some a

or_else-none : (o : Option Property) → o ≡ or_else o none
or_else-none none = refl
or_else-none (some a) = refl

or_else_if :
    (o r : Option Property) (same : Bool) (p : Property)
    → or_else (or_else o (if same then some p else none)) r ≡ or_else o (if same then some p else r)
or_else_if none r true p = refl
or_else_if none r false p = refl
or_else_if (some a) r same p = refl

lookup-insert :
    (pname : Bytes) (props : Properties) (p : Property)
    → lookup pname (insert props p.name p)
      ≡ or_else (lookup pname props) (if same_text pname p.name then some p else none)
unfolding lookup insert
lookup-insert pname props p = elim (Option-cases (lookup p.name props)) [
  | inl new ↦ elim (Bool-cases (same_text pname p.name)) [
    | inl hit ↦
        let same = same_text→eq pname p.name hit in
        let gone : lookup pname props ≡ none = ap (λ n. lookup n props) same ∙ new in
        rw (insert, new, lookup, hit, gone) refl
    | inr miss ↦ rw (insert, new, lookup, miss) (or_else-none (lookup pname props))
  ]
  | inr (old, there) ↦ elim (Bool-cases (same_text pname p.name)) [
    | inl hit ↦
        let same = same_text→eq pname p.name hit in
        let found : lookup pname props ≡ some old = ap (λ n. lookup n props) same ∙ there in
        rw (insert, there, found) refl
    | inr miss ↦ rw (insert, there, miss) (or_else-none (lookup pname props))
  ]
]

lookup-insert_each :
    (pname : Bytes) (list : List Property) (props : Properties)
    → lookup pname (insert_each props list) ≡ or_else (lookup pname props) (first_named pname list)
unfolding insert_each
lookup-insert_each pname [] props = or_else-none (lookup pname props)
lookup-insert_each pname (p ∷ rest) props =
    lookup-insert_each pname rest (insert props p.name p)
    ∙ ap (λ o. or_else o (first_named pname rest)) (lookup-insert pname props p)
    ∙ or_else_if (lookup pname props) (first_named pname rest) (same_text pname p.name) p

-- The map that a DaCloudDetect fills has under every name the first property of the list with
-- exactly that name, and nothing under a name that the list does not have: later properties of a
-- name are left out.
pub insert_each-first_named :
    (list : List Property) (pname : Bytes)
    → lookup pname (insert_each [] list) ≡ first_named pname list
unfolding lookup
insert_each-first_named list pname = lookup-insert_each pname list []

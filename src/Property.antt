-- ===== src/Property.antt =====
-- dacloud_header_property.c, the properties of a detection: `struct da_cloud_property_head`.
-- An output parameter is its old content, or `none` for a null pointer.
pub mod Search
pub mod Printing
use deviceatlas_cloud_c.Prelude.{
  ℕ, suc, ◌+◌, ◌%◌, ◌^◌, Option, none, some, List, [], ◌∷◌, ◌++◌, Bool, true, false, if◌then◌else◌,
  Bytes, codes, same_text_nocase, ℤ, pos, to_int, is_positive, print_int, Status, done, failed,
}
use deviceatlas_cloud_c.Mem.{Allocator}
use deviceatlas_cloud_c.Membuf.{Pool, nodes, membuf_free}

-- enum da_cloud_property_type
pub data PropertyType : Type 0 where
  long_type bool_type string_type unknown_type : PropertyType

-- The union `value` with the member that was written: `l` is `num`, `s` is `text`.
pub data Value : Type 0 where
  num : ℤ → Value
  text : Bytes → Value

-- struct da_cloud_property
pub record Property : Type 0 where
  pub name : Bytes
  pub value : Value
  pub type : PropertyType

-- struct da_cloud_property_head
pub record PropertyHead : Type 0 where
  pub cachesource : Bytes
  pub pool : Pool
  pub list : List Property

-- The loop of da_cloud_property.
unfoldable pub search_list : Bytes → List Property → Option Property
search_list pname [] = none
search_list pname (p ∷ rest) =
    if same_text_nocase p.name pname then some p else search_list pname rest

unfoldable pub found : Option Property → Status × Option (Option Property)
found none = (failed, some none)
found (some p) = (done, some (some p))

-- The status, and what `*prop` holds then.
unfoldable pub find_property :
    PropertyHead → Bytes → Option (Option Property) → Status × Option (Option Property)
unfolding search_list found
find_property phead pname none = (failed, none)
find_property phead pname (some old) = found (search_list pname phead.list)

-- The loop of da_cloud_property_count, on a size_t.
unfoldable pub count_list : ℕ → List Property → ℕ
count_list ct [] = ct
count_list ct (p ∷ rest) = count_list ((ct + 1) % 2 ^ 64) rest

unfoldable pub property_count : PropertyHead → Option ℕ → Status × Option ℕ
unfolding count_list
property_count phead none = (failed, none)
property_count phead (some old) = (done, some (count_list 0 phead.list))

module _ (A : Allocator) where
  open A use {State}

  -- The list is emptied, the pool freed from its root, and the source erased.
  unfoldable pub properties_free : State → PropertyHead → State × PropertyHead
  properties_free s phead =
      (membuf_free A s (nodes phead.pool), record phead { list = []; cachesource = [] })

-- The text behind the name, by the type; the member read is the one that the type stands for.
unfoldable pub print_value : PropertyType → Value → Bytes
print_value long_type (num n) = print_int (to_int n)
print_value bool_type (num n) = if is_positive n then codes "true" else codes "false"
print_value string_type (text t) = t
print_value unknown_type (text t) = t
print_value _ _ = []

-- da_cloud_print_property, onto what a stream holds; `none` is a null stream.
unfoldable pub print_property : Option Bytes → Property → Option Bytes
unfolding print_value
print_property none p = none
print_property (some out) p =
    some (out ++ p.name ++ codes ": " ++ print_value p.type p.value ++ 10 ∷ [])

-- ===== src/Detect/Answer.antt =====
-- dacloud.c, how `da_cloud_detect` reads the text of an answer into properties.
use deviceatlas_cloud_c.Prelude.{
  ℕ, Option, none, some, List, [], ◌∷◌, Bool, true, false, length, Bytes, codes, ℤ, pos, Outcome,
  returns, ◌>>=◌,
}
use deviceatlas_cloud_c.Mem.{Allocator}
use deviceatlas_cloud_c.Membuf.{Pool, membuf_fill, membuf_copy}
use deviceatlas_cloud_c.Header.{pool_fuel}
use deviceatlas_cloud_c.Property.{
  Property, PropertyType, Value, num, text, long_type, bool_type, string_type, unknown_type,
}

-- A value of jansson, by its json_typeof; of arrays and objects only the kind matters here.
pub data JsonValue : Type 0 where
  json_object json_array json_real json_true json_false json_null : JsonValue
  json_string : Bytes → JsonValue
  json_integer : ℤ → JsonValue

-- What json_loads leaves: the text of its error, and the members of the object "properties" of the
-- response, in the order of its iterator.
pub record Loaded : Type 0 where
  pub error_text : Bytes
  pub properties : List (Bytes × JsonValue)

abbrev pub sizeof_property : ℕ
sizeof_property = 28

-- The type and the value that a member is stored with.
unfoldable pub type_of : JsonValue → PropertyType
type_of (json_string t) = string_type
type_of json_true = bool_type
type_of json_false = bool_type
type_of (json_integer n) = long_type
type_of _ = unknown_type

unfoldable pub value_of : JsonValue → Value
value_of (json_string t) = text t
value_of json_true = num (pos 1)
value_of json_false = num (pos 0)
value_of (json_integer n) = num n
value_of _ = text (codes "(unknown)")

-- The text that the value keeps in the pool, if it is one.
unfoldable pub copied : JsonValue → Option ℕ
copied (json_string t) = some (length t)
copied json_true = none
copied json_false = none
copied (json_integer n) = none
copied _ = some (length (codes "(unknown)"))

unfoldable pub make_property : Bytes → JsonValue → Property
unfolding type_of value_of
make_property key value = record { name = key; value = value_of value; type = type_of value }

-- The list and the pool that the loop leaves, the allocator's state, and whether it went through
-- all members.
pub record Listed (A : Allocator) : Type 0 where
  pub complete : Bool
  pub list : List Property
  pub pool : Pool
  pub heap : A.State

module _ (A : Allocator) where
  open A use {State}

  -- The copy of a text value, where there is one to make.
  unfoldable pub copy_value : State → Pool → Option ℕ → Outcome (Bool × Pool × State)
  copy_value s pool none = returns (true, pool, s)
  copy_value s pool (some strlen) = do
    g ← membuf_copy A pool_fuel s pool strlen
    elim g.region [
      | none ↦ returns (false, g.pool, g.heap)
      | some _ ↦ returns (true, g.pool, g.heap)
    ]

  -- The loop over the members; each new property goes to the head of the list.
  unfoldable pub list_properties :
      State → Pool → List Property → List (Bytes × JsonValue) → Outcome (Listed A)
  unfolding copy_value make_property copied
  list_properties s pool list [] =
      returns (record { complete = true; list = list; pool = pool; heap = s })
  list_properties s pool list ((key, value) ∷ it) = do
    p ← membuf_fill A pool_fuel s pool sizeof_property
    elim p.region [
      | none ↦ returns (record { complete = false; list = list; pool = p.pool; heap = p.heap })
      | some _ ↦ do
        n ← membuf_copy A pool_fuel p.heap p.pool (length key)
        elim n.region [
          | none ↦ returns (record { complete = false; list = list; pool = n.pool; heap = n.heap })
          | some _ ↦ do
            v ← copy_value n.heap n.pool (copied value)
            elim v.0 [
              | false ↦ returns (record { complete = false; list = list; pool = v.1; heap = v.2 })
              | true ↦ list_properties v.2 v.1 (make_property key value ∷ list) it
            ]
        ]
    ]

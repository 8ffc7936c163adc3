-- ===== src/Detect/Members.antt =====
-- dacloud.c, the list that `da_cloud_detect` makes of the members of an answer.
use mathlib.Core.List.{reverse, reverse-cons, append_assoc}
use deviceatlas_cloud_c.Prelude.{
  ℕ, ◌+◌, ◌<◌, ◌^◌, ◌≡◌, refl, sym, ap, ◌∙◌, none, some, Option, List, [], ◌∷◌, ◌++◌, map, Bool,
  true, false, Option-cases, inl, inr, length, All, arith, Bytes, Outcome, returns, ◌>>=◌, crashes,
  Lands, Lands-mono, ◌⊎◌,
}
use deviceatlas_cloud_c.Mem.{Allocator, AllocatorLaws}
use deviceatlas_cloud_c.Membuf.{Pool, membuf_copy}
use deviceatlas_cloud_c.Membuf.Growth.{IsUsable}
use deviceatlas_cloud_c.Membuf.Overruns.{
  PastEnd, Overruns, Overruns-here, Overruns-more, membuf_fill-total,
}
use deviceatlas_cloud_c.Property.{Property}
use deviceatlas_cloud_c.Detect.Answer.{
  JsonValue, json_string, json_integer, json_true, json_false, json_null, json_real, json_array,
  json_object, Listed, copied, copy_value, make_property, list_properties, sizeof_property,
}

abbrev pub properties_of : List (Bytes × JsonValue) → List Property
properties_of = map (λ m. make_property m.0 m.1)

-- The list holds the properties of the members gone through, the last one first, in front of what it
-- held; without room for a member's property or texts the loop ends before that member.
pub record Lists (A : Allocator) (list : List Property) (it : List (Bytes × JsonValue))
    (r : Listed A) : Type 0 where
  pub taken : List (Bytes × JsonValue)
  pub left : List (Bytes × JsonValue)
  pub split : it ≡ taken ++ left
  pub listed : r.list ≡ reverse (properties_of taken) ++ list
  pub whole : r.complete ≡ true → left ≡ []
  pub usable : IsUsable r.pool

-- What a member asks of the pool: the property's struct, its name and its text, if it has one.
abbrev pub text_size : Option ℕ → List ℕ
text_size none = []
text_size (some strlen) = (strlen + 1) ∷ []

unfoldable pub requests : List (Bytes × JsonValue) → List ℕ
unfolding copied
requests [] = []
requests ((key, value) ∷ it) =
    sizeof_property ∷ (length key + 1) ∷ (text_size (copied value) ++ requests it)

-- The texts are shorter than any memory.
abbrev pub IsShortText : JsonValue → Type 0
IsShortText (json_string t) = length t < 2 ^ 61
IsShortText _ = Unit

abbrev pub IsShort : Bytes × JsonValue → Type 0
IsShort (key, value) = (length key < 2 ^ 61) × IsShortText value

module _ (A : Allocator) (L : AllocatorLaws A) where
  open A use {State}

  Lists-cons :
      (list : List Property) (key : Bytes) (value : JsonValue) (it : List (Bytes × JsonValue))
      (r : Listed A)
      → Lists A (make_property key value ∷ list) it r
      → Lists A list ((key, value) ∷ it) r
  Lists-cons list key value it r v = record {
    taken = (key, value) ∷ v.taken;
    left = v.left;
    split = ap (◌∷◌ (key, value)) v.split;
    listed =
        v.listed
        ∙ sym (
            ap (λ l. l ++ list) (reverse-cons (make_property key value) (properties_of v.taken))
            ∙ append_assoc (reverse (properties_of v.taken)) (make_property key value ∷ []) list);
    whole = v.whole;
    usable = v.usable;
  }

  abbrev Copies : State → Pool → List ℕ → Outcome (Bool × Pool × State) → Type 0
  Copies s pool sizes m =
      ((m ≡ crashes) × PastEnd pool)
      ⊎ ((b : Bool) × (pool' : Pool) × (s' : State) × (m ≡ returns (b, pool', s'))
          × IsUsable pool'
          × ((ks : List ℕ) → b ≡ true → Overruns A s' pool' ks → Overruns A s pool (sizes ++ ks)))

  copy_text-Copies :
      (s : State) (pool : Pool) (strlen : ℕ)
      → IsUsable pool
      → strlen < 2 ^ 61
      → Copies s pool ((strlen + 1) ∷ []) (copy_value A s pool (some strlen))
  unfolding copy_value membuf_copy
  copy_text-Copies s pool strlen u h =
      elim (membuf_fill-total A L s pool (strlen + 1) u (omega arith)) [
        | inl (e, past) ↦ inl (rw (e, ◌>>=◌) refl, past)
        | inr (g, e, asked, u') ↦ elim (Option-cases g.region) [
          | inl n ↦ inr (false, g.pool, g.heap, rw (e, ◌>>=◌, n) refl, u', λ ks bad _. absurd (cc))
          | inr (p, n) ↦ inr (
            true,
            g.pool,
            g.heap,
            rw (e, ◌>>=◌, n) refl,
            u',
            λ ks _ o. Overruns-more A s pool (strlen + 1) ks g asked o,
          )
        ]
      ]

  copy_none-Copies :
      (s : State) (pool : Pool) → IsUsable pool → Copies s pool [] (copy_value A s pool none)
  unfolding copy_value
  copy_none-Copies s pool u = inr (true, pool, s, refl, u, λ ks _ o. o)

  copy_value-Copies :
      (s : State) (pool : Pool) (value : JsonValue)
      → IsUsable pool
      → IsShortText value
      → Copies s pool (text_size (copied value)) (copy_value A s pool (copied value))
  unfolding copied
  copy_value-Copies s pool (json_string t) u h = copy_text-Copies s pool (length t) u h
  copy_value-Copies s pool json_true u h = copy_none-Copies s pool u
  copy_value-Copies s pool json_false u h = copy_none-Copies s pool u
  copy_value-Copies s pool (json_integer n) u h = copy_none-Copies s pool u
  copy_value-Copies s pool json_object u h = copy_text-Copies s pool 9 u (omega arith)
  copy_value-Copies s pool json_array u h = copy_text-Copies s pool 9 u (omega arith)
  copy_value-Copies s pool json_real u h = copy_text-Copies s pool 9 u (omega arith)
  copy_value-Copies s pool json_null u h = copy_text-Copies s pool 9 u (omega arith)

  abbrev stop : List Property → Pool → State → Listed A
  stop list pool s = record { complete = false; list = list; pool = pool; heap = s }

  stopped :
      (list : List Property) (key : Bytes) (value : JsonValue) (it : List (Bytes × JsonValue))
      (pool : Pool) (s : State)
      → IsUsable pool
      → Lists A list ((key, value) ∷ it) (stop list pool s)
  stopped list key value it pool s u = record {
    taken = [];
    left = (key, value) ∷ it;
    split = refl;
    listed = refl;
    whole = λ all. absurd (cc);
    usable = u;
  }

  after_copy :
      (list : List Property) (key : Bytes) (value : JsonValue) (it : List (Bytes × JsonValue))
      (b : Bool) (s : State) (pool : Pool) (E F : Type 0)
      → IsUsable pool
      → (b ≡ true → E → F)
      → Lands
          (Lists A (make_property key value ∷ list) it)
          E
          (list_properties A s pool (make_property key value ∷ list) it)
      → Lands (Lists A list ((key, value) ∷ it)) F (elim b [
        | false ↦ returns (stop list pool s)
        | true ↦ list_properties A s pool (make_property key value ∷ list) it
      ])
  after_copy list key value it false s pool E F u falls rest = stopped list key value it pool s u
  after_copy list key value it true s pool E F u falls rest =
      Lands-mono (Lists A (make_property key value ∷ list) it) _ E F _
        (Lists-cons list key value it) (falls refl) rest

  -- With a lawful allocator, a pool fit to grow and texts of less than 2 ^ 61 bytes, the loop
  -- returns, or it crashes where the first of its requests to the pool have left a block past its
  -- end, behind which the next one is written. Where it returns, the list holds a property for
  -- each member gone through, the last one first, in front of what it held; and if the loop was
  -- not left for want of memory it has gone through all members.
  pub list_properties-Lists :
      (s : State) (pool : Pool) (list : List Property) (it : List (Bytes × JsonValue))
      → IsUsable pool
      → All IsShort it
      → Lands (Lists A list it) (Overruns A s pool (requests it)) (list_properties A s pool list it)
  unfolding list_properties membuf_copy requests
  list_properties-Lists s pool list [] u h = record {
    taken = [];
    left = [];
    split = refl;
    listed = refl;
    whole = λ _. refl;
    usable = u;
  }
  list_properties-Lists s pool list ((key, value) ∷ it) u h =
      let size = length key + 1 in
      let texts = text_size (copied value) ++ requests it in
      elim (membuf_fill-total A L s pool sizeof_property u (omega arith)) [
        | inl (e, past) ↦
            rw (e, ◌>>=◌) (Overruns-here A s pool (sizeof_property ∷ size ∷ texts) past)
        | inr (p, ep, asked, up) ↦
            let first = Overruns-more A s pool sizeof_property (size ∷ texts) p asked in
            elim (Option-cases p.region) [
              | inl e ↦ rw (ep, ◌>>=◌, e) (stopped list key value it p.pool p.heap up)
              | inr (_, e) ↦ elim (membuf_fill-total A L p.heap p.pool size up (omega arith)) [
                | inl (en, past) ↦
                    rw (ep, ◌>>=◌, e, en)
                      (first (Overruns-here A p.heap p.pool (size ∷ texts) past))
                | inr (n, en, asked', un) ↦
                    let second = Overruns-more A p.heap p.pool size texts n asked' in
                    elim (Option-cases n.region) [
                      | inl e' ↦
                          rw (ep, ◌>>=◌, e, en, e') (stopped list key value it n.pool n.heap un)
                      | inr (_, e') ↦ elim (copy_value-Copies n.heap n.pool value un h.0.1) [
                        | inl (ev, past) ↦
                            rw (ep, ◌>>=◌, e, en, e', ev)
                              (first (second (Overruns-here A n.heap n.pool texts past)))
                        | inr (b, pool', s', ev, u', back) ↦
                            rw (ep, ◌>>=◌, e, en, e', ev)
                              (after_copy list key value it b s' pool' _ _ u'
                                (λ whole o. first (second (back (requests it) whole o)))
                                (list_properties-Lists s' pool' (make_property key value ∷ list) it
                                  u' h.1))
                      ]
                    ]
              ]
            ]
      ]

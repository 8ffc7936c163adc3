-- ===== src/Examples/Batch/Lines.antt =====
-- examples/dacloud_batch.c, which part of a line is the text that is looked up.
use deviceatlas_cloud_c.Prelude.{
  ℕ, ◌≡◌, refl, ap, ◌∙◌, [], ◌∷◌, ◌++◌, Bool, true, false, ◌||◌, inl, inr, Bool-cases, ◌==◌, All,
  Bytes, c_text, subst,
}
use deviceatlas_cloud_c.Examples.Batch.{is_space, skip_front, cut_back, line_of}

-- White space or a quote.
abbrev pub is_front : ℕ → Bool
is_front c = is_space c || c == 34

-- A quote or the end of the line.
abbrev pub is_back : ℕ → Bool
is_back c = c == 34 || c == 13 || c == 10

-- It does not begin with a byte for which the test holds.
abbrev pub StartsNot : (ℕ → Bool) → Bytes → Type 0
StartsNot test [] = Unit
StartsNot test (c ∷ cs) = test c ≡ false

-- It begins with a byte for which the test holds, if it is not empty.
abbrev pub StartsWith : (ℕ → Bool) → Bytes → Type 0
StartsWith test [] = Unit
StartsWith test (c ∷ cs) = test c ≡ true

-- The text is what stands behind the white space and quotes in front, up to a quote or the end of
-- the line.
pub record IsLine (buf line : Bytes) : Type 0 where
  pub front : Bytes
  pub back : Bytes
  pub split : buf ≡ front ++ (line ++ back)
  pub skipped : All (λ c. is_front c ≡ true) front
  pub starts : StartsNot is_front (line ++ back)
  pub inside : All (λ c. is_back c ≡ false) line
  pub ends : StartsWith is_back back

abbrev Skips : Bytes → Type 0
Skips p =
    (front : Bytes) × (p ≡ front ++ skip_front p)
    × All (λ c. is_front c ≡ true) front
    × StartsNot is_front (skip_front p)

skip_front-Skips : (p : Bytes) → Skips p
unfolding skip_front
skip_front-Skips [] = ([], refl, tt, tt)
skip_front-Skips (c ∷ p) =
    let (front, split, skipped, starts) = skip_front-Skips p in
    elim (Bool-cases (is_front c)) [
      | inl hit ↦ rw (skip_front, hit) (c ∷ front, ap (◌∷◌ c) split, (hit, skipped), starts)
      | inr miss ↦ rw (skip_front, miss) ([], refl, tt, miss)
    ]

abbrev Cuts : Bytes → Type 0
Cuts p =
    (back : Bytes) × (p ≡ cut_back p ++ back)
    × All (λ c. is_back c ≡ false) (cut_back p)
    × StartsWith is_back back

cut_back-Cuts : (p : Bytes) → Cuts p
unfolding cut_back
cut_back-Cuts [] = ([], refl, tt, tt)
cut_back-Cuts (c ∷ p) =
    let (back, split, inside, ends) = cut_back-Cuts p in
    elim (Bool-cases (is_back c)) [
      | inl hit ↦ rw (cut_back, hit) (c ∷ p, refl, tt, hit)
      | inr miss ↦ rw (cut_back, miss) (back, ap (◌∷◌ c) split, (miss, inside), ends)
    ]

-- The text that dacloud_batch.c looks up for a line is what stands in its array behind white space
-- and quotes, up to the first quote or end of the line: what is in front of it is white space and
-- quotes only, it does not begin with one, it has no quote and no end of a line in it, and one of
-- these or nothing follows it.
pub line_of-IsLine : (buf : Bytes) → IsLine (c_text buf) (line_of buf)
unfolding line_of
line_of-IsLine buf =
    let (front, split, skipped, starts) = skip_front-Skips (c_text buf) in
    let (back, split', inside, ends) = cut_back-Cuts (skip_front (c_text buf)) in
    record {
      front = front;
      back = back;
      split = split ∙ ap (λ l. front ++ l) split';
      skipped = skipped;
      starts = subst (StartsNot is_front) split' starts;
      inside = inside;
      ends = ends;
    }

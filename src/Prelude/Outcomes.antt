-- ===== src/Prelude/Outcomes.antt =====
-- What a call of C code comes to: it returns, it runs into undefined behaviour, or it goes on for
-- ever. `Status` is the `int` that the functions return.

use mathlib.Core.Option.{Option, none, some}
use mathlib.Core.Logic.{◌⊎◌, inl, inr}
use mathlib.Core.Path.{◌≡◌, refl, subst}

-- `done` is 0 and `failed` is -1.
pub data Status : Type 0 where
  done failed : Status

pub Status-cases : (status : Status) → (status ≡ failed) ⊎ (status ≡ done)
Status-cases failed = inl refl
Status-cases done = inr refl

pub data Outcome {ℓ} (A : Type ℓ) : Type ℓ where
  returns : A → Outcome A
  -- undefined behaviour, such as a write through a null pointer
  crashes : Outcome A
  -- does not return
  hangs : Outcome A

infixl 5 ◌>>=◌
abbrev pub ◌>>=◌ {ℓ κ} : {A : Type ℓ} {B : Type κ} → Outcome A → (A → Outcome B) → Outcome B
returns a >>= f = f a
crashes >>= f = crashes
hangs >>= f = hangs

-- The call returns, with a result that satisfies `P`.
abbrev pub Returns {ℓ} : {A : Type ℓ} → (A → Type 0) → Outcome A → Type 0
Returns P (returns a) = P a
Returns P crashes = ⊥
Returns P hangs = ⊥

-- The call returns, with a result that satisfies `P`, or it crashes, and then `E` holds.
abbrev pub Lands {ℓ} : {A : Type ℓ} → (A → Type 0) → Type 0 → Outcome A → Type 0
Lands P E (returns a) = P a
Lands P E crashes = E
Lands P E hangs = ⊥

pub Lands-mono {ℓ} :
    {A : Type ℓ} (P Q : A → Type 0) (E F : Type 0) (m : Outcome A)
    → ((a : A) → P a → Q a)
    → (E → F)
    → Lands P E m
    → Lands Q F m
Lands-mono P Q E F (returns a) f g h = f a h
Lands-mono P Q E F crashes f g h = g h
Lands-mono P Q E F hangs f g h = h

-- What follows a call that returns or crashes.
pub Lands->>= {ℓ κ} :
    {A : Type ℓ} {B : Type κ} (m : Outcome A) (f : A → Outcome B) (P : A → Type 0) (E F : Type 0)
    (R : B → Type 0)
    → Lands P E m
    → (E → F)
    → ((a : A) → P a → Lands R F (f a))
    → Lands R F (m >>= f)
Lands->>= (returns a) f P E F R h g next = next a h
Lands->>= crashes f P E F R h g next = g h
Lands->>= hangs f P E F R h g next = h

-- If the call returns, its result satisfies `P`.
abbrev pub Ensures {ℓ} : {A : Type ℓ} → (A → Type 0) → Outcome A → Type 0
Ensures P (returns a) = P a
Ensures P crashes = Unit
Ensures P hangs = Unit

pub Lands-Returns {ℓ} :
    {A : Type ℓ} (P : A → Type 0) (E : Type 0) (m : Outcome A) → ¬ E → Lands P E m → Returns P m
Lands-Returns P E (returns a) never h = h
Lands-Returns P E crashes never h = never h
Lands-Returns P E hangs never h = h

pub Lands-Ensures {ℓ} :
    {A : Type ℓ} (P : A → Type 0) (E : Type 0) (m : Outcome A) → Lands P E m → Ensures P m
Lands-Ensures P E (returns a) h = h
Lands-Ensures P E crashes h = tt
Lands-Ensures P E hangs h = absurd h

-- What follows a call that returns, from all that is known of its result.
pub Returns->>= {ℓ κ} :
    {A : Type ℓ} {B : Type κ} (m : Outcome A) (f : A → Outcome B) (P Q : A → Type 0)
    (R : B → Type 0)
    → Returns P m
    → Ensures Q m
    → ((a : A) → P a → Q a → Returns R (f a))
    → Returns R (m >>= f)
Returns->>= (returns a) f P Q R p q next = next a p q
Returns->>= crashes f P Q R p q next = p
Returns->>= hangs f P Q R p q next = p

pub Returns-cases {ℓ} :
    {A : Type ℓ} (P : A → Type 0) (m : Outcome A) → Returns P m → (a : A) × (m ≡ returns a) × P a
Returns-cases P (returns a) h = (a, refl, h)
Returns-cases P crashes h = absurd h
Returns-cases P hangs h = absurd h

pub Ensures->>= {ℓ κ} :
    {A : Type ℓ} {B : Type κ} (m : Outcome A) (f : A → Outcome B) (P : A → Type 0) (R : B → Type 0)
    → Ensures P m
    → ((a : A) → P a → Ensures R (f a))
    → Ensures R (m >>= f)
Ensures->>= (returns a) f P R p next = next a p
Ensures->>= crashes f P R p next = tt
Ensures->>= hangs f P R p next = tt

-- The value, if there is one, satisfies `P`.
abbrev pub IfSome {ℓ} : {A : Type ℓ} → (A → Type 0) → Option A → Type 0
IfSome P none = Unit
IfSome P (some a) = P a

pub Ensures-returns {ℓ} :
    {A : Type ℓ} (P : A → Type 0) (m : Outcome A) (a : A) → m ≡ returns a → Ensures P m → P a
Ensures-returns P m a e h = subst (Ensures P) e h

pub Returns-returns {ℓ} :
    {A : Type ℓ} (P : A → Type 0) (m : Outcome A) (a : A) → m ≡ returns a → Returns P m → P a
Returns-returns P m a e h = subst (Returns P) e h

pub Returns-mono {ℓ} :
    {A : Type ℓ} (P Q : A → Type 0) (m : Outcome A)
    → ((a : A) → P a → Q a)
    → Returns P m
    → Returns Q m
Returns-mono P Q (returns a) f h = f a h
Returns-mono P Q crashes f h = h
Returns-mono P Q hangs f h = h

pub Ensures-mono {ℓ} :
    {A : Type ℓ} (P Q : A → Type 0) (m : Outcome A)
    → ((a : A) → P a → Q a)
    → Ensures P m
    → Ensures Q m
Ensures-mono P Q (returns a) f h = f a h
Ensures-mono P Q crashes f h = tt
Ensures-mono P Q hangs f h = tt

-- What follows a call holds whatever the call gives.
pub Ensures-bind {ℓ κ} :
    {A : Type ℓ} {B : Type κ} (R : B → Type 0) (m : Outcome A) (f : A → Outcome B)
    → ((a : A) → Ensures R (f a))
    → Ensures R (m >>= f)
Ensures-bind R (returns a) f h = h a
Ensures-bind R crashes f h = tt
Ensures-bind R hangs f h = tt

-- What follows a call, from the equation of its result.
pub Ensures-known {ℓ κ} :
    {A : Type ℓ} {B : Type κ} (R : B → Type 0) (m : Outcome A) (f : A → Outcome B)
    → ((a : A) → m ≡ returns a → Ensures R (f a))
    → Ensures R (m >>= f)
Ensures-known R (returns a) f h = h a refl
Ensures-known R crashes f h = tt
Ensures-known R hangs f h = tt

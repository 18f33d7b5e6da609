-- ===== src/Outcome.antt =====
-- The ways in which a piece of C++ can end. A handler returns its new state, or ends the process by
-- std::exit, throws PipeError, waits for ever on a semaphore, or reads out of range; a loop that
-- spends its fuel is `out_of_fuel`.
use mathlib.Core.Path.{subst}
use secure_e_fax.Prelude.{ℕ, ◌≡◌, ap}

pub data Outcome {ℓ} (A : Type ℓ) : Type ℓ where
  ok : A → Outcome A
  exits : ℕ → Outcome A
  throws : Outcome A
  blocks : Outcome A
  faults : Outcome A
  out_of_fuel : Outcome A

infixl 5 ◌>>=◌
abbrev pub ◌>>=◌ {ℓ κ} : {A : Type ℓ} {B : Type κ} → Outcome A → (A → Outcome B) → Outcome B
ok a >>= f = f a
exits n >>= f = exits n
throws >>= f = throws
blocks >>= f = blocks
faults >>= f = faults
out_of_fuel >>= f = out_of_fuel

-- Every normal end satisfies `P`, and the code neither blocks nor reads out of range.
abbrev pub Safe {ℓ} : {A : Type ℓ} → (A → Type 0) → Outcome A → Type 0
Safe P (ok a) = P a
Safe P (exits n) = Unit
Safe P throws = Unit
Safe P blocks = ⊥
Safe P faults = ⊥
Safe P out_of_fuel = Unit

-- The code returns, and its result satisfies `P`.
abbrev pub Returns {ℓ} : {A : Type ℓ} → (A → Type 0) → Outcome A → Type 0
Returns P (ok a) = P a
Returns P (exits n) = ⊥
Returns P throws = ⊥
Returns P blocks = ⊥
Returns P faults = ⊥
Returns P out_of_fuel = ⊥

pub Safe-bind {ℓ κ} :
    {A : Type ℓ} {B : Type κ} (P : A → Type 0) (Q : B → Type 0) (m : Outcome A) (f : A → Outcome B)
    → Safe P m
    → ((a : A) → P a → Safe Q (f a))
    → Safe Q (m >>= f)
Safe-bind P Q (ok a) f h k = k a h
Safe-bind P Q (exits n) f h k = tt
Safe-bind P Q throws f h k = tt
Safe-bind P Q blocks f h k = absurd h
Safe-bind P Q faults f h k = absurd h
Safe-bind P Q out_of_fuel f h k = tt

abbrev or_else {ℓ} : {A : Type ℓ} → A → Outcome A → A
or_else a (ok b) = b
or_else a _ = a

ok-injective {ℓ} : {A : Type ℓ} {a b : A} → ok a ≡ ok b → a ≡ b
ok-injective {a = a} e = ap (or_else a) e

pub Safe-ok {ℓ} : {A : Type ℓ} (P : A → Type 0) (o : Outcome A) {a : A} → Safe P o → o ≡ ok a → P a
Safe-ok P (ok b) h e = subst P (ok-injective e) h
Safe-ok P (exits n) h e = cc
Safe-ok P throws h e = cc
Safe-ok P blocks h e = cc
Safe-ok P faults h e = cc
Safe-ok P out_of_fuel h e = cc

pub Safe-map {ℓ} :
    {A : Type ℓ} (P Q : A → Type 0) (o : Outcome A) → ((a : A) → P a → Q a) → Safe P o → Safe Q o
Safe-map P Q (ok a) k h = k a h
Safe-map P Q (exits n) k h = tt
Safe-map P Q throws k h = tt
Safe-map P Q blocks k h = h
Safe-map P Q faults k h = h
Safe-map P Q out_of_fuel k h = tt

pub Returns-bind {ℓ κ} :
    {A : Type ℓ} {B : Type κ} (P : A → Type 0) (Q : B → Type 0) (m : Outcome A) (f : A → Outcome B)
    → Returns P m
    → ((a : A) → P a → Returns Q (f a))
    → Returns Q (m >>= f)
Returns-bind P Q (ok a) f h k = k a h
Returns-bind P Q (exits n) f h k = absurd h
Returns-bind P Q throws f h k = absurd h
Returns-bind P Q blocks f h k = absurd h
Returns-bind P Q faults f h k = absurd h
Returns-bind P Q out_of_fuel f h k = absurd h

pub Returns-map {ℓ} :
    {A : Type ℓ} (P Q : A → Type 0) (o : Outcome A)
    → ((a : A) → P a → Q a)
    → Returns P o
    → Returns Q o
Returns-map P Q (ok a) k h = k a h
Returns-map P Q (exits n) k h = h
Returns-map P Q throws k h = h
Returns-map P Q blocks k h = h
Returns-map P Q faults k h = h
Returns-map P Q out_of_fuel k h = h

-- ===== src/Ipc/Holds.antt =====
-- Postconditions of the readers of src/core/ipc.c that also rule out an access outside the buffer.
use free_cli.Base.{
  ℕ, ◌+◌, ◌≤◌, ◌≡◌, List, arith, inl, inr, length, length-drop, leb, leb→le, Bool-cases,
}
use free_cli.Ipc.Wire.{
  Outcome, done, rejected, fault, ◌>>=◌, ◌>>◌, guard, le_value, read_bytes, read_int, read_some,
  read_bytes_safe,
}

-- The outcome is no fault, and what it returns has a property.
abbrev pub Holds {ℓ} : {A : Type ℓ} → (A → Type 0) → Outcome A → Type 0
Holds P (done a) = P a
Holds P rejected = Unit {0}
Holds P fault = ⊥

abbrev pub Any {ℓ} : {A : Type ℓ} → A → Type 0
Any a = Unit {0}

pub Holds-bind {ℓ κ} :
    {A : Type ℓ} {B : Type κ} (P : A → Type 0) (Q : B → Type 0) (m : Outcome A) (f : A → Outcome B)
    → Holds P m
    → ((a : A) → P a → Holds Q (f a))
    → Holds Q (m >>= f)
Holds-bind P Q (done a) f h k = k a h
Holds-bind P Q rejected f h k = tt
Holds-bind P Q fault f h k = absurd h

pub Holds-guard {ℓ} :
    {B : Type ℓ} (Q : B → Type 0) (n m : ℕ) (k : Outcome B)
    → (n ≤ m → Holds Q k)
    → Holds Q (guard (leb n m) >> k)
Holds-guard Q n m k h = elim (Bool-cases (leb n m)) [
  | inl e ↦ rw e (h (leb→le n m e))
  | inr e ↦ rw e tt
]

-- What a reader of `k` bytes leaves.
abbrev pub Leaves {ℓ} : {A : Type ℓ} → ℕ → List ℕ → A × List ℕ → Type 0
Leaves k p r = k + length r.1 ≡ length p

pub read_bytes-Holds : (k : ℕ) (p : List ℕ) → k ≤ length p → Holds (Leaves k p) (read_bytes k p)
read_bytes-Holds k p h = rw (read_bytes_safe k p h) (omega (arith, length-drop k p))

pub read_int-Holds : (k : ℕ) (p : List ℕ) → k ≤ length p → Holds (Leaves k p) (read_int k p)
unfolding read_int
read_int-Holds k p h =
    Holds-bind (Leaves k p) (Leaves k p) (read_bytes k p) (λ r. done (le_value r.0, r.1))
      (read_bytes-Holds k p h) (λ a q. q)

pub read_some-Holds : (k : ℕ) (p : List ℕ) → k ≤ length p → Holds Any (read_some k p)
unfolding read_some
read_some-Holds k p h = rw (read_bytes_safe k p h) tt

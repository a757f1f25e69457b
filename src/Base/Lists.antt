-- ===== src/Base/Lists.antt =====
-- Lists measured and indexed by native numbers, under the library's names.
use Prim.Native.Nat.{ℕ, zero, suc, ◌+◌, ◌-◌, ◌≤◌, ◌<◌, min}
use mathlib.Core.Path.{◌≡◌, refl, ap}
use mathlib.Core.Logic.{◌≢◌}
use mathlib.Core.List.{List, [], ◌∷◌, ◌++◌}
use mathlib.Core.Option.{Option, none, some}
use native.Mathlib.Omega.{arith}

module _ {ℓ} {A : Type ℓ} where
  abbrev pub length : List A → ℕ
  length [] = 0
  length (x ∷ xs) = suc (length xs)

  abbrev pub get_elem? : List A → ℕ → Option A
  get_elem? [] i = none
  get_elem? (x ∷ xs) zero = some x
  get_elem? (x ∷ xs) (suc i) = get_elem? xs i

  -- A write out of bounds changes nothing.
  abbrev pub set : List A → ℕ → A → List A
  set [] i v = []
  set (x ∷ xs) zero v = v ∷ xs
  set (x ∷ xs) (suc i) v = x ∷ set xs i v

  abbrev pub get_or : List A → ℕ → A → A
  get_or [] i d = d
  get_or (x ∷ xs) zero d = x
  get_or (x ∷ xs) (suc i) d = get_or xs i d

  abbrev pub take : ℕ → List A → List A
  take zero xs = []
  take (suc n) [] = []
  take (suc n) (x ∷ xs) = x ∷ take n xs

  abbrev pub drop : ℕ → List A → List A
  drop zero xs = xs
  drop (suc n) [] = []
  drop (suc n) (x ∷ xs) = drop n xs

  abbrev pub replicate : ℕ → A → List A
  replicate zero a = []
  replicate (suc n) a = a ∷ replicate n a

  -- The list without its element at an index.
  abbrev pub remove_at : ℕ → List A → List A
  remove_at i [] = []
  remove_at zero (x ∷ xs) = xs
  remove_at (suc i) (x ∷ xs) = x ∷ remove_at i xs

  abbrev pub All {κ} : (A → Type κ) → List A → Type κ
  All P [] = Unit {κ}
  All P (x ∷ xs) = P x × All P xs

module _ {ℓ} {A : Type ℓ} where
  pub length-append : (xs ys : List A) → length (xs ++ ys) ≡ length xs + length ys
  length-append [] ys = omega arith
  length-append (x ∷ xs) ys = omega (arith, length-append xs ys)

  pub length-take : (n : ℕ) (xs : List A) → length (take n xs) ≡ min n (length xs)
  length-take zero xs = omega arith
  length-take (suc n) [] = omega arith
  length-take (suc n) (x ∷ xs) = omega (arith, length-take n xs)

  pub length-take-le : (n : ℕ) (xs : List A) → length (take n xs) ≤ n
  length-take-le n xs = omega (arith, length-take n xs)

  pub length-drop : (n : ℕ) (xs : List A) → length (drop n xs) ≡ length xs - n
  length-drop zero xs = omega arith
  length-drop (suc n) [] = omega arith
  length-drop (suc n) (x ∷ xs) = omega (arith, length-drop n xs)

  pub length-set : (xs : List A) (i : ℕ) (v : A) → length (set xs i v) ≡ length xs
  length-set [] i v = refl
  length-set (x ∷ xs) zero v = refl
  length-set (x ∷ xs) (suc i) v = ap suc (length-set xs i v)

  pub take_all : (n : ℕ) (xs : List A) → length xs ≤ n → take n xs ≡ xs
  take_all zero [] h = refl
  take_all zero (x ∷ xs) h = absurd (omega arith)
  take_all (suc n) [] h = refl
  take_all (suc n) (x ∷ xs) h = ap (◌∷◌ x) (take_all n xs (omega arith))

  pub take-append : (xs ys : List A) → take (length xs) (xs ++ ys) ≡ xs
  take-append [] ys = refl
  take-append (x ∷ xs) ys = ap (◌∷◌ x) (take-append xs ys)

  pub drop-append : (xs ys : List A) → drop (length xs) (xs ++ ys) ≡ ys
  drop-append [] ys = refl
  drop-append (x ∷ xs) ys = drop-append xs ys

  pub take-append-drop : (n : ℕ) (xs : List A) → take n xs ++ drop n xs ≡ xs
  take-append-drop zero xs = refl
  take-append-drop (suc n) [] = refl
  take-append-drop (suc n) (x ∷ xs) = ap (◌∷◌ x) (take-append-drop n xs)

  pub get_elem?-set_self :
      (xs : List A) (i : ℕ) (v : A) → i < length xs → get_elem? (set xs i v) i ≡ some v
  get_elem?-set_self [] i v h = absurd (omega arith)
  get_elem?-set_self (x ∷ xs) zero v h = refl
  get_elem?-set_self (x ∷ xs) (suc i) v h = get_elem?-set_self xs i v (omega arith)

  pub set-set : (xs : List A) (i : ℕ) (u v : A) → set (set xs i u) i v ≡ set xs i v
  set-set [] i u v = refl
  set-set (x ∷ xs) zero u v = refl
  set-set (x ∷ xs) (suc i) u v = ap (λ t. x ∷ t) (set-set xs i u v)

  pub get_elem?-set_ne :
      (xs : List A) (i j : ℕ) (v : A) → i ≢ j → get_elem? (set xs i v) j ≡ get_elem? xs j
  get_elem?-set_ne [] i j v h = refl
  get_elem?-set_ne (x ∷ xs) zero zero v h = absurd (h refl)
  get_elem?-set_ne (x ∷ xs) zero (suc j) v h = refl
  get_elem?-set_ne (x ∷ xs) (suc i) zero v h = refl
  get_elem?-set_ne (x ∷ xs) (suc i) (suc j) v h = get_elem?-set_ne xs i j v (λ e. h (ap suc e))

-- Writes and shifts in an array whose first elements are in use.
module _ {ℓ} {A : Type ℓ} where
  pub take-set :
      (n : ℕ) (xs : List A) (v : A)
      → n < length xs
      → take (suc n) (set xs n v) ≡ take n xs ++ v ∷ []
  take-set zero [] v h = absurd (omega arith)
  take-set zero (x ∷ xs) v h = refl
  take-set (suc n) [] v h = absurd (omega arith)
  take-set (suc n) (x ∷ xs) v h = ap (◌∷◌ x) (take-set n xs v (omega arith))

  -- for (i; i < i + n; i++) xs[i] = xs[i + 1]
  pub shift_down : ℕ → ℕ → List A → A → List A
  shift_down zero i xs d = xs
  shift_down (suc n) i xs d = shift_down n (suc i) (set xs i (get_or xs (suc i) d)) d

  shift_down-cons :
      (n i : ℕ) (x : A) (xs : List A) (d : A)
      → shift_down n (suc i) (x ∷ xs) d ≡ x ∷ shift_down n i xs d
  unfolding shift_down
  shift_down-cons zero i x xs d = refl
  shift_down-cons (suc n) i x xs d = shift_down-cons n (suc i) x (set xs i (get_or xs (suc i) d)) d

  pub length-shift_down : (n i : ℕ) (xs : List A) (d : A) → length (shift_down n i xs d) ≡ length xs
  unfolding shift_down
  length-shift_down zero i xs d = refl
  length-shift_down (suc n) i xs d = omega (
    arith,
    length-shift_down n (suc i) (set xs i (get_or xs (suc i) d)) d,
    length-set xs i (get_or xs (suc i) d),
  )

  shift_down_front :
      (n : ℕ) (x : A) (xs : List A) (d : A)
      → n ≤ length xs
      → take n (shift_down n 0 (x ∷ xs) d) ≡ take n xs
  unfolding shift_down
  shift_down_front zero x xs d h = refl
  shift_down_front (suc n) x [] d h = absurd (omega arith)
  shift_down_front (suc n) x (y ∷ ys) d h =
      rw (shift_down-cons n 0 y (y ∷ ys) d) (ap (◌∷◌ y) (shift_down_front n y ys d (omega arith)))

  -- The elements in use are those from before, without the one at `i`.
  pub take-shift_down :
      (i n k : ℕ) (xs : List A) (d : A)
      → i + n ≡ k
      → k < length xs
      → take k (shift_down n i xs d) ≡ remove_at i (take (suc k) xs)
  take-shift_down i n k [] d e h = absurd (omega arith)
  take-shift_down zero n k (x ∷ xs) d e h =
      let e' : n ≡ k = omega arith in rw (← e') (shift_down_front n x xs d (omega arith))
  take-shift_down (suc i) n zero (x ∷ xs) d e h = absurd (omega arith)
  take-shift_down (suc i) n (suc k) (x ∷ xs) d e h =
      rw (shift_down-cons n i x xs d)
        (ap (◌∷◌ x) (take-shift_down i n k xs d (omega arith) (omega arith)))

  pub get_elem?-remove_at_lt :
      (i j : ℕ) (xs : List A) → j < i → get_elem? (remove_at i xs) j ≡ get_elem? xs j
  get_elem?-remove_at_lt i j [] h = refl
  get_elem?-remove_at_lt zero j (x ∷ xs) h = absurd (omega arith)
  get_elem?-remove_at_lt (suc i) zero (x ∷ xs) h = refl
  get_elem?-remove_at_lt (suc i) (suc j) (x ∷ xs) h = get_elem?-remove_at_lt i j xs (omega arith)

  pub get_elem?-remove_at_ge :
      (i j : ℕ) (xs : List A) → i ≤ j → get_elem? (remove_at i xs) j ≡ get_elem? xs (suc j)
  get_elem?-remove_at_ge i j [] h = refl
  get_elem?-remove_at_ge zero j (x ∷ xs) h = refl
  get_elem?-remove_at_ge (suc i) zero (x ∷ xs) h = absurd (omega arith)
  get_elem?-remove_at_ge (suc i) (suc j) (x ∷ xs) h = get_elem?-remove_at_ge i j xs (omega arith)

  pub get_elem?-take : (n j : ℕ) (xs : List A) → j < n → get_elem? (take n xs) j ≡ get_elem? xs j
  get_elem?-take zero j xs h = absurd (omega arith)
  get_elem?-take (suc n) j [] h = refl
  get_elem?-take (suc n) zero (x ∷ xs) h = refl
  get_elem?-take (suc n) (suc j) (x ∷ xs) h = get_elem?-take n j xs (omega arith)

  pub All-remove_at {κ} : (P : A → Type κ) (i : ℕ) (xs : List A) → All P xs → All P (remove_at i xs)
  All-remove_at P i [] a = a
  All-remove_at P zero (x ∷ xs) a = a.1
  All-remove_at P (suc i) (x ∷ xs) a = (a.0, All-remove_at P i xs a.1)

  pub All-append {κ} : (P : A → Type κ) (xs ys : List A) → All P xs → All P ys → All P (xs ++ ys)
  All-append P [] ys a b = b
  All-append P (x ∷ xs) ys a b = (a.0, All-append P xs ys a.1 b)

  pub All-map {κ μ} :
      (P : A → Type κ) (Q : A → Type μ) (xs : List A) → ((x : A) → P x → Q x) → All P xs → All Q xs
  All-map P Q [] f a = tt
  All-map P Q (x ∷ xs) f a = (f x a.0, All-map P Q xs f a.1)

  pub All-get_or {κ} :
      (P : A → Type κ) (xs : List A) (i : ℕ) (d : A) → All P xs → P d → P (get_or xs i d)
  All-get_or P [] i d a p = p
  All-get_or P (x ∷ xs) zero d a p = a.0
  All-get_or P (x ∷ xs) (suc i) d a p = All-get_or P xs i d a.1 p

  pub All-set {κ} :
      (P : A → Type κ) (xs : List A) (i : ℕ) (y : A) → All P xs → P y → All P (set xs i y)
  All-set P [] i y a p = tt
  All-set P (x ∷ xs) zero y a p = (p, a.1)
  All-set P (x ∷ xs) (suc i) y a p = (a.0, All-set P xs i y a.1 p)

  pub All-shift_down {κ} :
      (P : A → Type κ) (n i : ℕ) (xs : List A) (d : A)
      → All P xs
      → P d
      → All P (shift_down n i xs d)
  unfolding shift_down
  All-shift_down P zero i xs d a p = a
  All-shift_down P (suc n) i xs d a p =
      All-shift_down P n (suc i) (set xs i (get_or xs (suc i) d)) d
        (All-set P xs i (get_or xs (suc i) d) a (All-get_or P xs (suc i) d a p)) p

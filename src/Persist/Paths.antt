-- ===== src/Persist/Paths.antt =====
-- The paths of src/ui/persist.c: each session has a file of its own, and none is the index.
use free_cli.Base.{
  ℕ, zero, suc, ◌+◌, ◌-◌, ◌*◌, ◌/◌, ◌%◌, ◌^◌, ◌≤◌, ◌<◌, ◌≡◌, ◌≢◌, refl, ap, sym, ◌∙◌, List, [], ◌∷◌,
  ◌++◌, arith, ltb, length, length-append, take, take_all, take-append, drop, drop-append,
  length-take, get_elem?, bytes, Bool-cases, inl, inr,
}
use free_cli.Commands.{digits, decimal}
use free_cli.Persist.{Env, get_data_dir, index_path, session_path}

-- The number that decimal digits stand for, behind those of `acc`.
value_from : ℕ → List ℕ → ℕ
value_from acc [] = acc
value_from acc (c ∷ cs) = value_from (acc * 10 + (c - 48)) cs

value_from-append :
    (acc : ℕ) (xs ys : List ℕ) → value_from acc (xs ++ ys) ≡ value_from (value_from acc xs) ys
unfolding value_from
value_from-append acc [] ys = refl
value_from-append acc (x ∷ xs) ys = value_from-append (acc * 10 + (x - 48)) xs ys

value_from-digits : (fuel n : ℕ) → n < fuel → value_from 0 (digits fuel n) ≡ n
unfolding digits value_from
value_from-digits zero n h = absurd (omega arith)
value_from-digits (suc fuel) n h = elim (Bool-cases (ltb n 10)) [
  | inl small ↦ rw small (omega arith)
  | inr large ↦ rw large (
      value_from-append 0 (digits fuel (n / 10)) ((48 + n % 10) ∷ [])
      ∙ rw (value_from-digits fuel (n / 10) (ground arith)) (omega arith))
]

pub decimal_injective : (m n : ℕ) → decimal m ≡ decimal n → m ≡ n
decimal_injective m n e =
    sym (value_from-digits (suc m) m (omega arith))
    ∙ ap (value_from 0) e
    ∙ value_from-digits (suc n) n (omega arith)

length-digits : (k fuel n : ℕ) → n < 10 ^ suc k → length (digits fuel n) ≤ suc k
unfolding digits
length-digits k zero n h = omega arith
length-digits zero (suc fuel) n h = ground arith
length-digits (suc k) (suc fuel) n h =
    let below : n / 10 < 10 ^ suc k = omega arith in
    ground (
      arith,
      length-digits k fuel (n / 10) below,
      length-append {0} (digits fuel (n / 10)) ((48 + n % 10) ∷ []),
    )

-- Any int has ten digits at most.
length-decimal : (n : ℕ) → n < 2147483648 → length (decimal n) ≤ 10
length-decimal n h = length-digits 9 (suc n) n (omega arith)

length-get_data_dir : (env : Env) → length (get_data_dir env) ≤ 511
unfolding get_data_dir
length-get_data_dir env = omega (arith, length-take {0} 511 _)

length-tail :
    (id : ℕ)
    → length (bytes "/sessions/" ++ (decimal id ++ bytes ".json")) ≡ length (decimal id) + 15
unfolding bytes
length-tail id = omega (
  arith,
  length-append {0} (bytes "/sessions/") (decimal id ++ bytes ".json"),
  length-append {0} (decimal id) (bytes ".json"),
)

-- Every path fits its buffer.
session_path_whole :
    (env : Env) (id : ℕ)
    → id < 2147483648
    → session_path env id
      ≡ get_data_dir env ++ (bytes "/sessions/" ++ (decimal id ++ bytes ".json"))
unfolding session_path
session_path_whole env id h =
    take_all 599 (get_data_dir env ++ (bytes "/sessions/" ++ (decimal id ++ bytes ".json"))) (
      omega (
        arith,
        length-get_data_dir env,
        length-decimal id h,
        length-tail id,
        length-append {0} (get_data_dir env) (bytes "/sessions/" ++ (decimal id ++ bytes ".json")),
      ))

index_path_whole : (env : Env) → index_path env ≡ get_data_dir env ++ bytes "/sessions.json"
unfolding index_path bytes
index_path_whole env = take_all 599 (get_data_dir env ++ bytes "/sessions.json") (
    omega (
      arith,
      length-get_data_dir env,
      length-append {0} (get_data_dir env) (bytes "/sessions.json"),
    ))

append_cancel_left : (xs : List ℕ) {ys zs : List ℕ} → xs ++ ys ≡ xs ++ zs → ys ≡ zs
append_cancel_left xs {ys} {zs} e =
    sym (drop-append xs ys) ∙ ap (drop (length xs)) e ∙ drop-append xs zs

append_cancel_right : (xs ys zs : List ℕ) → xs ++ zs ≡ ys ++ zs → xs ≡ ys
append_cancel_right xs ys zs e =
    let same : length xs ≡ length ys =
      omega (arith, ap length e, length-append xs zs, length-append ys zs) in
    sym (take-append xs zs) ∙ ap (take (length xs)) e ∙ rw same (take-append ys zs)

pub session_path_injective :
    (env : Env) (i j : ℕ)
    → i < 2147483648
    → j < 2147483648
    → session_path env i ≡ session_path env j
    → i ≡ j
session_path_injective env i j h k e = decimal_injective i j (
    append_cancel_right (decimal i) (decimal j) (bytes ".json") (
      append_cancel_left (bytes "/sessions/") (
        append_cancel_left (get_data_dir env)
          (sym (session_path_whole env i h) ∙ e ∙ session_path_whole env j k))))

differ : (id : ℕ) → bytes "/sessions/" ++ (decimal id ++ bytes ".json") ≢ bytes "/sessions.json"
unfolding bytes
differ id e = ground (arith, ap (λ (t : List ℕ). get_elem? t 9) e)

pub session_path-ne-index_path :
    (env : Env) (id : ℕ) → id < 2147483648 → session_path env id ≢ index_path env
session_path-ne-index_path env id h e = differ id (
    append_cancel_left (get_data_dir env)
      (sym (session_path_whole env id h) ∙ e ∙ index_path_whole env))

-- ===== src/Tui/Choices/Bounds.antt =====
-- The scan for options of src/ui/main.c ends, and finds no more of them than fit.
use free_cli.Base.{
  ℕ, zero, suc, ◌+◌, ◌-◌, ◌*◌, ◌%◌, ◌^◌, ◌≤◌, ◌<◌, ◌≡◌, refl, ap, Bool, true, false, ◌&&◌, List, [],
  ◌∷◌, none, some, arith, ltb, leb, ◌==◌, if◌then◌else◌, length, length-append, All, Bool-cases,
  Option-cases, inl, inr, ◌⊎◌,
}
use mathlib.Core.Option
use free_cli.Tui.Choices.{
  max_choices, return, skip_while, is_blank, is_space, is_digit, read_number, after_mark,
  after_label, item_start, item_ends, item_text, is_trimmed, trim_end, newline, next_line,
  scan_item, scan_choices, detect_choices,
}

guarded : (b : Bool) (x y : List ℕ) → (if b then some x else none) ≡ some y → x ≡ y
guarded true x y e = Option.some-injective x y e
guarded false x y e = cc

length-skip_while : (test : ℕ → Bool) (cs : List ℕ) → length (skip_while test cs) ≤ length cs
unfolding skip_while
length-skip_while test [] = omega arith
length-skip_while test (c ∷ cs) = ground (arith, length-skip_while test cs)

length-read_number : (num count : ℕ) (cs : List ℕ) → length (read_number num count cs).2 ≤ length cs
unfolding read_number
length-read_number num count [] = omega arith
length-read_number num count (c ∷ cs) = elim (Bool-cases (is_digit c)) [
  | inl e ↦
      rw e (omega (arith, length-read_number ((num * 10 + (c - b'0')) % 2 ^ 32) (count + 1) cs))
  | inr e ↦ rw e (omega arith)
]

length-next_line : (c : ℕ) (cs : List ℕ) → length (next_line (c ∷ cs)) ≤ length cs
unfolding next_line
length-next_line c [] = ground arith
length-next_line c (d ∷ cs) = ground (arith, length-next_line d cs)

length-after_mark : (q rest : List ℕ) → after_mark q ≡ some rest → length rest + 2 ≤ length q
unfolding after_mark
length-after_mark [] rest e = cc
length-after_mark (c ∷ []) rest e = cc
length-after_mark (c ∷ d ∷ cs) rest e = omega (arith, ap length (guarded _ cs rest e))

length-after_label :
    (letters : Bool) (expected : ℕ) (t q : List ℕ)
    → after_label letters expected t ≡ some q
    → length q ≤ length t
unfolding after_label
length-after_label false expected t q e =
    omega (arith, length-read_number 0 0 t, ap length (guarded _ _ q e))
length-after_label true expected [] q e = cc
length-after_label true expected (c ∷ cs) q e = omega (arith, ap length (guarded _ cs q e))

length-item_text :
    (letters : Bool) (expected : ℕ) (cs : List ℕ)
    → length (item_text letters expected cs).0 + length (item_text letters expected cs).1
      ≡ length cs
unfolding item_text
length-item_text letters expected [] = omega arith
length-item_text letters expected (c ∷ cs) =
    elim (Bool-cases (c == newline && item_ends letters expected cs)) [
      | inl f ↦ rw f (omega arith)
      | inr f ↦ rw f (omega (arith, length-item_text letters expected cs))
    ]

length-trim_end : (cs : List ℕ) → length (trim_end cs).0 + length (trim_end cs).1 ≡ length cs
unfolding trim_end
length-trim_end [] = omega arith
length-trim_end (c ∷ cs) = elim (Bool-cases (length (trim_end cs).0 == 0 && is_trimmed c)) [
  | inl f ↦ rw f (ground (arith, length-trim_end cs))
  | inr f ↦ rw f (omega (arith, length-trim_end cs))
]

length-item_start :
    (letters : Bool) (expected : ℕ) (t start : List ℕ)
    → item_start letters expected t ≡ some start
    → length start + 2 ≤ length t
unfolding item_start
length-item_start letters expected t start e =
    elim (Option-cases (after_label letters expected t)) [
      | inl f ↦ cc (rw f at e)
      | inr (q, f) ↦ (elim (Option-cases (after_mark q)) [
        | inl g ↦ cc (rw (f, g) at e)
        | inr (rest, g) ↦
            let same = Option.some-injective (skip_while is_space rest) start (rw (f, g) at e) in
            omega (
              arith,
              length-after_label letters expected t q f,
              length-after_mark q rest g,
              length-skip_while is_space rest,
              ap length same,
            )
      ])
    ]

-- Each turn of the loop moves the pointer.
length-scan_item :
    (letters : Bool) (expected c : ℕ) (cs : List ℕ)
    → length (scan_item letters expected (c ∷ cs)).1 ≤ length cs
unfolding scan_item
length-scan_item letters expected c cs =
    let t = skip_while is_blank (skip_while (λ b. b == return) (c ∷ cs)) in
    elim (Option-cases (item_start letters expected t)) [
      | inl e ↦ rw (e, scan_item) (length-next_line c cs)
      | inr (start, e) ↦
          rw (e, scan_item)
            (omega (
              arith,
              length-append {0} (trim_end (item_text letters expected start).0).1
                  (item_text letters expected start).1,
              length-trim_end (item_text letters expected start).0,
              length-item_text letters expected start,
              length-item_start letters expected t start e,
              length-skip_while is_blank (skip_while (λ b. b == return) (c ∷ cs)),
              length-skip_while (λ b. b == return) (c ∷ cs),
            ))
    ]

abbrev pub NonEmpty : List ℕ → Type 0
NonEmpty s = 0 < length s

scan_choices_bounds :
    (fuel : ℕ) (letters : Bool) (expected n : ℕ) (scan : List ℕ)
    → length scan ≤ fuel
    → n ≤ max_choices
    → (items : List (List ℕ)) × (scan_choices fuel letters expected n scan ≡ some items)
      × (n + length items ≤ max_choices)
      × All NonEmpty items
unfolding scan_choices
scan_choices_bounds zero letters expected n [] h k = ([], refl, omega arith, tt)
scan_choices_bounds (suc fuel) letters expected n [] h k = ([], refl, omega arith, tt)
scan_choices_bounds zero letters expected n (c ∷ cs) h k = absurd (omega arith)
scan_choices_bounds (suc fuel) letters expected n (c ∷ cs) h k =
    let item = (scan_item letters expected (c ∷ cs)).0 in
    let scan = (scan_item letters expected (c ∷ cs)).1 in
    let shorter : length scan ≤ fuel = omega (arith, length-scan_item letters expected c cs) in
    elim (Bool-cases (leb max_choices n)) [
      | inl full ↦ ([], rw full refl, omega arith, tt)
      | inr room ↦ (elim (Bool-cases (length item == 0)) [
        | inl empty ↦
            let (items, e, few, all) = scan_choices_bounds fuel letters expected n scan shorter k in
            (items, rw (room, empty) e, few, all)
        | inr found ↦
            let (items, e, few, all) =
              scan_choices_bounds fuel letters (expected + 1) (n + 1) scan shorter (ground arith) in
            (item ∷ items, rw (room, found, e) refl, omega arith, (ground arith, all))
      ])
    ]

-- On every text, with a number that is too large for an int taken modulo 2^32, the search for
-- choices ends, with none or with 2 to 8 choices, none of which is empty.
pub detect_choices_bounds :
    (text : List ℕ)
    → (items : List (List ℕ)) × (detect_choices text ≡ some items)
      × ((length items ≡ 0) ⊎ ((2 ≤ length items) × (length items ≤ max_choices)))
      × All NonEmpty items
unfolding detect_choices
detect_choices_bounds text =
    let (numbered, e, few, all) =
      scan_choices_bounds (length text) false 1 0 text (omega arith) (omega arith) in
    let (lettered, f, few', all') =
      scan_choices_bounds (length text) true 0 0 text (omega arith) (omega arith) in
    elim (Bool-cases (ltb (length numbered) 2)) [
      | inr enough ↦ (numbered, rw (e, enough) refl, inr (ground arith, omega arith), all)
      | inl one ↦ (elim (Bool-cases (ltb (length lettered) 2)) [
        | inl none_found ↦ ([], rw (e, one, f, none_found) refl, inl refl, tt)
        | inr enough ↦
            (lettered, rw (e, one, f, enough) refl, inr (ground arith, omega arith), all')
      ])
    ]

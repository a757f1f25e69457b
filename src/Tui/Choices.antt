-- ===== src/Tui/Choices.antt =====
-- The options that a reply offers (detect_choices of src/ui/main.c). A pointer is the list of the
-- bytes from it on; the int that holds a number of the text wraps around after 2 ^ 32 (as its residue;
-- it is only compared with small numbers).
pub mod Bounds
use free_cli.Base.{
  ℕ, zero, suc, ◌+◌, ◌-◌, ◌*◌, ◌%◌, ◌^◌, Bool, true, false, not, ◌&&◌, ◌||◌, List, [], ◌∷◌, ◌++◌,
  Option, none, some, ltb, leb, ◌==◌, if◌then◌else◌, length,
}
use mathlib.Core.List.{reverse}
use free_cli.Fs.{bind}

abbrev pub max_choices : ℕ
max_choices = 8

abbrev pub newline : ℕ
newline = 10

abbrev pub return : ℕ
return = 13

-- `while (test(*p)) p++`
unfoldable pub skip_while : (ℕ → Bool) → List ℕ → List ℕ
skip_while test [] = []
skip_while test (c ∷ cs) = let rest = skip_while test cs in if test c then rest else c ∷ cs

abbrev pub is_blank : ℕ → Bool
is_blank c = c == b' ' || c == b'\t'

abbrev pub is_space : ℕ → Bool
is_space c = c == b' '

abbrev pub is_digit : ℕ → Bool
is_digit c = leb b'0' c && leb c b'9'

-- The digits from a pointer on: their number's value behind `num`, in 32 bits, how many, and what follows.
unfoldable pub read_number : ℕ → ℕ → List ℕ → ℕ × ℕ × List ℕ
read_number num count [] = (num, count, [])
read_number num count (c ∷ cs) =
    let rest = read_number ((num * 10 + (c - b'0')) % 2 ^ 32) (count + 1) cs in
    if is_digit c then rest else (num, count, c ∷ cs)

abbrev pub is_mark : ℕ → Bool
is_mark c = c == b'.' || c == b')'

-- `(*q == '.' || *q == ')') && (q[1] == ' ' || q[1] == '\t')`, and what stands behind.
unfoldable pub after_mark : List ℕ → Option (List ℕ)
after_mark [] = none
after_mark (c ∷ []) = none
after_mark (c ∷ d ∷ cs) = if is_mark c && is_blank d then some cs else none

unfoldable pub starts_mark : List ℕ → Bool
starts_mark [] = false
starts_mark (c ∷ cs) = is_mark c

-- What follows the bullet's number or letter, if it is the one that is expected.
unfoldable pub after_label : Bool → ℕ → List ℕ → Option (List ℕ)
after_label false expected t =
    let (num, count, q) = read_number 0 0 t in
    if num == expected && ltb 0 count then some q else none
after_label true expected [] = none
after_label true expected (c ∷ cs) =
    if c == b'A' + expected || c == b'A' + expected + 32 then some cs else none

-- The text behind a bullet.
unfoldable pub item_start : Bool → ℕ → List ℕ → Option (List ℕ)
item_start use_letters expected t =
    bind (after_label use_letters expected t)
      (λ q. bind (after_mark q) (λ rest. some (skip_while is_space rest)))

unfoldable pub ends_block : List ℕ → Bool
ends_block [] = true
ends_block (c ∷ cs) = c == newline || c == return

unfoldable pub is_bullet : Bool → ℕ → List ℕ → Bool
is_bullet use_letters expected t = elim (after_label use_letters expected t) [
  | none ↦ false
  | some q ↦ starts_mark q
]

-- Whether the item ends at this newline, given what follows it.
unfoldable pub item_ends : Bool → ℕ → List ℕ → Bool
item_ends use_letters expected cs =
    let t = skip_while is_blank cs in ends_block t || is_bullet use_letters (expected + 1) t

-- The bytes up to the item's end, and those from there on.
unfoldable pub item_text : Bool → ℕ → List ℕ → List ℕ × List ℕ
item_text use_letters expected [] = ([], [])
item_text use_letters expected (c ∷ cs) =
    let rest = item_text use_letters expected cs in
    if c == newline && item_ends use_letters expected cs then ([], c ∷ cs) else (c ∷ rest.0, rest.1)

abbrev pub is_trimmed : ℕ → Bool
is_trimmed c = c == newline || (c == b' ' || c == return)

-- A text with no blank at its end, and those that were there.
unfoldable pub trim_end : List ℕ → List ℕ × List ℕ
trim_end [] = ([], [])
trim_end (c ∷ cs) =
    let (kept, blanks) = trim_end cs in
    if length kept == 0 && is_trimmed c then ([], c ∷ blanks) else (c ∷ kept, blanks)

-- `while (*scan && *scan != '\n') scan++; if (*scan == '\n') scan++`
unfoldable pub next_line : List ℕ → List ℕ
next_line [] = []
next_line (c ∷ cs) = let rest = next_line cs in if c == newline then cs else rest

-- The item at a pointer and the next value of `scan`; the item is empty where there is none.
unfoldable pub scan_item : Bool → ℕ → List ℕ → List ℕ × List ℕ
scan_item use_letters expected scan =
    elim (item_start use_letters expected
      (skip_while is_blank (skip_while (λ c. c == return) scan))) [
        | none ↦ ([], next_line scan)
        | some start ↦
            let (text, rest) = item_text use_letters expected start in
            let (kept, blanks) = trim_end text in (kept, blanks ++ rest)
      ]

-- The loop of one pass, behind n choices; `none` means that the fuel ran out.
unfoldable pub scan_choices : ℕ → Bool → ℕ → ℕ → List ℕ → Option (List (List ℕ))
scan_choices fuel use_letters expected n [] = some []
scan_choices zero use_letters expected n (c ∷ cs) = none
scan_choices (suc fuel) use_letters expected n (c ∷ cs) =
    let (item, scan) = scan_item use_letters expected (c ∷ cs) in
    let skipped = scan_choices fuel use_letters expected n scan in
    let found = scan_choices fuel use_letters (expected + 1) (n + 1) scan in
    if leb max_choices n
    then some []
    else if length item == 0
    then skipped
    else bind found (λ items. some (item ∷ items))

-- The choices of a text, the letters only where there are no two numbers; none if fewer than two.
unfoldable pub detect_choices : List ℕ → Option (List (List ℕ))
detect_choices text =
    let fuel = length text in
    bind (scan_choices fuel false 1 0 text) (λ numbered.
      if ltb (length numbered) 2
      then bind (scan_choices fuel true 0 0 text)
          (λ lettered. some (if ltb (length lettered) 2 then [] else lettered))
      else some numbered)

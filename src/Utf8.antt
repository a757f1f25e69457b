-- ===== src/Utf8.antt =====
-- Word wrap over UTF-8 text (src/core/utf8.c). A pointer into a text is the list of the bytes from
-- it to the terminator, which is not in the list; offsets are counted from the text's start.
pub mod Chars
pub mod Wrap
pub mod Rows
pub mod Truncated
pub mod Steps
use Prim.Native.Nat.{bit_and, bit_or, ◌^◌}
use mathlib.Core.Option
use free_cli.Base.{
  ℕ, zero, suc, ◌+◌, ◌-◌, ◌*◌, ◌≤◌, Bool, true, false, ◌&&◌, ◌||◌, List, [], ◌∷◌, Option, none,
  some, ltb, leb, ◌==◌, if◌then◌else◌, length, drop,
}

-- utf8_clen of the byte that a pointer points at; the terminator counts as one.
unfoldable pub utf8_clen : ℕ → ℕ
utf8_clen c = if ltb c 0xC0 then 1 else if ltb c 0xE0 then 2 else if ltb c 0xF0 then 3 else 4

-- s[i]: the terminator stands behind the last byte, and nothing behind that may be read.
unfoldable pub byte_at : List ℕ → ℕ → Option ℕ
byte_at [] zero = some 0
byte_at [] (suc i) = none
byte_at (b ∷ bs) zero = some b
byte_at (b ∷ bs) (suc i) = byte_at bs i

-- The code points that take two columns.
unfoldable pub is_wide : ℕ → Bool
is_wide cp =
    (leb 0x1100 cp && leb cp 0x115F)
    || ((leb 0x2E80 cp && leb cp 0x303E)
        || ((leb 0x3040 cp && leb cp 0xA4CF)
            || ((leb 0xAC00 cp && leb cp 0xD7A3)
                || ((leb 0xF900 cp && leb cp 0xFAFF)
                    || ((leb 0xFF01 cp && leb cp 0xFF60) || (leb 0xFFE0 cp && leb cp 0xFFE6))))))

unfoldable pub code_point : ℕ → ℕ → ℕ → ℕ
code_point c s1 s2 =
    bit_or (bit_or (bit_and c 0x0F * 2 ^ 12) (bit_and s1 0x3F * 2 ^ 6)) (bit_and s2 0x3F)

-- The columns of a three-byte character, whose bytes are read unchecked.
unfoldable pub wide_or_not : ℕ → Option ℕ → Option ℕ → Option ℕ
wide_or_not c (some s1) (some s2) = some (if is_wide (code_point c s1 s2) then 2 else 1)
wide_or_not c (some s1) none = none
wide_or_not c none s2 = none

-- `none` is a read behind the terminator.
unfoldable pub utf8_cwidth : List ℕ → Option ℕ
utf8_cwidth [] = some 1
utf8_cwidth (c ∷ cs) =
    if ltb c 0xE0
    then some 1
    else if ltb c 0xF0
    then wide_or_not c (byte_at (c ∷ cs) 1) (byte_at (c ∷ cs) 2)
    else some 2

-- `while (*last_space == ' ' || *last_space == '\t') last_space++`, as a number of bytes.
unfoldable pub blanks : List ℕ → ℕ
blanks [] = 0
blanks (c ∷ cs) = if c == b' ' || c == 0x09 then suc (blanks cs) else 0

-- last_end and last_space.
pub record Break : Type 0 where
  pub end : ℕ
  pub next : ℕ

pub record Scan : Type 0 where
  pub p : List ℕ
  pub pos : ℕ
  pub col : ℕ
  pub last : Option Break

-- The return value and *next_p as offsets; `overrun` is an access behind the terminator.
pub data Wrapped : Type 0 where
  line : ℕ → ℕ → Wrapped
  overrun : Wrapped
  out_of_fuel : Wrapped

pub data Step : Type 0 where
  stop : Wrapped → Step
  go : Scan → Step

-- p + n, which must not pass the terminator.
unfoldable pub advance : ℕ → List ℕ → Option (List ℕ)
advance n p = if leb n (length p) then some (drop n p) else none

-- The break point, if the blank at `pos` is one.
unfoldable pub note_blank : ℕ → List ℕ → ℕ → ℕ → Option Break → Option Break
note_blank c rest pos col last =
    if (c == b' ' || c == 0x09) && ltb 0 col
    then some (record { end = pos; next = pos + 1 + blanks rest })
    else last

unfoldable pub break_line : ℕ → Option Break → Wrapped
break_line pos none = line pos pos
break_line pos (some b) = line b.end b.next

unfoldable pub move : ℕ → ℕ → Scan → Option (List ℕ) → Option Break → Step
move clen cw s none last = stop overrun
move clen cw s (some rest) last =
    go (record { p = rest; pos = s.pos + clen; col = s.col + cw; last = last })

-- The loop's body for a character of `cw` columns.
unfoldable pub wrap_char : ℕ → ℕ → List ℕ → Scan → Option ℕ → Step
wrap_char avail c cs s none = stop overrun
wrap_char avail c cs s (some cw) =
    if ltb avail (s.col + cw)
    then stop (break_line s.pos s.last)
    else move (utf8_clen c) cw s (advance (utf8_clen c) (c ∷ cs))
        (note_blank c cs s.pos s.col s.last)

unfoldable pub wrap_step : ℕ → Scan → List ℕ → Step
wrap_step avail s [] = stop (line s.pos s.pos)
wrap_step avail s (c ∷ cs) =
    if c == 0x0A
    then stop (line s.pos (s.pos + 1))
    else wrap_char avail c cs s (utf8_cwidth (c ∷ cs))

unfoldable pub wrap_loop : ℕ → ℕ → Scan → Wrapped
wrap_loop zero avail s = out_of_fuel
wrap_loop (suc fuel) avail s = elim (wrap_step avail s s.p) [
  | stop w ↦ w
  | go s' ↦ wrap_loop fuel avail s'
]

-- The columns of a line that starts at `x_start`; x_start and width are not negative.
abbrev pub available : ℕ → ℕ → ℕ
available x_start width = if ltb (width - x_start) 1 then 1 else width - x_start

unfoldable pub wrap_line_end : List ℕ → ℕ → ℕ → Wrapped
wrap_line_end text x_start width =
    wrap_loop (suc (length text)) (available x_start width)
      (record { p = text; pos = 0; col = 0; last = none })

-- The loop of count_rows; `none` if the fuel runs out or a line cannot be ended.
unfoldable pub count_loop : ℕ → List ℕ → ℕ → ℕ → ℕ → ℕ → Option ℕ
count_loop fuel [] x indent width rows = some rows
count_loop zero (c ∷ cs) x indent width rows = none
count_loop (suc fuel) (c ∷ cs) x indent width rows = elim (wrap_line_end (c ∷ cs) x width) [
  | line end next ↦ count_loop fuel (drop next (c ∷ cs)) indent indent width (rows + 1)
  | overrun ↦ none
  | out_of_fuel ↦ none
]

unfoldable pub count_rows : ℕ → List ℕ → ℕ → ℕ → ℕ → Option ℕ
count_rows fuel text x_start indent width =
    Option.map (λ rows. if ltb 0 rows then rows else 1)
      (count_loop fuel text x_start indent width 0)

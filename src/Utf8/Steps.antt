-- ===== src/Utf8/Steps.antt =====
-- One step of wrap_line_end on a text of whole characters (src/core/utf8.c).
use free_cli.Base.{
  ℕ, ◌+◌, ◌≤◌, ◌<◌, ◌≡◌, refl, ap, true, false, ◌&&◌, ◌||◌, List, [], ◌∷◌, ◌++◌, Option, none, some,
  arith, ◌⊎◌, inl, inr, ltb, ◌==◌, length, All, Bool-cases,
}
use free_cli.Utf8.{
  utf8_clen, Break, Scan, Wrapped, line, stop, go, note_blank, break_line, move, wrap_char,
  wrap_step,
}
use free_cli.Utf8.Chars.{
  IsChar, bytes_of, width_of, columns, IsBlank, utf8_cwidth-char, advance-char, long_blank,
  IsBlank-char, blanks_split, no_bytes,
}

-- What may be skipped between a line and the next: blanks, or one newline.
abbrev pub IsGap : List (List ℕ) → Type 0
IsGap m = All IsBlank m ⊎ (m ≡ (0x0A ∷ []) ∷ [])

-- The offsets cut the text into a line that fits, a gap, and the text of the next lines.
abbrev pub Breaks : List (List ℕ) → ℕ → ℕ → ℕ → Type 0
Breaks text avail end next =
    (l m r : List (List ℕ)) × (text ≡ l ++ (m ++ r))
    × (end ≡ length (bytes_of l))
    × (next ≡ end + length (bytes_of m))
    × (columns l ≤ avail)
    × IsGap m

abbrev pub LastBreaks : List (List ℕ) → ℕ → Option Break → Type 0
LastBreaks text avail none = Unit {0}
LastBreaks text avail (some b) = Breaks text avail b.end b.next × (0 < b.next)

-- No character is left, or the next one is too wide for an empty line.
abbrev pub NoneFits : ℕ → List (List ℕ) → Type 0
NoneFits avail [] = Unit {0}
NoneFits avail (c ∷ cs) = avail < width_of c

-- The loop's result after `done` with `rest` to come.
abbrev pub Result : ℕ → List (List ℕ) → List (List ℕ) → Wrapped → Type 0
Result avail before rest w =
    (end next : ℕ) × (w ≡ line end next)
    × Breaks (before ++ rest) avail end next
    × (next ≡ 0 → (before ≡ []) × NoneFits avail rest)

abbrev pub scan_at : List (List ℕ) → List (List ℕ) → Option Break → Scan
scan_at before rest last = record {
  p = bytes_of rest;
  pos = length (bytes_of before);
  col = columns before;
  last = last;
}

pub break_line-Result :
    (avail : ℕ) (before : List (List ℕ)) (c : List ℕ) (cs : List (List ℕ)) (last : Option Break)
    → IsChar c
    → columns before ≤ avail
    → All IsChar before
    → avail < columns before + width_of c
    → LastBreaks (before ++ c ∷ cs) avail last
    → Result avail before (c ∷ cs) (break_line (length (bytes_of before)) last)
unfolding break_line
break_line-Result avail before c cs none h k a w lb = (
  length (bytes_of before),
  length (bytes_of before),
  refl,
  (before, [], c ∷ cs, refl, refl, omega arith, k, inl tt),
  λ z. let e = no_bytes before a z in (e, omega (arith, ap columns e)),
)
break_line-Result avail before c cs (some b) h k a w lb =
    (b.end, b.next, refl, lb.0, λ z. absurd (omega arith))

-- A character that is one blank, at a column after the first, becomes the last break.
pub note_blank-LastBreaks :
    (avail b : ℕ) (t : List ℕ) (before cs : List (List ℕ)) (last : Option Break)
    → IsChar (b ∷ t)
    → All IsChar cs
    → columns before ≤ avail
    → LastBreaks (before ++ (b ∷ t) ∷ cs) avail last
    → LastBreaks
        (before ++ (b ∷ t) ∷ cs)
        avail
        (note_blank b (t ++ bytes_of cs) (length (bytes_of before)) (columns before) last)
unfolding note_blank
note_blank-LastBreaks avail b [] before cs last h a k lb =
    elim (Bool-cases ((b == b' ' || b == 0x09) && ltb 0 (columns before))) [
      | inl e ↦
          let (m, r, p, q, s) = blanks_split cs a in
          rw e (
            (
              before,
              (b ∷ []) ∷ m,
              r,
              ap (λ x. before ++ (b ∷ []) ∷ x) p,
              refl,
              rw q (omega arith),
              k,
              inl (IsBlank-char b [] h (ground arith), s),
            ),
            omega arith,
          )
      | inr e ↦ rw e lb
    ]
note_blank-LastBreaks avail b (x ∷ t) before cs last h a k lb =
    elim (Bool-cases ((b == b' ' || b == 0x09) && ltb 0 (columns before))) [
      | inl e ↦ absurd (long_blank b x t h (ground arith))
      | inr e ↦ rw e lb
    ]

-- One round on a character that fits.
pub wrap_step-go :
    (avail b : ℕ) (t rest : List ℕ) (pos col : ℕ) (last : Option Break)
    → IsChar (b ∷ t)
    → (b == 0x0A) ≡ false
    → ltb avail (col + width_of (b ∷ t)) ≡ false
    → wrap_step avail
        (record { p = b ∷ (t ++ rest); pos = pos; col = col; last = last })
        (b ∷ (t ++ rest))
      ≡ go (record {
        p = rest;
        pos = pos + length (b ∷ t);
        col = col + width_of (b ∷ t);
        last = note_blank b (t ++ rest) pos col last;
      })
unfolding wrap_step wrap_char move
wrap_step-go avail b t rest pos col last h n f =
    rw (n, (utf8_cwidth-char (b ∷ t) rest h).0, f, advance-char b t rest h, ← h)

pub wrap_step-stop :
    (avail b : ℕ) (t rest : List ℕ) (pos col : ℕ) (last : Option Break)
    → IsChar (b ∷ t)
    → (b == 0x0A) ≡ false
    → ltb avail (col + width_of (b ∷ t)) ≡ true
    → wrap_step avail
        (record { p = b ∷ (t ++ rest); pos = pos; col = col; last = last })
        (b ∷ (t ++ rest))
      ≡ stop (break_line pos last)
unfolding wrap_step wrap_char
wrap_step-stop avail b t rest pos col last h n f = rw (n, (utf8_cwidth-char (b ∷ t) rest h).0, f)

-- The newline ends the line and is the gap.
pub newline-Result :
    (avail x : ℕ) (before cs : List (List ℕ)) (t : List ℕ)
    → x ≡ 0x0A
    → IsChar (x ∷ t)
    → columns before ≤ avail
    → Result avail before
        ((x ∷ t) ∷ cs)
        (line (length (bytes_of before)) (length (bytes_of before) + 1))
unfolding utf8_clen
newline-Result avail x before cs [] e h k = (
  length (bytes_of before),
  length (bytes_of before) + 1,
  refl,
  (before, (x ∷ []) ∷ [], cs, refl, refl, refl, k, inr (ap (λ (y : ℕ). (y ∷ []) ∷ []) e)),
  λ z. absurd (omega arith),
)
newline-Result avail x before cs (y ∷ t) e h k = absurd (ground arith)

pub wrap_step-newline :
    (avail x : ℕ) (s : Scan) (xs : List ℕ)
    → (x == 0x0A) ≡ true
    → wrap_step avail s (x ∷ xs) ≡ stop (line s.pos (s.pos + 1))
unfolding wrap_step
wrap_step-newline avail x s xs e = rw e

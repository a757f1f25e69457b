-- ===== src/Utf8/Rows.antt =====
-- count_rows of src/core/utf8.c: when it ends, and when it does not.
use free_cli.Base.{
  ℕ, zero, suc, ◌+◌, ◌≤◌, ◌<◌, ◌≡◌, refl, ap, sym, ◌∙◌, false, List, [], ◌∷◌, ◌++◌, Option, none,
  some, arith, ltb, ◌==◌, if◌then◌else◌, length, drop, drop-append, length-append, append_assoc,
  All, lt→ltb,
}
use free_cli.Utf8.{line, wrap_line_end, available, count_loop, count_rows, break_line}
use free_cli.Utf8.Chars.{
  IsChar, bytes_of, width_of, length-bytes_of, bytes_of-append, utf8_cwidth-char,
}
use free_cli.Utf8.Wrap.{wrap_line_end-Breaks, wrap_loop-stop}
use free_cli.Utf8.Steps.{NoneFits, wrap_step-stop}

All-tail : (xs ys : List (List ℕ)) → All IsChar (xs ++ ys) → All IsChar ys
All-tail [] ys h = h
All-tail (x ∷ xs) ys h = All-tail xs ys h.1

-- The text of the next lines, with fewer characters if there was progress.
rest_of_text :
    (l m r : List (List ℕ)) (text : List (List ℕ)) (next : ℕ)
    → All IsChar text
    → text ≡ l ++ (m ++ r)
    → next ≡ length (bytes_of l) + length (bytes_of m)
    → 0 < next
    → (drop next (bytes_of text) ≡ bytes_of r) × (length r < length text) × All IsChar r
rest_of_text l m r text next h e n p =
    let front = l ++ m in
    let whole : text ≡ front ++ r = e ∙ sym (append_assoc l m r) in
    let size : length (bytes_of front) ≡ next = omega (arith, length-bytes_of l m) in
    (
      rw (whole, bytes_of-append front r, ← size) (drop-append (bytes_of front) (bytes_of r)),
      shorter front size whole,
      All-tail front r (rw whole at h),
    )
  where
    shorter :
        (f : List (List ℕ)) → length (bytes_of f) ≡ next → text ≡ f ++ r → length r < length text
    shorter [] s w = absurd (omega arith)
    shorter (c ∷ f) s w = omega (arith, ap length w, length-append f r)

positive : (n : ℕ) → (n ≡ 0 → ⊥) → 0 < n
positive zero h = absurd (h refl)
positive (suc n) h = omega arith

some_char_fits :
    (avail : ℕ) (b : ℕ) (t : List ℕ) (cs : List (List ℕ))
    → IsChar (b ∷ t)
    → 2 ≤ avail
    → NoneFits avail ((b ∷ t) ∷ cs)
    → ⊥
some_char_fits avail b t cs h a n = omega (arith, (utf8_cwidth-char (b ∷ t) [] h).2)

count_step :
    (fuel c : ℕ) (cs : List ℕ) (x indent width rows end next : ℕ)
    → wrap_line_end (c ∷ cs) x width ≡ line end next
    → count_loop (suc fuel) (c ∷ cs) x indent width rows
      ≡ count_loop fuel (drop next (c ∷ cs)) indent indent width (rows + 1)
unfolding count_loop
count_step fuel c cs x indent width rows end next e = rw (e, count_loop)

-- From `rows` on the loop ends with at most one more row for each character.
abbrev Ends : List (List ℕ) → ℕ → Option ℕ → Type 0
Ends text rows r = (n : ℕ) × (r ≡ some n) × (rows ≤ n) × (n ≤ rows + length text)

count_loop-Ends :
    (fuel : ℕ) (text : List (List ℕ)) (x indent width rows : ℕ)
    → length text < fuel
    → All IsChar text
    → x + 2 ≤ width
    → indent + 2 ≤ width
    → Ends text rows (count_loop fuel (bytes_of text) x indent width rows)
count_loop-Ends zero text x indent width rows f h wx wi = absurd (omega arith)
count_loop-Ends (suc fuel) [] x indent width rows f h wx wi =
    unfold count_loop in (rows, refl, omega arith, omega arith)
count_loop-Ends (suc fuel) ([] ∷ cs) x indent width rows f h wx wi = absurd h.0
count_loop-Ends (suc fuel) ((b ∷ t) ∷ cs) x indent width rows f h wx wi =
    let text = (b ∷ t) ∷ cs in
    let (end, next, e, (l, m, r, q, p, n, k, g), z) = wrap_line_end-Breaks text x width h in
    let more : 0 < next =
      positive next (λ y. some_char_fits (available x width) b t cs h.0 (ground arith) (z y)) in
    let (d, s, a) = rest_of_text l m r text next h q (omega arith) more in
    let (rs, o, lo, hi) =
      count_loop-Ends fuel r indent indent width (rows + 1) (omega arith) a wi wi in
    (
      rs,
      count_step fuel b (t ++ bytes_of cs) x indent width rows end next e
          ∙ ap (λ y. count_loop fuel y indent indent width (rows + 1)) d
          ∙ o,
      omega arith,
      omega arith,
    )

-- Where a line of text and a continuation line are two columns wide at least, count_rows ends on
-- whole characters, with more fuel than there are characters, with a number between 1 and the
-- number of characters (or 1 for none).
pub count_rows_total :
    (fuel : ℕ) (text : List (List ℕ)) (x_start indent width : ℕ)
    → All IsChar text
    → x_start + 2 ≤ width
    → indent + 2 ≤ width
    → length text < fuel
    → (rows : ℕ) × (count_rows fuel (bytes_of text) x_start indent width ≡ some rows)
      × (1 ≤ rows)
      × (rows ≤ length text + 1)
unfolding count_rows
count_rows_total fuel text x_start indent width h wx wi f =
    let (n, e, lo, hi) = count_loop-Ends fuel text x_start indent width 0 f h wx wi in
    (if ltb 0 n then n else 1, rw e, ground arith, ground arith)

-- A line with room for one column only cannot take a first character of two.
wide_first :
    (b : ℕ) (t : List ℕ) (cs : List (List ℕ)) (x width : ℕ)
    → IsChar (b ∷ t)
    → (b == 0x0A) ≡ false
    → width_of (b ∷ t) ≡ 2
    → width ≤ x + 1
    → wrap_line_end (bytes_of ((b ∷ t) ∷ cs)) x width ≡ line 0 0
unfolding wrap_line_end break_line
wide_first b t cs x width h n w room = wrap_loop-stop _ (available x width) _ _ (
    wrap_step-stop (available x width) b t (bytes_of cs) 0 0 none h n
      (lt→ltb (available x width) (0 + width_of (b ∷ t)) (ground arith)))

-- With one column left (or none), on the first line and on the others, for a first character of
-- two columns that is no newline, wrap_line_end gives an empty line and makes no progress, and
-- count_rows ends with no fuel.
pub count_rows_diverges :
    (fuel : ℕ) (b : ℕ) (t : List ℕ) (cs : List (List ℕ)) (x_start indent width : ℕ)
    → IsChar (b ∷ t)
    → (b == 0x0A) ≡ false
    → width_of (b ∷ t) ≡ 2
    → width ≤ x_start + 1
    → width ≤ indent + 1
    → (wrap_line_end (bytes_of ((b ∷ t) ∷ cs)) x_start width ≡ line 0 0)
      × (wrap_line_end (bytes_of ((b ∷ t) ∷ cs)) indent width ≡ line 0 0)
      × (count_rows fuel (bytes_of ((b ∷ t) ∷ cs)) x_start indent width ≡ none)
unfolding count_rows
count_rows_diverges fuel b t cs x_start indent width h n w wx wi = (
  wide_first b t cs x_start width h n w wx,
  wide_first b t cs indent width h n w wi,
  rw (forever fuel x_start 0 wx),
)
  where
    forever :
        (f x rows : ℕ)
        → width ≤ x + 1
        → count_loop f (bytes_of ((b ∷ t) ∷ cs)) x indent width rows ≡ none
    forever zero x rows k = unfold count_loop in refl
    forever (suc f) x rows k =
        count_step f b (t ++ bytes_of cs) x indent width rows 0 0
          (wide_first b t cs x width h n w k)
        ∙ forever f indent (rows + 1) wi

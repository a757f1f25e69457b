-- ===== src/Utf8/Wrap.antt =====
-- wrap_line_end of src/core/utf8.c on a text whose last character is whole.
use free_cli.Base.{
  ℕ, zero, suc, ◌+◌, ◌≤◌, ◌<◌, ◌≡◌, ◌≢◌, refl, subst, List, [], ◌∷◌, ◌++◌, Option, none, arith, ◌⊎◌,
  inl, inr, ltb, ◌==◌, ==_iff, length, length-append, append_assoc, All, Bool-cases, ltb→lt,
}
use free_cli.Utf8.{
  Break, Scan, Wrapped, line, stop, go, note_blank, wrap_step, wrap_loop, wrap_line_end, available,
}
use free_cli.Utf8.Chars.{
  IsChar, bytes_of, width_of, columns, length-bytes_of, columns-append, no_bytes,
}
use free_cli.Utf8.Steps.{
  Breaks, LastBreaks, NoneFits, Result, scan_at, break_line-Result, note_blank-LastBreaks,
  wrap_step-go, wrap_step-stop, newline-Result, wrap_step-newline,
}

snoc-ne-nil {ℓ} : {A : Type ℓ} (xs : List A) (a : A) → xs ++ a ∷ [] ≢ []
snoc-ne-nil [] a e = cc
snoc-ne-nil (x ∷ xs) a e = cc

Result-shift :
    (avail : ℕ) (before : List (List ℕ)) (c : List ℕ) (cs : List (List ℕ)) (w : Wrapped)
    → Result avail (before ++ c ∷ []) cs w
    → Result avail before (c ∷ cs) w
Result-shift avail before c cs w r =
    let (e, n, q, br, z) = r in
    (
      e,
      n,
      q,
      subst (λ text. Breaks text avail e n) (append_assoc before (c ∷ []) cs) br,
      λ y. absurd (snoc-ne-nil before c (z y).0),
    )

All-snoc : (xs : List (List ℕ)) (c : List ℕ) → All IsChar xs → IsChar c → All IsChar (xs ++ c ∷ [])
All-snoc [] c a h = (h, tt)
All-snoc (x ∷ xs) c a h = (a.0, All-snoc xs c a.1 h)

pos-snoc :
    (before : List (List ℕ)) (c : List ℕ)
    → length (bytes_of (before ++ c ∷ [])) ≡ length (bytes_of before) + length c
pos-snoc before c = omega (arith, length-bytes_of before (c ∷ []), length-append c [])

col-snoc :
    (before : List (List ℕ)) (c : List ℕ) → columns (before ++ c ∷ []) ≡ columns before + width_of c
col-snoc before c = omega (arith, columns-append before (c ∷ []))

pub wrap_loop-stop :
    (fuel avail : ℕ) (s : Scan) (w : Wrapped)
    → wrap_step avail s s.p ≡ stop w
    → wrap_loop (suc fuel) avail s ≡ w
unfolding wrap_loop
wrap_loop-stop fuel avail s w e = rw (e, wrap_loop)

wrap_loop-go :
    (fuel avail : ℕ) (s s' : Scan)
    → wrap_step avail s s.p ≡ go s'
    → wrap_loop (suc fuel) avail s ≡ wrap_loop fuel avail s'
unfolding wrap_loop
wrap_loop-go fuel avail s s' e = rw (e, wrap_loop)

-- `before` has been read and `rest` is to come.
wrap_loop-Result :
    (avail fuel : ℕ) (before rest : List (List ℕ)) (last : Option Break)
    → length rest < fuel
    → All IsChar before
    → All IsChar rest
    → columns before ≤ avail
    → LastBreaks (before ++ rest) avail last
    → Result avail before rest (wrap_loop fuel avail (scan_at before rest last))
wrap_loop-Result avail zero before rest last f a b k lb = absurd (omega arith)
wrap_loop-Result avail (suc fuel) before [] last f a b k lb = (
  length (bytes_of before),
  length (bytes_of before),
  wrap_loop-stop fuel avail (scan_at before [] last) _ (unfold wrap_step in refl),
  (before, [], [], refl, refl, omega arith, k, inl tt),
  λ z. (no_bytes before a z, tt),
)
wrap_loop-Result avail (suc fuel) before ([] ∷ cs) last f a b k lb = absurd b.0
wrap_loop-Result avail (suc fuel) before ((x ∷ t) ∷ cs) last f a b k lb =
    elim (Bool-cases (x == 0x0A)) [
      | inl e ↦
          rw
            (wrap_loop-stop fuel avail (scan_at before ((x ∷ t) ∷ cs) last) _
              (wrap_step-newline avail x (scan_at before ((x ∷ t) ∷ cs) last) (t ++ bytes_of cs) e))
            (newline-Result avail x before cs t ((==_iff x 0x0A).0 e) b.0 k)
      | inr n ↦ elim (Bool-cases (ltb avail (columns before + width_of (x ∷ t)))) [
        | inl w ↦
            rw
              (wrap_loop-stop fuel avail (scan_at before ((x ∷ t) ∷ cs) last) _ (
                wrap_step-stop avail x t (bytes_of cs) (length (bytes_of before)) (columns before)
                  last b.0 n w))
              (break_line-Result avail before (x ∷ t) cs last b.0 k a (ltb→lt avail _ w) lb)
        | inr w ↦
            let c = x ∷ t in
            let noted =
              note_blank x (t ++ bytes_of cs) (length (bytes_of before)) (columns before) last in
            let ih =
              wrap_loop-Result avail fuel (before ++ c ∷ []) cs noted (omega arith)
                (All-snoc before c a b.0) b.1 (rw (col-snoc before c) (ground arith))
                (rw (append_assoc before (c ∷ []) cs)
                  (note_blank-LastBreaks avail x t before cs last b.0 b.1 k lb)) in
            rw
              (wrap_loop-go fuel avail (scan_at before ((x ∷ t) ∷ cs) last) _ (
                wrap_step-go avail x t (bytes_of cs) (length (bytes_of before)) (columns before)
                  last b.0 n w))
              (Result-shift avail before c cs _ (rw (pos-snoc before c, col-snoc before c) at ih))
      ]
    ]

length-chars : (cs : List (List ℕ)) → All IsChar cs → length cs ≤ length (bytes_of cs)
length-chars [] h = omega arith
length-chars ([] ∷ cs) h = absurd h.0
length-chars ((b ∷ t) ∷ cs) h = omega (arith, length-append t (bytes_of cs), length-chars cs h.1)

pub wrap_line_end-Breaks :
    (text : List (List ℕ)) (x_start width : ℕ)
    → All IsChar text
    → (end next : ℕ) × (wrap_line_end (bytes_of text) x_start width ≡ line end next)
      × Breaks text (available x_start width) end next
      × (next ≡ 0 → NoneFits (available x_start width) text)
unfolding wrap_line_end
wrap_line_end-Breaks text x_start width h =
    let (end, next, e, br, z) =
      wrap_loop-Result (available x_start width) (suc (length (bytes_of text))) [] text none
        (omega (arith, length-chars text h)) tt h (omega arith) tt in
    (end, next, e, br, λ y. (z y).1)

-- On a text of whole characters wrap_line_end stays in the text and ends; it cuts the text into a
-- line no wider than the space, a gap of blanks or one newline, and the rest, and makes progress
-- unless the text is empty or its first character is wider than the space.
pub wrap_line_end_lem :
    (text : List (List ℕ)) (x_start width : ℕ)
    → All IsChar text
    → (end next : ℕ) × (wrap_line_end (bytes_of text) x_start width ≡ line end next)
      × Breaks text (available x_start width) end next
      × ((0 < next) ⊎ NoneFits (available x_start width) text)
wrap_line_end_lem text x_start width h =
    let (end, next, e, br, z) = wrap_line_end-Breaks text x_start width h in
    (end, next, e, br, progress next z)
  where
    progress :
        (n : ℕ)
        → (n ≡ 0 → NoneFits (available x_start width) text)
        → (0 < n) ⊎ NoneFits (available x_start width) text
    progress zero z = inr (z refl)
    progress (suc n) z = inl (omega arith)

-- ===== src/Utf8/Chars.antt =====
-- A text as src/core/utf8.c walks it: characters, each as long as its first byte says.
use free_cli.Base.{
  ℕ, suc, ◌+◌, ◌≤◌, ◌≡◌, refl, ap, sym, ◌∙◌, true, ◌||◌, List, [], ◌∷◌, ◌++◌, none, some, arith,
  ◌⊎◌, inl, inr, ◌==◌, length, length-append, append_assoc, All, Bool-cases, le→leb, drop-append,
}
use free_cli.Utf8.{utf8_clen, byte_at, wide_or_not, utf8_cwidth, blanks, advance}

abbrev pub IsChar : List ℕ → Type 0
IsChar [] = ⊥
IsChar (b ∷ t) = suc (length t) ≡ utf8_clen b

abbrev pub bytes_of : List (List ℕ) → List ℕ
bytes_of [] = []
bytes_of (c ∷ cs) = c ++ bytes_of cs

-- The columns of a character, and of a text.
unfoldable pub width_of : List ℕ → ℕ
width_of c = elim (utf8_cwidth c) [ some w ↦ w | none ↦ 0 ]

abbrev pub columns : List (List ℕ) → ℕ
columns [] = 0
columns (c ∷ cs) = width_of c + columns cs

abbrev pub IsBlank : List ℕ → Type 0
IsBlank c = (c ≡ b' ' ∷ []) ⊎ (c ≡ 0x09 ∷ [])

pub bytes_of-append : (xs ys : List (List ℕ)) → bytes_of (xs ++ ys) ≡ bytes_of xs ++ bytes_of ys
bytes_of-append [] ys = refl
bytes_of-append (c ∷ xs) ys =
    ap (◌++◌ c) (bytes_of-append xs ys) ∙ sym (append_assoc c (bytes_of xs) (bytes_of ys))

pub length-bytes_of :
    (xs ys : List (List ℕ))
    → length (bytes_of (xs ++ ys)) ≡ length (bytes_of xs) + length (bytes_of ys)
length-bytes_of xs ys =
    omega (arith, ap length (bytes_of-append xs ys), length-append (bytes_of xs) (bytes_of ys))

pub columns-append : (xs ys : List (List ℕ)) → columns (xs ++ ys) ≡ columns xs + columns ys
columns-append [] ys = omega arith
columns-append (c ∷ xs) ys = omega (arith, columns-append xs ys)

-- Every character has one or two columns, and the code finds them without leaving it.
pub utf8_cwidth-char :
    (c rest : List ℕ)
    → IsChar c
    → (utf8_cwidth (c ++ rest) ≡ some (width_of c)) × (1 ≤ width_of c) × (width_of c ≤ 2)
unfolding utf8_cwidth width_of byte_at wide_or_not utf8_clen
utf8_cwidth-char [] rest h = absurd h
utf8_cwidth-char (b ∷ []) rest h = ground arith
utf8_cwidth-char (b ∷ x ∷ []) rest h = ground arith
utf8_cwidth-char (b ∷ x ∷ y ∷ t) rest h = ground arith

pub advance-char :
    (b : ℕ) (t rest : List ℕ) → IsChar (b ∷ t) → advance (utf8_clen b) (b ∷ (t ++ rest)) ≡ some rest
unfolding advance
advance-char b t rest h = rw (
  ← h,
  le→leb (suc (length t)) (length (b ∷ (t ++ rest))) (omega (arith, length-append t rest)),
  drop-append t rest,
)

pub long_blank : (b x : ℕ) (t : List ℕ) → IsChar (b ∷ x ∷ t) → (b == b' ' || b == 0x09) ≡ true → ⊥
unfolding utf8_clen
long_blank b x t h e = ground arith

-- A blank byte is a character of its own.
pub IsBlank-char :
    (b : ℕ) (t : List ℕ) → IsChar (b ∷ t) → (b == b' ' || b == 0x09) ≡ true → IsBlank (b ∷ t)
unfolding utf8_clen
IsBlank-char b [] h e = ground arith
IsBlank-char b (x ∷ t) h e = absurd (long_blank b x t h e)

-- The blanks that the code skips are the leading blank characters.
pub blanks_split :
    (cs : List (List ℕ))
    → All IsChar cs
    → (m r : List (List ℕ)) × (cs ≡ m ++ r)
      × (blanks (bytes_of cs) ≡ length (bytes_of m))
      × All IsBlank m
unfolding blanks
blanks_split [] h = ([], [], refl, refl, tt)
blanks_split ([] ∷ cs) h = absurd h.0
blanks_split ((b ∷ []) ∷ cs) h = elim (Bool-cases (b == b' ' || b == 0x09)) [
  | inl e ↦
      let (m, r, p, q, s) = blanks_split cs h.1 in
      ((b ∷ []) ∷ m, r, ap (◌∷◌ (b ∷ [])) p, rw e (ap suc q), (IsBlank-char b [] h.0 e, s))
  | inr e ↦ ([], (b ∷ []) ∷ cs, refl, rw e, tt)
]
blanks_split ((b ∷ x ∷ t) ∷ cs) h = elim (Bool-cases (b == b' ' || b == 0x09)) [
  | inl e ↦ absurd (long_blank b x t h.0 e)
  | inr e ↦ ([], (b ∷ x ∷ t) ∷ cs, refl, rw e, tt)
]

pub no_bytes : (cs : List (List ℕ)) → All IsChar cs → length (bytes_of cs) ≡ 0 → cs ≡ []
no_bytes [] h e = refl
no_bytes ([] ∷ cs) h e = absurd h.0
no_bytes ((b ∷ t) ∷ cs) h e = absurd (omega arith)

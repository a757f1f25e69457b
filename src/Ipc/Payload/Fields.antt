-- ===== src/Ipc/Payload/Fields.antt =====
-- The fields of a payload, written and read (src/core/ipc.c).
use free_cli.Base.{
  ℕ, ◌+◌, ◌^◌, ◌<◌, ◌≡◌, refl, Bool, true, false, List, [], ◌∷◌, ◌++◌, Option, arith, length,
  length-append, append-nil, le→leb, lt→ltb,
}
use free_cli.Ipc.Wire.{
  done, u32_mod, le_bytes, chars_of, put_string, length-le_bytes, length-put_string,
  read_int-le_bytes, read_int-put_string, read_some-append, read_int, read_optional,
  read_optional-put_string, guard-leb, nonempty,
}
use free_cli.Ipc.Payload.{read_tail, read_model, flag_byte, byte_flag}

-- The room that a string takes behind its length word.
abbrev pub size_of : Option (List ℕ) → ℕ
size_of s = length (chars_of s)

-- What a decoder makes of a pointer that the encoder was given.
abbrev pub received : Option (List ℕ) → Option (List ℕ)
received s = nonempty (chars_of s)

pub read_optional_last :
    (s : List ℕ) → length s < u32_mod → read_optional (put_string s) ≡ done (nonempty s, [])
read_optional_last s h = rw (append-nil (put_string s)) at (read_optional-put_string s [] h)

pub length-int : (k v : ℕ) (xs : List ℕ) → length (le_bytes k v ++ xs) ≡ k + length xs
length-int k v xs = omega (arith, length-append (le_bytes k v) xs, length-le_bytes k v)

pub length-text :
    (s xs : List ℕ) → length s < u32_mod → length (put_string s ++ xs) ≡ 4 + length s + length xs
length-text s xs h = omega (arith, length-append (put_string s) xs, length-put_string s h)

pub read_tail-put_string :
    (s rest : List ℕ)
    → length s < u32_mod
    → read_tail (put_string s ++ rest) ≡ done (nonempty s, rest)
unfolding read_tail
read_tail-put_string s rest h =
    rw
      (le→leb 4 (length (put_string s ++ rest))
        (omega (arith, length-append (put_string s) rest, length-put_string s h)))
      (read_optional-put_string s rest h)

pub read_tail_last :
    (s : List ℕ) → length s < u32_mod → read_tail (put_string s) ≡ done (nonempty s, [])
read_tail_last s h = rw (append-nil (put_string s)) at (read_tail-put_string s [] h)

pub read_model-put_string :
    (s rest : List ℕ)
    → length s < u32_mod
    → read_model (put_string s ++ rest) ≡ done (nonempty s, rest)
unfolding read_model
read_model-put_string [] rest h = rw (read_int-put_string [] rest h)
read_model-put_string (c ∷ cs) rest h =
    rw
      (
        read_int-put_string (c ∷ cs) rest h,
        lt→ltb 0 (length (c ∷ cs)) (omega arith),
        guard-leb (length (c ∷ cs)) (length (c ∷ cs ++ rest))
            (omega (arith, length-append (c ∷ cs) rest)),
      )
      (read_some-append (c ∷ cs) rest)

pub read_model_last :
    (s : List ℕ) → length s < u32_mod → read_model (put_string s) ≡ done (nonempty s, [])
read_model_last s h = rw (append-nil (put_string s)) at (read_model-put_string s [] h)

pub read_int_last : (k v : ℕ) → v < 256 ^ k → read_int k (le_bytes k v) ≡ done (v, [])
read_int_last k v h = rw (append-nil (le_bytes k v)) at (read_int-le_bytes k v [] h)

pub flag_byte-lt : (b : Bool) → flag_byte b < 256
flag_byte-lt true = omega arith
flag_byte-lt false = omega arith

pub byte_flag-flag_byte : (b : Bool) → byte_flag (flag_byte b) ≡ b
byte_flag-flag_byte true = refl
byte_flag-flag_byte false = refl

-- ===== src/Ipc/Wire.antt =====
-- Buffers of src/core/ipc.c: a buffer is the list of its bytes, a read pointer is the list of the
-- bytes from it to the end, and integers are in host order, which is little-endian here.
use free_cli.Base.{
  ℕ, zero, suc, ◌+◌, ◌*◌, ◌/◌, ◌%◌, ◌^◌, ◌≤◌, ◌<◌, ◌≡◌, refl, ap, Bool, true, false, ◌&&◌, List, [],
  ◌∷◌, ◌++◌, Option, none, some, arith, leb, le→leb, lt→ltb, if◌then◌else◌, length, take, drop,
  length-append, take-append, drop-append, take_all, append_assoc, ltb,
}

-- `rejected` is a return of -1 (or NULL); `fault` is an access outside the buffer.
pub data Outcome {ℓ} (A : Type ℓ) : Type ℓ where
  done : A → Outcome A
  rejected : Outcome A
  fault : Outcome A

infixl 5 ◌>>=◌ ◌>>◌
abbrev pub ◌>>=◌ {ℓ κ} : {A : Type ℓ} {B : Type κ} → Outcome A → (A → Outcome B) → Outcome B
done a >>= f = f a
rejected >>= f = rejected
fault >>= f = fault

abbrev pub ◌>>◌ {ℓ} : {B : Type ℓ} → Outcome (Unit {0}) → Outcome B → Outcome B
m >> k = m >>= λ _. k

abbrev pub guard : Bool → Outcome (Unit {0})
guard true = done tt
guard false = rejected

abbrev pub u32_mod : ℕ
u32_mod = 2 ^ 32

abbrev pub u64_mod : ℕ
u64_mod = 2 ^ 64

-- The bytes of an integer of `k` bytes in memory.
unfoldable pub le_bytes : ℕ → ℕ → List ℕ
le_bytes zero v = []
le_bytes (suc k) v = (v % 256) ∷ le_bytes k (v / 256)

unfoldable pub le_value : List ℕ → ℕ
le_value [] = 0
le_value (b ∷ bs) = b + 256 * le_value bs

-- memcpy of `n` bytes from the read pointer, which then moves past them.
unfoldable pub read_bytes : ℕ → List ℕ → Outcome (List ℕ × List ℕ)
read_bytes n p = if leb n (length p) then done (take n p, drop n p) else fault

unfoldable pub read_int : ℕ → List ℕ → Outcome (ℕ × List ℕ)
read_int k p = do (b, rest) ← read_bytes k p; done (le_value b, rest)

-- (uint32_t)strlen(s)
abbrev pub strlen32 : List ℕ → ℕ
strlen32 s = length s % u32_mod

-- A char pointer that may be NULL, as the encoders copy it: NULL has length 0.
abbrev pub chars_of : Option (List ℕ) → List ℕ
chars_of none = []
chars_of (some s) = s

-- A length word and the bytes of the string.
unfoldable pub put_string : List ℕ → List ℕ
unfolding le_bytes
put_string s = le_bytes 4 (strlen32 s) ++ take (strlen32 s) s

-- A buffer of `size` bytes, filled from its start; a longer body would be written past its end.
unfoldable pub alloc_write : ℕ → List ℕ → Outcome (List ℕ × ℕ)
alloc_write size body = if leb (length body) size then done (body, size) else fault

-- What the peer decodes: the first `out_len` bytes of the encoder's buffer.
abbrev pub transmit {ℓ} : {A : Type ℓ} → Outcome (List ℕ × ℕ) → (List ℕ → Outcome A) → Outcome A
transmit encoded decode = do (buf, out_len) ← encoded; decode (take out_len buf)

pub length-le_bytes : (k v : ℕ) → length (le_bytes k v) ≡ k
unfolding le_bytes
length-le_bytes zero v = refl
length-le_bytes (suc k) v = ap suc (length-le_bytes k (v / 256))

pub le_value-le_bytes : (k v : ℕ) → v < 256 ^ k → le_value (le_bytes k v) ≡ v
unfolding le_bytes le_value
le_value-le_bytes zero v h = omega arith
le_value-le_bytes (suc k) v h = omega (arith, le_value-le_bytes k (v / 256) (omega arith))

pub read_bytes-append :
    (n : ℕ) (xs rest : List ℕ) → length xs ≡ n → read_bytes n (xs ++ rest) ≡ done (xs, rest)
unfolding read_bytes
read_bytes-append n xs rest e = rw (
  ← e,
  le→leb (length xs) (length (xs ++ rest)) (omega (arith, length-append xs rest)),
  take-append xs rest,
  drop-append xs rest,
)

pub read_int-le_bytes :
    (k v : ℕ) (rest : List ℕ) → v < 256 ^ k → read_int k (le_bytes k v ++ rest) ≡ done (v, rest)
unfolding read_int
read_int-le_bytes k v rest h =
    rw (read_bytes-append k (le_bytes k v) rest (length-le_bytes k v), le_value-le_bytes k v h)

pub put_string_short : (s : List ℕ) → length s < u32_mod → put_string s ≡ le_bytes 4 (length s) ++ s
unfolding put_string
put_string_short s h =
    let e : length s % u32_mod ≡ length s = omega arith in
    rw (e, take_all (length s) s (omega arith))

pub length-put_string : (s : List ℕ) → length s < u32_mod → length (put_string s) ≡ 4 + length s
length-put_string s h =
    rw (put_string_short s h)
      (omega (arith, length-append (le_bytes 4 (length s)) s, length-le_bytes 4 (length s)))

-- The length word of a string is read back, and its bytes stand behind it.
pub read_int-put_string :
    (s rest : List ℕ)
    → length s < u32_mod
    → read_int 4 (put_string s ++ rest) ≡ done (length s, s ++ rest)
read_int-put_string s rest h =
    rw (put_string_short s h, append_assoc) (read_int-le_bytes 4 (length s) (s ++ rest) h)

pub alloc_write_fits :
    (size : ℕ) (body : List ℕ) → length body ≡ size → alloc_write size body ≡ done (body, size)
unfolding alloc_write
alloc_write_fits size body e = rw (le→leb (length body) size (omega arith))

pub transmit_fits {ℓ} :
    {A : Type ℓ} (size : ℕ) (body : List ℕ) (decode : List ℕ → Outcome A)
    → length body ≡ size
    → transmit (alloc_write size body) decode ≡ decode body
transmit_fits size body decode e =
    rw (alloc_write_fits size body e, take_all size body (omega arith))

-- Reads that a check of the room left allows do not leave the buffer.
pub read_bytes_safe :
    (n : ℕ) (p : List ℕ) → n ≤ length p → read_bytes n p ≡ done (take n p, drop n p)
unfolding read_bytes
read_bytes_safe n p h = rw (le→leb n (length p) h)

pub guard-leb : (n m : ℕ) → n ≤ m → guard (leb n m) ≡ done tt
guard-leb n m h = rw (le→leb n m h)

unfoldable pub read_some : ℕ → List ℕ → Outcome (Option (List ℕ) × List ℕ)
read_some n p = do (s, rest) ← read_bytes n p; done (some s, rest)

-- A string that a decoder takes only if it is not empty and lies whole in what is left.
unfoldable pub read_optional : List ℕ → Outcome (Option (List ℕ) × List ℕ)
read_optional p = do
  (n, rest) ← read_int 4 p
  if ltb 0 n && leb n (length rest) then read_some n rest else done (none, rest)

-- An empty string comes back as NULL.
abbrev pub nonempty : List ℕ → Option (List ℕ)
nonempty [] = none
nonempty (c ∷ cs) = some (c ∷ cs)

pub read_some-append : (s rest : List ℕ) → read_some (length s) (s ++ rest) ≡ done (some s, rest)
unfolding read_some
read_some-append s rest = rw (read_bytes-append (length s) s rest refl)

pub read_optional-put_string :
    (s rest : List ℕ)
    → length s < u32_mod
    → read_optional (put_string s ++ rest) ≡ done (nonempty s, rest)
unfolding read_optional
read_optional-put_string [] rest h = rw (read_int-put_string [] rest h)
read_optional-put_string (c ∷ cs) rest h =
    rw
      (
        read_int-put_string (c ∷ cs) rest h,
        lt→ltb 0 (length (c ∷ cs)) (omega arith),
        le→leb (length (c ∷ cs)) (length (c ∷ cs ++ rest))
            (omega (arith, length-append (c ∷ cs) rest)),
      )
      (read_some-append (c ∷ cs) rest)

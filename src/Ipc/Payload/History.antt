-- ===== src/Ipc/Payload/History.antt =====
-- A chat request (MSG_REQ_SEND of src/core/ipc.c) arrives as it was sent.
use free_cli.Base.{
  ℕ, suc, ◌+◌, ◌%◌, ◌≤◌, ◌<◌, ◌≡◌, refl, ap, List, [], ◌∷◌, ◌++◌, arith, length, length-append,
  append_assoc, All,
}
use free_cli.Ipc.Wire.{
  done, u32_mod, le_bytes, chars_of, length-put_string, transmit, transmit_fits, put_string,
  strlen32, read_int-le_bytes, read_int-put_string, read_bytes-append, guard-leb, read_int,
}
use free_cli.Ipc.Payload.{
  Turn, ReqSend, add_turns, put_turns, encode_req_send, read_turns, decode_req_send,
}
use free_cli.Ipc.Payload.Fields.{
  received, size_of, length-int, length-text, read_tail-put_string, read_tail_last,
}

-- The bytes that the messages take.
abbrev pub turns_size : List Turn → ℕ
turns_size [] = 0
turns_size (t ∷ ts) = 5 + length t.text + turns_size ts

abbrev pub HasByteFlag : Turn → Type 0
HasByteFlag t = t.is_user < 256

add_turns-eq :
    (sz : ℕ) (ts : List Turn) → sz + turns_size ts < u32_mod → add_turns sz ts ≡ sz + turns_size ts
unfolding add_turns
add_turns-eq sz [] h = omega arith
add_turns-eq sz (t ∷ ts) h =
    omega (arith, add_turns-eq ((sz + (5 + strlen32 t.text)) % u32_mod) ts (omega arith))

length-put_turns :
    (ts : List Turn) (xs : List ℕ)
    → turns_size ts < u32_mod
    → length (put_turns ts ++ xs) ≡ turns_size ts + length xs
unfolding put_turns
length-put_turns [] xs h = omega arith
length-put_turns (t ∷ ts) xs h = rw (append_assoc (put_string t.text) (put_turns ts) xs) (
    omega (
      arith,
      length-text t.text (put_turns ts ++ xs) (omega arith),
      length-put_turns ts xs (omega arith),
    ))

length-le-turns_size : (ts : List Turn) → length ts ≤ turns_size ts
length-le-turns_size [] = omega arith
length-le-turns_size (t ∷ ts) = omega (arith, length-le-turns_size ts)

byte_as_int : (b : ℕ) → b < 256 → le_bytes 1 b ≡ b ∷ []
unfolding le_bytes
byte_as_int b h = ap (λ (x : ℕ). x ∷ []) (omega arith)

read_byte : (b : ℕ) (rest : List ℕ) → b < 256 → read_int 1 (b ∷ rest) ≡ done (b, rest)
read_byte b rest h = rw (byte_as_int b h) at (read_int-le_bytes 1 b rest h)

read_turns-put_turns :
    (ts : List Turn) (rest : List ℕ)
    → All HasByteFlag ts
    → turns_size ts < u32_mod
    → read_turns (length ts) (put_turns ts ++ rest) ≡ done (ts, rest)
unfolding read_turns put_turns
read_turns-put_turns [] rest a h = refl
read_turns-put_turns (t ∷ ts) rest (b, a) h =
    let more = put_turns ts ++ rest in
    rw (
      append_assoc (put_string t.text) (put_turns ts) rest,
      guard-leb 5 (suc (length (put_string t.text ++ more)))
          (omega (arith, length-text t.text more (omega arith))),
      read_byte t.is_user (put_string t.text ++ more) b,
      read_int-put_string t.text more (omega arith),
      guard-leb (length t.text) (length (t.text ++ more))
          (omega (arith, length-append t.text more)),
      read_bytes-append (length t.text) t.text more refl,
      read_turns-put_turns ts rest a (omega arith),
    )

-- A chat request whose payload fits 32 bits and whose flags fit a byte arrives with the same
-- session, messages, model and provider, but an empty model or provider arrives as NULL.
pub req_send_round_trip :
    (r : ReqSend)
    → r.session_idx < u32_mod
    → All HasByteFlag r.turns
    → 16 + turns_size r.turns + size_of r.model + size_of r.provider < u32_mod
    → transmit (encode_req_send r) decode_req_send
      ≡ done (record r { model = received r.model; provider = received r.provider })
unfolding encode_req_send decode_req_send
req_send_round_trip r h a k =
    let m = chars_of r.model in
    let p = chars_of r.provider in
    let last = put_string m ++ put_string p in
    let after_count = put_turns r.turns ++ last in
    let after_idx = le_bytes 4 (length r.turns) ++ after_count in
    let body = le_bytes 4 r.session_idx ++ after_idx in
    let count : length r.turns < u32_mod = omega (arith, length-le-turns_size r.turns) in
    let tail : length last ≡ 8 + length m + length p =
      omega (arith, length-text m (put_string p) (omega arith), length-put_string p) in
    let size : length body ≡ 16 + turns_size r.turns + length m + length p = omega (
      arith,
      length-int 4 r.session_idx after_idx,
      length-int 4 (length r.turns) after_count,
      length-put_turns r.turns last (omega arith),
    ) in
    let sz = (add_turns 8 r.turns + (4 + length m % u32_mod)) % u32_mod in
    rw (
      transmit_fits ((sz + (4 + length p % u32_mod)) % u32_mod) body decode_req_send
          (omega (arith, add_turns-eq 8 r.turns (omega arith))),
      guard-leb 8 (length body) (omega arith),
      read_int-le_bytes 4 r.session_idx after_idx h,
      read_int-le_bytes 4 (length r.turns) after_count count,
      read_turns-put_turns r.turns last a (omega arith),
      read_tail-put_string m (put_string p) (omega arith),
      read_tail_last p (omega arith),
    )

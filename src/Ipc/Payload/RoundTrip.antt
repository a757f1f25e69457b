-- ===== src/Ipc/Payload/RoundTrip.antt =====
-- The payload decoders of src/core/ipc.c undo its encoders.
use free_cli.Base.{
  ℕ, ◌+◌, ◌%◌, ◌<◌, ◌≡◌, refl, Bool, List, ◌++◌, Option, arith, length, length-append,
}
use free_cli.Ipc.Wire.{
  done, u32_mod, u64_mod, le_bytes, chars_of, transmit, transmit_fits, put_string, length-le_bytes,
  length-put_string, read_int-le_bytes, read_int-put_string, read_bytes-append, guard-leb,
}
use free_cli.Ipc.Payload.{
  encode_session_rename, decode_session_rename, encode_worker_rep, decode_worker_rep,
  encode_worker_req, decode_worker_req, encode_rep_final, decode_rep_final, encode_worker_start,
  decode_worker_start, encode_approval_req, decode_approval_req, encode_approval_rep,
  decode_approval_rep, flag_byte,
}
use free_cli.Ipc.Payload.Fields.{
  size_of, received, read_optional_last, length-int, length-text, read_tail_last,
  read_model-put_string, read_model_last, read_int_last, flag_byte-lt, byte_flag-flag_byte,
}

pub rename_round_trip :
    (idx : ℕ) (topic : Option (List ℕ))
    → idx < u32_mod
    → 8 + size_of topic < u32_mod
    → transmit (encode_session_rename idx topic) decode_session_rename
      ≡ done (record { session_idx = idx; topic = received topic })
unfolding encode_session_rename decode_session_rename
rename_round_trip idx topic h k =
    let s = chars_of topic in
    let body = le_bytes 4 idx ++ put_string s in
    let size : length body ≡ 8 + length s =
      omega (arith, length-int 4 idx (put_string s), length-put_string s (omega arith)) in
    rw (
      transmit_fits ((8 + length s % u32_mod) % u32_mod) body decode_session_rename (omega arith),
      guard-leb 8 (length body) (omega arith),
      read_int-le_bytes 4 idx (put_string s) h,
      read_optional_last s (omega arith),
    )

pub worker_rep_round_trip :
    (success : Bool) (result : Option (List ℕ))
    → 5 + size_of result < u32_mod
    → transmit (encode_worker_rep success result) decode_worker_rep
      ≡ done (record { success = success; result = received result })
unfolding encode_worker_rep decode_worker_rep
worker_rep_round_trip success result k =
    let s = chars_of result in
    let body = le_bytes 1 (flag_byte success) ++ put_string s in
    let size : length body ≡ 5 + length s =
      omega (
        arith,
        length-int 1 (flag_byte success) (put_string s),
        length-put_string s (omega arith),
      ) in
    rw (
      transmit_fits ((5 + length s % u32_mod) % u32_mod) body decode_worker_rep (omega arith),
      guard-leb 5 (length body) (omega arith),
      read_int-le_bytes 1 (flag_byte success) (put_string s) (flag_byte-lt success),
      read_optional_last s (omega arith),
      byte_flag-flag_byte success,
    )

pub approval_req_round_trip :
    (corr : ℕ) (desc : Option (List ℕ))
    → corr < u64_mod
    → 12 + size_of desc < u32_mod
    → transmit (encode_approval_req corr desc) decode_approval_req
      ≡ done (record { req_corr_id = corr; description = received desc })
unfolding encode_approval_req decode_approval_req
approval_req_round_trip corr desc h k =
    let s = chars_of desc in
    let body = le_bytes 8 corr ++ put_string s in
    let size : length body ≡ 12 + length s =
      omega (arith, length-int 8 corr (put_string s), length-put_string s (omega arith)) in
    rw (
      transmit_fits ((12 + length s % u32_mod) % u32_mod) body decode_approval_req (omega arith),
      guard-leb 12 (length body) (omega arith),
      read_int-le_bytes 8 corr (put_string s) h,
      read_optional_last s (omega arith),
    )

pub approval_rep_round_trip :
    (corr : ℕ) (approved : Bool)
    → corr < u64_mod
    → transmit (encode_approval_rep corr approved) decode_approval_rep
      ≡ done (record { req_corr_id = corr; approved = approved })
unfolding encode_approval_rep decode_approval_rep
approval_rep_round_trip corr approved h =
    let last = le_bytes 1 (flag_byte approved) in
    let body = le_bytes 8 corr ++ last in
    let size : length body ≡ 9 =
      omega (arith, length-int 8 corr last, length-le_bytes 1 (flag_byte approved)) in
    rw (
      transmit_fits 9 body decode_approval_rep size,
      guard-leb 9 (length body) (omega arith),
      read_int-le_bytes 8 corr last h,
      read_int_last 1 (flag_byte approved) (flag_byte-lt approved),
      byte_flag-flag_byte approved,
    )

pub worker_req_round_trip :
    (type : ℕ) (op args : Option (List ℕ))
    → type < u32_mod
    → 12 + size_of op + size_of args < u32_mod
    → transmit (encode_worker_req type op args) decode_worker_req
      ≡ done (record { worker_type = type; op = chars_of op; args_json = received args })
unfolding encode_worker_req decode_worker_req
worker_req_round_trip type op args h k =
    let s = chars_of op in
    let t = chars_of args in
    let body = le_bytes 4 type ++ (put_string s ++ put_string t) in
    let last : length (put_string t) ≡ 4 + length t = length-put_string t (omega arith) in
    let tail : length (s ++ put_string t) ≡ length s + 4 + length t =
      omega (arith, length-append s (put_string t)) in
    let size : length body ≡ 12 + length s + length t = omega (
      arith,
      length-int 4 type (put_string s ++ put_string t),
      length-text s (put_string t) (omega arith),
    ) in
    rw (
      transmit_fits ((12 + length s % u32_mod + length t % u32_mod) % u32_mod) body
          decode_worker_req (omega arith),
      guard-leb 12 (length body) (omega arith),
      read_int-le_bytes 4 type (put_string s ++ put_string t) h,
      read_int-put_string s (put_string t) (omega arith),
      guard-leb (length s) (length (s ++ put_string t)) (omega arith),
      read_bytes-append (length s) s (put_string t) refl,
      guard-leb 4 (length (put_string t)) (omega arith),
      read_model_last t (omega arith),
    )

pub rep_final_round_trip :
    (idx : ℕ) (content reasoning : Option (List ℕ))
    → idx < u32_mod
    → 12 + size_of content + size_of reasoning < u32_mod
    → transmit (encode_rep_final idx content reasoning) decode_rep_final
      ≡ done
          (record { session_idx = idx; content = chars_of content; reasoning = received reasoning })
unfolding encode_rep_final decode_rep_final
rep_final_round_trip idx content reasoning h k =
    let s = chars_of content in
    let t = chars_of reasoning in
    let body = le_bytes 4 idx ++ (put_string s ++ put_string t) in
    let last : length (put_string t) ≡ 4 + length t = length-put_string t (omega arith) in
    let tail : length (s ++ put_string t) ≡ length s + 4 + length t =
      omega (arith, length-append s (put_string t)) in
    let size : length body ≡ 12 + length s + length t = omega (
      arith,
      length-int 4 idx (put_string s ++ put_string t),
      length-text s (put_string t) (omega arith),
    ) in
    rw (
      transmit_fits ((12 + length s % u32_mod + length t % u32_mod) % u32_mod) body decode_rep_final
          (omega arith),
      guard-leb 12 (length body) (omega arith),
      read_int-le_bytes 4 idx (put_string s ++ put_string t) h,
      read_int-put_string s (put_string t) (omega arith),
      guard-leb (length s) (length (s ++ put_string t)) (omega arith),
      read_bytes-append (length s) s (put_string t) refl,
      read_tail_last t (omega arith),
    )

pub worker_start_round_trip :
    (parent : ℕ) (model desc : Option (List ℕ))
    → parent < u64_mod
    → 16 + size_of model + size_of desc < u32_mod
    → transmit (encode_worker_start parent model desc) decode_worker_start
      ≡ done
          (record { parent_corr_id = parent; model = received model; description = received desc })
unfolding encode_worker_start decode_worker_start
worker_start_round_trip parent model desc h k =
    let s = chars_of model in
    let t = chars_of desc in
    let body = le_bytes 8 parent ++ (put_string s ++ put_string t) in
    let last : length (put_string t) ≡ 4 + length t = length-put_string t (omega arith) in
    let tail : length (put_string s ++ put_string t) ≡ 4 + length s + (4 + length t) =
      omega (arith, length-text s (put_string t) (omega arith)) in
    let size : length body ≡ 16 + length s + length t =
      omega (arith, length-int 8 parent (put_string s ++ put_string t)) in
    rw (
      transmit_fits ((16 + length s % u32_mod + length t % u32_mod) % u32_mod) body
          decode_worker_start (omega arith),
      guard-leb 8 (length body) (omega arith),
      read_int-le_bytes 8 parent (put_string s ++ put_string t) h,
      guard-leb 4 (length (put_string s ++ put_string t)) (omega arith),
      read_model-put_string s (put_string t) (omega arith),
      read_tail_last t (omega arith),
    )

-- Where two strings take less than 2^32 - 16 bytes and the numbers fit their widths, each payload
-- but the chat request arrives as it was sent: a worker request, a final reply, a worker's reply,
-- a session's topic, a sub-worker's start, an approval request and its answer; an empty optional
-- string arrives as NULL, a missing operation or content as the empty string.
pub payloads_round_trip :
    (n corr : ℕ) (flag : Bool) (a b : Option (List ℕ))
    → n < u32_mod
    → corr < u64_mod
    → 16 + size_of a + size_of b < u32_mod
    → (transmit (encode_worker_req n a b) decode_worker_req
        ≡ done (record { worker_type = n; op = chars_of a; args_json = received b }))
      × (transmit (encode_rep_final n a b) decode_rep_final
          ≡ done (record { session_idx = n; content = chars_of a; reasoning = received b }))
      × (transmit (encode_worker_rep flag a) decode_worker_rep
          ≡ done (record { success = flag; result = received a }))
      × (transmit (encode_session_rename n a) decode_session_rename
          ≡ done (record { session_idx = n; topic = received a }))
      × (transmit (encode_worker_start corr a b) decode_worker_start
          ≡ done (record { parent_corr_id = corr; model = received a; description = received b }))
      × (transmit (encode_approval_req corr a) decode_approval_req
          ≡ done (record { req_corr_id = corr; description = received a }))
      × (transmit (encode_approval_rep corr flag) decode_approval_rep
          ≡ done (record { req_corr_id = corr; approved = flag }))
payloads_round_trip n corr flag a b h k fits = (
  worker_req_round_trip n a b h (omega arith),
  rep_final_round_trip n a b h (omega arith),
  worker_rep_round_trip flag a (omega arith),
  rename_round_trip n a h (omega arith),
  worker_start_round_trip corr a b k fits,
  approval_req_round_trip corr a k (omega arith),
  approval_rep_round_trip corr flag k,
)

-- ===== src/Ipc/Payload.antt =====
-- The payload encoders and decoders of src/core/ipc.c. malloc and calloc succeed.
pub mod RoundTrip
pub mod History
pub mod Safety
pub mod Fields
use free_cli.Base.{
  ℕ, zero, suc, ◌+◌, ◌*◌, ◌%◌, Bool, true, false, not, List, [], ◌∷◌, ◌++◌, Option, none, some, ltb,
  leb, ◌==◌, if◌then◌else◌, length,
}
use free_cli.Ipc.Wire.{
  Outcome, done, rejected, fault, ◌>>=◌, ◌>>◌, guard, u32_mod, u64_mod, le_bytes, read_bytes,
  read_int, read_some, read_optional, strlen32, chars_of, put_string, alloc_write,
}

-- One message of a chat history as it crosses the channel.
pub record Turn : Type 0 where
  pub is_user : ℕ
  pub text : List ℕ

pub record ReqSend : Type 0 where
  pub session_idx : ℕ
  pub turns : List Turn
  pub model : Option (List ℕ)
  pub provider : Option (List ℕ)

-- `sz += 1 + sizeof(uint32_t) + (uint32_t)strlen(texts[i])`, in 32 bits.
unfoldable pub add_turns : ℕ → List Turn → ℕ
add_turns sz [] = sz
add_turns sz (t ∷ ts) = add_turns ((sz + (5 + strlen32 t.text)) % u32_mod) ts

unfoldable pub put_turns : List Turn → List ℕ
put_turns [] = []
put_turns (t ∷ ts) = t.is_user ∷ (put_string t.text ++ put_turns ts)

unfoldable pub encode_req_send : ReqSend → Outcome (List ℕ × ℕ)
encode_req_send r =
    let mlen = strlen32 (chars_of r.model) in
    let plen = strlen32 (chars_of r.provider) in
    let sz = (add_turns 8 r.turns + (4 + mlen)) % u32_mod in
    alloc_write ((sz + (4 + plen)) % u32_mod) (
      le_bytes 4 r.session_idx
      ++ (le_bytes 4 (length r.turns)
          ++ (put_turns r.turns
              ++ (put_string (chars_of r.model) ++ put_string (chars_of r.provider)))))

-- The loop over `msg_count` messages.
unfoldable pub read_turns : ℕ → List ℕ → Outcome (List Turn × List ℕ)
read_turns zero p = done ([], p)
read_turns (suc n) p = do
  guard (leb 5 (length p))
  (user, p₁) ← read_int 1 p
  (tlen, p₂) ← read_int 4 p₁
  guard (leb tlen (length p₂))
  (text, p₃) ← read_bytes tlen p₂
  (ts, q) ← read_turns n p₃
  done (record { is_user = user; text = text } ∷ ts, q)

-- The optional model and provider at the end: absent if no length word is left.
unfoldable pub read_tail : List ℕ → Outcome (Option (List ℕ) × List ℕ)
read_tail p = if leb 4 (length p) then read_optional p else done (none, p)

unfoldable pub decode_req_send : List ℕ → Outcome ReqSend
decode_req_send buf = do
  guard (leb 8 (length buf))
  (idx, p₁) ← read_int 4 buf
  (msg_count, p₂) ← read_int 4 p₁
  (turns, p₃) ← read_turns msg_count p₂
  (model, p₄) ← read_tail p₃
  (provider, _) ← read_tail p₄
  done (record { session_idx = idx; turns = turns; model = model; provider = provider })

pub record RepFinal : Type 0 where
  pub session_idx : ℕ
  pub content : List ℕ
  pub reasoning : Option (List ℕ)

unfoldable pub encode_rep_final : ℕ → Option (List ℕ) → Option (List ℕ) → Outcome (List ℕ × ℕ)
encode_rep_final idx content reasoning =
    let clen = strlen32 (chars_of content) in
    let rlen = strlen32 (chars_of reasoning) in
    alloc_write ((12 + clen + rlen) % u32_mod)
      (le_bytes 4 idx ++ (put_string (chars_of content) ++ put_string (chars_of reasoning)))

unfoldable pub decode_rep_final : List ℕ → Outcome RepFinal
decode_rep_final buf = do
  guard (leb 12 (length buf))
  (idx, p₁) ← read_int 4 buf
  (clen, p₂) ← read_int 4 p₁
  guard (leb clen (length p₂))
  (content, p₃) ← read_bytes clen p₂
  (reasoning, _) ← read_tail p₃
  done (record { session_idx = idx; content = content; reasoning = reasoning })

pub record WorkerStart : Type 0 where
  pub parent_corr_id : ℕ
  pub model : Option (List ℕ)
  pub description : Option (List ℕ)

unfoldable pub encode_worker_start : ℕ → Option (List ℕ) → Option (List ℕ) → Outcome (List ℕ × ℕ)
encode_worker_start parent model desc =
    let mlen = strlen32 (chars_of model) in
    let dlen = strlen32 (chars_of desc) in
    alloc_write ((16 + mlen + dlen) % u32_mod)
      (le_bytes 8 parent ++ (put_string (chars_of model) ++ put_string (chars_of desc)))

-- The model of a worker: a length that is not 0 must lie in the buffer.
unfoldable pub read_model : List ℕ → Outcome (Option (List ℕ) × List ℕ)
read_model p = do
  (mlen, rest) ← read_int 4 p
  if ltb 0 mlen then guard (leb mlen (length rest)) >> read_some mlen rest else done (none, rest)

unfoldable pub decode_worker_start : List ℕ → Outcome WorkerStart
decode_worker_start buf = do
  guard (leb 8 (length buf))
  (parent, p₁) ← read_int 8 buf
  guard (leb 4 (length p₁))
  (model, p₂) ← read_model p₁
  (desc, _) ← read_tail p₂
  done (record { parent_corr_id = parent; model = model; description = desc })

pub record SessionRename : Type 0 where
  pub session_idx : ℕ
  pub topic : Option (List ℕ)

unfoldable pub encode_session_rename : ℕ → Option (List ℕ) → Outcome (List ℕ × ℕ)
encode_session_rename idx topic =
    alloc_write ((8 + strlen32 (chars_of topic)) % u32_mod)
      (le_bytes 4 idx ++ put_string (chars_of topic))

unfoldable pub decode_session_rename : List ℕ → Outcome SessionRename
decode_session_rename buf = do
  guard (leb 8 (length buf))
  (idx, p₁) ← read_int 4 buf
  (topic, _) ← read_optional p₁
  done (record { session_idx = idx; topic = topic })

pub record WorkerReq : Type 0 where
  pub worker_type : ℕ
  pub op : List ℕ
  pub args_json : Option (List ℕ)

unfoldable pub encode_worker_req : ℕ → Option (List ℕ) → Option (List ℕ) → Outcome (List ℕ × ℕ)
encode_worker_req type op args =
    let op_len = strlen32 (chars_of op) in
    let args_len = strlen32 (chars_of args) in
    alloc_write ((12 + op_len + args_len) % u32_mod)
      (le_bytes 4 type ++ (put_string (chars_of op) ++ put_string (chars_of args)))

unfoldable pub decode_worker_req : List ℕ → Outcome WorkerReq
decode_worker_req buf = do
  guard (leb 12 (length buf))
  (type, p₁) ← read_int 4 buf
  (op_len, p₂) ← read_int 4 p₁
  guard (leb op_len (length p₂))
  (op, p₃) ← read_bytes op_len p₂
  guard (leb 4 (length p₃))
  (args, _) ← read_model p₃
  done (record { worker_type = type; op = op; args_json = args })

pub record WorkerRep : Type 0 where
  pub success : Bool
  pub result : Option (List ℕ)

-- (uint8_t)(flag ? 1 : 0), and a byte read as a flag.
abbrev pub flag_byte : Bool → ℕ
flag_byte true = 1
flag_byte false = 0

abbrev pub byte_flag : ℕ → Bool
byte_flag b = not (b == 0)

unfoldable pub encode_worker_rep : Bool → Option (List ℕ) → Outcome (List ℕ × ℕ)
encode_worker_rep success result =
    alloc_write ((5 + strlen32 (chars_of result)) % u32_mod)
      (le_bytes 1 (flag_byte success) ++ put_string (chars_of result))

unfoldable pub decode_worker_rep : List ℕ → Outcome WorkerRep
decode_worker_rep buf = do
  guard (leb 5 (length buf))
  (flag, p₁) ← read_int 1 buf
  (result, _) ← read_optional p₁
  done (record { success = byte_flag flag; result = result })

pub record ApprovalReq : Type 0 where
  pub req_corr_id : ℕ
  pub description : Option (List ℕ)

unfoldable pub encode_approval_req : ℕ → Option (List ℕ) → Outcome (List ℕ × ℕ)
encode_approval_req corr desc =
    alloc_write ((12 + strlen32 (chars_of desc)) % u32_mod)
      (le_bytes 8 corr ++ put_string (chars_of desc))

unfoldable pub decode_approval_req : List ℕ → Outcome ApprovalReq
decode_approval_req buf = do
  guard (leb 12 (length buf))
  (corr, p₁) ← read_int 8 buf
  (desc, _) ← read_optional p₁
  done (record { req_corr_id = corr; description = desc })

pub record ApprovalRep : Type 0 where
  pub req_corr_id : ℕ
  pub approved : Bool

unfoldable pub encode_approval_rep : ℕ → Bool → Outcome (List ℕ × ℕ)
encode_approval_rep corr approved =
    alloc_write 9 (le_bytes 8 corr ++ le_bytes 1 (flag_byte approved))

unfoldable pub decode_approval_rep : List ℕ → Outcome ApprovalRep
decode_approval_rep buf = do
  guard (leb 9 (length buf))
  (corr, p₁) ← read_int 8 buf
  (flag, _) ← read_int 1 p₁
  done (record { req_corr_id = corr; approved = byte_flag flag })

-- ===== src/Ipc/Payload/Safety.antt =====
-- The decoders of src/core/ipc.c stay inside the buffer, whatever bytes it holds.
use free_cli.Base.{
  ℕ, zero, suc, ◌≤◌, List, arith, inl, inr, ◌≢◌, length, leb, leb→le, ltb, Bool-cases, ◌&&◌,
}
use free_cli.Ipc.Wire.{
  Outcome, done, rejected, fault, ◌>>=◌, read_bytes, read_int, read_some, read_optional,
}
use free_cli.Ipc.Holds.{
  Holds, Any, Leaves, Holds-bind, Holds-guard, read_bytes-Holds, read_int-Holds, read_some-Holds,
}
use free_cli.Ipc.Payload.{
  read_turns, read_tail, read_model, decode_req_send, decode_rep_final, decode_worker_start,
  decode_session_rename, decode_worker_req, decode_worker_rep, decode_approval_req,
  decode_approval_rep,
}

read_optional-Holds : (p : List ℕ) → 4 ≤ length p → Holds Any (read_optional p)
unfolding read_optional
read_optional-Holds p h = Holds-bind (Leaves 4 p) Any (read_int 4 p) _ (read_int-Holds 4 p h) λ r q.
    elim (Bool-cases (ltb 0 r.0 && leb r.0 (length r.1))) [
      | inl e ↦ rw e (read_some-Holds r.0 r.1 (ground arith))
      | inr e ↦ rw e tt
    ]

read_tail-Holds : (p : List ℕ) → Holds Any (read_tail p)
unfolding read_tail
read_tail-Holds p = elim (Bool-cases (leb 4 (length p))) [
  | inl e ↦ rw e (read_optional-Holds p (leb→le 4 (length p) e))
  | inr e ↦ rw e tt
]

read_model-Holds : (p : List ℕ) → 4 ≤ length p → Holds Any (read_model p)
unfolding read_model
read_model-Holds p h = Holds-bind (Leaves 4 p) Any (read_int 4 p) _ (read_int-Holds 4 p h) λ r q.
    elim (Bool-cases (ltb 0 r.0)) [
      | inl e ↦
          rw e (Holds-guard Any r.0 (length r.1) (read_some r.0 r.1) (read_some-Holds r.0 r.1))
      | inr e ↦ rw e tt
    ]

read_turns-Holds : (n : ℕ) (p : List ℕ) → Holds Any (read_turns n p)
unfolding read_turns
read_turns-Holds zero p = tt
read_turns-Holds (suc n) p = Holds-guard Any 5 (length p) _ λ room.
    Holds-bind (Leaves 1 p) Any (read_int 1 p) _ (read_int-Holds 1 p (omega arith)) λ r₁ q₁.
      Holds-bind (Leaves 4 r₁.1) Any (read_int 4 r₁.1) _ (read_int-Holds 4 r₁.1 (omega arith))
        λ r₂ q₂. Holds-guard Any r₂.0 (length r₂.1) _ λ room'.
          Holds-bind (Leaves r₂.0 r₂.1) Any (read_bytes r₂.0 r₂.1) _
            (read_bytes-Holds r₂.0 r₂.1 room')
            λ r₃ q₃. Holds-bind Any Any (read_turns n r₃.1) _ (read_turns-Holds n r₃.1) (λ a q. tt)

-- A tail that is read last.
read_last-Holds {ℓ κ} :
    {A : Type ℓ} {B : Type κ} (m : Outcome A) (f : A → B)
    → Holds Any m
    → Holds Any (m >>= λ r. done (f r))
read_last-Holds m f h = Holds-bind Any Any m (λ r. done (f r)) h (λ a q. tt)

decode_req_send-Holds : (buf : List ℕ) → Holds Any (decode_req_send buf)
unfolding decode_req_send
decode_req_send-Holds buf = Holds-guard Any 8 (length buf) _ λ room.
    Holds-bind (Leaves 4 buf) Any (read_int 4 buf) _ (read_int-Holds 4 buf (omega arith)) λ r₁ q₁.
      Holds-bind (Leaves 4 r₁.1) Any (read_int 4 r₁.1) _ (read_int-Holds 4 r₁.1 (omega arith))
        λ r₂ q₂. Holds-bind Any Any (read_turns r₂.0 r₂.1) _ (read_turns-Holds r₂.0 r₂.1) λ r₃ _.
          Holds-bind Any Any (read_tail r₃.1) _ (read_tail-Holds r₃.1)
            λ r₄ _. read_last-Holds (read_tail r₄.1) _ (read_tail-Holds r₄.1)

decode_rep_final-Holds : (buf : List ℕ) → Holds Any (decode_rep_final buf)
unfolding decode_rep_final
decode_rep_final-Holds buf = Holds-guard Any 12 (length buf) _ λ room.
    Holds-bind (Leaves 4 buf) Any (read_int 4 buf) _ (read_int-Holds 4 buf (omega arith)) λ r₁ q₁.
      Holds-bind (Leaves 4 r₁.1) Any (read_int 4 r₁.1) _ (read_int-Holds 4 r₁.1 (omega arith))
        λ r₂ q₂. Holds-guard Any r₂.0 (length r₂.1) _ λ room'.
          Holds-bind (Leaves r₂.0 r₂.1) Any (read_bytes r₂.0 r₂.1) _
            (read_bytes-Holds r₂.0 r₂.1 room')
            λ r₃ q₃. read_last-Holds (read_tail r₃.1) _ (read_tail-Holds r₃.1)

decode_worker_start-Holds : (buf : List ℕ) → Holds Any (decode_worker_start buf)
unfolding decode_worker_start
decode_worker_start-Holds buf = Holds-guard Any 8 (length buf) _ λ room.
    Holds-bind (Leaves 8 buf) Any (read_int 8 buf) _ (read_int-Holds 8 buf room) λ r₁ q₁.
      Holds-guard Any 4 (length r₁.1) _ λ room'.
        Holds-bind Any Any (read_model r₁.1) _ (read_model-Holds r₁.1 room')
          λ r₂ _. read_last-Holds (read_tail r₂.1) _ (read_tail-Holds r₂.1)

decode_session_rename-Holds : (buf : List ℕ) → Holds Any (decode_session_rename buf)
unfolding decode_session_rename
decode_session_rename-Holds buf = Holds-guard Any 8 (length buf) _ λ room.
    Holds-bind (Leaves 4 buf) Any (read_int 4 buf) _ (read_int-Holds 4 buf (omega arith))
      λ r q. read_last-Holds (read_optional r.1) _ (read_optional-Holds r.1 (omega arith))

decode_worker_req-Holds : (buf : List ℕ) → Holds Any (decode_worker_req buf)
unfolding decode_worker_req
decode_worker_req-Holds buf = Holds-guard Any 12 (length buf) _ λ room.
    Holds-bind (Leaves 4 buf) Any (read_int 4 buf) _ (read_int-Holds 4 buf (omega arith)) λ r₁ q₁.
      Holds-bind (Leaves 4 r₁.1) Any (read_int 4 r₁.1) _ (read_int-Holds 4 r₁.1 (omega arith))
        λ r₂ q₂. Holds-guard Any r₂.0 (length r₂.1) _ λ room'.
          Holds-bind (Leaves r₂.0 r₂.1) Any (read_bytes r₂.0 r₂.1) _
            (read_bytes-Holds r₂.0 r₂.1 room')
            λ r₃ q₃.
              Holds-guard Any 4 (length r₃.1) _
                λ room''. read_last-Holds (read_model r₃.1) _ (read_model-Holds r₃.1 room'')

decode_worker_rep-Holds : (buf : List ℕ) → Holds Any (decode_worker_rep buf)
unfolding decode_worker_rep
decode_worker_rep-Holds buf = Holds-guard Any 5 (length buf) _ λ room.
    Holds-bind (Leaves 1 buf) Any (read_int 1 buf) _ (read_int-Holds 1 buf (omega arith))
      λ r q. read_last-Holds (read_optional r.1) _ (read_optional-Holds r.1 (omega arith))

decode_approval_req-Holds : (buf : List ℕ) → Holds Any (decode_approval_req buf)
unfolding decode_approval_req
decode_approval_req-Holds buf = Holds-guard Any 12 (length buf) _ λ room.
    Holds-bind (Leaves 8 buf) Any (read_int 8 buf) _ (read_int-Holds 8 buf (omega arith))
      λ r q. read_last-Holds (read_optional r.1) _ (read_optional-Holds r.1 (omega arith))

decode_approval_rep-Holds : (buf : List ℕ) → Holds Any (decode_approval_rep buf)
unfolding decode_approval_rep
decode_approval_rep-Holds buf = Holds-guard Any 9 (length buf) _ λ room.
    Holds-bind (Leaves 8 buf) Any (read_int 8 buf) _ (read_int-Holds 8 buf (omega arith)) λ r q.
      Holds-bind (Leaves 1 r.1) Any (read_int 1 r.1) _ (read_int-Holds 1 r.1 (omega arith))
        (λ a k. tt)

Holds-ne-fault {ℓ} : {A : Type ℓ} (m : Outcome A) → Holds Any m → m ≢ fault
Holds-ne-fault (done a) h e = cc
Holds-ne-fault rejected h e = cc
Holds-ne-fault fault h e = h

-- No decoder reads outside its buffer, whatever bytes a peer sends, be they cut short or with
-- lengths that lie.
pub decoders_safe :
    (buf : List ℕ)
    → (decode_req_send buf ≢ fault)
      × (decode_rep_final buf ≢ fault)
      × (decode_worker_start buf ≢ fault)
      × (decode_session_rename buf ≢ fault)
      × (decode_worker_req buf ≢ fault)
      × (decode_worker_rep buf ≢ fault)
      × (decode_approval_req buf ≢ fault)
      × (decode_approval_rep buf ≢ fault)
decoders_safe buf = (
  Holds-ne-fault (decode_req_send buf) (decode_req_send-Holds buf),
  Holds-ne-fault (decode_rep_final buf) (decode_rep_final-Holds buf),
  Holds-ne-fault (decode_worker_start buf) (decode_worker_start-Holds buf),
  Holds-ne-fault (decode_session_rename buf) (decode_session_rename-Holds buf),
  Holds-ne-fault (decode_worker_req buf) (decode_worker_req-Holds buf),
  Holds-ne-fault (decode_worker_rep buf) (decode_worker_rep-Holds buf),
  Holds-ne-fault (decode_approval_req buf) (decode_approval_req-Holds buf),
  Holds-ne-fault (decode_approval_rep buf) (decode_approval_rep-Holds buf),
)

-- ===== src/Backend/Loop.antt =====
-- The message loop of the backend (main of src/backend/backend.c): what it does with one message.
use free_cli.Base.{
  ℕ, ◌+◌, ◌<◌, ◌≡◌, refl, ap, sym, Bool, List, Option, none, some, ◌==◌, if◌then◌else◌, All,
}
use free_cli.Ipc.Types.{msg_req_send, msg_worker_req, msg_approval_rep}
use free_cli.Ipc.Wire.{Outcome, done, rejected, fault, u32_mod, u64_mod, chars_of}
use free_cli.Ipc.Payload.{
  ReqSend, encode_req_send, encode_worker_req, decode_req_send, ApprovalRep, encode_approval_rep,
  decode_approval_rep,
}
use free_cli.Ipc.Payload.RoundTrip.{approval_rep_round_trip}
use free_cli.Ipc.Payload.Fields.{size_of, received}
use free_cli.Ipc.Payload.History.{HasByteFlag, turns_size, req_send_round_trip}
use free_cli.Ipc.Frame.{IpcMsg, payload_bytes}
use free_cli.Worker.{
  BackendWorker, Dispatch, bw_registry_find, dispatch_to, bw_dispatch_msg, with_payload,
}
use free_cli.Worker.Registry.{worker_req_dispatched}
use free_cli.Worker.Reply.{with_payload-Carries}
use free_cli.Worker.Approval.{PendingApproval, bw_notify_approval}
use free_cli.Backend.{RequestArg}

-- A thread on a chat request, the worker bus, a decision on the table of approvals, or nothing.
pub data Action : Type 0 where
  start : RequestArg → Action
  to_worker : Dispatch → Action
  decide : List PendingApproval → Action
  ignore : Action
  crash : Action

unfoldable pub on_request : ℕ → Outcome ReqSend → Action
on_request corr rejected = ignore
on_request corr fault = crash
on_request corr (done r) = start (record {
  corr_id = corr;
  session_idx = r.session_idx;
  turns = r.turns;
  model = r.model;
  provider_id = r.provider;
})

unfoldable pub on_approval : List PendingApproval → Outcome ApprovalRep → Action
on_approval approvals rejected = ignore
on_approval approvals fault = crash
on_approval approvals (done r) = decide (bw_notify_approval approvals r.req_corr_id r.approved)

unfoldable pub on_approval_payload : List PendingApproval → Option (List ℕ) → Action
on_approval_payload approvals none = ignore
on_approval_payload approvals (some p) = on_approval approvals (decode_approval_rep p)

unfoldable pub on_message : List BackendWorker → Bool → List PendingApproval → IpcMsg → Action
on_message registry threads approvals m =
    if m.type == msg_req_send
    then on_request m.corr_id (decode_req_send (payload_bytes m.payload))
    else if m.type == msg_worker_req
    then to_worker (bw_dispatch_msg registry threads (some m))
    else if m.type == msg_approval_rep
    then on_approval_payload approvals m.payload
    else ignore

decoded_payload :
    (approvals : List PendingApproval) (p : Option (List ℕ)) (r : ApprovalRep)
    → decode_approval_rep (payload_bytes p) ≡ done r
    → on_approval_payload approvals p
      ≡ decide (bw_notify_approval approvals r.req_corr_id r.approved)
unfolding on_approval_payload on_approval decode_approval_rep
decoded_payload approvals none r h = cc
decoded_payload approvals (some p) r h = rw h refl

-- A chat request that the TUI encodes, where it fits 32 bits, starts a thread with the session,
-- the messages, the model and the provider that were sent; and an approval that the TUI encodes
-- decides the table of approvals for the id and with the answer that were sent.
pub on_message_lem :
    (registry : List BackendWorker) (threads : Bool) (approvals : List PendingApproval) (corr : ℕ)
    (r : ReqSend) (id : ℕ) (ok : Bool)
    → r.session_idx < u32_mod
    → All HasByteFlag r.turns
    → 16 + turns_size r.turns + size_of r.model + size_of r.provider < u32_mod
    → id < u64_mod
    → ((m : IpcMsg) × (with_payload msg_req_send corr (encode_req_send r) ≡ done m)
        × (on_message registry threads approvals m
            ≡ start (record {
              corr_id = corr;
              session_idx = r.session_idx;
              turns = r.turns;
              model = received r.model;
              provider_id = received r.provider;
            })))
      × ((m : IpcMsg) × (with_payload msg_approval_rep corr (encode_approval_rep id ok) ≡ done m)
          × (on_message registry threads approvals m ≡ decide (bw_notify_approval approvals id ok)))
unfolding on_message on_request
on_message_lem registry threads approvals corr r id ok a b c d =
    let (m, e, (t, n, q)) =
      with_payload-Carries msg_req_send corr _ decode_req_send _ (req_send_round_trip r a b c) in
    let (m', e', (t', n', q')) =
      with_payload-Carries msg_approval_rep corr _ decode_approval_rep _
        (approval_rep_round_trip id ok d) in
    ((m, e, rw (t, n, q) refl), (m', e', rw t' (decoded_payload approvals m'.payload _ q')))

-- The type of a message, if there is one.
abbrev type_or : ℕ → Outcome IpcMsg → ℕ
type_or type rejected = type
type_or type fault = type
type_or type (done m) = m.type

type-with_payload :
    (type corr : ℕ) (encoded : Outcome (List ℕ × ℕ)) (m : IpcMsg)
    → with_payload type corr encoded ≡ done m
    → m.type ≡ type
unfolding with_payload
type-with_payload type corr (done (buf, len)) m e = sym (ap (type_or type) e)
type-with_payload type corr rejected m e = sym (ap (type_or type) e)
type-with_payload type corr fault m e = sym (ap (type_or type) e)

-- A worker request of the UI's goes to the worker bus.
pub on_worker_req_lem :
    (registry : List BackendWorker) (threads : Bool) (approvals : List PendingApproval)
    (corr type : ℕ) (op args : Option (List ℕ))
    → type < u32_mod
    → 12 + size_of op + size_of args < u32_mod
    → (m : IpcMsg) × (with_payload msg_worker_req corr (encode_worker_req type op args) ≡ done m)
      × (on_message registry threads approvals m
          ≡ to_worker (
              dispatch_to threads corr
                (record { worker_type = type; op = chars_of op; args_json = received args })
                (bw_registry_find registry type)))
unfolding on_message
on_worker_req_lem registry threads approvals corr type op args h k =
    let (m, e, d) = worker_req_dispatched registry corr type op args h k in
    (m, e, rw (type-with_payload msg_worker_req corr _ m e) (ap to_worker (d threads)))

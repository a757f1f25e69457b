-- ===== src/Tui/Keys/Approve.antt =====
-- An approval from the worker's request to the decision in the table of the backend (the loop and
-- check_ipc of src/ui/main.c).
use free_cli.Base.{
  ℕ, ◌+◌, ◌<◌, ◌≡◌, ◌≢◌, refl, ap, ◌∙◌, Bool, true, false, not, ◌&&◌, ◌||◌, List, [], ◌∷◌, Option,
  none, some, arith, ◌==◌, if◌then◌else◌, ℤ, take, bytes,
}
use free_cli.Ipc.Types.{msg_approval_req, msg_approval_rep}
use free_cli.Ipc.Wire.{done, u32_mod, u64_mod}
use free_cli.Ipc.Payload.{ReqSend, ApprovalReq, decode_approval_req, encode_approval_rep}
use free_cli.Ipc.Payload.Fields.{size_of, received}
use free_cli.Ipc.Frame.{IpcMsg, payload_bytes}
use free_cli.Worker.{BackendWorker, or_else, with_payload, approval_message}
use free_cli.Worker.Reply.{approval_message_lem}
use free_cli.Worker.Approval.{PendingApproval, bw_notify_approval}
use free_cli.Backend.Loop as Backend
use free_cli.Backend.Loop.{on_message_lem}
use free_cli.Fs.{CJson}
use free_cli.Tui.{Ui, sent, next}
use free_cli.Tui.Receive.{given, on_approval_req, on_message}
use free_cli.Tui.Keys.{LoopKeys, goes, is_yes, is_no, approval_sent, answer_approval, handle_key}

-- The state with a request pending.
abbrev asked : Ui → ApprovalReq → Ui
asked u r = record u {
  pending_approval_corr = r.req_corr_id;
  pending_approval_desc = take 511 (or_else r.description (bytes "unknown operation"));
}

given_request :
    (u : Ui) (p : Option (List ℕ)) (r : ApprovalReq)
    → decode_approval_req (payload_bytes p) ≡ done r
    → given u p (λ buf. on_approval_req u (decode_approval_req buf)) ≡ next (asked u r) []
unfolding given decode_approval_req on_approval_req
given_request u none r h = absurd cc
given_request u (some buf) r h = ap (on_approval_req u) h

-- A request that the UI receives is pending.
request_pends :
    (u : Ui) (m : IpcMsg) (r : ApprovalReq)
    → m.type ≡ msg_approval_req
    → decode_approval_req (payload_bytes m.payload) ≡ done r
    → on_message u m ≡ next (asked u r) []
unfolding on_message
request_pends u m r t h = rw t (given_request u m.payload r h)

-- A pending request takes the keys of an answer.
answer_taken :
    {V : Type 0} (k : LoopKeys) (json : CJson V) (u : Ui) (ch : ℕ) (picked : ℤ)
    → u.pending_approval_corr ≢ 0
    → ch ≢ k.key_resize
    → (is_yes ch || is_no ch) ≡ true
    → handle_key k json u ch picked ≡ goes (answer_approval u (is_yes ch))
unfolding handle_key
answer_taken k json u ch picked pending n answer =
    let no_resize : (ch == k.key_resize) ≡ false = ground arith in
    let open_request : (u.pending_approval_corr == 0) ≡ false = ground arith in
    let both : (not (u.pending_approval_corr == 0) && (is_yes ch || is_no ch)) ≡ true =
      rw open_request (rw answer refl) in
    rw no_resize (rw both refl)

answer_sent :
    (u : Ui) (ok : Bool) (m : IpcMsg)
    → u.connected ≡ true
    → with_payload msg_approval_rep u.pending_approval_corr
        (encode_approval_rep u.pending_approval_corr ok)
      ≡ done m
    → answer_approval u ok
      ≡ next (record u { pending_approval_corr = 0; pending_approval_desc = [] }) (sent m ∷ [])
unfolding answer_approval approval_sent
answer_sent u ok m on built =
    let out : (if u.connected then sent m ∷ [] else []) ≡ sent m ∷ [] = rw on refl in
    rw built (ap (next (record u { pending_approval_corr = 0; pending_approval_desc = [] })) out)

abbrev no_request : ReqSend
no_request = record { session_idx = 0; turns = []; model = none; provider = none }

-- A worker's request for an approval, whose id is not 0 and whose description fits, is pending
-- once the connected UI received it; the key y or n, or its capital, sends one message, after
-- which none is pending, and the backend enters that decision under the id.
pub approval_round_trip :
    {V : Type 0} (registry : List BackendWorker) (threads : Bool) (approvals : List PendingApproval)
    (k : LoopKeys) (json : CJson V) (u : Ui) (corr ch : ℕ) (description : Option (List ℕ))
    (picked : ℤ)
    → u.connected ≡ true
    → corr ≢ 0
    → corr < u64_mod
    → 12 + size_of (some (or_else description [])) < u32_mod
    → ch ≢ k.key_resize
    → (is_yes ch || is_no ch) ≡ true
    → (asks answers : IpcMsg) × (u' : Ui) × (approval_message corr description ≡ done (asks ∷ []))
      × (on_message u asks ≡ next u' [])
      × (handle_key k json u' ch picked
          ≡ goes (
              next
                (record u { pending_approval_corr = 0; pending_approval_desc = [] })
                (sent answers ∷ [])))
      × (Backend.on_message registry threads approvals answers
          ≡ Backend.decide (bw_notify_approval approvals corr (is_yes ch)))
approval_round_trip registry threads approvals k json u corr ch description picked on n h fits r
      answer =
    let (m, e, (t, _, p)) = approval_message_lem corr description h fits in
    let request : ApprovalReq = record {
      req_corr_id = corr;
      description = received (some (or_else description []));
    } in
    let (_, (m', built, decided)) =
      on_message_lem registry threads approvals corr no_request corr (is_yes ch) (omega arith) tt
        (omega arith) h in
    (
      m,
      m',
      asked u request,
      e,
      request_pends u m request t p,
      answer_taken k json (asked u request) ch picked n r answer
          ∙ ap goes (answer_sent (asked u request) (is_yes ch) m' on built),
      decided,
    )

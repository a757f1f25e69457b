-- ===== src/Tui/Receive.antt =====
-- What the UI does with the messages of the backend (check_ipc of src/ui/main.c).
pub mod Replies
pub mod Errors
pub mod Partial
use free_cli.Base.{
  ℕ, zero, suc, ◌+◌, ◌-◌, ◌*◌, Bool, true, false, not, ◌&&◌, List, [], ◌∷◌, ◌++◌, Option, none,
  some, ltb, leb, ◌==◌, if◌then◌else◌, length, take, set, get_elem?, ℤ, pos, negsuc, str_eq, bytes,
}
use mathlib.Core.Option
use mathlib.Core.List.{map}
use free_cli.Ipc.Types.{
  msg_rep_final, msg_rep_error, msg_worker_start, msg_worker_end, msg_session_rename,
  msg_worker_rep, msg_approval_req,
}
use free_cli.Ipc.Wire.{Outcome, done, rejected, fault, u32_mod}
use free_cli.Ipc.Payload.{
  RepFinal, decode_rep_final, WorkerStart, decode_worker_start, WorkerRep, decode_worker_rep,
  ApprovalReq, decode_approval_req, SessionRename, decode_session_rename,
}
use free_cli.Ipc.Frame.{IpcMsg, Recv, message, no_data, broken, stuck}
use free_cli.Worker.{or_else}
use free_cli.Chat.{ChatBuffer, chat_add, chat_add_r, chat_remove_last}
use free_cli.Session.{Session, SessionManager, in_range, sm_active_session}
use free_cli.Commands.{decimal, update_active}
use free_cli.Fs.{after_prefix, bind}
use free_cli.Tui.{InFlight, PendingChoices, Ui, wrote_all, wrote_session, Turn, next, outside}
use free_cli.Tui.Requests.{max_in_flight, inflight_add_sub, inflight_remove, inflight_find_sidx}
use free_cli.Tui.Submit.{int_of}
use free_cli.Tui.Choices.{detect_choices, read_number}
use free_cli.Tui.Rename.{
  is_decimal, is_int, is_default_name, topic_name, rename_at, rename_in, rename_to,
  on_session_rename,
}

-- `real_sidx >= 0 ? real_sidx : sidx`
unfoldable pub known_or : ℤ → ℤ → ℤ
known_or (pos i) hint = pos i
known_or (negsuc n) hint = hint

-- The session whose chat an answer goes to: the one at an index, none, or an access outside the
-- array, where the test `(int)sidx < count` lets a negative index pass.
pub data Target : Type 0 where
  at : ℕ → Target
  nobody : Target
  beyond : Target

unfoldable pub active_target : SessionManager → Target
active_target sm = elim (in_range sm.active sm.count) [ none ↦ nobody | some i ↦ at i ]

unfoldable pub final_target : SessionManager → ℤ → Target
final_target sm (pos i) = if ltb i sm.count then at i else active_target sm
final_target sm (negsuc n) = beyond

unfoldable pub error_target : SessionManager → ℤ → Target
error_target sm sidx = elim (in_range sidx sm.count) [ none ↦ active_target sm | some i ↦ at i ]

-- The chat at an index, changed.
unfoldable pub change_chat :
    SessionManager → ℕ → (ChatBuffer → Option ChatBuffer) → Option SessionManager
change_chat sm i f = elim (get_elem? sm.sessions i) [
  | none ↦ none
  | some s ↦
      Option.map (λ chat. record sm { sessions = set sm.sessions i (record s { chat = chat }) })
        (f s.chat)
]

unfoldable pub reply_text : List ℕ → List ℕ
reply_text [] = bytes "(no response)"
reply_text (c ∷ cs) = c ∷ cs

-- The answer takes the place of the last message, which is the placeholder.
unfoldable pub put_answer : List ℕ → Option (List ℕ) → ChatBuffer → Option ChatBuffer
put_answer text reasoning cb =
    Option.map (λ (t : ChatBuffer). record t { scroll = pos 0 })
      (chat_add_r (chat_remove_last cb) text false reasoning)

unfoldable pub offered : ℤ → List (List ℕ) → Option PendingChoices
offered sidx [] = none
offered sidx (c ∷ cs) = some (record { session_idx = sidx; choices = c ∷ cs; selected = 0 })

-- The choices that the reply offers, unless others are pending.
unfoldable pub choices_after : Option PendingChoices → ℤ → List ℕ → Option PendingChoices
choices_after (some p) sidx text = some p
choices_after none sidx text = bind (detect_choices text) (offered sidx)

unfoldable pub answered : Ui → ℤ → List ℕ → Option SessionManager → Turn
answered u sidx text none = outside
answered u sidx text (some sm) =
    next (record u { sessions = sm; pending_choices = choices_after u.pending_choices sidx text })
      (wrote_session sm sidx ∷ [])

unfoldable pub final_to : Ui → ℤ → List ℕ → Option (List ℕ) → Target → Turn
final_to u sidx text reasoning nobody = next u []
final_to u sidx text reasoning beyond = outside
final_to u sidx text reasoning (at i) =
    answered u sidx text (change_chat u.sessions i (put_answer text reasoning))

unfoldable pub on_rep_final : Ui → ℕ → Outcome RepFinal → Turn
on_rep_final u corr_id rejected = next u []
on_rep_final u corr_id fault = outside
on_rep_final u corr_id (done r) =
    let (table, found) = inflight_remove u.in_flight corr_id in
    let sidx = known_or found (int_of r.session_idx) in
    final_to (record u { in_flight = table }) sidx (reply_text r.content) r.reasoning
      (final_target u.sessions sidx)

-- The bytes before the first terminator; without one, what is read lies outside.
unfoldable pub c_string : List ℕ → Option (List ℕ)
c_string [] = none
c_string (c ∷ cs) = if c == 0 then some [] else Option.map (λ s. c ∷ s) (c_string cs)

-- `(const char *)msg.payload`, and else a text of its own.
unfoldable pub error_text : Option (List ℕ) → Option (List ℕ)
error_text none = some (bytes "backend error")
error_text (some p) = c_string p

unfoldable pub put_error : Option (List ℕ) → ChatBuffer → Option ChatBuffer
put_error text cb = bind text (λ err. chat_add (chat_remove_last cb) err false)

unfoldable pub failed : Ui → Option SessionManager → Turn
failed u none = outside
failed u (some sm) = next (record u { sessions = sm }) []

unfoldable pub error_to : Ui → Option (List ℕ) → Target → Turn
error_to u text nobody = next u []
error_to u text beyond = outside
error_to u text (at i) = failed u (change_chat u.sessions i (put_error text))

unfoldable pub on_rep_error : Ui → ℕ → Option (List ℕ) → Turn
on_rep_error u corr_id payload =
    let (table, sidx) = inflight_remove u.in_flight corr_id in
    error_to (record u { in_flight = table }) (error_text payload) (error_target u.sessions sidx)

unfoldable pub on_worker_start : Ui → ℕ → Outcome WorkerStart → Turn
on_worker_start u corr_id rejected = next u []
on_worker_start u corr_id fault = outside
on_worker_start u corr_id (done r) =
    next
      (record u {
        in_flight =
            inflight_add_sub u.in_flight corr_id r.parent_corr_id
              (known_or (inflight_find_sidx u.in_flight r.parent_corr_id) u.sessions.active) r.model
              r.description;
      })
      []

unfoldable pub worker_text : Bool → List ℕ → List ℕ
worker_text success result =
    take 4095 ((if success then bytes "[worker] " else bytes "[worker error] ") ++ result)

-- A result that is not empty joins the active chat.
unfoldable pub say_result : Ui → Bool → Option (List ℕ) → Target → Turn
say_result u success none target = next u []
say_result u success (some []) target = next u []
say_result u success (some (c ∷ cs)) nobody = next u []
say_result u success (some (c ∷ cs)) beyond = outside
say_result u success (some (c ∷ cs)) (at i) =
    failed u (change_chat u.sessions i (λ cb. chat_add cb (worker_text success (c ∷ cs)) false))

unfoldable pub on_worker_rep : Ui → Outcome WorkerRep → Turn
on_worker_rep u rejected = next u []
on_worker_rep u fault = outside
on_worker_rep u (done r) = say_result u r.success r.result (active_target u.sessions)

-- snprintf into 512 bytes.
unfoldable pub on_approval_req : Ui → Outcome ApprovalReq → Turn
on_approval_req u rejected = next u []
on_approval_req u fault = outside
on_approval_req u (done r) =
    next
      (record u {
        pending_approval_corr = r.req_corr_id;
        pending_approval_desc = take 511 (or_else r.description (bytes "unknown operation"));
      })
      []

-- `msg.type == … && msg.payload`
unfoldable pub given : Ui → Option (List ℕ) → (List ℕ → Turn) → Turn
given u none f = next u []
given u (some p) f = f p

unfoldable pub on_message : Ui → IpcMsg → Turn
on_message u m =
    if m.type == msg_rep_final
    then given u m.payload (λ p. on_rep_final u m.corr_id (decode_rep_final p))
    else if m.type == msg_rep_error
    then on_rep_error u m.corr_id m.payload
    else if m.type == msg_worker_start
    then given u m.payload (λ p. on_worker_start u m.corr_id (decode_worker_start p))
    else if m.type == msg_worker_end
    then next (record u { in_flight = (inflight_remove u.in_flight m.corr_id).0 }) []
    else if m.type == msg_worker_rep
    then given u m.payload (λ p. on_worker_rep u (decode_worker_rep p))
    else if m.type == msg_approval_req
    then given u m.payload (λ p. on_approval_req u (decode_approval_req p))
    else if m.type == msg_session_rename
    then given u m.payload (λ p. on_session_rename u (decode_session_rename p))
    else next u []

-- The connection is gone, and with it every request in flight.
unfoldable pub disconnected : Ui → Ui
disconnected u = record u {
  connected = false;
  in_flight = map (λ (e : InFlight). record e { active = false }) u.in_flight;
}

unfoldable pub on_recv : Ui → Recv → Turn
on_recv u (message m rest) = on_message u m
on_recv u no_data = next u []
on_recv u broken = next (disconnected u) []
on_recv u stuck = outside

unfoldable pub check_ipc : Ui → Recv → Turn
check_ipc u r = if u.connected then on_recv u r else next u []

-- ===== src/Tui/Submit.antt =====
-- How the UI sends a chat request (submit_text, accept_choice and new_session of src/ui/main.c).
pub mod Requests
pub mod Starts
use free_cli.Base.{
  ltb, ◌*◌, ℕ, ◌+◌, ◌-◌, ◌%◌, ◌^◌, Bool, true, false, not, ◌&&◌, List, [], ◌∷◌, ◌++◌, Option, none,
  some, ◌==◌, if◌then◌else◌, length, take, get_elem?, ℤ, pos, negsuc, bytes,
}
use mathlib.Core.List.{map}
use free_cli.Ipc.Types.{msg_req_send}
use free_cli.Ipc.Wire.{Outcome, done, rejected, fault, chars_of, u32_mod, u64_mod}
use free_cli.Ipc.Payload as Payload
use free_cli.Ipc.Payload.{ReqSend, encode_req_send, flag_byte}
use free_cli.Ipc.Frame.{IpcMsg}
use free_cli.Worker.{with_payload}
use free_cli.Chat.{Message, ChatBuffer, chat_add}
use free_cli.Session.{
  Session, SessionManager, in_range, sm_active_session, sm_new_session, sm_select,
}
use free_cli.Commands.{update_active, decimal}
use free_cli.Fs.{bind}
use free_cli.Tui.{PendingChoices, Ui, Output, wrote_all, sent, Turn, next, too_large, outside}
use free_cli.Tui.Requests.{inflight_add, inflight_session_active}

-- The placeholder for the answer.
abbrev pub waiting : List ℕ
waiting = 46 ∷ 46 ∷ 46 ∷ []

-- A conversion from int to uint32_t.
unfoldable pub u32_of : ℤ → ℕ
u32_of (pos n) = n % u32_mod
u32_of (negsuc n) = u32_mod - 1 - n % u32_mod

-- A conversion from uint32_t to int.
unfoldable pub int_of : ℕ → ℤ
int_of n = if ltb (n * 2) u32_mod then pos n else negsuc (u32_mod - 1 - n)

-- `corr = next_corr++; inflight_add(corr, active, name); ipc_send(...)`, if there is a payload.
unfoldable pub start_request : Ui → List ℕ → Outcome IpcMsg → Turn
start_request u name rejected = next u []
start_request u name fault = too_large
start_request u name (done m) =
    next
      (record u {
        next_corr = (u.next_corr + 1) % u64_mod;
        in_flight = inflight_add u.in_flight u.next_corr u.sessions.active (some name);
      })
      (sent m ∷ [])

-- `texts[i]` and `is_user[i]`; every message of the UI has a text.
abbrev pub turn_of : Message → Payload.Turn
turn_of m = record { is_user = flag_byte m.is_user; text = chars_of m.text }

-- The request for the messages but the last one, which is the placeholder.
unfoldable pub request_of : Ui → ChatBuffer → ReqSend
request_of u cb = record {
  session_idx = u32_of u.sessions.active;
  turns = map turn_of (take (length cb.msgs - 1) cb.msgs);
  model = some u.selected_model;
  provider = some u.selected_provider;
}

unfoldable pub with_question : ChatBuffer → List ℕ → Option ChatBuffer
with_question cb text = bind (chat_add cb text true) (λ asked. chat_add asked waiting false)

unfoldable pub send_question : Ui → Session → Option ChatBuffer → Turn
send_question u s none = outside
send_question u s (some cb) =
    start_request (record u { sessions = update_active u.sessions (λ t. record t { chat = cb }) })
      s.name (with_payload msg_req_send u.next_corr (encode_req_send (request_of u cb)))

-- From the test of ipc_fd on; submit_message has a copy of this code.
unfoldable pub try_send : Ui → Session → List ℕ → Turn
try_send u s text =
    if u.connected && not (inflight_session_active u.in_flight u.sessions.active)
    then send_question u s (with_question s.chat text)
    else next u []

unfoldable pub submit_to : Ui → List ℕ → Option Session → Turn
submit_to u text none = next u []
submit_to u text (some s) = try_send u s text

unfoldable pub submit_text : Ui → List ℕ → Turn
submit_text u text =
    if length text == 0 then next u [] else submit_to u text (sm_active_session u.sessions)

unfoldable pub accept_in : Ui → List ℕ → Option ℕ → Turn
accept_in u chosen none = next u []
accept_in u chosen (some i) =
    submit_text
      (record u {
        pending_choices = none;
        sessions = record (sm_select u.sessions (pos i)) { active = pos i };
      })
      chosen

unfoldable pub accept_from : Ui → PendingChoices → Option (List ℕ) → Turn
accept_from u p none = next u []
accept_from u p (some chosen) = accept_in u chosen (in_range p.session_idx u.sessions.count)

unfoldable pub accept_choice : Ui → ℕ → Turn
accept_choice u idx = elim u.pending_choices [
  | none ↦ next u []
  | some p ↦ accept_from u p (get_elem? p.choices idx)
]

unfoldable pub opened : Ui → SessionManager × ℤ → Turn
opened u (sm, negsuc n) = next (record u { sessions = sm }) []
opened u (sm, pos idx) =
    let sm' = sm_select sm (pos idx) in
    next (record u { sessions = sm'; sidebar_sel = pos idx; focus = 2 }) (wrote_all sm' ∷ [])

unfoldable pub new_session : Ui → Turn
new_session u =
    opened u (sm_new_session u.sessions (take 63 (bytes "Chat " ++ decimal (u.sessions.count + 1))))

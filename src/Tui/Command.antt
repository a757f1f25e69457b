-- ===== src/Tui/Command.antt =====
-- What the UI does with a line (submit_message of src/ui/main.c): the callbacks of a command, and a
-- chat request for any other line. `picked` is what the popup of a command returns.
pub mod Sidebar
pub mod Arguments
pub mod Files
pub mod Typed
use free_cli.Base.{
  ℕ, zero, ◌-◌, Bool, true, false, not, List, [], ◌∷◌, Option, none, some, ◌==◌, if◌then◌else◌,
  length, take, ℤ, pos, negsuc,
}
use free_cli.Ipc.Types.{msg_worker_req, msg_req_send}
use free_cli.Ipc.Payload.{ReqSend, encode_req_send, encode_worker_req}
use free_cli.Worker.{with_payload}
use free_cli.Session.{Session, SessionManager, sm_active_session}
use free_cli.Input.{input_reset}
use free_cli.Fs.{CJson}
use free_cli.Commands as Commands
use free_cli.Commands.{CmdCtx, Handled, handled, not_command, cmd_dispatch}
use free_cli.Tui.{Ui, Output, wrote_all, wrote_session, Turn, next, outside, and_then}
use free_cli.Tui.Submit.{start_request, u32_of, turn_of, waiting}
use free_cli.Tui.Requests.{inflight_session_active}
use free_cli.Chat.{ChatBuffer, chat_add}
use free_cli.Fs.{bind}
use free_cli.Commands.{update_active}
use mathlib.Core.List.{map}
use free_cli.Tui.Delete.{do_delete_session}

unfoldable pub do_save : SessionManager → ℤ → Output
do_save sm (negsuc zero) = wrote_all sm
do_save sm idx = wrote_session sm idx

unfoldable pub do_set_model : Ui → List ℕ → Ui
do_set_model u [] = u
do_set_model u (c ∷ cs) = record u { selected_model = take 63 (c ∷ cs) }

unfoldable pub do_set_provider : Ui → List ℕ → Ui
do_set_provider u [] = u
do_set_provider u (c ∷ cs) = record u { selected_provider = take 31 (c ∷ cs) }

unfoldable pub do_send_worker_req : Ui → ℕ → List ℕ → List ℕ → Turn
do_send_worker_req u worker_type op args_json =
    if u.connected
    then start_request u op (
        with_payload msg_worker_req u.next_corr
          (encode_worker_req worker_type (some op) (some args_json)))
    else next u []

unfoldable pub run_callback : Ui → Commands.Effect → Turn
run_callback u Commands.draw = next u []
run_callback u (Commands.save_session idx) = next u (do_save u.sessions idx ∷ [])
run_callback u (Commands.delete_session idx) =
    let (u', outputs) = do_delete_session u idx in next u' outputs
run_callback u (Commands.set_provider id) = next (do_set_provider u id) []
run_callback u (Commands.set_model model) = next (do_set_model u model) []
run_callback u (Commands.send_worker_req worker_type op args_json) =
    do_send_worker_req u worker_type op args_json

unfoldable pub run_callbacks : Ui → List Commands.Effect → Turn
run_callbacks u [] = next u []
run_callbacks u (e ∷ es) = and_then (run_callback u e) (λ v. run_callbacks v es)

-- The context of a command; send_worker_req returns the id that it takes.
unfoldable pub ctx_of : Ui → CmdCtx
ctx_of u = record {
  sessions = u.sessions;
  sidebar_sel = u.sidebar_sel;
  focus = u.focus;
  current_model = some u.selected_model;
  current_provider = some u.selected_provider;
  has_delete = true;
  has_set_model = true;
  has_set_provider = true;
  has_worker_req = true;
  reply = if u.connected then u.next_corr else 0;
}

unfoldable pub finish_command : Ui → Handled → Turn
finish_command u not_command = next u []
finish_command u Handled.overrun = outside
finish_command u (handled ctx effects) =
    run_callbacks
      (record u { sessions = ctx.sessions; sidebar_sel = ctx.sidebar_sel; focus = ctx.focus })
      effects

unfoldable pub starts_slash : List ℕ → Bool
starts_slash [] = false
starts_slash (c ∷ cs) = c == b'/'

-- submit_message has its own copy of the code that sends a question: the request,
unfoldable pub typed_request : Ui → ChatBuffer → ReqSend
typed_request u cb = record {
  session_idx = u32_of u.sessions.active;
  turns = map turn_of (take (length cb.msgs - 1) cb.msgs);
  model = some u.selected_model;
  provider = some u.selected_provider;
}

-- the message and the entry in the table,
unfoldable pub send_typed_in : Ui → Session → Option ChatBuffer → Turn
send_typed_in u s none = outside
send_typed_in u s (some cb) =
    let asked = record u { sessions = update_active u.sessions (λ t. record t { chat = cb }) } in
    start_request asked s.name
      (with_payload msg_req_send u.next_corr (encode_req_send (typed_request u cb)))

-- and the tests of the connection and of the requests that wait.
unfoldable pub send_typed : Ui → Session → List ℕ → Turn
send_typed u s text =
    let chat = bind (chat_add s.chat text true) (λ cb. chat_add cb waiting false) in
    if not u.connected
    then next u []
    else if inflight_session_active u.in_flight u.sessions.active
    then next u []
    else send_typed_in u s chat

module _ {V : Type 0} (json : CJson V) where
  unfoldable pub submit_command : Ui → List ℕ → ℤ → Turn
  submit_command u line picked =
      finish_command u (cmd_dispatch json (ctx_of u) (some (take 255 line)) picked)

  unfoldable pub submit_line : Ui → ℤ → Option Session → Turn
  submit_line u picked none = next u []
  submit_line u picked (some s) =
      let line = u.input_line.buffer in
      let u' = record u { input_line = input_reset u.input_line } in
      if u.input_line.len == 0
      then next u []
      else if starts_slash line
      then submit_command u' line picked
      else send_typed (record u' { pending_choices = none }) s (take 1023 line)

  unfoldable pub submit_message : Ui → ℤ → Turn
  submit_message u picked = submit_line u picked (sm_active_session u.sessions)

-- ===== src/Tui/Keys.antt =====
-- The main loop of src/ui/main.c: its start, what it does with a key or a tick, and its end.
pub mod Approve
pub mod Moves
pub mod Quit
pub mod Restart
pub mod Run
use free_cli.Base.{
  ℕ, zero, suc, ◌+◌, ◌-◌, Bool, true, false, not, ◌&&◌, ◌||◌, List, [], ◌∷◌, ◌++◌, Option, none,
  some, ltb, leb, ◌==◌, if◌then◌else◌, length, ℤ, pos, negsuc, ◌+ℤ◌, ltb_ℤ, sub_ℕ, bytes,
}
use mathlib.Core.Option
use free_cli.Ipc.Types.{msg_approval_rep}
use free_cli.Ipc.Wire.{Outcome, done, rejected, fault}
use free_cli.Ipc.Payload.{encode_approval_rep}
use free_cli.Ipc.Frame.{IpcMsg, Recv}
use free_cli.Worker.{with_payload}
use free_cli.Chat.{chat_scroll}
use free_cli.Session.{Session, SessionManager, sm_init, sm_new_session, sm_select}
use free_cli.Input as Input
use free_cli.Input.{InputLine, input_init, input_handle_key}
use free_cli.Fs.{CJson}
use free_cli.Commands.{update_active}
use free_cli.Tui.{
  PendingChoices, Ui, wrote_all, Output, sent, Turn, next, too_large, outside, dangling, and_then,
}
use free_cli.Tui.Requests.{no_requests, same_ℤ}
use free_cli.Tui.Submit.{accept_choice, new_session}
use free_cli.Tui.Delete.{do_delete_session}
use free_cli.Tui.Command.{submit_message}
use free_cli.Tui.Receive.{check_ipc}
use free_cli.Tui.Finish.{store_chats, free_chats, read_chats}

-- ncurses' codes that the loop tests itself; those that the input line tests are in Input.
pub record LoopKeys : Type 0 where
  pub line : Input.Keys
  pub key_resize : ℕ
  pub key_ppage : ℕ
  pub key_npage : ℕ

-- What getch gives: ERR, with what ipc_recv then gives, or a key, with what the popup returns if
-- the key sends a command that opens one.
pub data Event : Type 0 where
  tick : Recv → Event
  key : ℕ → ℤ → Event

-- `quit` leaves the loop; else the turn.
pub data Loop : Type 0 where
  quit : Loop
  goes : Turn → Loop

-- "Chat 1" if nothing was loaded.
unfoldable pub first_session : SessionManager × ℕ → SessionManager
first_session (sm, loaded) = if loaded == 0 then (sm_new_session sm (bytes "Chat 1")).0 else sm

-- The state when the loop begins, given what persist_load gave; the backend is connected.
unfoldable pub start_ui : SessionManager × ℕ → Ui
start_ui loaded = record {
  in_flight = no_requests;
  pending_choices = none;
  sessions = sm_select (first_session loaded) (pos 0);
  input_line = input_init;
  focus = 2;
  sidebar_sel = pos 0;
  connected = true;
  next_corr = 1;
  selected_model = bytes "grok-3-fast";
  selected_provider = bytes "xai";
  pending_approval_corr = 0;
  pending_approval_desc = [];
}

abbrev pub is_yes : ℕ → Bool
is_yes ch = ch == b'y' || ch == b'Y'

abbrev pub is_no : ℕ → Bool
is_no ch = ch == b'n' || ch == b'N'

unfoldable pub approval_sent : Ui → Outcome IpcMsg → Turn
approval_sent u rejected = next u []
approval_sent u fault = too_large
approval_sent u (done m) = next u (if u.connected then sent m ∷ [] else [])

-- The answer to the pending request, which is pending no more.
unfoldable pub answer_approval : Ui → Bool → Turn
answer_approval u approved =
    approval_sent (record u { pending_approval_corr = 0; pending_approval_desc = [] })
      (with_payload msg_approval_rep u.pending_approval_corr
        (encode_approval_rep u.pending_approval_corr approved))

-- The end of persist_save_all, given what it read; `none` is a read of what was given back.
unfoldable pub saved : Ui → Option (List (List (List (Option (List ℕ))))) → Turn
saved u none = dangling
saved u (some texts) = next u (wrote_all u.sessions ∷ [])

-- After the loop the chats are freed, and then persist_save_all reads the sessions.
unfoldable pub shut_down : Ui → Turn
shut_down u =
    let chats = free_chats u.sessions.count (store_chats u.sessions.sessions) in
    saved u (read_chats u.sessions.count chats)

unfoldable pub run_on : Ui → Loop → (Ui → Turn) → Turn
run_on u quit rest = shut_down u
run_on u (goes turn) rest = and_then turn rest

module _ (k : LoopKeys) where
  abbrev pub enter : ℕ → Bool
  enter ch = ch == 10 || ch == k.line.key_enter

  unfoldable pub sidebar_key : Ui → ℕ → Loop
  sidebar_key u ch =
      if ch == b'n'
      then goes (new_session u)
      else if ch == b'q'
      then quit
      else if ch == b'd' && ltb 0 u.sessions.count
      then goes (let (u', outputs) = do_delete_session u u.sidebar_sel in next u' outputs)
      else if ch == k.line.key_up && ltb_ℤ (pos 0) u.sidebar_sel
      then goes (next (record u { sidebar_sel = u.sidebar_sel +ℤ negsuc 0 }) [])
      else if ch == k.line.key_down && ltb_ℤ u.sidebar_sel (sub_ℕ u.sessions.count 1)
      then goes (next (record u { sidebar_sel = u.sidebar_sel +ℤ pos 1 }) [])
      else if enter ch || (ch == k.line.key_right || ch == 9)
      then goes (next (record u { sessions = sm_select u.sessions u.sidebar_sel; focus = 2 }) [])
      else goes (next u [])

  -- A key that the picker takes, if it takes it.
  unfoldable pub picker_key : Ui → PendingChoices → ℕ → Option Turn
  picker_key u p ch =
      if leb b'1' ch && ltb ch (b'1' + length p.choices)
      then some (accept_choice u (ch - b'1'))
      else if ch == k.line.key_up && ltb 0 p.selected
      then some
          (next (record u { pending_choices = some (record p { selected = p.selected - 1 }) }) [])
      else if ch == k.line.key_down && ltb p.selected (length p.choices - 1)
      then some
          (next (record u { pending_choices = some (record p { selected = p.selected + 1 }) }) [])
      else if enter ch && u.input_line.len == 0
      then some (accept_choice u p.selected)
      else none

  -- The picker shows for the active session only.
  unfoldable pub picked_key : Ui → ℕ → Option PendingChoices → Option Turn
  picked_key u ch none = none
  picked_key u ch (some p) =
      if same_ℤ p.session_idx u.sessions.active then picker_key u p ch else none

  unfoldable pub scrolled : Ui → ℤ → Turn
  scrolled u delta =
      next
        (record u {
          sessions = update_active u.sessions (λ s. record s { chat = chat_scroll s.chat delta });
        })
        []

  module _ {V : Type 0} (json : CJson V) where
    unfoldable pub line_key : Ui → ℤ → InputLine × Bool → Turn
    line_key u picked (line, true) = submit_message json (record u { input_line = line }) picked
    line_key u picked (line, false) = next (record u { input_line = line }) []

    unfoldable pub input_key : Ui → ℕ → ℤ → Turn
    input_key u ch picked =
        if ch == k.line.key_left || ch == 9
        then next (record u { pending_choices = none; focus = 0 }) []
        else elim (picked_key u ch u.pending_choices) [
          | some turn ↦ turn
          | none ↦
              (if ch == k.key_ppage
                then scrolled u (negsuc 2)
                else if ch == k.key_npage
                then scrolled u (pos 3)
                else line_key u picked (input_handle_key k.line u.input_line ch))
        ]

    unfoldable pub handle_key : Ui → ℕ → ℤ → Loop
    handle_key u ch picked =
        if ch == k.key_resize
        then goes (next u [])
        else if not (u.pending_approval_corr == 0) && (is_yes ch || is_no ch)
        then goes (answer_approval u (is_yes ch))
        else if u.focus == 0
        then sidebar_key u ch
        else goes (input_key u ch picked)

    unfoldable pub handle_event : Ui → Event → Loop
    handle_event u (tick r) = goes (check_ipc u r)
    handle_event u (key ch picked) = handle_key u ch picked

    -- What goes out, and the state at the end.
    unfoldable pub run : Ui → List Event → Turn
    run u [] = next u []
    run u (e ∷ es) = run_on u (handle_event u e) (λ v. run v es)

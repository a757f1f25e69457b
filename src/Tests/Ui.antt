-- ===== src/Tests/Ui.antt =====
-- Runs of the sessions, the chat buffer and the input line.
use free_cli.Base.{
  ℕ, ◌+◌, ◌≤◌, ◌≡◌, refl, Bool, true, false, List, [], ◌∷◌, ◌++◌, Option, none, some, arith,
  remove_at, pos, negsuc,
}
use free_cli.Chat.{
  ChatBuffer, Message, ToolCall, chat_init, chat_add, chat_add_r, chat_add_tool_calls,
  chat_add_tool_result, chat_remove_last, nonempty, or_empty,
}
use free_cli.Chat.Buffer.{Appends, chat_init-IsValid, chat_add-Appends, chat_remove_last-append}
use free_cli.Session.{
  Session, SessionManager, sm_init, sm_new_session, sm_remove, sm_active_session, copy_name,
  max_sessions,
}
use free_cli.Session.Invariant as Sessions
use free_cli.Session.Invariant.{view, Call, new, select, remove, run, session_run-IsValid}
use free_cli.Session.Refine.{sm_remove_lem, sm_remove_keeps_active}
use free_cli.Input.{Keys, InputLine, input_init, isprint}
use free_cli.Input.Edit as Line
use free_cli.Input.Edit.{Event, key, reset, input_init-IsValid}
use free_cli.Input.History.{HasCodes, keys_of, type_send_recall}

abbrev three : SessionManager
three = run sm_init (new (65 ∷ []) ∷ new (66 ∷ []) ∷ new (67 ∷ []) ∷ select (pos 2) ∷ [])

abbrev four_calls : List Call
four_calls = new (65 ∷ []) ∷ select (pos 7) ∷ remove (pos 0) ∷ remove (negsuc 0) ∷ []

session_run-IsValid_example :
    Sessions.IsValid (run sm_init four_calls) × ((run sm_init four_calls).next_id ≤ 2147483647)
session_run-IsValid_example = session_run-IsValid four_calls (omega arith)

three-IsValid : Sessions.IsValid three
three-IsValid =
    (session_run-IsValid (new (65 ∷ []) ∷ new (66 ∷ []) ∷ new (67 ∷ []) ∷ select (pos 2) ∷ [])
      (omega arith)).0

sm_remove_lem_example :
    (view (sm_remove three (pos 1)).0 ≡ remove_at 1 (view three))
    × ((sm_remove three (pos 1)).0.count + 1 ≡ three.count)
    × ((sm_remove three (pos 1)).1 ≡ (sm_remove three (pos 1)).0.active)
unfolding run sm_init sm_new_session free_cli.Session.sm_select free_cli.Session.in_range
sm_remove_lem_example = sm_remove_lem three 1 three-IsValid (omega arith)

sm_remove_keeps_active_example :
    sm_active_session (sm_remove three (pos 0)).0 ≡ sm_active_session three
unfolding run sm_init sm_new_session free_cli.Session.sm_select free_cli.Session.in_range
sm_remove_keeps_active_example =
    sm_remove_keeps_active three 2 0 three-IsValid refl (omega arith) (λ e. omega arith)

chat_add-Appends_example :
    ((text : List ℕ) (is_user : Bool)
      → Appends chat_init
          (record {
            text = some text;
            is_user = is_user;
            reasoning = none;
            tool_calls = [];
            tool_call_id = none;
          })
          (chat_add chat_init text is_user))
    × ((text : List ℕ) (is_user : Bool) (reasoning : Option (List ℕ))
        → Appends chat_init
            (record {
              text = some text;
              is_user = is_user;
              reasoning = nonempty reasoning;
              tool_calls = [];
              tool_call_id = none;
            })
            (chat_add_r chat_init text is_user reasoning))
    × ((content reasoning : Option (List ℕ)) (tc : List ToolCall)
        → Appends chat_init
            (record {
              text = nonempty content;
              is_user = false;
              reasoning = nonempty reasoning;
              tool_calls = tc;
              tool_call_id = none;
            })
            (chat_add_tool_calls chat_init content reasoning tc))
    × ((id result : Option (List ℕ))
        → Appends chat_init
            (record {
              text = or_empty result;
              is_user = false;
              reasoning = none;
              tool_calls = [];
              tool_call_id = or_empty id;
            })
            (chat_add_tool_result chat_init id result))
chat_add-Appends_example = chat_add-Appends chat_init chat_init-IsValid

abbrev question : Message
question = record {
  text = some (63 ∷ []);
  is_user = true;
  reasoning = none;
  tool_calls = [];
  tool_call_id = none;
}

abbrev asked_once : ChatBuffer
asked_once = record { msgs = question ∷ []; capacity = 64; scroll = pos 0 }

chat_remove_last-append_example : (chat_remove_last asked_once).msgs ≡ []
chat_remove_last-append_example = chat_remove_last-append asked_once [] question refl

-- The codes of ncurses.
abbrev codes : Keys
codes = record {
  key_enter = 343;
  key_backspace = 263;
  key_left = 260;
  key_right = 261;
  key_home = 262;
  key_end = 360;
  key_up = 259;
  key_down = 258;
  prints_beyond = λ ch. false;
}

codes-HasCodes : HasCodes codes
codes-HasCodes = record {
  enter_above = omega arith;
  backspace_above = omega arith;
  left_above = omega arith;
  right_above = omega arith;
  home_above = omega arith;
  end_above = omega arith;
  up_above = omega arith;
  down_above = omega arith;
  up_ne_enter = λ e. omega arith;
  up_ne_backspace = λ e. omega arith;
  up_ne_left = λ e. omega arith;
  up_ne_right = λ e. omega arith;
  up_ne_home = λ e. omega arith;
  up_ne_end = λ e. omega arith;
}

abbrev recalled_line : InputLine
recalled_line =
    Line.run codes input_init (keys_of (104 ∷ 105 ∷ []) ++ key 0x0A ∷ reset ∷ key 259 ∷ [])

type_send_recall_example :
    (recalled_line.buffer ≡ 104 ∷ 105 ∷ [])
    × (recalled_line.pos ≡ 2)
    × (recalled_line.history ≡ input_init.history ++ (104 ∷ 105 ∷ []) ∷ [])
unfolding input_init isprint
type_send_recall_example =
    type_send_recall codes input_init (104 ∷ 105 ∷ []) codes-HasCodes input_init-IsValid refl
      (refl, (refl, tt)) (omega arith) (omega arith) (omega arith)

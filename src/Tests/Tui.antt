-- ===== src/Tests/Tui.antt =====
-- Runs of the terminal UI (src/ui/main.c).
use free_cli.Base.{
  take, ℕ, zero, suc, ◌≤◌, ◌+◌, ◌<◌, ◌≡◌, refl, true, false, List, [], ◌∷◌, ◌++◌, none, some, arith,
  length, replicate, All, get_elem?, set, pos, negsuc, ◌⊎◌, bytes, utf8,
}
use mathlib.Core.List.{map}
use free_cli.Ipc.Wire.{done, chars_of}
use free_cli.Ipc.Payload.Fields.{received}
use free_cli.Ipc.Types.{msg_rep_final, msg_worker_end}
use free_cli.Ipc.Payload.{encode_rep_final}
use free_cli.Ipc.Frame.{IpcMsg, message, no_data, broken}
use free_cli.Worker.{with_payload, approval_message}
use free_cli.Worker.Approval.{bw_notify_approval}
use free_cli.Backend.{rep_error, sent_messages}
use free_cli.Backend.Loop as Backend
use free_cli.Chat.{ChatBuffer, chat_init}
use free_cli.Session.{sm_init, in_range, sm_active_session}
use free_cli.Session.Invariant.{view}
use free_cli.Input.{input_reset}
use free_cli.Commands.{update_active}
use free_cli.Commands.Chats.{sm_init-ChatsValid}
use free_cli.Tui.{Ui, wrote_all, wrote_session, removed_file, sent, next, outside, dangling}
use free_cli.Tui.Requests.{
  inflight_session_active, same_ℤ, is_request, inflight_add, inflight_remove, inflight_find_sidx,
  inflight_count,
}
use free_cli.Tui.Requests.Table.{inflight_add_lem}
use free_cli.Tui.Choices.{max_choices, detect_choices}
use free_cli.Tui.Choices.Bounds.{NonEmpty, detect_choices_bounds}
use free_cli.Tui.Submit.{turn_of, waiting, submit_text}
use free_cli.Tui.Submit.Requests.{submit_text_lem, typed-eq-chosen}
use free_cli.Tui.Submit.Starts.{plain}
use free_cli.Tui.Delete.{do_delete_session}
use free_cli.Tui.Delete.Removal.{do_delete_session_lem, delete_keeps_index}
use free_cli.Tui.Command.{starts_slash, submit_message}
use free_cli.Tui.Receive.{on_message, reply_text}
use free_cli.Tui.Receive.Replies.{answer_of, answer_replaces}
use free_cli.Tui.Receive.Errors.{error_overruns}
use free_cli.Tui.Keys.{is_yes, tick, key, goes, start_ui, handle_key, run}
use free_cli.Tui.Keys.Approve.{approval_round_trip}
use free_cli.Tui.Keys.Run.{run_valid}
use free_cli.Tui.Keys.Quit.{RunEnds, quit_reads_freed}
use free_cli.Tui.Valid.{IsValid}
use free_cli.Ipc.Frame.{ipc_recv}
use free_cli.Ipc.Wire.{le_bytes}
use free_cli.Ipc.Frame.Channel.{wire_bytes}
use free_cli.Tui.Receive.{check_ipc}
use free_cli.Tui.Requests.{inflight_count}
use free_cli.Tui.Receive.Partial.{partial_frame_disconnects}
use free_cli.Tests.Ipc.{one_byte, hello, hello-IsSendable}
use free_cli.Tests.Desk.{
  nothing, codes, question, placeholder, work, home, two, idle, desk, leaving, desk-IsValid,
}

run_valid_example : RunEnds true (
    run codes nothing (start_ui (sm_init, 0)) (
      key 104 (pos 0)
      ∷ key 10 (pos 0)
      ∷ tick (message (record { type = msg_worker_end; corr_id = 1; payload = none }) [])
      ∷ tick no_data
      ∷ key 9 (pos 0)
      ∷ key 100 (pos 0)
      ∷ key 113 (pos 0)
      ∷ tick broken
      ∷ []))
unfolding sm_init
run_valid_example =
    run_valid codes nothing sm_init 0
      (key 104 (pos 0)
        ∷ key 10 (pos 0)
        ∷ tick (message (record { type = msg_worker_end; corr_id = 1; payload = none }) [])
        ∷ tick no_data
        ∷ key 9 (pos 0)
        ∷ key 100 (pos 0)
        ∷ key 113 (pos 0)
        ∷ tick broken
        ∷ [])
      sm_init-ChatsValid refl (omega arith)
      (
        tt,
        (
          tt,
          (
            record {
              final_fits = λ e. absurd (omega arith);
              error_ends = λ e. absurd (omega arith);
            },
            (tt, (tt, (tt, (tt, (tt, tt))))),
          ),
        ),
      )

error_overruns_example :
    (m : IpcMsg) × (sent_messages 5 (rep_error (110 ∷ 111 ∷ [])) ≡ done (m ∷ []))
    × (on_message desk m ≡ outside)
error_overruns_example =
    error_overruns desk 5 110 (111 ∷ []) desk-IsValid ((λ e. omega arith), ((λ e. omega arith), tt))

delete_keeps_index_example :
    (inflight_find_sidx (do_delete_session desk (pos 0)).0.in_flight 5 ≡ pos 1)
    × (get_elem? (view (do_delete_session desk (pos 0)).0.sessions) 0 ≡ some home)
unfolding inflight_find_sidx
delete_keeps_index_example =
    delete_keeps_index desk 0 1 5 home desk-IsValid (omega arith) (omega arith) refl refl

do_delete_session_lem_example :
    ((do_delete_session desk (pos 0)).1
      ≡ removed_file 3 ∷ wrote_all (do_delete_session desk (pos 0)).0.sessions ∷ [])
    × (((1 < 2) × (view (do_delete_session desk (pos 0)).0.sessions ≡ home ∷ []))
        ⊎ ((◌≡◌ {A = ℕ} 2 1)
            × (view (do_delete_session desk (pos 0)).0.sessions
                ≡ record { id = 9; name = bytes "Chat 1"; chat = chat_init } ∷ [])))
do_delete_session_lem_example = do_delete_session_lem desk 0 work desk-IsValid (omega arith) refl

fresh_idle : (n : ℕ) → All (λ e. is_request 6 e ≡ false) (replicate n idle)
fresh_idle zero = tt
fresh_idle (suc n) = (refl, fresh_idle n)

fresh_six : All (λ e. is_request 6 e ≡ false) desk.in_flight
fresh_six = (refl, fresh_idle 31)

inflight_add_lem_example :
    ((inflight_count desk.in_flight < 32)
      × (inflight_find_sidx (inflight_add desk.in_flight 6 (pos 0) none) 6 ≡ pos 0)
      × (inflight_find_sidx (inflight_add desk.in_flight 6 (pos 0) none) 5
          ≡ inflight_find_sidx desk.in_flight 5)
      × (inflight_count (inflight_add desk.in_flight 6 (pos 0) none)
          ≡ inflight_count desk.in_flight + 1)
      × (inflight_find_sidx (inflight_remove (inflight_add desk.in_flight 6 (pos 0) none) 6).0 6
          ≡ negsuc 0))
    ⊎ ((inflight_count desk.in_flight ≡ 32)
        × (inflight_add desk.in_flight 6 (pos 0) none ≡ desk.in_flight))
inflight_add_lem_example =
    inflight_add_lem desk.in_flight 6 5 (pos 0) none fresh_six (λ e. omega arith)

answer_replaces_example :
    (m : IpcMsg) × (u' : Ui) × (cb : ChatBuffer) × (with_payload msg_rep_final 5
        (encode_rep_final 1 (some (111 ∷ [])) none)
      ≡ done m)
    × (on_message desk m ≡ next u' (wrote_session u'.sessions (pos 1) ∷ []))
    × (u'.sessions ≡ record two { sessions = set two.sessions 1 (record home { chat = cb }) })
    × (u'.in_flight ≡ (inflight_remove desk.in_flight 5).0)
    × (cb.msgs
        ≡ (question ∷ [])
          ++ answer_of (reply_text (chars_of (some (111 ∷ [])))) (received none) ∷ [])
unfolding inflight_find_sidx
answer_replaces_example =
    answer_replaces desk 5 1 1 (some (111 ∷ [])) none home (question ∷ []) placeholder desk-IsValid
      refl (omega arith) refl refl (omega arith) (omega arith)

detect_choices_bounds_example :
    (items : List (List ℕ)) × (detect_choices (bytes "1. a\n2. b") ≡ some items)
    × ((length items ≡ 0) ⊎ ((2 ≤ length items) × (length items ≤ max_choices)))
    × All NonEmpty items
detect_choices_bounds_example = detect_choices_bounds (bytes "1. a\n2. b")

quit_reads_freed_example : run codes nothing leaving (key b'q' (pos 0) ∷ []) ≡ dangling
quit_reads_freed_example =
    quit_reads_freed codes nothing leaving (pos 0) [] 1 home refl (λ e. omega arith) (omega arith)
      refl (omega arith)

typed-eq-chosen_example :
    submit_message nothing desk (pos 0)
    ≡ submit_text
        (record desk { pending_choices = none; input_line = input_reset desk.input_line })
        desk.input_line.buffer
unfolding sm_active_session in_range starts_slash
typed-eq-chosen_example =
    typed-eq-chosen nothing desk (pos 0) work desk-IsValid refl (omega arith) refl

approval_round_trip_example :
    (asks answers : IpcMsg) × (u' : Ui) × (approval_message 9 none ≡ done (asks ∷ []))
    × (on_message desk asks ≡ next u' [])
    × (handle_key codes nothing u' 121 (pos 0)
        ≡ goes (
            next
              (record desk { pending_approval_corr = 0; pending_approval_desc = [] })
              (sent answers ∷ [])))
    × (Backend.on_message [] true [] answers
        ≡ Backend.decide (bw_notify_approval [] 9 (is_yes 121)))
approval_round_trip_example =
    approval_round_trip [] true [] codes nothing desk 9 121 none (pos 0) refl (λ e. omega arith)
      (omega arith) (omega arith) (λ e. omega arith) refl

submit_text_lem_example :
    (m : IpcMsg) × (u' : Ui) × (cb : ChatBuffer) × (submit_text desk (111 ∷ [])
      ≡ next u' (sent m ∷ []))
    × (Backend.on_message [] true [] m
        ≡ Backend.start (record {
          corr_id = 6;
          session_idx = 0;
          turns = map turn_of (work.chat.msgs ++ plain (111 ∷ []) true ∷ []);
          model = received (some desk.selected_model);
          provider_id = received (some desk.selected_provider);
        }))
    × (u'.sessions ≡ update_active two (λ t. record t { chat = cb }))
    × (cb.msgs ≡ (work.chat.msgs ++ plain (111 ∷ []) true ∷ []) ++ plain waiting false ∷ [])
    × (inflight_find_sidx u'.in_flight 6 ≡ pos 0)
unfolding sm_active_session in_range inflight_session_active same_ℤ inflight_count
submit_text_lem_example =
    submit_text_lem [] true [] desk 0 work (111 ∷ []) desk-IsValid refl refl refl refl (omega arith)
      fresh_six (omega arith) (omega arith)

-- A line "/fs read a b" in the same state.
abbrev pub asking : Ui
asking = record desk {
  input_line = record {
    buffer = bytes "/fs read a b";
    len = 12;
    pos = 12;
    history = [];
    hist_pos = 0;
  };
}

pub asking-IsValid : IsValid asking
unfolding bytes utf8
asking-IsValid = record {
  sessions_valid = desk-IsValid.sessions_valid;
  selected = desk-IsValid.selected;
  line = omega arith;
  slots = refl;
  choices = tt;
  texts = desk-IsValid.texts;
  entries = desk-IsValid.entries;
}

-- Six bytes of a frame have arrived.
partial_frame_disconnects_example :
    (u' : Ui) × (check_ipc desk (ipc_recv one_byte (take 6 (wire_bytes hello))) ≡ next u' [])
    × (u'.connected ≡ false)
    × (inflight_count u'.in_flight ≡ 0)
unfolding le_bytes
partial_frame_disconnects_example =
    partial_frame_disconnects one_byte hello 6 desk hello-IsSendable (omega arith) refl refl

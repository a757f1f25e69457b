-- ===== src/Tui/Submit/Requests.antt =====
-- What the UI sends when the user asks something, and what the backend makes of it
-- (submit_text and submit_message of src/ui/main.c, main of src/backend/backend.c).
use free_cli.Base.{
  ℕ, ◌+◌, ◌%◌, ◌<◌, ◌≡◌, refl, ap, sym, ◌∙◌, Bool, true, false, not, ◌&&◌, List, [], ◌∷◌, ◌++◌,
  none, some, arith, ◌==◌, length, take, take_all, ℤ, pos, ==_refl,
}
use mathlib.Core.List.{map}
use free_cli.Ipc.Types.{msg_req_send}
use free_cli.Ipc.Wire.{done, u32_mod, u64_mod}
use free_cli.Ipc.Payload.{encode_req_send}
use free_cli.Ipc.Payload.Fields.{size_of, received}
use free_cli.Ipc.Payload.History.{turns_size}
use free_cli.Ipc.Frame.{IpcMsg}
use free_cli.Worker.{BackendWorker, with_payload}
use free_cli.Worker.Approval.{PendingApproval}
use free_cli.Backend.Loop.{start, on_message}
use free_cli.Chat.{ChatBuffer}
use free_cli.Session.{Session, sm_active_session}
use free_cli.Commands.{update_active}
use free_cli.Commands.Total.{active-IsValid}
use free_cli.Fs.{CJson}
use free_cli.Tui.{Ui, sent, next}
use free_cli.Input.{input_reset}
use free_cli.Tui.Command.{starts_slash, submit_line, submit_message}
use free_cli.Tui.Command.Typed.{send_typed-try_send}
use free_cli.Tui.Requests.{
  max_in_flight, inflight_add, inflight_count, inflight_find_sidx, inflight_session_active,
}
use free_cli.Tui.Requests.Table.{IsFresh, find-fill_free}
use free_cli.Tui.Submit.{
  waiting, start_request, turn_of, request_of, with_question, send_question, try_send, submit_to,
  submit_text,
}
use free_cli.Tui.Valid.{IsValid}
use free_cli.Tui.Submit.Starts.{plain, with_question-msgs, active-update_active, request_starts}

abbrev with_buffer : Ui → ChatBuffer → Ui
with_buffer u cb = record u { sessions = update_active u.sessions (λ t. record t { chat = cb }) }

abbrev waits : Ui → List ℕ → Ui
waits u name = record u {
  next_corr = (u.next_corr + 1) % u64_mod;
  in_flight = inflight_add u.in_flight u.next_corr u.sessions.active (some name);
}

try_send_idle :
    (u : Ui) (s : Session) (text : List ℕ)
    → u.connected ≡ true
    → inflight_session_active u.in_flight u.sessions.active ≡ false
    → try_send u s text ≡ send_question u s (with_question s.chat text)
unfolding try_send
try_send_idle u s text on idle =
    let clear : (u.connected && not (inflight_session_active u.in_flight u.sessions.active))
        ≡ true =
      rw on (rw idle refl) in
    rw clear refl

question_sent :
    (u : Ui) (s : Session) (text : List ℕ) (cb : ChatBuffer) (m : IpcMsg)
    → u.connected ≡ true
    → inflight_session_active u.in_flight u.sessions.active ≡ false
    → with_question s.chat text ≡ some cb
    → with_payload msg_req_send u.next_corr (encode_req_send (request_of u cb)) ≡ done m
    → try_send u s text ≡ next (waits (with_buffer u cb) s.name) (sent m ∷ [])
unfolding send_question start_request
question_sent u s text cb m on idle asked built =
    try_send_idle u s text on idle ∙ rw asked (rw built refl)

find-waits :
    (u : Ui) (name : List ℕ)
    → inflight_count u.in_flight < length u.in_flight
    → IsFresh u.next_corr u.in_flight
    → inflight_find_sidx (waits u name).in_flight u.next_corr ≡ u.sessions.active
unfolding inflight_add
find-waits u name room fresh =
    find-fill_free u.in_flight _ u.next_corr room fresh (==_refl u.next_corr)

submit-try_send :
    (u : Ui) (s : Session) (text : List ℕ)
    → sm_active_session u.sessions ≡ some s
    → 0 < length text
    → submit_text u text ≡ try_send u s text
unfolding submit_text submit_to
submit-try_send u s text e h =
    let some_text : (length text == 0) ≡ false = ground arith in rw some_text (rw e refl)

-- In a valid connected state, where no request of the active session waits, the table has a free
-- slot and no entry under the next id, a text that is not empty and whose request fits 32 bits is
-- sent as one message. The backend starts a thread for it with the session's whole history, the
-- text as the last turn, the model and the provider; the chat gets the text and a placeholder, and
-- the id is found with the session.
pub submit_text_lem :
    (registry : List BackendWorker) (threads : Bool) (approvals : List PendingApproval) (u : Ui)
    (a : ℕ) (s : Session) (text : List ℕ)
    → IsValid u
    → u.connected ≡ true
    → u.sessions.active ≡ pos a
    → sm_active_session u.sessions ≡ some s
    → inflight_session_active u.in_flight u.sessions.active ≡ false
    → inflight_count u.in_flight < max_in_flight
    → IsFresh u.next_corr u.in_flight
    → 0 < length text
    → 16
        + turns_size (map turn_of (s.chat.msgs ++ plain text true ∷ []))
        + size_of (some u.selected_model)
        + size_of (some u.selected_provider)
      < u32_mod
    → (m : IpcMsg) × (u' : Ui) × (cb : ChatBuffer) × (submit_text u text ≡ next u' (sent m ∷ []))
      × (on_message registry threads approvals m
          ≡ start (record {
            corr_id = u.next_corr;
            session_idx = a;
            turns = map turn_of (s.chat.msgs ++ plain text true ∷ []);
            model = received (some u.selected_model);
            provider_id = received (some u.selected_provider);
          }))
      × (u'.sessions ≡ update_active u.sessions (λ t. record t { chat = cb }))
      × (cb.msgs ≡ (s.chat.msgs ++ plain text true ∷ []) ++ plain waiting false ∷ [])
      × (inflight_find_sidx u'.in_flight u.next_corr ≡ pos a)
submit_text_lem registry threads approvals u a s text v on active here idle room fresh some_text
      fits =
    let (cb, asked, seen) =
      with_question-msgs s.chat text (active-IsValid u.sessions s v.sessions_valid here) in
    let (m, built, begun) =
      request_starts registry threads approvals u a cb (s.chat.msgs ++ plain text true ∷ [])
        v.sessions_valid.sessions_valid active seen fits in
    (
      m,
      waits (with_buffer u cb) s.name,
      cb,
      submit-try_send u s text here some_text ∙ question_sent u s text cb m on idle asked built,
      begun,
      refl,
      seen,
      find-waits (with_buffer u cb) s.name (omega (arith, v.slots)) fresh
          ∙ active-update_active u.sessions _
          ∙ active,
    )

-- In a valid state with an active session, a typed line that is not empty and no command is sent
-- exactly as submit_text sends its text, once the pending choices are dismissed and the line is
-- reset.
pub typed-eq-chosen :
    {V : Type 0} (json : CJson V) (u : Ui) (picked : ℤ) (s : Session)
    → IsValid u
    → sm_active_session u.sessions ≡ some s
    → 0 < u.input_line.len
    → starts_slash u.input_line.buffer ≡ false
    → submit_message json u picked
      ≡ submit_text
          (record u { pending_choices = none; input_line = input_reset u.input_line })
          u.input_line.buffer
unfolding submit_message submit_line
typed-eq-chosen json u picked s v here some_text plain_text =
    let filled : (u.input_line.len == 0) ≡ false = ground arith in
    let whole : take 1023 u.input_line.buffer ≡ u.input_line.buffer =
      take_all 1023 u.input_line.buffer (omega (arith, v.line.len_fits, v.line.bounded)) in
    rw (here, submit_message)
      (rw filled (
        rw plain_text (
          send_typed-try_send
            (record u { pending_choices = none; input_line = input_reset u.input_line }) s _
          ∙ ap
              (try_send (record u { pending_choices = none; input_line = input_reset u.input_line })
                s)
              whole
          ∙ sym (
              submit-try_send
                (record u { pending_choices = none; input_line = input_reset u.input_line }) s
                u.input_line.buffer here (omega (arith, v.line.len_fits))))))

-- ===== src/Tui/Keys/Run.antt =====
-- Whatever the user types, with a backend that is trusted in the ways of SoundEvent, the UI's state
-- stays valid (the loop of src/ui/main.c).
use free_cli.Base.{
  ℕ, ◌+◌, ◌-◌, ◌<◌, ◌≡◌, refl, Bool, true, false, ◌&&◌, ◌||◌, List, [], ◌∷◌, Option, none, some,
  arith, ltb, leb, ◌==◌, if◌then◌else◌, length, ℤ, pos, negsuc, inl, inr, Bool-cases, bytes, All,
}
use free_cli.Chat.{chat_scroll}
use free_cli.Session.{SessionManager, max_sessions, sm_new_session}
use free_cli.Input.{InputLine, input_handle_key}
use free_cli.Input.Edit as Line
use free_cli.Input.Edit.{input_init-IsValid, input_handle_key-IsValid}
use free_cli.Fs.{CJson}
use free_cli.Commands.Chats.{ChatsValid, update_active-ChatsValid}
use free_cli.Commands.Total.{new-ChatsValid, select-ChatsValid}
use free_cli.Tui.{PendingChoices, Ui, Turn}
use free_cli.Tui.Keys.{
  LoopKeys, Event, tick, key, Loop, first_session, start_ui, run_on, sidebar_key, picker_key,
  picked_key, scrolled, line_key, input_key, handle_key, handle_event, run, enter,
}
use free_cli.Tui.Valid.{IsValid, Ends, ends, if-Ends, count-update_active, count-sm_select}
use free_cli.Tui.Valid.Submitting.{accept_choice-Ends, new_session-Ends}
use free_cli.Tui.Valid.Deleting.{do_delete_session-IsValid}
use free_cli.Tui.Valid.Commanding.{submit_message-Ends}
use free_cli.Tui.Valid.Messages.{SoundRecv, check_ipc-Ends}
use free_cli.Tui.Keys.Moves.{
  LoopEnds, quits, continues, if-LoopEnds, quit-LoopEnds, with_line, with_sessions,
  answer_approval-Ends, up-LoopEnds, down-LoopEnds, select-IsValid, PickerEnds, leaves, takes,
  if-PickerEnds, prev-PickerEnds, next-PickerEnds,
}
use free_cli.Tui.Keys.Quit.{
  asks_quit, RunEnds, stays, or_later, shut_down-RunEnds, and_then-RunEnds,
}

-- What the backend is trusted in; any key will do.
abbrev pub SoundEvent : Event → Type 0
SoundEvent (tick r) = SoundRecv r
SoundEvent (key ch picked) = Unit {0}

module _ (k : LoopKeys) where
  sidebar_key-Ends : (u : Ui) (ch : ℕ) → IsValid u → LoopEnds ch (sidebar_key k u ch)
  unfolding sidebar_key
  sidebar_key-Ends u ch v = if-LoopEnds _ _ _ (continues (new_session-Ends u v)) (
      quit-LoopEnds ch _ (
        if-LoopEnds _ _ _ (continues (ends (do_delete_session-IsValid u u.sidebar_sel v))) (
          up-LoopEnds u _ _ v (
            down-LoopEnds u _ _ v
              (if-LoopEnds _ _ _ (continues (ends (select-IsValid u v))) (continues (ends v)))))))

  picker_key-Ends :
      (u : Ui) (p : PendingChoices) (ch : ℕ)
      → IsValid u
      → u.pending_choices ≡ some p
      → PickerEnds (picker_key k u p ch)
  unfolding picker_key
  picker_key-Ends u p ch v e =
      if-PickerEnds (leb b'1' ch && ltb ch (b'1' + length p.choices)) _ _
        (takes (accept_choice-Ends u (ch - b'1') v))
        (prev-PickerEnds u p (ch == k.line.key_up) _ v e (
          next-PickerEnds u p (ch == k.line.key_down) _ v e (
            if-PickerEnds (enter k ch && u.input_line.len == 0) _ _
              (takes (accept_choice-Ends u p.selected v)) leaves)))

  picked_key-Ends :
      (u : Ui) (ch : ℕ) (o : Option PendingChoices)
      → IsValid u
      → u.pending_choices ≡ o
      → PickerEnds (picked_key k u ch o)
  unfolding picked_key
  picked_key-Ends u ch none v e = leaves
  picked_key-Ends u ch (some p) v e = if-PickerEnds _ _ _ (picker_key-Ends u p ch v e) leaves

  scrolled-Ends : (u : Ui) (delta : ℤ) → IsValid u → Ends (scrolled k u delta)
  unfolding scrolled chat_scroll
  scrolled-Ends u delta v = ends (
      with_sessions u _ v
        (update_active-ChatsValid u.sessions _ v.sessions_valid (λ s. refl)
          (λ s w. record { room = w.room; tight = w.tight }) (λ s n. n))
        (count-update_active u.sessions _))

  module _ {V : Type 0} (json : CJson V) where
    line_key-Ends :
        (u : Ui) (picked : ℤ) (r : InputLine × Bool)
        → IsValid u
        → Line.IsValid r.0
        → Ends (line_key k json u picked r)
    unfolding line_key
    line_key-Ends u picked (line, true) v w =
        submit_message-Ends json _ picked (with_line u v line w)
    line_key-Ends u picked (line, false) v w = ends (with_line u v line w)

    -- A key that the picker leaves goes to the input line.
    not_picked-Ends :
        (u : Ui) (ch : ℕ) (picked : ℤ) (o : Option Turn)
        → IsValid u
        → PickerEnds o
        → Ends (elim o [
          | some turn ↦ turn
          | none ↦
              (if ch == k.key_ppage
                then scrolled k u (negsuc 2)
                else if ch == k.key_npage
                then scrolled k u (pos 3)
                else line_key k json u picked (input_handle_key k.line u.input_line ch))
        ])
    not_picked-Ends u ch picked _ v (takes t) = t
    not_picked-Ends u ch picked _ v leaves = if-Ends _ _ _ (scrolled-Ends u (negsuc 2) v) (
        if-Ends _ _ _ (scrolled-Ends u (pos 3) v)
          (line_key-Ends u picked _ v (input_handle_key-IsValid k.line u.input_line ch v.line)))

    dismissed-IsValid :
        (u : Ui) → IsValid u → IsValid (record u { pending_choices = none; focus = 0 })
    dismissed-IsValid u v = record {
      sessions_valid = v.sessions_valid;
      selected = v.selected;
      line = v.line;
      slots = v.slots;
      choices = tt;
      texts = v.texts;
      entries = v.entries;
    }

    input_key-Ends :
        (u : Ui) (ch : ℕ) (picked : ℤ) → IsValid u → Ends (input_key k json u ch picked)
    unfolding input_key
    input_key-Ends u ch picked v =
        if-Ends _ _ _ (ends (dismissed-IsValid u v))
          (not_picked-Ends u ch picked _ v (picked_key-Ends u ch u.pending_choices v refl))

    handle_key-Ends :
        (u : Ui) (ch : ℕ) (picked : ℤ) → IsValid u → LoopEnds ch (handle_key k json u ch picked)
    unfolding handle_key
    handle_key-Ends u ch picked v = if-LoopEnds _ _ _ (continues (ends v)) (
        if-LoopEnds _ _ _ (continues (answer_approval-Ends u _ v))
          (if-LoopEnds _ _ _ (sidebar_key-Ends u ch v) (continues (input_key-Ends u ch picked v))))

    run_on-RunEnds :
        (ch : ℕ) (u : Ui) (l : Loop) (rest : Ui → Turn) (later : Bool)
        → IsValid u
        → LoopEnds ch l
        → ((w : Ui) → IsValid w → RunEnds later (rest w))
        → RunEnds (ch == b'q' || later) (run_on u l rest)
    unfolding run_on
    run_on-RunEnds ch u _ rest later v (quits e) r = rw e (shut_down-RunEnds u v)
    run_on-RunEnds ch u _ rest later v (continues {t} e) r =
        or_later (ch == b'q') later _ (and_then-RunEnds later t rest e r)

    pub run-RunEnds :
        (u : Ui) (es : List Event)
        → IsValid u
        → All SoundEvent es
        → RunEnds (asks_quit es) (run k json u es)
    unfolding run handle_event run_on
    run-RunEnds u [] v s = stays (ends v)
    run-RunEnds u (tick r ∷ es) v s =
        and_then-RunEnds (asks_quit es) _ (λ w. run k json w es) (check_ipc-Ends u r v s.0)
          (λ w x. run-RunEnds w es x s.1)
    run-RunEnds u (key ch picked ∷ es) v s =
        run_on-RunEnds ch u _ (λ w. run k json w es) (asks_quit es) v
          (handle_key-Ends u ch picked v) (λ w x. run-RunEnds w es x s.1)

first_session-Valid :
    (sm : SessionManager) (loaded : ℕ)
    → ChatsValid sm
    → sm.count ≡ loaded
    → ChatsValid (first_session (sm, loaded)) × (0 < (first_session (sm, loaded)).count)
unfolding first_session sm_new_session
first_session-Valid sm loaded v e = elim (Bool-cases (loaded == 0)) [
  | inl z ↦ rw z (
    new-ChatsValid sm (bytes "Chat 1") v,
    let room : leb max_sessions sm.count ≡ false = ground arith in rw room (omega arith),
  )
  | inr z ↦ rw z (v, ground arith)
]

pub start_ui-IsValid :
    (sm : SessionManager) (loaded : ℕ)
    → ChatsValid sm
    → sm.count ≡ loaded
    → IsValid (start_ui (sm, loaded))
unfolding start_ui bytes
start_ui-IsValid sm loaded v e =
    let (w, some_session) = first_session-Valid sm loaded v e in
    record {
      sessions_valid = select-ChatsValid _ (pos 0) w;
      selected = omega (arith, count-sm_select (first_session (sm, loaded)) (pos 0));
      line = input_init-IsValid;
      slots = refl;
      choices = tt;
      texts = record {
        model_fits = omega arith;
        provider_fits = omega arith;
        description_fits = omega arith;
      };
      entries = omega arith;
    }

-- From valid sessions, for fewer events than ids are left below 2^31 - 1, whatever keys are
-- pressed, whatever isprint answers on key codes above 255, and whatever comes from a backend
-- whose final replies name a session below 2^31 and whose error texts have a terminator, the run
-- ends in a valid state, or with a payload of 2^32 bytes, or, if q is among the keys, with a read
-- of what was freed. In a valid state the sessions, the chats, the input line and the table of
-- requests fit their arrays, and so do the names of the sessions and requests, the model, the
-- provider and the text of the approval with their terminators.
pub run_valid :
    {V : Type 0} (k : LoopKeys) (json : CJson V) (sm : SessionManager) (loaded : ℕ)
    (es : List Event)
    → ChatsValid sm
    → sm.count ≡ loaded
    → sm.next_id + length es < 2147483647
    → All SoundEvent es
    → RunEnds (asks_quit es) (run k json (start_ui (sm, loaded)) es)
run_valid k json sm loaded es v e below s =
    run-RunEnds k json _ es (start_ui-IsValid sm loaded v e) s

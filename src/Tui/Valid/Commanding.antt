-- ===== src/Tui/Valid/Commanding.antt =====
-- A line keeps the UI's state valid, command or question (submit_message of src/ui/main.c).
use free_cli.Base.{arith, ◌+◌, length-take-le, ℕ, ◌≡◌, refl, List, [], ◌∷◌, Option, none, some, ℤ}
use free_cli.Session.{Session, sm_active_session}
use free_cli.Input.{input_reset}
use free_cli.Input.Edit.{input_reset-IsValid}
use free_cli.Fs.{CJson}
use free_cli.Commands as Commands
use free_cli.Commands.{CmdCtx, Handled, handled, not_command, cmd_dispatch}
use free_cli.Commands.Total.{Keeps, ignores, keeps, active-IsValid, command-Keeps}
use free_cli.Tui.{Ui}
use free_cli.Tui.Command.{
  send_typed, do_set_model, do_set_provider, do_send_worker_req, run_callback, run_callbacks,
  ctx_of, finish_command, submit_command, submit_line, submit_message,
}
use free_cli.Tui.Command.Sidebar.{Selects, selects, cmd_dispatch-Selects}
use free_cli.Tui.Valid.{IsValid, Ends, ends, if-Ends, and_then-Ends}
use free_cli.Chat.Buffer as Buffer
use free_cli.Tui.Command.Typed.{send_typed-try_send}
use free_cli.Tui.Valid.Submitting.{start_request-Ends, try_send-Ends}
use free_cli.Tui.Valid.Deleting.{do_delete_session-IsValid}

do_set_model-IsValid : (u : Ui) (m : List ℕ) → IsValid u → IsValid (do_set_model u m)
unfolding do_set_model
do_set_model-IsValid u [] v = v
do_set_model-IsValid u (c ∷ cs) v = record {
  sessions_valid = v.sessions_valid;
  selected = v.selected;
  line = v.line;
  slots = v.slots;
  choices = v.choices;
  texts = record {
    model_fits = length-take-le 63 (c ∷ cs);
    provider_fits = v.texts.provider_fits;
    description_fits = v.texts.description_fits;
  };
  entries = v.entries;
}

do_set_provider-IsValid : (u : Ui) (id : List ℕ) → IsValid u → IsValid (do_set_provider u id)
unfolding do_set_provider
do_set_provider-IsValid u [] v = v
do_set_provider-IsValid u (c ∷ cs) v = record {
  sessions_valid = v.sessions_valid;
  selected = v.selected;
  line = v.line;
  slots = v.slots;
  choices = v.choices;
  texts = record {
    model_fits = v.texts.model_fits;
    provider_fits = length-take-le 31 (c ∷ cs);
    description_fits = v.texts.description_fits;
  };
  entries = v.entries;
}

run_callback-Ends : (u : Ui) (e : Commands.Effect) → IsValid u → Ends (run_callback u e)
unfolding run_callback do_send_worker_req
run_callback-Ends u Commands.draw v = ends v
run_callback-Ends u (Commands.save_session idx) v = ends v
run_callback-Ends u (Commands.delete_session idx) v = ends (do_delete_session-IsValid u idx v)
run_callback-Ends u (Commands.set_provider id) v = ends (do_set_provider-IsValid u id v)
run_callback-Ends u (Commands.set_model model) v = ends (do_set_model-IsValid u model v)
run_callback-Ends u (Commands.send_worker_req type op args) v =
    if-Ends _ _ _ (start_request-Ends u op _ v) (ends v)

run_callbacks-Ends : (u : Ui) (es : List Commands.Effect) → IsValid u → Ends (run_callbacks u es)
unfolding run_callbacks
run_callbacks-Ends u [] v = ends v
run_callbacks-Ends u (e ∷ es) v =
    and_then-Ends (run_callback u e) (λ w. run_callbacks w es) (run_callback-Ends u e v)
      (λ w x. run_callbacks-Ends w es x)

finish_command-Ends :
    {b : ℕ} (u : Ui) (h : Handled) → IsValid u → Keeps b h → Selects h → Ends (finish_command u h)
unfolding finish_command
finish_command-Ends u _ v ignores s = ends v
finish_command-Ends u _ v (keeps {ctx} {es} below w) (selects h) = run_callbacks-Ends _ es (record {
  sessions_valid = w;
  selected = h;
  line = v.line;
  slots = v.slots;
  choices = v.choices;
  texts = v.texts;
  entries = v.entries;
})

without_line-IsValid :
    (u : Ui) → IsValid u → IsValid (record u { input_line = input_reset u.input_line })
without_line-IsValid u v = record {
  sessions_valid = v.sessions_valid;
  selected = v.selected;
  line = input_reset-IsValid u.input_line v.line;
  slots = v.slots;
  choices = v.choices;
  texts = v.texts;
  entries = v.entries;
}

send_typed-Ends :
    (u : Ui) (s : Session) (text : List ℕ)
    → IsValid u
    → Buffer.IsValid s.chat
    → Ends (send_typed u s text)
send_typed-Ends u s text v c = rw (send_typed-try_send u s text) (try_send-Ends u s text v c)

module _ {V : Type 0} (json : CJson V) where
  submit_command-Ends :
      (u : Ui) (line : List ℕ) (picked : ℤ) → IsValid u → Ends (submit_command json u line picked)
  unfolding submit_command ctx_of
  submit_command-Ends u line picked v =
      finish_command-Ends u _ v
        (command-Keeps json {b = u.sessions.next_id + 1} (ctx_of u) _ picked v.sessions_valid
          (omega arith))
        (cmd_dispatch-Selects json (ctx_of u) _ picked v.selected)

  submit_line-Ends :
      (u : Ui) (picked : ℤ) (o : Option Session)
      → IsValid u
      → sm_active_session u.sessions ≡ o
      → Ends (submit_line json u picked o)
  unfolding submit_line
  submit_line-Ends u picked none v e = ends v
  submit_line-Ends u picked (some s) v e =
      let w = without_line-IsValid u v in
      if-Ends _ _ _ (ends v) (
        if-Ends _ _ _ (submit_command-Ends _ _ picked w) (
          send_typed-Ends _ s _
            (record {
              sessions_valid = w.sessions_valid;
              selected = w.selected;
              line = w.line;
              slots = w.slots;
              choices = tt;
              texts = v.texts;
              entries = v.entries;
            })
            (active-IsValid u.sessions s v.sessions_valid e)))

  pub submit_message-Ends : (u : Ui) (picked : ℤ) → IsValid u → Ends (submit_message json u picked)
  unfolding submit_message
  submit_message-Ends u picked v = submit_line-Ends u picked _ v refl

-- ===== src/Tui/Valid/Submitting.antt =====
-- Sending a request keeps the UI's state valid (src/ui/main.c).
use free_cli.Base.{
  length-take, ℕ, ◌<◌, ◌≡◌, refl, ap, sym, ◌∙◌, subst, true, false, List, Option, none, some, arith,
  leb, get_elem?, ℤ, pos, negsuc, inl, inr, Bool-cases, Option-cases,
}
use free_cli.Ipc.Wire.{Outcome, done, rejected, fault}
use free_cli.Ipc.Frame.{IpcMsg}
use free_cli.Chat.{ChatBuffer, chat_add}
use free_cli.Chat.Buffer as Buffer
use free_cli.Chat.Buffer.{chat_add-Appends}
use free_cli.Session.{
  Session, SessionManager, max_sessions, in_range, sm_active_session, sm_new_session, sm_select,
}
use free_cli.Session.Invariant.{in_range_cases}
use free_cli.Session.Refine.{in_range_pos}
use free_cli.Commands.Chats.{ChatsValid}
use free_cli.Commands.Total.{active-IsValid, new-ChatsValid, select-ChatsValid}
use free_cli.Fs.{bind}
use free_cli.Tui.{PendingChoices, Ui}
use free_cli.Tui.Requests.{inflight_add}
use free_cli.Tui.Submit.{
  waiting, start_request, with_question, send_question, try_send, submit_to, submit_text, accept_in,
  accept_from, accept_choice, opened, new_session,
}
use free_cli.Tui.Valid.{
  InList, IsValid, Ends, ends, outgrows, if-Ends, length-fill_free, entries-fill_free,
  count-sm_select, chat_changed-IsValid,
}

pub start_request-Ends :
    (u : Ui) (name : List ℕ) (o : Outcome IpcMsg) → IsValid u → Ends (start_request u name o)
unfolding start_request inflight_add
start_request-Ends u name rejected v = ends v
start_request-Ends u name fault v = outgrows
start_request-Ends u name (done m) v = ends (record {
  sessions_valid = v.sessions_valid;
  selected = v.selected;
  line = v.line;
  slots = length-fill_free u.in_flight _ ∙ v.slots;
  choices = v.choices;
  texts = v.texts;
  entries = entries-fill_free u.in_flight _ v.entries (omega (arith, length-take 63 name));
})

-- The question and the placeholder join a valid buffer.
pub with_question-IsValid :
    (cb : ChatBuffer) (text : List ℕ)
    → Buffer.IsValid cb
    → (cb' : ChatBuffer) × (with_question cb text ≡ some cb') × Buffer.IsValid cb'
unfolding with_question
with_question-IsValid cb text v =
    let (asked, e, _, _, w) = (chat_add-Appends cb v).0 text true in
    let (cb', f, _, _, x) = (chat_add-Appends asked w).0 waiting false in
    (cb', ap (λ (o : Option ChatBuffer). bind o (λ c. chat_add c waiting false)) e ∙ f, x)

send_question-Ends :
    (u : Ui) (s : Session) (text : List ℕ)
    → IsValid u
    → Buffer.IsValid s.chat
    → Ends (send_question u s (with_question s.chat text))
unfolding send_question
send_question-Ends u s text v c =
    let (cb, e, w) = with_question-IsValid s.chat text c in
    rw e (start_request-Ends _ s.name _ (chat_changed-IsValid u cb v w))

pub try_send-Ends :
    (u : Ui) (s : Session) (text : List ℕ)
    → IsValid u
    → Buffer.IsValid s.chat
    → Ends (try_send u s text)
unfolding try_send
try_send-Ends u s text v c = if-Ends _ _ _ (send_question-Ends u s text v c) (ends v)

submit_to-Ends :
    (u : Ui) (text : List ℕ) (o : Option Session)
    → IsValid u
    → sm_active_session u.sessions ≡ o
    → Ends (submit_to u text o)
unfolding submit_to
submit_to-Ends u text none v e = ends v
submit_to-Ends u text (some s) v e =
    try_send-Ends u s text v (active-IsValid u.sessions s v.sessions_valid e)

pub submit_text-Ends : (u : Ui) (text : List ℕ) → IsValid u → Ends (submit_text u text)
unfolding submit_text
submit_text-Ends u text v = if-Ends _ _ _ (ends v) (submit_to-Ends u text _ v refl)

select_at :
    (sm : SessionManager) (i : ℕ)
    → i < sm.count
    → ChatsValid sm
    → ChatsValid (record (sm_select sm (pos i)) { active = pos i })
unfolding sm_select
select_at sm i h v =
    rw (in_range_pos i sm.count h, sm_select)
      (record {
        sessions_valid = record {
          slots = v.sessions_valid.slots;
          within = v.sessions_valid.within;
          active_fits = h;
          below = v.sessions_valid.below;
          distinct = v.sessions_valid.distinct;
        };
        chats_valid = v.chats_valid;
        names = v.names;
      })

accept_at-IsValid :
    (u : Ui) (i : ℕ)
    → IsValid u
    → i < u.sessions.count
    → IsValid (record u {
      pending_choices = none;
      sessions = record (sm_select u.sessions (pos i)) { active = pos i };
    })
accept_at-IsValid u i v h = record {
  sessions_valid = select_at u.sessions i h v.sessions_valid;
  selected = subst (InList u.sidebar_sel) (sym (count-sm_select u.sessions (pos i))) v.selected;
  line = v.line;
  slots = v.slots;
  choices = tt;
  texts = v.texts;
  entries = v.entries;
}

accept_in-Ends :
    (u : Ui) (chosen : List ℕ) (index : ℤ)
    → IsValid u
    → Ends (accept_in u chosen (in_range index u.sessions.count))
unfolding accept_in
accept_in-Ends u chosen index v = elim (in_range_cases index u.sessions.count) [
  | inl e ↦ rw e (ends v)
  | inr (i, e, _, h) ↦ rw e (submit_text-Ends _ chosen (accept_at-IsValid u i v h))
]

accept_from-Ends :
    (u : Ui) (p : PendingChoices) (o : Option (List ℕ)) → IsValid u → Ends (accept_from u p o)
unfolding accept_from
accept_from-Ends u p none v = ends v
accept_from-Ends u p (some chosen) v = accept_in-Ends u chosen p.session_idx v

pub accept_choice-Ends : (u : Ui) (idx : ℕ) → IsValid u → Ends (accept_choice u idx)
unfolding accept_choice
accept_choice-Ends u idx v = elim (Option-cases u.pending_choices) [
  | inl e ↦ rw (e, accept_choice) (ends v)
  | inr (p, e) ↦ rw (e, accept_choice) (accept_from-Ends u p (get_elem? p.choices idx) v)
]

-- What sm_new_session gives: nothing new and a negative index, or one session more, at the end.
pub data Opens (old : SessionManager) : SessionManager × ℤ → Type 0 where
  full : {n : ℕ} → Opens old (old, negsuc n)
  grows : {sm : SessionManager} {idx : ℕ} → idx < sm.count → Opens old (sm, pos idx)

pub new-Opens : (sm : SessionManager) (name : List ℕ) → Opens sm (sm_new_session sm name)
unfolding sm_new_session
new-Opens sm name = elim (Bool-cases (leb max_sessions sm.count)) [
  | inl e ↦ rw e full
  | inr e ↦ rw e (grows (omega arith))
]

opened-Ends :
    (u : Ui) (r : SessionManager × ℤ)
    → IsValid u
    → ChatsValid r.0
    → Opens u.sessions r
    → Ends (opened u r)
unfolding opened
opened-Ends u _ v w full = ends v
opened-Ends u _ v w (grows {sm} {idx} h) = ends (record {
  sessions_valid = select-ChatsValid sm (pos idx) w;
  selected = omega (arith, count-sm_select sm (pos idx));
  line = v.line;
  slots = v.slots;
  choices = v.choices;
  texts = v.texts;
  entries = v.entries;
})

pub new_session-Ends : (u : Ui) → IsValid u → Ends (new_session u)
unfolding new_session
new_session-Ends u v =
    opened-Ends u _ v (new-ChatsValid u.sessions _ v.sessions_valid) (new-Opens u.sessions _)

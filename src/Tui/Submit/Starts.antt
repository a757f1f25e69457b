-- ===== src/Tui/Submit/Starts.antt =====
-- The request of a question, as the backend decodes it (submit_text of src/ui/main.c, main of
-- src/backend/backend.c).
use free_cli.Base.{
  ℕ, ◌+◌, ◌-◌, ◌<◌, ◌≡◌, refl, ap, ◌∙◌, subst, Bool, true, false, List, [], ◌∷◌, ◌++◌, Option, none,
  some, arith, length, length-append, take-append, get_elem?, ℤ, pos, inl, inr, Option-cases, All,
}
use mathlib.Core.List.{map}
use free_cli.Ipc.Types.{msg_req_send}
use free_cli.Ipc.Wire.{done, u32_mod}
use free_cli.Ipc.Payload.{ReqSend, encode_req_send, flag_byte}
use free_cli.Ipc.Payload.Fields.{size_of, received}
use free_cli.Ipc.Payload.History.{HasByteFlag, turns_size}
use free_cli.Ipc.Frame.{IpcMsg}
use free_cli.Worker.{BackendWorker, with_payload}
use free_cli.Worker.Approval.{PendingApproval}
use free_cli.Backend.{RequestArg}
use free_cli.Backend.Loop.{start, on_message, on_message_lem}
use free_cli.Chat.{Message, ChatBuffer, chat_add}
use free_cli.Chat.Buffer as Buffer
use free_cli.Chat.Buffer.{chat_add-Appends}
use free_cli.Session.{Session, SessionManager}
use free_cli.Session.Invariant.{ActiveFits, in_range_cases}
use free_cli.Session.Invariant as Sessions
use free_cli.Commands.{update_active}
use free_cli.Fs.{bind}
use free_cli.Tui.{Ui}
use free_cli.Tui.Submit.{waiting, u32_of, turn_of, request_of, with_question}

-- A message of the user, and the placeholder for its answer.
abbrev pub plain : List ℕ → Bool → Message
plain text is_user = record {
  text = some text;
  is_user = is_user;
  reasoning = none;
  tool_calls = [];
  tool_call_id = none;
}

pub with_question-msgs :
    (cb : ChatBuffer) (text : List ℕ)
    → Buffer.IsValid cb
    → (cb' : ChatBuffer) × (with_question cb text ≡ some cb')
      × (cb'.msgs ≡ (cb.msgs ++ plain text true ∷ []) ++ plain waiting false ∷ [])
unfolding with_question
with_question-msgs cb text v =
    let (asked, e, seen, _, w) = (chat_add-Appends cb v).0 text true in
    let (cb', f, seen', _, x) = (chat_add-Appends asked w).0 waiting false in
    (
      cb',
      ap (λ (o : Option ChatBuffer). bind o (λ c. chat_add c waiting false)) e ∙ f,
      seen' ∙ ap (λ (t : List Message). t ++ plain waiting false ∷ []) seen,
    )

-- The request holds every message but the placeholder.
pub request-turns :
    (u : Ui) (cb : ChatBuffer) (ms : List Message)
    → cb.msgs ≡ ms ++ plain waiting false ∷ []
    → (request_of u cb).turns ≡ map turn_of ms
unfolding request_of
request-turns u cb ms e =
    let size : length cb.msgs - 1 ≡ length ms =
      omega (arith, ap length e, length-append ms (plain waiting false ∷ [])) in
    ap (map turn_of) (rw size (rw e (take-append ms (plain waiting false ∷ []))))

pub flags : (ms : List Message) → All HasByteFlag (map turn_of ms)
flags [] = tt
flags (m ∷ ms) = (flag m.is_user, flags ms)
  where
    flag : (b : Bool) → flag_byte b < 256
    flag true = omega arith
    flag false = omega arith

pub active-update_active :
    (sm : SessionManager) (f : Session → Session) → (update_active sm f).active ≡ sm.active
unfolding update_active
active-update_active sm f = elim (in_range_cases sm.active sm.count) [
  | inl e ↦ rw (e, update_active) refl
  | inr (i, e, _, _) ↦ (elim (Option-cases (get_elem? sm.sessions i)) [
    | inl g ↦ rw (e, g, update_active) refl
    | inr (s, g) ↦ rw (e, g, update_active) refl
  ])
]

pub index_small :
    (sm : SessionManager) (a : ℕ) → Sessions.IsValid sm → sm.active ≡ pos a → a < u32_mod
index_small sm a v e =
    let fits : ActiveFits (pos a) sm.count =
      subst (λ (t : ℤ). ActiveFits t sm.count) e v.active_fits in
    omega (arith, v.within)

-- The request for the messages `ms` of the session at `a`.
abbrev pub request_for : Ui → ℕ → List Message → ReqSend
request_for u a ms = record {
  session_idx = a;
  turns = map turn_of ms;
  model = some u.selected_model;
  provider = some u.selected_provider;
}

pub request_of-eq :
    (u : Ui) (a : ℕ) (cb : ChatBuffer) (ms : List Message)
    → u.sessions.active ≡ pos a
    → a < u32_mod
    → cb.msgs ≡ ms ++ plain waiting false ∷ []
    → request_of u cb ≡ request_for u a ms
unfolding request_of u32_of
request_of-eq u a cb ms e h seen =
    let turns = request-turns u cb ms seen in
    let index : u32_of u.sessions.active ≡ a = rw e (omega arith) in
    λ i. record {
      session_idx = index i;
      turns = turns i;
      model = some u.selected_model;
      provider = some u.selected_provider;
    }

-- What the request starts in the backend.
abbrev pub started : Ui → ℕ → List Message → RequestArg
started u a ms = record {
  corr_id = u.next_corr;
  session_idx = a;
  turns = map turn_of ms;
  model = received (some u.selected_model);
  provider_id = received (some u.selected_provider);
}

pub request_starts :
    (registry : List BackendWorker) (threads : Bool) (approvals : List PendingApproval) (u : Ui)
    (a : ℕ) (cb : ChatBuffer) (ms : List Message)
    → Sessions.IsValid u.sessions
    → u.sessions.active ≡ pos a
    → cb.msgs ≡ ms ++ plain waiting false ∷ []
    → 16
        + turns_size (map turn_of ms)
        + size_of (some u.selected_model)
        + size_of (some u.selected_provider)
      < u32_mod
    → (m : IpcMsg) × (with_payload msg_req_send u.next_corr (encode_req_send (request_of u cb))
        ≡ done m)
      × (on_message registry threads approvals m ≡ start (started u a ms))
request_starts registry threads approvals u a cb ms v e seen fits =
    let h = index_small u.sessions a v e in
    let ((m, built, begun), _) =
      on_message_lem registry threads approvals u.next_corr (request_for u a ms) 0 true h (flags ms)
        fits (omega arith) in
    (
      m,
      ap (λ (q : ReqSend). with_payload msg_req_send u.next_corr (encode_req_send q))
            (request_of-eq u a cb ms e h seen)
          ∙ built,
      begun,
    )

-- ===== src/Tui/Valid.antt =====
-- What holds of the UI's state between two events (src/ui/main.c), and what keeps it.
pub mod Submitting
pub mod Deleting
pub mod Commanding
pub mod Receiving
pub mod Messages
use free_cli.Base.{
  ℕ, zero, suc, ◌+◌, ◌-◌, ◌*◌, ◌≤◌, ◌<◌, ◌≡◌, refl, ap, sym, ◌∙◌, subst, Bool, true, false, List,
  [], ◌∷◌, ◌++◌, Option, none, some, arith, ltb, leb, ◌==◌, if◌then◌else◌, length, take, set,
  get_elem?, All, All-shift_down, ℤ, pos, negsuc, inl, inr, ◌⊎◌, Bool-cases, Option-cases,
}
use mathlib.Core.Option
use free_cli.Chat.Buffer as Buffer
use free_cli.Chat.{ChatBuffer}
use free_cli.Session.{
  Session, SessionManager, zero_session, in_range, remove_valid, sm_active_session, sm_new_session,
  sm_select, sm_remove,
}
use free_cli.Session.Invariant.{ActiveFits, in_range_cases, remove_valid-IsValid}
use free_cli.Input.Edit as Line
use free_cli.Commands.{update_active}
use free_cli.Commands.Chats.{NameFits, ChatsValid, update_active-ChatsValid}
use free_cli.Tui.{
  InFlight, PendingChoices, Ui, Output, Turn, next, too_large, outside, add_outputs, and_then,
}
use free_cli.Tui.Requests.{is_request, max_in_flight, fill_free, inflight_remove}
use free_cli.Tui.Choices.{max_choices}

abbrev pub InList : ℤ → ℕ → Type 0
InList (pos k) n = k < n
InList (negsuc k) n = ⊥

abbrev pub ChoicesFit : Option PendingChoices → Type 0
ChoicesFit none = Unit {0}
ChoicesFit (some p) = (length p.choices ≤ max_choices) × (p.selected < length p.choices)

-- The texts of the static arrays fit them with the terminator.
pub record TextsFit (model provider description : List ℕ) : Type 0 where
  pub model_fits : length model ≤ 63
  pub provider_fits : length provider ≤ 31
  pub description_fits : length description ≤ 511

abbrev pub EntryFits : InFlight → Type 0
EntryFits e = length e.name ≤ 63

-- The sessions are valid and there is one, the sidebar has one selected, the input line is valid,
-- the table has its 32 slots, the highlighted choice is one of at most eight, and the texts fit.
pub record IsValid (u : Ui) : Type 0 where
  pub sessions_valid : ChatsValid u.sessions
  pub selected : InList u.sidebar_sel u.sessions.count
  pub line : Line.IsValid u.input_line
  pub slots : length u.in_flight ≡ max_in_flight
  pub choices : ChoicesFit u.pending_choices
  pub texts : TextsFit u.selected_model u.selected_provider u.pending_approval_desc
  pub entries : All EntryFits u.in_flight

-- A turn ends in a valid state, or with a payload of 2^32 bytes, but never with another access
-- outside an array.
pub data Ends : Turn → Type 0 where
  ends : {u : Ui} {outputs : List Output} → IsValid u → Ends (next u outputs)
  outgrows : Ends too_large

pub if-Ends : (b : Bool) (x y : Turn) → Ends x → Ends y → Ends (if b then x else y)
if-Ends true x y p q = p
if-Ends false x y p q = q

add_outputs-Ends : (outputs : List Output) (t : Turn) → Ends t → Ends (add_outputs outputs t)
add_outputs-Ends outputs _ (ends v) = ends v
add_outputs-Ends outputs _ outgrows = outgrows

pub and_then-Ends :
    (t : Turn) (f : Ui → Turn) → Ends t → ((u : Ui) → IsValid u → Ends (f u)) → Ends (and_then t f)
and_then-Ends _ f (ends {u} {outputs} v) h = add_outputs-Ends outputs (f u) (h u v)
and_then-Ends _ f outgrows h = outgrows

pub length-fill_free : (es : List InFlight) (e : InFlight) → length (fill_free es e) ≡ length es
unfolding fill_free
length-fill_free [] e = refl
length-fill_free (f ∷ fs) e = ground (arith, length-fill_free fs e)

pub entries-fill_free :
    (es : List InFlight) (e : InFlight)
    → All EntryFits es
    → EntryFits e
    → All EntryFits (fill_free es e)
unfolding fill_free
entries-fill_free [] e a h = tt
entries-fill_free (f ∷ fs) e a h = elim (Bool-cases f.active) [
  | inl t ↦ simp t (a.0, entries-fill_free fs e a.1 h)
  | inr t ↦ simp t (h, a.1)
]

pub entries-inflight_remove :
    (es : List InFlight) (corr : ℕ) → All EntryFits es → All EntryFits (inflight_remove es corr).0
unfolding inflight_remove
entries-inflight_remove [] corr a = tt
entries-inflight_remove (e ∷ es) corr a = elim (Bool-cases (is_request corr e)) [
  | inl t ↦ rw t (a.0, a.1)
  | inr t ↦ rw t (a.0, entries-inflight_remove es corr a.1)
]

pub length-inflight_remove :
    (es : List InFlight) (corr : ℕ) → length (inflight_remove es corr).0 ≡ length es
unfolding inflight_remove
length-inflight_remove [] corr = refl
length-inflight_remove (e ∷ es) corr = ground (arith, length-inflight_remove es corr)

pub count-update_active :
    (sm : SessionManager) (f : Session → Session) → (update_active sm f).count ≡ sm.count
unfolding update_active
count-update_active sm f = elim (in_range_cases sm.active sm.count) [
  | inl e ↦ rw (e, update_active) refl
  | inr (i, e, _, _) ↦ (elim (Option-cases (get_elem? sm.sessions i)) [
    | inl g ↦ rw (e, g, update_active) refl
    | inr (s, g) ↦ rw (e, g, update_active) refl
  ])
]

pub count-sm_select : (sm : SessionManager) (index : ℤ) → (sm_select sm index).count ≡ sm.count
unfolding sm_select
count-sm_select sm index = elim (in_range_cases index sm.count) [
  | inl e ↦ rw (e, sm_select) refl
  | inr (i, e, _, _) ↦ rw (e, sm_select) refl
]

pub remove_valid-ChatsValid :
    (sm : SessionManager) (i : ℕ) → ChatsValid sm → i < sm.count → ChatsValid (remove_valid sm i)
unfolding remove_valid
remove_valid-ChatsValid sm i v h = record {
  sessions_valid = remove_valid-IsValid sm i v.sessions_valid h;
  chats_valid =
      All-shift_down (λ (t : Session). Buffer.IsValid t.chat) (sm.count - 1 - i) i sm.sessions
        zero_session v.chats_valid (record { room = omega arith; tight = omega arith });
  names =
      All-shift_down NameFits (sm.count - 1 - i) i sm.sessions zero_session v.names (omega arith);
}

-- The buffer of the active session, changed.
pub chat_changed-IsValid :
    (u : Ui) (cb : ChatBuffer)
    → IsValid u
    → Buffer.IsValid cb
    → IsValid (record u { sessions = update_active u.sessions (λ s. record s { chat = cb }) })
chat_changed-IsValid u cb v c = record {
  sessions_valid =
      update_active-ChatsValid u.sessions (λ s. record s { chat = cb }) v.sessions_valid (λ s. refl)
        (λ s _. c) (λ s n. n);
  selected = subst (InList u.sidebar_sel) (sym (count-update_active u.sessions _)) v.selected;
  line = v.line;
  slots = v.slots;
  choices = v.choices;
  texts = v.texts;
  entries = v.entries;
}

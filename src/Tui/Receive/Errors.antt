-- ===== src/Tui/Receive/Errors.antt =====
-- An error of the backend in the UI (check_ipc of src/ui/main.c): its text crosses the channel
-- without a terminator, and is read as a C string.
use free_cli.Base.{
  ℕ, ◌≡◌, ◌≢◌, refl, List, [], ◌∷◌, none, some, arith, ◌==◌, get_elem?, ℤ, pos, negsuc, inl, inr,
  Bool-cases, Option-cases, All,
}
use free_cli.Ipc.Types.{msg_rep_error}
use free_cli.Ipc.Wire.{done}
use free_cli.Ipc.Frame.{IpcMsg}
use free_cli.Session.{SessionManager, in_range}
use free_cli.Session.Invariant.{ActiveFits, in_range_cases}
use free_cli.Session.Refine.{in_range_pos}
use free_cli.Backend.{rep_error, sent_messages}
use free_cli.Tui.{Ui, outside}
use free_cli.Tui.Requests.{inflight_remove}
use free_cli.Tui.Receive.{
  at, active_target, error_target, change_chat, c_string, error_text, put_error, failed, error_to,
  on_rep_error, on_message,
}
use free_cli.Tui.Valid.{InList, IsValid}

-- The bytes of a C string hold no terminator.
c_string-none : (cs : List ℕ) → All (λ c. c ≢ 0) cs → c_string cs ≡ none
unfolding c_string
c_string-none [] h = refl
c_string-none (c ∷ cs) h = elim (Bool-cases (c == 0)) [
  | inl e ↦ absurd (h.0 (ground arith))
  | inr e ↦ rw (e, c_string-none cs h.1) refl
]

change_chat-none : (sm : SessionManager) (i : ℕ) → change_chat sm i (put_error none) ≡ none
unfolding change_chat put_error
change_chat-none sm i = elim (Option-cases (get_elem? sm.sessions i)) [
  | inl e ↦ rw (e, change_chat) refl
  | inr (s, e) ↦ rw (e, change_chat) refl
]

error_to-outside : (u : Ui) (i : ℕ) → error_to u none (at i) ≡ outside
unfolding error_to failed
error_to-outside u i = rw (change_chat-none u.sessions i) refl

active_some :
    (sm : SessionManager) (a : ℤ) (sel : ℤ)
    → ActiveFits a sm.count
    → InList sel sm.count
    → (i : ℕ) × (in_range a sm.count ≡ some i)
active_some sm (pos a) sel f h = (a, in_range_pos a sm.count f)
active_some sm (negsuc n) (pos k) f h = absurd (omega arith)
active_some sm (negsuc n) (negsuc k) f h = absurd h

error_target_at :
    (sm : SessionManager) (sidx sel : ℤ)
    → ActiveFits sm.active sm.count
    → InList sel sm.count
    → (i : ℕ) × (error_target sm sidx ≡ at i)
unfolding error_target active_target
error_target_at sm sidx sel f h = elim (in_range_cases sidx sm.count) [
  | inr (i, e, _, _) ↦ (i, rw (e, error_target) refl)
  | inl e ↦
      let (a, g) = active_some sm sm.active sel f h in
      (a, rw (e, error_target) (rw (g, active_target) refl))
]

error_text-none :
    (c : ℕ) (cs : List ℕ) → All (λ b. b ≢ 0) (c ∷ cs) → error_text (some (c ∷ cs)) ≡ none
unfolding error_text
error_text-none c cs h = c_string-none (c ∷ cs) h

on_rep_error-outside :
    (u : Ui) (corr c : ℕ) (cs : List ℕ)
    → IsValid u
    → All (λ b. b ≢ 0) (c ∷ cs)
    → on_rep_error u corr (some (c ∷ cs)) ≡ outside
unfolding on_rep_error
on_rep_error-outside u corr c cs v clean =
    let (i, place) =
      error_target_at u.sessions (inflight_remove u.in_flight corr).1 u.sidebar_sel
        v.sessions_valid.sessions_valid.active_fits v.selected in
    rw (error_text-none c cs clean, place) (error_to-outside _ i)

-- In a valid state, an error message with a text of at least one byte and no zero byte, as the
-- backend sends it, makes the UI read behind the end of the payload.
pub error_overruns :
    (u : Ui) (corr c : ℕ) (cs : List ℕ)
    → IsValid u
    → All (λ b. b ≢ 0) (c ∷ cs)
    → (m : IpcMsg) × (sent_messages corr (rep_error (c ∷ cs)) ≡ done (m ∷ []))
      × (on_message u m ≡ outside)
unfolding on_message sent_messages
error_overruns u corr c cs v clean = (
  record { type = msg_rep_error; corr_id = corr; payload = some (c ∷ cs) },
  refl,
  on_rep_error-outside u corr c cs v clean,
)

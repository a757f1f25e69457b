-- ===== src/Tui/Valid/Deleting.antt =====
-- Deleting a session keeps the UI's state valid (do_delete_session of src/ui/main.c).
use free_cli.Base.{
  ℕ, ◌<◌, ◌≡◌, sym, subst, false, Option, none, some, arith, leb, ltb, ◌==◌, ℤ, pos, negsuc, inl,
  inr, Bool-cases, bytes,
}
use free_cli.Session.{Session, SessionManager, max_sessions, sm_new_session, sm_remove}
use free_cli.Session.Invariant.{in_range_cases}
use free_cli.Session.Refine.{in_range_pos}
use free_cli.Commands.Chats.{ChatsValid}
use free_cli.Commands.Total.{new-ChatsValid, select-ChatsValid}
use free_cli.Tui.{Ui}
use free_cli.Tui.Delete.{refilled, clamp_sel, delete_at, do_delete_session}
use free_cli.Tui.Valid.{InList, IsValid, count-sm_select, remove_valid-ChatsValid}

refilled-ChatsValid : (sm : SessionManager) → ChatsValid sm → ChatsValid (refilled sm)
unfolding refilled
refilled-ChatsValid sm v = elim (Bool-cases (sm.count == 0)) [
  | inl e ↦ rw e (new-ChatsValid sm (bytes "Chat 1") v)
  | inr e ↦ rw e v
]

refilled_some : (sm : SessionManager) → 0 < (refilled sm).count
unfolding refilled sm_new_session
refilled_some sm = elim (Bool-cases (sm.count == 0)) [
  | inl e ↦
      let room : leb max_sessions sm.count ≡ false = ground arith in rw e (rw room (omega arith))
  | inr e ↦ rw e (ground arith)
]

clamp_sel-InList :
    (sel : ℤ) (old new : ℕ) → InList sel old → 0 < new → InList (clamp_sel sel new) new
unfolding clamp_sel
clamp_sel-InList (pos k) old new h p = elim (Bool-cases (ltb k new)) [
  | inl e ↦ ground arith
  | inr e ↦ ground arith
]
clamp_sel-InList (negsuc k) old new h p = absurd h

delete_at-IsValid :
    (u : Ui) (i : ℕ) (o : Option Session)
    → IsValid u
    → i < u.sessions.count
    → IsValid (delete_at u (pos i) o).0
unfolding delete_at sm_remove
delete_at-IsValid u i none v h = v
delete_at-IsValid u i (some s) v h =
    let removed = remove_valid-ChatsValid u.sessions i v.sessions_valid h in
    rw (in_range_pos i u.sessions.count h, sm_remove)
      (record {
        sessions_valid = select-ChatsValid _ _ (refilled-ChatsValid _ removed);
        selected =
            subst (InList _) (sym (count-sm_select _ _))
              (clamp_sel-InList u.sidebar_sel u.sessions.count _ v.selected (refilled_some _));
        line = v.line;
        slots = v.slots;
        choices = v.choices;
        texts = v.texts;
        entries = v.entries;
      })

-- Whatever the index, the state stays valid: a session is left, and the sidebar shows one.
pub do_delete_session-IsValid : (u : Ui) (idx : ℤ) → IsValid u → IsValid (do_delete_session u idx).0
unfolding do_delete_session
do_delete_session-IsValid u idx v = elim (in_range_cases idx u.sessions.count) [
  | inl e ↦ rw (e, do_delete_session) v
  | inr (i, e, same, h) ↦ rw (e, do_delete_session) (rw same (delete_at-IsValid u i _ v h))
]

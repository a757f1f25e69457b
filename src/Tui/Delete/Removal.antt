-- ===== src/Tui/Delete/Removal.antt =====
-- What deleting a session leaves behind (do_delete_session of src/ui/main.c).
use free_cli.Base.{
  ℕ, suc, ◌-◌, ◌<◌, ◌≡◌, refl, ap, sym, ◌∙◌, false, List, [], ◌∷◌, ◌++◌, some, arith, leb, ◌==◌,
  length, take, get_elem?, get_elem?-take, get_elem?-remove_at_ge, remove_at, ℤ, pos, inl, inr, ◌⊎◌,
  Bool-cases, bytes,
}
use free_cli.Chat.{chat_init}
use free_cli.Session.{
  Session, SessionManager, max_sessions, remove_valid, sm_new_session, sm_select, sm_remove,
}
use free_cli.Session.Invariant.{view, view-new, view-remove, in_range_cases}
use free_cli.Session.Refine.{in_range_pos}
use free_cli.Tui.{Ui, Output, wrote_all, removed_file}
use free_cli.Tui.Requests.{inflight_find_sidx}
use free_cli.Tui.Delete.{refilled, delete_at, do_delete_session}
use free_cli.Tui.Valid.Receiving.{get_elem?-lt}
use free_cli.Tui.Valid.{IsValid, remove_valid-ChatsValid}

view-sm_select : (sm : SessionManager) (index : ℤ) → view (sm_select sm index) ≡ view sm
unfolding sm_select
view-sm_select sm index = elim (in_range_cases index sm.count) [
  | inl e ↦ rw (e, sm_select) refl
  | inr (i, e, _, _) ↦ rw (e, sm_select) refl
]

-- The session that takes the place of the last one.
abbrev first_chat : ℕ → Session
first_chat id = record { id = id; name = bytes "Chat 1"; chat = chat_init }

refilled-view :
    (sm : SessionManager)
    → length sm.sessions ≡ max_sessions
    → ((0 < sm.count) × (view (refilled sm) ≡ view sm))
      ⊎ ((sm.count ≡ 0) × (view (refilled sm) ≡ first_chat sm.next_id ∷ []))
unfolding refilled sm_new_session bytes
refilled-view sm slots = elim (Bool-cases (sm.count == 0)) [
  | inr some_left ↦ inl (ground arith, rw some_left refl)
  | inl empty ↦
      let none_left : sm.count ≡ 0 = ground arith in
      let room : leb max_sessions sm.count ≡ false = ground arith in
      inr (
        none_left,
        rw empty (
            rw room (
              view-new sm (first_chat sm.next_id) slots (omega arith)
              ∙ ap (λ n. take n sm.sessions ++ first_chat sm.next_id ∷ []) none_left)),
      )
]

-- The state after the deletion of the session `s` at an index in use.
deleted :
    (u : Ui) (i : ℕ) (s : Session)
    → i < u.sessions.count
    → get_elem? u.sessions.sessions i ≡ some s
    → do_delete_session u (pos i) ≡ delete_at u (pos i) (some s)
unfolding do_delete_session
deleted u i s h e = rw (in_range_pos i u.sessions.count h, do_delete_session) (rw e refl)

view-deleted :
    (u : Ui) (i : ℕ) (s : Session)
    → i < u.sessions.count
    → view (delete_at u (pos i) (some s)).0.sessions ≡ view (refilled (remove_valid u.sessions i))
unfolding delete_at sm_remove
view-deleted u i s h = rw (in_range_pos i u.sessions.count h, sm_remove) (view-sm_select _ _)

view_left :
    (u : Ui) (i : ℕ) (s : Session)
    → IsValid u
    → i < u.sessions.count
    → get_elem? u.sessions.sessions i ≡ some s
    → ((1 < u.sessions.count)
        × (view (do_delete_session u (pos i)).0.sessions ≡ remove_at i (view u.sessions)))
      ⊎ ((u.sessions.count ≡ 1)
          × (view (do_delete_session u (pos i)).0.sessions ≡ first_chat u.sessions.next_id ∷ []))
unfolding remove_valid
view_left u i s v h e =
    let w = v.sessions_valid.sessions_valid in
    let seen : view (do_delete_session u (pos i)).0.sessions
        ≡ view (refilled (remove_valid u.sessions i)) =
      ap (λ (r : Ui × List Output). view r.0.sessions) (deleted u i s h e) ∙ view-deleted u i s h in
    elim (refilled-view (remove_valid u.sessions i)
      (remove_valid-ChatsValid u.sessions i v.sessions_valid h).sessions_valid.slots) [
        | inl (more, f) ↦ inl (omega arith, seen ∙ f ∙ view-remove u.sessions i w.slots w.within h)
        | inr (none_left, f) ↦ inr (omega arith, seen ∙ f)
      ]

-- In a valid state, deleting the session at an index in use removes its file and saves the rest,
-- which are the other sessions in their order or, where none is left, one new session "Chat 1".
pub do_delete_session_lem :
    (u : Ui) (i : ℕ) (s : Session)
    → IsValid u
    → i < u.sessions.count
    → get_elem? u.sessions.sessions i ≡ some s
    → ((do_delete_session u (pos i)).1
        ≡ removed_file s.id ∷ wrote_all (do_delete_session u (pos i)).0.sessions ∷ [])
      × (((1 < u.sessions.count)
            × (view (do_delete_session u (pos i)).0.sessions ≡ remove_at i (view u.sessions)))
          ⊎ ((u.sessions.count ≡ 1)
              × (view (do_delete_session u (pos i)).0.sessions
                  ≡ first_chat u.sessions.next_id ∷ [])))
unfolding delete_at
do_delete_session_lem u i s v h e = (
  ap (λ (r : Ui × List Output). r.1) (deleted u i s h e)
      ∙ ap (λ (r : Ui × List Output). removed_file s.id ∷ wrote_all r.0.sessions ∷ [])
          (sym (deleted u i s h e)),
  view_left u i s v h e,
)

-- In a valid state, when a session before another is deleted, a request of that other one stays in
-- the table with its old index, though that session now stands one index before.
pub delete_keeps_index :
    (u : Ui) (i j corr : ℕ) (s : Session)
    → IsValid u
    → i < j
    → j < u.sessions.count
    → get_elem? u.sessions.sessions j ≡ some s
    → inflight_find_sidx u.in_flight corr ≡ pos j
    → (inflight_find_sidx (do_delete_session u (pos i)).0.in_flight corr ≡ pos j)
      × (get_elem? (view (do_delete_session u (pos i)).0.sessions) (j - 1) ≡ some s)
unfolding delete_at
delete_keeps_index u i j corr s v h k e found =
    let w = v.sessions_valid.sessions_valid in
    let (t, here) = get_elem?-lt u.sessions.sessions i (omega (arith, w.slots, w.within)) in
    let back : suc (j - 1) ≡ j = omega arith in
    let before : get_elem? (view u.sessions) j ≡ some s =
      get_elem?-take u.sessions.count j u.sessions.sessions k ∙ e in
    (
      ap (λ (r : Ui × List Output). inflight_find_sidx r.0.in_flight corr)
            (deleted u i t (omega arith) here)
          ∙ found,
      elim (view_left u i t v (omega arith) here) [
        | inl (_, f) ↦ rw f (
            get_elem?-remove_at_ge i (j - 1) (view u.sessions) (omega arith)
            ∙ ap (get_elem? (view u.sessions)) back
            ∙ before)
        | inr (one, _) ↦ absurd (omega arith)
      ],
    )

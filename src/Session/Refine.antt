-- ===== src/Session/Refine.antt =====
-- The array of src/ui/session.c as a list of sessions, and which session stays active.
use free_cli.Base.{
  ℕ, suc, ◌+◌, ◌-◌, ◌<◌, ◌≡◌, ◌≢◌, refl, ap, sym, ◌∙◌, false, List, some, arith, ltb, ◌==◌,
  remove_at, get_elem?, get_elem?-take, get_elem?-remove_at_lt, get_elem?-remove_at_ge, pos, inl,
  inr, Bool-cases, lt→ltb, if◌then◌else◌,
}
use free_cli.Session.{
  SessionManager, in_range, sm_active_session, active_after, remove_valid, sm_remove,
}
use free_cli.Session.Invariant.{IsValid, view, view-remove}

pub in_range_pos : (i count : ℕ) → i < count → in_range (pos i) count ≡ some i
unfolding in_range
in_range_pos i count h = rw (lt→ltb i count h)

-- In a valid manager sm_remove takes out exactly the session at an index in use, the others keep
-- their order, and the return value is the new active index.
pub sm_remove_lem :
    (sm : SessionManager) (i : ℕ)
    → IsValid sm
    → i < sm.count
    → (view (sm_remove sm (pos i)).0 ≡ remove_at i (view sm))
      × ((sm_remove sm (pos i)).0.count + 1 ≡ sm.count)
      × ((sm_remove sm (pos i)).1 ≡ (sm_remove sm (pos i)).0.active)
unfolding sm_remove
sm_remove_lem sm i v h =
    rw (in_range_pos i sm.count h, sm_remove)
      (view-remove sm i v.slots v.within h, unfold remove_valid in omega arith, refl)

active_elem :
    (sm : SessionManager) (a : ℕ)
    → sm.active ≡ pos a
    → a < sm.count
    → sm_active_session sm ≡ get_elem? (view sm) a
unfolding sm_active_session
active_elem sm a e h =
    rw (e, in_range_pos a sm.count h, sm_active_session)
      (sym (get_elem?-take sm.count a sm.sessions h))

active_after-other :
    (sm : SessionManager) (a i : ℕ)
    → sm.active ≡ pos a
    → a < sm.count
    → i < sm.count
    → a ≢ i
    → (remove_valid sm i).active ≡ pos (if ltb i a then a - 1 else a)
unfolding remove_valid active_after
active_after-other sm a i e h k n =
    let others : (sm.count - 1 == 0) ≡ false = ground arith in
    let differ : (a == i) ≡ false = ground arith in rw (e, others, differ) (ground arith)

get_elem?-remove_at_other {ℓ} :
    {A : Type ℓ} (xs : List A) (a i : ℕ)
    → a ≢ i
    → get_elem? (remove_at i xs) (if ltb i a then a - 1 else a) ≡ get_elem? xs a
get_elem?-remove_at_other xs a i n = elim (Bool-cases (ltb i a)) [
  | inl e ↦
      let back : suc (a - 1) ≡ a = ground arith in
      rw e (get_elem?-remove_at_ge i (a - 1) xs (ground arith) ∙ ap (get_elem? xs) back)
  | inr e ↦ rw e (get_elem?-remove_at_lt i a xs (ground arith))
]

-- In a valid manager, removing another session leaves the active session active, wherever the
-- shift has moved it.
pub sm_remove_keeps_active :
    (sm : SessionManager) (a i : ℕ)
    → IsValid sm
    → sm.active ≡ pos a
    → i < sm.count
    → a ≢ i
    → sm_active_session (sm_remove sm (pos i)).0 ≡ sm_active_session sm
unfolding sm_remove
sm_remove_keeps_active sm a i v e h n =
    let fits : a < sm.count = rw e at v.active_fits in
    rw (in_range_pos i sm.count h, sm_remove)
      (active_elem (remove_valid sm i) (if ltb i a then a - 1 else a)
          (active_after-other sm a i e fits h n) (ground arith)
        ∙ ap (λ xs. get_elem? xs (if ltb i a then a - 1 else a))
            (view-remove sm i v.slots v.within h)
        ∙ get_elem?-remove_at_other (view sm) a i n
        ∙ sym (active_elem sm a e fits))

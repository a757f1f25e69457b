-- ===== src/Tui/Delete.antt =====
-- do_delete_session of src/ui/main.c.
pub mod Removal
use free_cli.Base.{
  ℕ, ◌-◌, List, [], ◌∷◌, Option, none, some, ◌==◌, if◌then◌else◌, get_elem?, ℤ, pos, negsuc, ltb_ℤ,
  sub_ℕ, bytes,
}
use free_cli.Session.{Session, SessionManager, in_range, sm_new_session, sm_select, sm_remove}
use free_cli.Tui.{Ui, Output, wrote_all, removed_file}

-- The list of sessions is never left empty.
unfoldable pub refilled : SessionManager → SessionManager
refilled sm = if sm.count == 0 then (sm_new_session sm (bytes "Chat 1")).0 else sm

-- `if (sidebar_sel >= count) sidebar_sel = count - 1`
unfoldable pub clamp_sel : ℤ → ℕ → ℤ
clamp_sel sel count = if ltb_ℤ sel (pos count) then sel else sub_ℕ count 1

-- `new_active >= 0`, and else the selected one.
unfoldable pub active_or : ℤ → ℤ → ℤ
active_or (pos a) sel = pos a
active_or (negsuc n) sel = sel

unfoldable pub delete_at : Ui → ℤ → Option Session → Ui × List Output
delete_at u idx none = (u, [])
delete_at u idx (some s) =
    let removed = sm_remove u.sessions idx in
    let sm = refilled removed.0 in
    let sel = clamp_sel u.sidebar_sel sm.count in
    let sm' = sm_select sm (active_or removed.1 sel) in
    (record u { sessions = sm'; sidebar_sel = sel }, removed_file s.id ∷ wrote_all sm' ∷ [])

unfoldable pub do_delete_session : Ui → ℤ → Ui × List Output
do_delete_session u idx = elim (in_range idx u.sessions.count) [
  | none ↦ (u, [])
  | some i ↦ delete_at u idx (get_elem? u.sessions.sessions i)
]

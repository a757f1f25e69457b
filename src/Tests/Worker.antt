-- ===== src/Tests/Worker.antt =====
-- Runs of the worker bus of src/core/backend_worker.c.
use free_cli.Base.{
  ℕ, ◌≡◌, ◌≢◌, refl, ap, sym, ◌∙◌, true, false, List, [], ◌∷◌, none, some, arith, ◌⊎◌,
}
use mathlib.Core.Option.{some-injective}
use free_cli.Ipc.Types.{msg_worker_req}
use free_cli.Ipc.Wire.{done}
use free_cli.Ipc.Payload.{encode_worker_req}
use free_cli.Ipc.Frame.{IpcMsg}
use free_cli.Worker.{
  BackendWorker, bw_max_workers, bw_registry_add, bw_registry_find, bw_dispatch_msg, dispatch_to,
  with_payload, bw_send_result, approval_message,
}
use free_cli.Worker.Registry.{Starts, Unknown, bw_dispatch_msg_lem}
use free_cli.Worker.Approval.{
  PendingApproval, approvals_init_once, claim_slot, bw_request_approval, Approves, claimed,
  notified, timed_out, released, after_claim, steps,
}
use free_cli.Worker.Approval.Grant.{approval_needs_notice}

abbrev files : BackendWorker
files = record { type = 1; name = 102 ∷ [] }

bw_dispatch_msg_lem_example :
    (m : IpcMsg) × (with_payload msg_worker_req 9 (encode_worker_req 1 (some (7 ∷ [])) none)
      ≡ done m)
    × (Starts (files ∷ []) 9 1 (some (7 ∷ [])) none m ⊎ Unknown (files ∷ []) 9 1 m)
bw_dispatch_msg_lem_example =
    bw_dispatch_msg_lem (files ∷ []) 9 1 (some (7 ∷ [])) none (omega arith) (omega arith)

-- Another thread waits under id 4 in the first slot.
abbrev one_waits : List PendingApproval
one_waits = after_claim approvals_init_once (claim_slot approvals_init_once 4)

abbrev slots_after : List PendingApproval
slots_after = steps (claimed 9 ∷ []) one_waits

claimed_second : claim_slot one_waits 9 ≡ some (1, slots_after)
unfolding claim_slot after_claim free_cli.Worker.Approval.step
claimed_second = refl

second_slot : (i : ℕ) (bs : List PendingApproval) → claim_slot one_waits 9 ≡ some (i, bs) → i ≢ 0
second_slot i bs e z =
    let same : 1 ≡ i =
      ap (λ (r : ℕ × List PendingApproval). r.0) (some-injective _ _ (sym claimed_second ∙ e)) in
    omega arith

approval_needs_notice_example :
    Approves 9 (notified 4 false ∷ timed_out 0 ∷ notified 9 true ∷ released 0 ∷ [])
unfolding claim_slot after_claim bw_request_approval free_cli.Worker.Approval.request_in
    free_cli.Worker.Approval.conclude free_cli.Worker.Approval.step
    free_cli.Worker.Approval.time_out free_cli.Worker.Approval.release_slot
    free_cli.Worker.Approval.is_waiting free_cli.Worker.Approval.is_granted
    free_cli.Worker.Approval.bw_notify_approval
approval_needs_notice_example =
    approval_needs_notice one_waits 9 none false
      (notified 4 false ∷ timed_out 0 ∷ notified 9 true ∷ released 0 ∷ [])
      (λ i bs e. (tt, (second_slot i bs e, (tt, (second_slot i bs e, tt))))) refl

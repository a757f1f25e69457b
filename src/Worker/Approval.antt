-- ===== src/Worker/Approval.antt =====
-- The approvals of src/core/backend_worker.c: a table of eight slots, under one mutex, in which
-- worker threads wait and which the message loop of the backend decides. The steps of the other
-- threads while one waits are an explicit list of events, in the order in which they take the mutex.
pub mod Grant
pub mod Slots
use free_cli.Base.{
  ℕ, zero, suc, ◌+◌, ◌≤◌, ◌<◌, ◌≡◌, ◌≢◌, refl, ap, sym, ◌∙◌, subst, Bool, true, false, ◌&&◌, ◌||◌,
  List, [], ◌∷◌, ◌++◌, Option, none, some, arith, ◌==◌, ==_iff, ==_refl, if◌then◌else◌, length, set,
  get_elem?, replicate, get_elem?-set_self, get_elem?-set_ne, All, Bool-cases, Option-cases, inl,
  inr, ◌⊎◌, ◌↔◌, ◌↔◌,
}
use mathlib.Core.Option.{some-injective}
use free_cli.Ipc.Types.{msg_approval_req}
use free_cli.Ipc.Wire.{Outcome, done, rejected, fault, ◌>>=◌}
use free_cli.Ipc.Frame.{IpcMsg}
use free_cli.Worker.{approval_message}

abbrev pub max_pending_approvals : ℕ
max_pending_approvals = 8

-- 0, 1 and -1
pub data Decision : Type 0 where
  pending : Decision
  approved : Decision
  denied : Decision

pub record PendingApproval : Type 0 where
  pub in_use : Bool
  pub corr_id : ℕ
  pub decided : Decision

abbrev pub approvals_init_once : List PendingApproval
approvals_init_once =
    replicate max_pending_approvals (record { in_use = false; corr_id = 0; decided = pending })

-- The first slot that is not in use, taken, with its index.
unfoldable pub claim_slot : List PendingApproval → ℕ → Option (ℕ × List PendingApproval)
claim_slot [] corr = none
claim_slot (a ∷ ts) corr =
    let rest = claim_slot ts corr in
    if a.in_use
    then elim rest [ none ↦ none | some (i, bs) ↦ some (suc i, a ∷ bs) ]
    else some (0, record { in_use = true; corr_id = corr; decided = pending } ∷ ts)

unfoldable pub bw_notify_approval : List PendingApproval → ℕ → Bool → List PendingApproval
bw_notify_approval [] corr ok = []
bw_notify_approval (a ∷ ts) corr ok =
    let rest = bw_notify_approval ts corr ok in
    if a.in_use && a.corr_id == corr
    then record a { decided = if ok then approved else denied } ∷ ts
    else a ∷ rest

abbrev pub is_approved : Decision → Bool
is_approved pending = false
is_approved approved = true
is_approved denied = false

-- `decided = -1`, whatever it was.
unfoldable pub time_out : List PendingApproval → ℕ → List PendingApproval
time_out ts i = elim (get_elem? ts i) [
  | none ↦ ts
  | some a ↦ set ts i (record a { decided = denied })
]

unfoldable pub release_slot : List PendingApproval → ℕ → List PendingApproval
release_slot ts i = elim (get_elem? ts i) [
  | none ↦ ts
  | some a ↦ set ts i (record a { in_use = false })
]

-- A step of another thread on the table.
pub data Event : Type 0 where
  claimed : ℕ → Event
  notified : ℕ → Bool → Event
  timed_out : ℕ → Event
  released : ℕ → Event

unfoldable pub after_claim :
    List PendingApproval → Option (ℕ × List PendingApproval) → List PendingApproval
after_claim ts none = ts
after_claim ts (some (i, bs)) = bs

unfoldable pub step : Event → List PendingApproval → List PendingApproval
step (claimed corr) ts = after_claim ts (claim_slot ts corr)
step (notified corr ok) ts = bw_notify_approval ts corr ok
step (timed_out i) ts = time_out ts i
step (released i) ts = release_slot ts i

abbrev pub steps : List Event → List PendingApproval → List PendingApproval
steps [] ts = ts
steps (e ∷ es) ts = steps es (step e ts)

unfoldable pub is_granted : Option PendingApproval → Bool
is_granted none = false
is_granted (some a) = is_approved a.decided

unfoldable pub is_waiting : Option PendingApproval → Bool
is_waiting none = false
is_waiting (some a) = elim a.decided [ pending ↦ true | approved ↦ false | denied ↦ false ]

-- What the thread of the slot `i` returns, and the table that it leaves. The wait ends with an error
-- if it is late, even if there is a decision by then, or if none comes.
unfoldable pub conclude : Bool → List PendingApproval → ℕ → Bool × List PendingApproval
conclude late ts i =
    let bs = if late || is_waiting (get_elem? ts i) then time_out ts i else ts in
    (is_granted (get_elem? bs i), release_slot bs i)

unfoldable pub request_in :
    ℕ
    → Option (List ℕ)
    → Bool
    → List Event
    → List PendingApproval
    → Option (ℕ × List PendingApproval)
    → Outcome (List IpcMsg) × (Bool × List PendingApproval)
request_in corr description late es ts none = (done [], (false, ts))
request_in corr description late es ts (some (i, bs)) =
    (approval_message corr description, conclude late (steps es bs) i)

-- What it sends, what it returns and the table that it leaves; `es` are the steps of the other
-- threads from the claim until the wait has ended, by a decision or, if it is `late`, by an error of
-- pthread_cond_timedwait.
unfoldable pub bw_request_approval :
    List PendingApproval
    → ℕ
    → Option (List ℕ)
    → Bool
    → List Event
    → Outcome (List IpcMsg) × (Bool × List PendingApproval)
bw_request_approval ts corr description late es =
    request_in corr description late es ts (claim_slot ts corr)

-- Only the thread that waits in a slot lets it expire and releases it.
abbrev pub LeavesSlot : ℕ → Event → Type 0
LeavesSlot i (claimed corr) = Unit
LeavesSlot i (notified corr ok) = Unit
LeavesSlot i (timed_out j) = i ≢ j
LeavesSlot i (released j) = i ≢ j

-- The steps of the other threads, whichever slot the claim gives.
abbrev pub ByOthers : List PendingApproval → ℕ → List Event → Type 0
ByOthers ts corr es =
    (i : ℕ) (bs : List PendingApproval) → claim_slot ts corr ≡ some (i, bs) → All (LeavesSlot i) es

pub data Approves (corr : ℕ) : List Event → Type 0 where
  here : {es : List Event} → Approves corr (notified corr true ∷ es)
  there : {e : Event} {es : List Event} → Approves corr es → Approves corr (e ∷ es)

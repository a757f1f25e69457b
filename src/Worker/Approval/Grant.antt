-- ===== src/Worker/Approval/Grant.antt =====
-- What grants an approval of src/core/backend_worker.c.
use free_cli.Base.{
  ℕ, zero, suc, ◌<◌, ◌≡◌, refl, ap, sym, ◌∙◌, subst, Bool, true, false, ◌||◌, List, [], ◌∷◌, Option,
  none, some, arith, length, set, get_elem?, get_elem?-set_self, All, Bool-cases, Option-cases, inl,
  inr,
}
use mathlib.Core.Option.{some-injective}
use free_cli.Worker.Approval.{
  Decision, pending, denied, PendingApproval, claim_slot, is_approved, time_out, Event, steps,
  is_granted, is_waiting, conclude, request_in, bw_request_approval, LeavesSlot, ByOthers, Approves,
}
use free_cli.Worker.Approval.Slots.{steps-Kept}

get_elem?_lt :
    (ts : List PendingApproval) (i : ℕ) (a : PendingApproval)
    → get_elem? ts i ≡ some a
    → i < length ts
get_elem?_lt [] i a h = absurd cc
get_elem?_lt (x ∷ ts) zero a h = omega arith
get_elem?_lt (x ∷ ts) (suc i) a h = omega (arith, get_elem?_lt ts i a h)

none_ne_claim : {r : ℕ × List PendingApproval} → ¬ (none ≡ some r)
none_ne_claim h = cc

claim_slot-claims :
    (ts : List PendingApproval) (corr i : ℕ) (bs : List PendingApproval)
    → claim_slot ts corr ≡ some (i, bs)
    → get_elem? bs i ≡ some (record { in_use = true; corr_id = corr; decided = pending })
unfolding claim_slot
claim_slot-claims [] corr i bs h = cc
claim_slot-claims (a ∷ ts) corr i bs h = elim (Bool-cases a.in_use) [
  | inl u ↦ elim (Option-cases (claim_slot ts corr)) [
    | inl e ↦ absurd (none_ne_claim (rw (u, e) at h))
    | inr ((j, cs), e) ↦
        let h' : some (suc j, a ∷ cs) ≡ some (i, bs) = rw (u, e) at h in
        subst
          (λ (r : ℕ × List PendingApproval).
            get_elem? r.1 r.0 ≡ some (record { in_use = true; corr_id = corr; decided = pending }))
          (some-injective _ _ h') (claim_slot-claims ts corr j cs e)
  ]
  | inr u ↦
      let h' : some (0, record { in_use = true; corr_id = corr; decided = pending } ∷ ts)
          ≡ some (i, bs) =
        rw u at h in
      subst
        (λ (r : ℕ × List PendingApproval).
          get_elem? r.1 r.0 ≡ some (record { in_use = true; corr_id = corr; decided = pending }))
        (some-injective _ _ h') refl
]

time_out-some :
    (ts : List PendingApproval) (i : ℕ) (a : PendingApproval)
    → get_elem? ts i ≡ some a
    → time_out ts i ≡ set ts i (record a { decided = denied })
unfolding time_out
time_out-some ts i a h = rw (h, time_out) refl

time_out_slot :
    (ts : List PendingApproval) (i : ℕ) (a : PendingApproval)
    → get_elem? ts i ≡ some a
    → get_elem? (time_out ts i) i ≡ some (record a { decided = denied })
time_out_slot ts i a h =
    let a' = record a { decided = denied } in
    ap (λ r. get_elem? r i) (time_out-some ts i a h)
    ∙ get_elem?-set_self ts i a' (get_elem?_lt ts i a h)

-- A decision that is granted stood in the slot.
conclude_granted :
    (late : Bool) (ts : List PendingApproval) (i corr : ℕ) (d : Decision)
    → get_elem? ts i ≡ some (record { in_use = true; corr_id = corr; decided = d })
    → (conclude late ts i).0 ≡ true
    → is_approved d ≡ true
unfolding conclude is_granted
conclude_granted late ts i corr d h g =
    let a : PendingApproval = record { in_use = true; corr_id = corr; decided = d } in
    elim (Bool-cases (late || is_waiting (get_elem? ts i))) [
      | inl ended ↦
          let g' : is_granted (get_elem? (time_out ts i) i) ≡ true = rw ended at g in
          absurd (denied_ne (sym (ap is_granted (time_out_slot ts i a h)) ∙ g'))
      | inr decided ↦
          let g' : is_granted (get_elem? ts i) ≡ true = rw decided at g in
          sym (ap is_granted h) ∙ g'
    ]
  where
    denied_ne : ¬ (false ≡ true)
    denied_ne e = cc

-- A worker's request is granted only if, while it waits, the message loop is notified of an
-- approval with the request's correlation id; this where no other thread releases the worker's
-- slot or lets it expire.
pub approval_needs_notice :
    (ts : List PendingApproval) (corr : ℕ) (description : Option (List ℕ)) (late : Bool)
    (es : List Event)
    → ByOthers ts corr es
    → (bw_request_approval ts corr description late es).1.0 ≡ true
    → Approves corr es
unfolding bw_request_approval request_in
approval_needs_notice ts corr description late es l h = elim (Option-cases (claim_slot ts corr)) [
  | inl e ↦ let h' : false ≡ true = rw e at h in absurd cc
  | inr ((i, bs), e) ↦
      let h' : (conclude late (steps es bs) i).0 ≡ true = rw e at h in
      granted_by ts corr i bs es (l i bs e) (claim_slot-claims ts corr i bs e) h'
]
  where
    granted_by :
        (ts : List PendingApproval) (corr i : ℕ) (bs : List PendingApproval) (es : List Event)
        → All (LeavesSlot i) es
        → get_elem? bs i ≡ some (record { in_use = true; corr_id = corr; decided = pending })
        → (conclude late (steps es bs) i).0 ≡ true
        → Approves corr es
    granted_by ts corr i bs es l s h =
        let (d, at_end, from) = steps-Kept es bs i corr pending l s in
        elim (from (conclude_granted late (steps es bs) i corr d at_end h)) [
          | inl e ↦ absurd cc
          | inr a ↦ a
        ]

-- ===== src/Worker/Approval/Slots.antt =====
-- The slot of a waiting worker under the steps of the other threads (src/core/backend_worker.c).
use free_cli.Base.{
  ℕ, zero, suc, ◌≡◌, ◌≢◌, refl, ap, sym, ◌∙◌, subst, Bool, true, false, ◌&&◌, List, [], ◌∷◌, none,
  some, arith, ◌==◌, if◌then◌else◌, set, get_elem?, get_elem?-set_ne, All, Bool-cases, Option-cases,
  inl, inr, ◌⊎◌,
}
use free_cli.Worker.Approval.{
  Decision, approved, denied, PendingApproval, claim_slot, bw_notify_approval, is_approved,
  time_out, release_slot, Event, claimed, notified, timed_out, released, after_claim, step, steps,
  LeavesSlot, Approves, here, there,
}

-- A slot that was waiting with `corr` is still in use with it, and is approved only if it was
-- before or if the step approves `corr`.
pub Kept : ℕ → ℕ → Decision → Event → List PendingApproval → Type 0
Kept i corr d e ts =
    (d' : Decision) × (get_elem? ts i
      ≡ some (record { in_use = true; corr_id = corr; decided = d' }))
    × ((is_approved d' ≡ true → is_approved d ≡ true) ⊎ (e ≡ notified corr true))

pub claim_slot_keeps :
    (ts : List PendingApproval) (i : ℕ) (a : PendingApproval) (c : ℕ)
    → get_elem? ts i ≡ some a
    → a.in_use ≡ true
    → get_elem? (after_claim ts (claim_slot ts c)) i ≡ some a
unfolding claim_slot after_claim
claim_slot_keeps [] i a c h u = cc
claim_slot_keeps (b ∷ bs) zero a c h u = ground (arith)
claim_slot_keeps (b ∷ bs) (suc i) a c h u = ground (arith, claim_slot_keeps bs i a c h u)

-- The slot `i` after a notification: as it was, or decided by it.
pub Notified : ℕ → PendingApproval → ℕ → Bool → List PendingApproval → Type 0
Notified i a c ok ts =
    (get_elem? ts i ≡ some a)
    ⊎ ((a.corr_id ≡ c)
        × (get_elem? ts i ≡ some (record a { decided = if ok then approved else denied })))

pub notify_hit :
    (b : PendingApproval) (bs : List PendingApproval) (i : ℕ) (a : PendingApproval) (c : ℕ)
    (ok : Bool)
    → get_elem? (b ∷ bs) i ≡ some a
    → (b.in_use && b.corr_id == c) ≡ true
    → Notified i a c ok (bw_notify_approval (b ∷ bs) c ok)
unfolding bw_notify_approval Notified
notify_hit b bs zero a c ok h e = rw e (inr (ground arith, ground arith))
notify_hit b bs (suc i) a c ok h e = rw e (inl h)

pub notify_miss :
    (b : PendingApproval) (bs : List PendingApproval) (i : ℕ) (a : PendingApproval) (c : ℕ)
    (ok : Bool)
    → ((j : ℕ) → get_elem? bs j ≡ some a → Notified j a c ok (bw_notify_approval bs c ok))
    → get_elem? (b ∷ bs) i ≡ some a
    → (b.in_use && b.corr_id == c) ≡ false
    → Notified i a c ok (bw_notify_approval (b ∷ bs) c ok)
unfolding bw_notify_approval Notified
notify_miss b bs zero a c ok ih h e = rw e (inl h)
notify_miss b bs (suc i) a c ok ih h e = rw e (ih i h)

pub notify_slot :
    (ts : List PendingApproval) (i : ℕ) (a : PendingApproval) (c : ℕ) (ok : Bool)
    → get_elem? ts i ≡ some a
    → Notified i a c ok (bw_notify_approval ts c ok)
notify_slot [] i a c ok h = cc
notify_slot (b ∷ bs) i a c ok h = elim (Bool-cases (b.in_use && b.corr_id == c)) [
  | inl e ↦ notify_hit b bs i a c ok h e
  | inr e ↦ notify_miss b bs i a c ok (λ j g. notify_slot bs j a c ok g) h e
]

pub set_other :
    (ts : List PendingApproval) (i j : ℕ) (f : PendingApproval → PendingApproval)
    (a : PendingApproval)
    → i ≢ j
    → get_elem? ts i ≡ some a
    → get_elem? (elim (get_elem? ts j) [ none ↦ ts | some b ↦ set ts j (f b) ]) i ≡ some a
set_other ts i j f a n h = elim (Option-cases (get_elem? ts j)) [
  | inl e ↦ rw e h
  | inr (b, e) ↦ rw e (get_elem?-set_ne ts j i (f b) (λ p. n (sym p)) ∙ h)
]

pub step-Kept :
    (e : Event) (ts : List PendingApproval) (i corr : ℕ) (d : Decision)
    → LeavesSlot i e
    → get_elem? ts i ≡ some (record { in_use = true; corr_id = corr; decided = d })
    → Kept i corr d e (step e ts)
unfolding step Kept time_out release_slot Notified
step-Kept (claimed c) ts i corr d l h = (d, claim_slot_keeps ts i _ c h refl, inl (λ p. p))
step-Kept (notified c ok) ts i corr d l h = elim (notify_slot ts i _ c ok h) [
  | inl e ↦ (d, e, inl (λ p. p))
  | inr (same, e) ↦ (if ok then approved else denied, e, decided_by ok same)
]
  where
    decided_by :
        (ok : Bool)
        → corr ≡ c
        → (is_approved (if ok then approved else denied) ≡ true → is_approved d ≡ true)
          ⊎ (notified c ok ≡ notified corr true)
    decided_by true same = inr (ap (λ n. notified n true) (sym same))
    decided_by false same = inl (λ p. cc)
step-Kept (timed_out j) ts i corr d l h =
    (d, set_other ts i j (λ b. record b { decided = denied }) _ l h, inl (λ p. p))
step-Kept (released j) ts i corr d l h =
    (d, set_other ts i j (λ b. record b { in_use = false }) _ l h, inl (λ p. p))

-- After any steps of the other threads, the slot is approved only if one of them approves `corr`.
pub steps-Kept :
    (es : List Event) (ts : List PendingApproval) (i corr : ℕ) (d : Decision)
    → All (LeavesSlot i) es
    → get_elem? ts i ≡ some (record { in_use = true; corr_id = corr; decided = d })
    → (d' : Decision) × (get_elem? (steps es ts) i
        ≡ some (record { in_use = true; corr_id = corr; decided = d' }))
      × (is_approved d' ≡ true → (is_approved d ≡ true) ⊎ Approves corr es)
unfolding Kept
steps-Kept [] ts i corr d l h = (d, h, λ p. inl p)
steps-Kept (e ∷ es) ts i corr d l h =
    let (d₁, h₁, o₁) = step-Kept e ts i corr d l.0 h in
    let (d₂, h₂, o₂) = steps-Kept es (step e ts) i corr d₁ l.1 h₁ in
    (
      d₂,
      h₂,
      λ p. elim (o₂ p) [
        | inr later ↦ inr (there later)
        | inl now ↦ elim o₁ [
          | inl before ↦ inl (before now)
          | inr this ↦ inr (subst (λ x. Approves corr (x ∷ es)) (sym this) here)
        ]
      ],
    )

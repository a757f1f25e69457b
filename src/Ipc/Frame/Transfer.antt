-- ===== src/Ipc/Frame/Transfer.antt =====
-- The transfer loops of src/core/net.h, for every way in which the kernel cuts the bytes.
use free_cli.Base.{
  ℕ, zero, suc, ◌-◌, ◌≤◌, ◌<◌, ◌≡◌, refl, ap, Bool, true, false, List, [], ◌∷◌, ◌++◌, arith, ◌⊎◌,
  inl, inr, ◌==◌, length, take, drop, length-drop, take-append-drop, append_assoc, Bool-cases,
  length-append, take-append, drop-append, leb, leb→le,
}
use free_cli.Ipc.Wire.{done, rejected}
use free_cli.Ipc.Frame.{Kernel, net_send_all, net_recv_all}

take-nil {ℓ} : {A : Type ℓ} (n : ℕ) → take {A = A} n [] ≡ []
take-nil zero = refl
take-nil (suc n) = refl

drop-nil {ℓ} : {A : Type ℓ} (n : ℕ) → drop {A = A} n [] ≡ []
drop-nil zero = refl
drop-nil (suc n) = refl

pred_pred : (n m : ℕ) → suc m - suc n ≡ m - n
pred_pred n m = omega arith

take_add {ℓ} :
    {A : Type ℓ} (n m : ℕ) (xs : List A) → n ≤ m → take n xs ++ take (m - n) (drop n xs) ≡ take m xs
take_add zero m xs h = let e : m - 0 ≡ m = omega arith in rw e
take_add (suc n) zero xs h = absurd (omega arith)
take_add (suc n) (suc m) [] h = take-nil (suc m - suc n)
take_add (suc n) (suc m) (x ∷ xs) h =
    rw (pred_pred n m) (ap (◌∷◌ x) (take_add n m xs (omega arith)))

drop_add {ℓ} : {A : Type ℓ} (n m : ℕ) (xs : List A) → n ≤ m → drop (m - n) (drop n xs) ≡ drop m xs
drop_add zero m xs h = let e : m - 0 ≡ m = omega arith in rw e
drop_add (suc n) zero xs h = absurd (omega arith)
drop_add (suc n) (suc m) [] h = drop-nil (suc m - suc n)
drop_add (suc n) (suc m) (x ∷ xs) h = rw (pred_pred n m) (drop_add n m xs (omega arith))

==-false : (n : ℕ) → 0 < n → (n == 0) ≡ false
==-false n h = ground arith

-- What net_send_all reports: everything went out, or a part of it and an error.
abbrev pub Sends : List ℕ → List ℕ × Bool → Type 0
Sends buf r =
    ((r.0 ≡ buf) × (r.1 ≡ true))
    ⊎ ((rest : List ℕ) × (r.0 ++ rest ≡ buf) × (0 < length rest) × (r.1 ≡ false))

module _ (k : Kernel) where
  open k use {send_size, send_fits, recv_size, recv_fits, recv_has, recv_some}

  Sends-step :
      (n : ℕ) (buf : List ℕ) (r : List ℕ × Bool)
      → Sends (drop n buf) r
      → Sends buf (take n buf ++ r.0, r.1)
  Sends-step n buf r (inl (e, t)) = inl (rw e (take-append-drop n buf), t)
  Sends-step n buf r (inr (rest, e, l, t)) =
      inr (rest, rw (append_assoc (take n buf) r.0 rest, e) (take-append-drop n buf), l, t)

  pub net_send_all-Sends :
      (fuel : ℕ) (buf : List ℕ) → length buf ≤ fuel → Sends buf (net_send_all k fuel buf)
  unfolding net_send_all
  net_send_all-Sends fuel [] h = inl (refl, refl)
  net_send_all-Sends zero (b ∷ bs) h = absurd (omega arith)
  net_send_all-Sends (suc fuel) (b ∷ bs) h = elim (Bool-cases (send_size (b ∷ bs) == 0)) [
    | inl e ↦ rw e (inr (b ∷ bs, refl, omega arith, refl))
    | inr e ↦ rw e (
        Sends-step (send_size (b ∷ bs)) (b ∷ bs) _ (
          net_send_all-Sends fuel (drop (send_size (b ∷ bs)) (b ∷ bs))
            (ground (arith, length-drop (send_size (b ∷ bs)) (b ∷ bs)))))
  ]

  pub net_recv_all-enough :
      (fuel len : ℕ) (stream : List ℕ)
      → len ≤ fuel
      → len ≤ length stream
      → net_recv_all k fuel len stream ≡ done (take len stream, drop len stream)
  unfolding net_recv_all
  net_recv_all-enough zero zero stream f h = refl
  net_recv_all-enough (suc fuel) zero stream f h = refl
  net_recv_all-enough zero (suc len) stream f h = absurd (omega arith)
  net_recv_all-enough (suc fuel) (suc len) stream f h =
      let n = recv_size (suc len) stream in
      let p : 0 < n = recv_some (suc len) stream (omega arith) (omega arith) in
      let q : n ≤ suc len = recv_fits (suc len) stream in
      rw (
        ==-false (suc len) (omega arith),
        ==-false n p,
        net_recv_all-enough fuel (suc len - n) (drop n stream) (omega arith)
            (omega (arith, length-drop n stream)),
        take_add n (suc len) stream q,
        drop_add n (suc len) stream q,
      )

  pub net_recv_all-short :
      (fuel len : ℕ) (stream : List ℕ)
      → len ≤ fuel
      → length stream < len
      → net_recv_all k fuel len stream ≡ rejected
  unfolding net_recv_all
  net_recv_all-short fuel zero stream f h = absurd (omega arith)
  net_recv_all-short zero (suc len) stream f h = absurd (omega arith)
  net_recv_all-short (suc fuel) (suc len) stream f h =
      let n = recv_size (suc len) stream in
      let q : n ≤ length stream = recv_has (suc len) stream in
      elim (Bool-cases (n == 0)) [
        | inl e ↦ rw (==-false (suc len) (omega arith), e)
        | inr e ↦ rw (
          ==-false (suc len) (omega arith),
          e,
          net_recv_all-short fuel (suc len - n) (drop n stream) (ground arith)
              (omega (arith, length-drop n stream)),
        )
      ]

  -- Asked for as many bytes as stand in front, net_recv_all returns those.
  pub net_recv_all-append :
      (n : ℕ) (xs rest : List ℕ) → length xs ≡ n → net_recv_all k n n (xs ++ rest) ≡ done (xs, rest)
  net_recv_all-append n xs rest e =
      rw (net_recv_all-enough n n (xs ++ rest) (omega arith) (omega (arith, length-append xs rest)))
        (rw (← e, take-append xs rest, drop-append xs rest))

  -- Either the bytes are there, or the call fails.
  pub net_recv_all_cases :
      (n : ℕ) (stream : List ℕ)
      → ((n ≤ length stream) × (net_recv_all k n n stream ≡ done (take n stream, drop n stream)))
        ⊎ ((length stream < n) × (net_recv_all k n n stream ≡ rejected))
  net_recv_all_cases n stream = elim (Bool-cases (leb n (length stream))) [
    | inl e ↦ inl (
      leb→le n (length stream) e,
      net_recv_all-enough n n stream (omega arith) (leb→le n (length stream) e),
    )
    | inr e ↦ inr (ground arith, net_recv_all-short n n stream (omega arith) (ground arith))
  ]

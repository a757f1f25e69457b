-- ===== src/Worker/Reply.antt =====
-- What the TUI receives from the reply helpers of src/core/backend_worker.c.
use free_cli.Base.{ℕ, ◌+◌, ◌<◌, ◌≡◌, refl, List, [], ◌∷◌, Option, some, take}
use free_cli.Ipc.Types.{msg_approval_req}
use free_cli.Ipc.Wire.{Outcome, done, rejected, fault, transmit, u32_mod, u64_mod}
use free_cli.Ipc.Payload.{decode_approval_req}
use free_cli.Ipc.Payload.RoundTrip.{approval_req_round_trip}
use free_cli.Ipc.Payload.Fields.{size_of, received}
use free_cli.Ipc.Frame.{IpcMsg, payload_of, payload_bytes}
use free_cli.Worker.{or_else, with_payload, approval_message}

payload_bytes-payload_of : (xs : List ℕ) → payload_bytes (payload_of xs) ≡ xs
payload_bytes-payload_of [] = refl
payload_bytes-payload_of (x ∷ xs) = refl

-- The message carries the type, the id and a payload that decodes to `a`.
abbrev pub Carries {ℓ} : {A : Type ℓ} → ℕ → ℕ → (List ℕ → Outcome A) → A → IpcMsg → Type ℓ
Carries type corr decode a m =
    (m.type ≡ type) × (m.corr_id ≡ corr) × (decode (payload_bytes m.payload) ≡ done a)

pub with_payload-Carries {ℓ} :
    {A : Type ℓ} (type corr : ℕ) (encoded : Outcome (List ℕ × ℕ)) (decode : List ℕ → Outcome A)
    (a : A)
    → transmit encoded decode ≡ done a
    → (m : IpcMsg) × (with_payload type corr encoded ≡ done m) × Carries type corr decode a m
unfolding with_payload
with_payload-Carries type corr (done (buf, len)) decode a h = (
  record { type = type; corr_id = corr; payload = payload_of (take len buf) },
  refl,
  (refl, refl, rw (payload_bytes-payload_of (take len buf)) h),
)
with_payload-Carries type corr rejected decode a h = absurd cc
with_payload-Carries type corr fault decode a h = absurd cc

-- An approval request reaches the TUI with the id that its answer has to bring back.
pub approval_message_lem :
    (corr : ℕ) (description : Option (List ℕ))
    → corr < u64_mod
    → 12 + size_of (some (or_else description [])) < u32_mod
    → (m : IpcMsg) × (approval_message corr description ≡ done (m ∷ []))
      × Carries msg_approval_req corr decode_approval_req
          (record { req_corr_id = corr; description = received (some (or_else description [])) })
          m
unfolding approval_message
approval_message_lem corr description h k =
    let (m, e, c) =
      with_payload-Carries msg_approval_req corr _ decode_approval_req _
        (approval_req_round_trip corr (some (or_else description [])) h k) in
    (m, rw e refl, c)

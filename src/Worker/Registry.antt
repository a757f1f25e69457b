-- ===== src/Worker/Registry.antt =====
-- The dispatch of src/core/backend_worker.c on a request that its own encoder made.
use free_cli.Base.{
  ℕ, ◌+◌, ◌<◌, ◌≡◌, ◌≢◌, refl, ap, Bool, true, false, List, [], ◌∷◌, ◌++◌, Option, none, some,
  arith, ◌==◌, bytes, utf8, All, length, ◌⊎◌, inl, inr, Bool-cases,
}
use free_cli.Ipc.Types.{msg_worker_req, msg_worker_rep, msg_worker_end}
use free_cli.Ipc.Wire.{done, u32_mod, chars_of}
use free_cli.Ipc.Payload.{encode_worker_req, decode_worker_req, decode_worker_rep}
use free_cli.Ipc.Payload.RoundTrip.{worker_req_round_trip, worker_rep_round_trip}
use free_cli.Ipc.Payload.Fields.{size_of, received}
use free_cli.Ipc.Frame.{IpcMsg}
use free_cli.Worker.{
  BackendWorker, Dispatch, spawned, refused, bw_registry_find, dispatch_to, dispatch_decoded,
  bw_dispatch_msg, bw_send_error, bw_send_result, with_payload,
}
use free_cli.Worker.Reply.{Carries, with_payload-Carries}

-- No worker of the list has the type.
abbrev pub NoneOf : ℕ → List BackendWorker → Type 0
NoneOf type ws = All (λ (w : BackendWorker). w.type ≢ type) ws

-- The TUI is told, under the id, that the request failed and why, and that it is over.
abbrev pub Fails : ℕ → List ℕ → Dispatch → Type 0
Fails corr text d =
    (m : IpcMsg) × (d
      ≡ refused (done (m ∷ record { type = msg_worker_end; corr_id = corr; payload = none } ∷ [])))
    × Carries msg_worker_rep corr decode_worker_rep (record { success = false; result = some text })
        m

-- The first worker of a type is found.
pub bw_registry_find-first :
    (before after : List BackendWorker) (w : BackendWorker) (type : ℕ)
    → NoneOf type before
    → w.type ≡ type
    → bw_registry_find (before ++ w ∷ after) type ≡ some w
unfolding bw_registry_find
bw_registry_find-first [] after w type h e = ground arith
bw_registry_find-first (v ∷ before) after w type h e =
    let other : (v.type == type) ≡ false = ground (arith, h.0) in
    rw other (bw_registry_find-first before after w type h.1 e)

bw_registry_find-none :
    (registry : List BackendWorker) (type : ℕ)
    → NoneOf type registry
    → bw_registry_find registry type ≡ none
unfolding bw_registry_find
bw_registry_find-none [] type h = refl
bw_registry_find-none (w ∷ ws) type h =
    let other : (w.type == type) ≡ false = ground (arith, h.0) in
    rw other (bw_registry_find-none ws type h.1)

-- A registry has a first worker of a type, or none.
abbrev FirstOrNone : List BackendWorker → ℕ → Type 0
FirstOrNone registry type =
    ((before after : List BackendWorker) × (w : BackendWorker) × (registry ≡ before ++ w ∷ after)
      × NoneOf type before
      × (w.type ≡ type))
    ⊎ NoneOf type registry

registry_cases : (registry : List BackendWorker) (type : ℕ) → FirstOrNone registry type
registry_cases [] type = inr tt
registry_cases (v ∷ ws) type = elim (Bool-cases (v.type == type)) [
  | inl e ↦ inl ([], ws, v, refl, tt, ground arith)
  | inr e ↦ (elim (registry_cases ws type) [
    | inl (before, after, w, s, h, t) ↦
        inl (v ∷ before, after, w, ap (λ l. v ∷ l) s, (ground arith, h), t)
    | inr h ↦ inr (ground arith, h)
  ])
]

bw_send_error-Fails :
    (corr c : ℕ) (cs : List ℕ)
    → length cs < 100
    → Fails corr (c ∷ cs) (refused (bw_send_error corr (some (c ∷ cs))))
unfolding bw_send_error bw_send_result
bw_send_error-Fails corr c cs h =
    let (m, e, carried) =
      with_payload-Carries msg_worker_rep corr _ decode_worker_rep _
        (worker_rep_round_trip false (some (c ∷ cs)) (omega arith)) in
    (m, rw e refl, carried)

-- What the dispatcher makes of an encoded request.
pub worker_req_dispatched :
    (registry : List BackendWorker) (corr type : ℕ) (op args : Option (List ℕ))
    → type < u32_mod
    → 12 + size_of op + size_of args < u32_mod
    → (m : IpcMsg) × (with_payload msg_worker_req corr (encode_worker_req type op args) ≡ done m)
      × ((threads : Bool)
          → bw_dispatch_msg registry threads (some m)
            ≡ dispatch_to threads corr
                (record { worker_type = type; op = chars_of op; args_json = received args })
                (bw_registry_find registry type))
unfolding bw_dispatch_msg dispatch_decoded
worker_req_dispatched registry corr type op args h k =
    let (m, e, (t, c, d)) =
      with_payload-Carries msg_worker_req corr _ decode_worker_req _
        (worker_req_round_trip type op args h k) in
    (m, e, λ threads. rw (t, c, d) refl)

no_thread-Fails :
    (corr : ℕ)
    → Fails corr
        (bytes "failed to spawn worker thread")
        (refused (bw_send_error corr (some (bytes "failed to spawn worker thread"))))
unfolding bytes utf8
no_thread-Fails corr = bw_send_error-Fails corr _ _ (omega arith)

no_worker-Fails :
    (corr : ℕ)
    → Fails corr
        (bytes "no worker registered for type")
        (refused (bw_send_error corr (some (bytes "no worker registered for type"))))
unfolding bytes utf8
no_worker-Fails corr = bw_send_error-Fails corr _ _ (omega arith)

-- The first worker of the type starts, or the failure of its thread is told.
abbrev pub Starts : List BackendWorker → ℕ → ℕ → Option (List ℕ) → Option (List ℕ) → IpcMsg → Type 0
Starts registry corr type op args m =
    (before after : List BackendWorker) × (w : BackendWorker) × (registry ≡ before ++ w ∷ after)
    × NoneOf type before
    × (w.type ≡ type)
    × (bw_dispatch_msg registry true (some m)
        ≡ spawned w (record {
          corr_id = corr;
          worker_type = type;
          op = chars_of op;
          args_json = received args;
        }))
    × Fails corr (bytes "failed to spawn worker thread") (bw_dispatch_msg registry false (some m))

-- There is no worker of the type, and that is told whether threads start or not.
abbrev pub Unknown : List BackendWorker → ℕ → ℕ → IpcMsg → Type 0
Unknown registry corr type m =
    NoneOf type registry
    × Fails corr (bytes "no worker registered for type") (bw_dispatch_msg registry true (some m))
    × Fails corr (bytes "no worker registered for type") (bw_dispatch_msg registry false (some m))

-- A worker request that the TUI encodes, if it fits 32 bits, starts the first worker of its type,
-- with the id, the type, the operation and the arguments that were sent. If its thread does not
-- start, or if no worker has the type, the TUI gets a reply that it can decode, under the same id,
-- that says so and is no success, and then an end message.
pub bw_dispatch_msg_lem :
    (registry : List BackendWorker) (corr type : ℕ) (op args : Option (List ℕ))
    → type < u32_mod
    → 12 + size_of op + size_of args < u32_mod
    → (m : IpcMsg) × (with_payload msg_worker_req corr (encode_worker_req type op args) ≡ done m)
      × (Starts registry corr type op args m ⊎ Unknown registry corr type m)
unfolding dispatch_to
bw_dispatch_msg_lem registry corr type op args h k =
    let (m, e, d) = worker_req_dispatched registry corr type op args h k in
    (
      m,
      e,
      elim (registry_cases registry type) [
        | inl (before, after, w, s, none_before, t) ↦
            let found : bw_registry_find registry type ≡ some w =
              rw s (bw_registry_find-first before after w type none_before t) in
            inl (
              before,
              after,
              w,
              s,
              none_before,
              t,
              rw (d true, found) refl,
              rw (d false, found) (no_thread-Fails corr),
            )
        | inr no_worker ↦
            let found = bw_registry_find-none registry type no_worker in
            inr (
              no_worker,
              rw (d true, found) (no_worker-Fails corr),
              rw (d false, found) (no_worker-Fails corr),
            )
      ],
    )

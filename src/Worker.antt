-- ===== src/Worker.antt =====
-- The worker bus of the backend (src/core/backend_worker.c, backend_worker.h): reply helpers, the
-- registry and the dispatcher. A call's messages are listed in the order in which they are sent.
pub mod Reply
pub mod Registry
pub mod Approval
use free_cli.Base.{
  ℕ, zero, suc, ◌+◌, Bool, true, false, ◌&&◌, List, [], ◌∷◌, ◌++◌, Option, none, some, ltb, leb,
  ◌==◌, if◌then◌else◌, length, take, bytes,
}
use free_cli.Ipc.Types.{
  msg_worker_start, msg_worker_end, msg_worker_rep, msg_worker_req, msg_approval_req,
}
use free_cli.Ipc.Wire.{Outcome, done, rejected, fault, ◌>>=◌}
use free_cli.Ipc.Payload.{
  encode_worker_start, encode_worker_rep, encode_approval_req, decode_worker_req, WorkerReq,
}
use free_cli.Ipc.Frame.{IpcMsg, payload_of, payload_bytes}

-- `s ? s : d`
abbrev pub or_else : Option (List ℕ) → List ℕ → List ℕ
or_else none d = d
or_else (some s) d = s

-- A message with an encoder's payload: `out_len` bytes of its buffer.
unfoldable pub with_payload : ℕ → ℕ → Outcome (List ℕ × ℕ) → Outcome IpcMsg
with_payload type corr encoded = do
  (buf, len) ← encoded
  done (record { type = type; corr_id = corr; payload = payload_of (take len buf) })

unfoldable pub bw_send_progress : ℕ → ℕ → Option (List ℕ) → Option (List ℕ) → Outcome (List IpcMsg)
bw_send_progress corr parent worker_name msg = do
  m ← with_payload msg_worker_start corr (
      encode_worker_start parent (some (or_else worker_name (bytes "worker")))
        (some (or_else msg [])))
  done (m ∷ [])

unfoldable pub bw_send_result : ℕ → Bool → Option (List ℕ) → Outcome (List IpcMsg)
bw_send_result corr success result = do
  m ← with_payload msg_worker_rep corr (encode_worker_rep success (some (or_else result [])))
  done (m ∷ record { type = msg_worker_end; corr_id = corr; payload = none } ∷ [])

unfoldable pub bw_send_error : ℕ → Option (List ℕ) → Outcome (List IpcMsg)
bw_send_error corr err = bw_send_result corr false (some (or_else err (bytes "unknown error")))

-- The message of bw_request_approval.
unfoldable pub approval_message : ℕ → Option (List ℕ) → Outcome (List IpcMsg)
approval_message corr description = do
  m ← with_payload msg_approval_req corr (encode_approval_req corr (some (or_else description [])))
  done (m ∷ [])

abbrev pub bw_max_workers : ℕ
bw_max_workers = 16

-- A registered worker, by its type and its name; `registry` holds the first registry_count slots.
pub record BackendWorker : Type 0 where
  pub type : ℕ
  pub name : List ℕ

-- The new registry and whether the return value is 0.
unfoldable pub bw_registry_add :
    List BackendWorker → Option BackendWorker → List BackendWorker × Bool
bw_registry_add registry none = (registry, false)
bw_registry_add registry (some w) =
    if leb bw_max_workers (length registry) then (registry, false) else (registry ++ w ∷ [], true)

unfoldable pub bw_registry_find : List BackendWorker → ℕ → Option BackendWorker
bw_registry_find [] type = none
bw_registry_find (w ∷ ws) type = if w.type == type then some w else bw_registry_find ws type

pub record BusMsg : Type 0 where
  pub corr_id : ℕ
  pub worker_type : ℕ
  pub op : List ℕ
  pub args_json : Option (List ℕ)

-- A return of 0 with the thread that was started, or of -1 with the messages that were sent.
pub data Dispatch : Type 0 where
  spawned : BackendWorker → BusMsg → Dispatch
  refused : Outcome (List IpcMsg) → Dispatch

unfoldable pub dispatch_to : Bool → ℕ → WorkerReq → Option BackendWorker → Dispatch
dispatch_to threads corr r none =
    refused (bw_send_error corr (some (bytes "no worker registered for type")))
dispatch_to threads corr r (some w) =
    if threads
    then spawned w
        (record { corr_id = corr; worker_type = r.worker_type; op = r.op; args_json = r.args_json })
    else refused (bw_send_error corr (some (bytes "failed to spawn worker thread")))

unfoldable pub dispatch_decoded : List BackendWorker → Bool → ℕ → Outcome WorkerReq → Dispatch
dispatch_decoded registry threads corr (done r) =
    dispatch_to threads corr r (bw_registry_find registry r.worker_type)
dispatch_decoded registry threads corr rejected = refused (done [])
dispatch_decoded registry threads corr fault = refused fault

-- `threads` says whether pthread_create succeeds.
unfoldable pub bw_dispatch_msg : List BackendWorker → Bool → Option IpcMsg → Dispatch
bw_dispatch_msg registry threads none = refused (done [])
bw_dispatch_msg registry threads (some m) =
    if m.type == msg_worker_req
    then dispatch_decoded registry threads m.corr_id (decode_worker_req (payload_bytes m.payload))
    else refused (done [])

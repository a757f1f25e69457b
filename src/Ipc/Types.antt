-- ===== src/Ipc/Types.antt =====
-- The message types of src/core/ipc.h.
use Prim.Native.Nat.{ℕ}

abbrev pub msg_req_send : ℕ
msg_req_send = 1

abbrev pub msg_rep_final : ℕ
msg_rep_final = 10

abbrev pub msg_rep_error : ℕ
msg_rep_error = 11

abbrev pub msg_worker_start : ℕ
msg_worker_start = 20

abbrev pub msg_worker_end : ℕ
msg_worker_end = 21

abbrev pub msg_session_rename : ℕ
msg_session_rename = 22

abbrev pub msg_worker_req : ℕ
msg_worker_req = 30

abbrev pub msg_worker_rep : ℕ
msg_worker_rep = 31

abbrev pub msg_approval_req : ℕ
msg_approval_req = 40

abbrev pub msg_approval_rep : ℕ
msg_approval_rep = 41

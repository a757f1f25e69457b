-- ===== src/Ipc/Frame.antt =====
-- Frames on the socket: net_send_all and net_recv_all of src/core/net.h, ipc_send and ipc_recv of
-- src/core/ipc.c. The kernel's send, recv and poll are a parameter.
pub mod Transfer
pub mod Channel
pub mod Stream
use free_cli.Base.{
  ℕ, zero, suc, ◌+◌, ◌-◌, ◌%◌, ◌≤◌, ◌<◌, Bool, true, false, List, [], ◌∷◌, ◌++◌, Option, none, some,
  ltb, leb, ◌==◌, if◌then◌else◌, length, take, drop,
}
use free_cli.Ipc.Wire.{
  Outcome, done, rejected, fault, ◌>>=◌, ◌>>◌, guard, u32_mod, le_bytes, read_bytes, read_int,
  alloc_write,
}

-- What the kernel decides: of a buffer, how many bytes `send` takes (0 stands for any n ≤ 0); of a
-- number of bytes asked for and a stream, how many `recv` gives (0 for any n ≤ 0); and of a stream,
-- whether `poll` finds the socket readable. On a socket that blocks, as the backend's, the stream is
-- all that the peer will have sent; on one that does not, as the UI's after net_set_nonblock, it is
-- what has arrived, and a call that finds none fails with EAGAIN, which net_recv_all does not retry.
pub record Kernel : Type 0 where
  pub send_size : List ℕ → ℕ
  pub recv_size : ℕ → List ℕ → ℕ
  pub readable : List ℕ → Bool
  pub send_fits : (buf : List ℕ) → send_size buf ≤ length buf
  pub recv_fits : (n : ℕ) (stream : List ℕ) → recv_size n stream ≤ n
  pub recv_has : (n : ℕ) (stream : List ℕ) → recv_size n stream ≤ length stream
  pub recv_some : (n : ℕ) (stream : List ℕ) → 0 < n → 0 < length stream → 0 < recv_size n stream

pub record IpcMsg : Type 0 where
  pub type : ℕ
  pub corr_id : ℕ
  pub payload : Option (List ℕ)

-- A NULL payload has length 0, and ipc_recv makes a payload of length 0 NULL.
abbrev pub payload_bytes : Option (List ℕ) → List ℕ
payload_bytes none = []
payload_bytes (some p) = p

abbrev pub payload_of : List ℕ → Option (List ℕ)
payload_of [] = none
payload_of (b ∷ bs) = some (b ∷ bs)

-- The frame that ipc_send builds; `body_len` is a uint32_t, the buffer's size a size_t.
unfoldable pub frame_of : IpcMsg → Outcome (List ℕ × ℕ)
frame_of m =
    let payload = payload_bytes m.payload in
    let body_len = (12 + length payload) % u32_mod in
    alloc_write (4 + body_len)
      (le_bytes 4 body_len ++ (le_bytes 4 m.type ++ (le_bytes 8 m.corr_id ++ payload)))

-- The fields of a frame's body.
unfoldable pub parse_body : List ℕ → Outcome IpcMsg
parse_body buf = do
  (type, p₁) ← read_int 4 buf
  (corr, p₂) ← read_int 8 p₁
  done (record { type = type; corr_id = corr; payload = payload_of p₂ })

-- Return 1 with a message and the bytes behind it, 0, and -1.
pub data Recv : Type 0 where
  message : IpcMsg → List ℕ → Recv
  no_data : Recv
  broken : Recv
  stuck : Recv

abbrev pub recv_result : Outcome (IpcMsg × List ℕ) → Recv
recv_result (done (m, rest)) = message m rest
recv_result rejected = broken
recv_result fault = stuck

module _ (k : Kernel) where
  open k use {send_size, recv_size, readable}

  -- The bytes that went out, and whether the return value is 0. The fuel bounds the calls.
  unfoldable pub net_send_all : ℕ → List ℕ → List ℕ × Bool
  net_send_all fuel [] = ([], true)
  net_send_all zero (b ∷ bs) = ([], false)
  net_send_all (suc fuel) (b ∷ bs) =
      let n = send_size (b ∷ bs) in
      let rest = net_send_all fuel (drop n (b ∷ bs)) in
      if n == 0 then ([], false) else (take n (b ∷ bs) ++ rest.0, rest.1)

  -- The bytes read and the stream behind them. `rejected` is -1; `fault` is a loop out of fuel.
  unfoldable pub net_recv_all : ℕ → ℕ → List ℕ → Outcome (List ℕ × List ℕ)
  net_recv_all zero len stream = if len == 0 then done ([], stream) else fault
  net_recv_all (suc fuel) len stream =
      let n = recv_size len stream in
      let rest = net_recv_all fuel (len - n) (drop n stream) in
      if len == 0
      then done ([], stream)
      else if n == 0
      then rejected
      else (rest >>= λ r. done (take n stream ++ r.0, r.1))

  -- The bytes that go out and the success of ipc_send.
  unfoldable pub ipc_send : IpcMsg → Outcome (List ℕ × Bool)
  ipc_send m = do (frame, size) ← frame_of m; done (net_send_all size (take size frame))

  unfoldable pub recv_frame : List ℕ → Outcome (IpcMsg × List ℕ)
  recv_frame stream = do
    (word, s₁) ← net_recv_all 4 4 stream
    (body_len, _) ← read_int 4 word
    guard (leb 12 body_len)
    (buf, s₂) ← net_recv_all body_len body_len s₁
    msg ← parse_body buf
    done (msg, s₂)

  unfoldable pub ipc_recv : List ℕ → Recv
  ipc_recv stream = if readable stream then recv_result (recv_frame stream) else no_data

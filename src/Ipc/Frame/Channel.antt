-- ===== src/Ipc/Frame/Channel.antt =====
-- ipc_send and ipc_recv of src/core/ipc.c on the two ends of one connection.
use free_cli.Base.{
  ℕ, ◌+◌, ◌%◌, ◌<◌, ◌≡◌, refl, subst, Bool, true, List, ◌++◌, arith, inl, inr, length, take_all,
  append_assoc,
}
use free_cli.Ipc.Wire.{
  done, u32_mod, u64_mod, le_bytes, length-le_bytes, read_int-le_bytes, guard-leb, alloc_write_fits,
}
use free_cli.Ipc.Payload.Fields.{length-int, read_int_last}
use free_cli.Ipc.Frame.{
  Kernel, IpcMsg, payload_bytes, payload_of, message, frame_of, ipc_send, parse_body, recv_frame,
  ipc_recv, net_send_all,
}
use free_cli.Ipc.Frame.Transfer.{Sends, net_send_all-Sends, net_recv_all-append}

-- The fields fit their widths, and the payload fits the 32-bit length word.
pub record IsSendable (m : IpcMsg) : Type 0 where
  pub type_fits : m.type < u32_mod
  pub corr_fits : m.corr_id < u64_mod
  pub payload_fits : 12 + length (payload_bytes m.payload) < u32_mod

-- A payload of length 0 arrives as NULL.
abbrev pub arrived : IpcMsg → IpcMsg
arrived m = record m { payload = payload_of (payload_bytes m.payload) }

abbrev pub body_bytes : IpcMsg → List ℕ
body_bytes m = le_bytes 4 m.type ++ (le_bytes 8 m.corr_id ++ payload_bytes m.payload)

abbrev pub wire_bytes : IpcMsg → List ℕ
wire_bytes m = le_bytes 4 (length (body_bytes m)) ++ body_bytes m

pub length-body_bytes : (m : IpcMsg) → length (body_bytes m) ≡ 12 + length (payload_bytes m.payload)
length-body_bytes m = omega (
  arith,
  length-int 4 m.type (le_bytes 8 m.corr_id ++ payload_bytes m.payload),
  length-int 8 m.corr_id (payload_bytes m.payload),
)

pub length-wire_bytes : (m : IpcMsg) → length (wire_bytes m) ≡ 16 + length (payload_bytes m.payload)
length-wire_bytes m =
    omega (arith, length-int 4 (length (body_bytes m)) (body_bytes m), length-body_bytes m)

frame_of-wire_bytes :
    (m : IpcMsg) → IsSendable m → frame_of m ≡ done (wire_bytes m, length (wire_bytes m))
unfolding frame_of
frame_of-wire_bytes m v =
    let e : (12 + length (payload_bytes m.payload)) % u32_mod ≡ length (body_bytes m) =
      omega (arith, v.payload_fits, length-body_bytes m) in
    let size : length (wire_bytes m) ≡ 4 + length (body_bytes m) =
      omega (arith, length-int 4 (length (body_bytes m)) (body_bytes m)) in
    rw (e, alloc_write_fits (4 + length (body_bytes m)) (wire_bytes m) size, size)

parse_body-body_bytes : (m : IpcMsg) → IsSendable m → parse_body (body_bytes m) ≡ done (arrived m)
unfolding parse_body
parse_body-body_bytes m v = rw (
  read_int-le_bytes 4 m.type (le_bytes 8 m.corr_id ++ payload_bytes m.payload) v.type_fits,
  read_int-le_bytes 8 m.corr_id (payload_bytes m.payload) v.corr_fits,
)

recv_frame-wire_bytes :
    (k : Kernel) (m : IpcMsg) (rest : List ℕ)
    → IsSendable m
    → recv_frame k (wire_bytes m ++ rest) ≡ done (arrived m, rest)
unfolding recv_frame
recv_frame-wire_bytes k m rest v =
    let body = body_bytes m in
    let word = le_bytes 4 (length body) in
    let fits : length body < u32_mod = omega (arith, v.payload_fits, length-body_bytes m) in
    let four : length word ≡ 4 = length-le_bytes 4 (length body) in
    rw (
      append_assoc word body rest,
      net_recv_all-append k 4 word (body ++ rest) (length-le_bytes 4 (length body)),
      read_int_last 4 (length body) fits,
      guard-leb 12 (length body) (omega (arith, length-body_bytes m)),
      net_recv_all-append k (length body) body rest refl,
      parse_body-body_bytes m v,
    )

-- What ipc_send puts out: the whole frame and success, or a part of it and an error.
pub ipc_send-Sends :
    (k : Kernel) (m : IpcMsg)
    → IsSendable m
    → (r : List ℕ × Bool) × (ipc_send k m ≡ done r) × Sends (wire_bytes m) r
unfolding ipc_send
ipc_send-Sends k m v =
    let n = length (wire_bytes m) in
    (
      net_send_all k n (wire_bytes m),
      rw (frame_of-wire_bytes m v, take_all n (wire_bytes m) (omega arith)),
      net_send_all-Sends k n (wire_bytes m) (omega arith),
    )

pub Sends-whole : (buf wire : List ℕ) → Sends buf (wire, true) → wire ≡ buf
Sends-whole buf wire (inl (e, t)) = e
Sends-whole buf wire (inr (rest, e, l, t)) = cc

pub ipc_send_whole :
    (k : Kernel) (m : IpcMsg) (wire : List ℕ)
    → IsSendable m
    → ipc_send k m ≡ done (wire, true)
    → wire ≡ wire_bytes m
ipc_send_whole k m wire v e =
    let (r, q, s) = ipc_send-Sends k m v in
    Sends-whole (wire_bytes m) wire (subst (Sends (wire_bytes m)) (cc) s)

-- A frame of a message whose fields fit their widths, once it went out whole, is read back, when
-- the receiver polls the socket as readable, as the message that was sent, and the bytes behind it
-- are left for the next call, however the two kernels cut the bytes.
pub ipc_recv-ipc_send :
    (sender receiver : Kernel) (m : IpcMsg) (wire rest : List ℕ)
    → IsSendable m
    → ipc_send sender m ≡ done (wire, true)
    → receiver.readable (wire ++ rest) ≡ true
    → ipc_recv receiver (wire ++ rest) ≡ message (arrived m) rest
unfolding ipc_send ipc_recv
ipc_recv-ipc_send sender receiver m wire rest v e r =
    rw (r, ipc_send_whole sender m wire v e, recv_frame-wire_bytes receiver m rest v)

-- ===== src/Ipc/Frame/Stream.antt =====
-- ipc_recv of src/core/ipc.c on any stream, and on the frames of several messages.
use free_cli.Base.{
  ℕ, zero, suc, ◌+◌, ◌≤◌, ◌<◌, ◌≡◌, ◌⊎◌, inl, inr, refl, ap, subst, Bool, true, false, List, [],
  ◌∷◌, ◌++◌, arith, inl, inr, length, length-append, length-take, length-drop, All, if◌then◌else◌,
  Option, none, some,
}
use mathlib.Core.Option
use mathlib.Core.List.{map}
use free_cli.Ipc.Wire.{Outcome, done, rejected, fault, ◌>>=◌, ◌>>◌, guard, read_int}
use free_cli.Ipc.Holds.{Holds, Leaves, Holds-bind, Holds-guard, read_int-Holds}
use free_cli.Ipc.Frame.{
  Kernel, IpcMsg, payload_bytes, payload_of, Recv, message, no_data, broken, stuck, ipc_send,
  parse_body, recv_frame, ipc_recv, net_recv_all, recv_result,
}
use free_cli.Ipc.Frame.Transfer.{net_recv_all_cases}
use free_cli.Ipc.Frame.Channel.{
  IsSendable, arrived, wire_bytes, length-wire_bytes, ipc_send-Sends, ipc_send_whole,
  ipc_recv-ipc_send,
}

payload_of_lem : (p : List ℕ) → payload_bytes (payload_of p) ≡ p
payload_of_lem [] = refl
payload_of_lem (b ∷ bs) = refl

-- `n` bytes, and what is left of the stream.
abbrev Splits : ℕ → List ℕ → List ℕ × List ℕ → Type 0
Splits n stream r = (length r.0 ≡ n) × (n + length r.1 ≡ length stream)

net_recv_all-Holds :
    (k : Kernel) (n : ℕ) (stream : List ℕ) → Holds (Splits n stream) (net_recv_all k n n stream)
net_recv_all-Holds k n stream = elim (net_recv_all_cases k n stream) [
  | inl (h, e) ↦ rw e (omega (arith, length-take n stream), omega (arith, length-drop n stream))
  | inr (h, e) ↦ rw e tt
]

parse_body-Holds :
    (buf : List ℕ)
    → 12 ≤ length buf
    → Holds (λ m. 12 + length (payload_bytes m.payload) ≡ length buf) (parse_body buf)
unfolding parse_body
parse_body-Holds buf h =
    Holds-bind (Leaves 4 buf) _ (read_int 4 buf) _ (read_int-Holds 4 buf (omega arith)) λ r₁ q₁.
      Holds-bind (Leaves 8 r₁.1) _ (read_int 8 r₁.1) _ (read_int-Holds 8 r₁.1 (omega arith))
        λ r₂ q₂. rw (payload_of_lem r₂.1) (omega arith)

-- The bytes of a stream are those of the message's frame and those left.
abbrev Accounts : List ℕ → IpcMsg × List ℕ → Type 0
Accounts stream r = 16 + length (payload_bytes r.0.payload) + length r.1 ≡ length stream

recv_frame-Holds : (k : Kernel) (stream : List ℕ) → Holds (Accounts stream) (recv_frame k stream)
unfolding recv_frame
recv_frame-Holds k stream =
    Holds-bind (Splits 4 stream) (Accounts stream) (net_recv_all k 4 4 stream) _
      (net_recv_all-Holds k 4 stream)
      λ r₁ q₁.
        Holds-bind (Leaves 4 r₁.0) (Accounts stream) (read_int 4 r₁.0) _
          (read_int-Holds 4 r₁.0 (omega arith))
          λ r₂ q₂. Holds-guard (Accounts stream) 12 r₂.0 _ λ room.
            Holds-bind (Splits r₂.0 r₁.1) (Accounts stream) (net_recv_all k r₂.0 r₂.0 r₁.1) _
              (net_recv_all-Holds k r₂.0 r₁.1)
              λ r₃ q₃.
                Holds-bind (λ m. 12 + length (payload_bytes m.payload) ≡ length r₃.0)
                  (Accounts stream) (parse_body r₃.0) _ (parse_body-Holds r₃.0 (omega arith))
                  (λ m q. omega arith)

-- A message with the bytes behind it, which account for the stream, or a return of 0 or -1.
abbrev pub Totals : List ℕ → Recv → Type 0
Totals stream r =
    ((m : IpcMsg) × (rest : List ℕ) × (r ≡ message m rest)
      × (16 + length (payload_bytes m.payload) + length rest ≡ length stream))
    ⊎ ((r ≡ no_data) ⊎ (r ≡ broken))

recv_result-Totals :
    (stream : List ℕ) (ready : Bool) (o : Outcome (IpcMsg × List ℕ))
    → Holds (Accounts stream) o
    → Totals stream (if ready then recv_result o else no_data)
recv_result-Totals stream true (done (m, rest)) h = inl (m, rest, refl, h)
recv_result-Totals stream true rejected h = inr (inr refl)
recv_result-Totals stream true fault h = absurd h
recv_result-Totals stream false o h = inr (inl refl)

-- ipc_recv ends on every stream, with a message, with 0 or with -1, and a message accounts for all
-- the bytes that were taken.
pub ipc_recv_total : (k : Kernel) (stream : List ℕ) → Totals stream (ipc_recv k stream)
unfolding ipc_recv
ipc_recv_total k stream =
    recv_result-Totals stream (k.readable stream) (recv_frame k stream) (recv_frame-Holds k stream)

-- Several messages sent one after the other, and as many receives.
unfoldable pub send_many : Kernel → List IpcMsg → Outcome (List ℕ)
send_many k [] = done []
send_many k (m ∷ ms) = do
  (wire, ok) ← ipc_send k m
  guard ok
  rest ← send_many k ms
  done (wire ++ rest)

abbrev received_then : Recv → (List ℕ → Option (List IpcMsg)) → Option (List IpcMsg)
received_then (message m rest) next = Option.map (◌∷◌ m) (next rest)
received_then no_data next = none
received_then broken next = none
received_then stuck next = none

-- The messages of `n` receives, which use up the stream.
unfoldable pub recv_many : Kernel → ℕ → List ℕ → Option (List IpcMsg)
recv_many k zero [] = some []
recv_many k zero (b ∷ bs) = none
recv_many k (suc n) stream = received_then (ipc_recv k stream) (recv_many k n)

sent_split :
    (w : List ℕ) (ok : Bool) (o : Outcome (List ℕ)) (wire : List ℕ)
    → (do guard ok; rest ← o; done (w ++ rest)) ≡ done wire
    → (ok ≡ true) × (rest : List ℕ) × (o ≡ done rest) × (w ++ rest ≡ wire)
sent_split w true (done rest) wire e = (refl, rest, refl, cc)
sent_split w true rejected wire e = cc
sent_split w true fault wire e = cc
sent_split w false o wire e = cc

recv_many_step :
    (k : Kernel) (n : ℕ) (m : IpcMsg) (stream rest : List ℕ) (ms : List IpcMsg)
    → ipc_recv k stream ≡ message m rest
    → recv_many k n rest ≡ some ms
    → recv_many k (suc n) stream ≡ some (m ∷ ms)
unfolding recv_many
recv_many_step k n m stream rest ms e h = rw (e, h)

-- Messages whose fields fit their widths and that all went out arrive whole and in order, with
-- nothing left over, on a socket that blocks, or once all their bytes have arrived; this where the
-- receiver polls the socket as readable while bytes are left.
pub recv_many-send_many :
    (sender receiver : Kernel) (ms : List IpcMsg) (wire : List ℕ)
    → All IsSendable ms
    → ((s : List ℕ) → 0 < length s → receiver.readable s ≡ true)
    → send_many sender ms ≡ done wire
    → recv_many receiver (length ms) wire ≡ some (map arrived ms)
unfolding send_many recv_many
recv_many-send_many sender receiver [] wire v r e = let nothing : wire ≡ [] = cc in rw nothing
recv_many-send_many sender receiver (m ∷ ms) wire v r e =
    let (p, q, s) = ipc_send-Sends sender m v.0 in
    let (ok, rest, o, w) = sent_split p.0 p.1 (send_many sender ms) wire (rw q at e) in
    let sent : ipc_send sender m ≡ done (p.0, true) = rw q (ap (λ (b : Bool). done (p.0, b)) ok) in
    let whole : p.0 ≡ wire_bytes m = ipc_send_whole sender m p.0 v.0 sent in
    let more : 0 < length (p.0 ++ rest) =
      omega (arith, ap length whole, length-wire_bytes m, length-append p.0 rest) in
    recv_many_step receiver (length ms) (arrived m) wire rest (map arrived ms)
      (subst (λ x. ipc_recv receiver x ≡ message (arrived m) rest) w
        (ipc_recv-ipc_send sender receiver m p.0 rest v.0 sent (r (p.0 ++ rest) more)))
      (recv_many-send_many sender receiver ms rest v.1 r o)

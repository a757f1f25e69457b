-- ===== src/Tui/Receive/Partial.antt =====
-- A frame of which a part has arrived, on the UI's socket, which does not block (check_ipc and
-- connect_backend of src/ui/main.c, ipc_recv of src/core/ipc.c).
use free_cli.Base.{
  ℕ, suc, ◌+◌, ◌-◌, ◌<◌, ◌≡◌, refl, ap, sym, ◌∙◌, true, false, List, [], ◌∷◌, ◌++◌, arith, leb,
  length, subst, length-take, take, inl, inr, Bool-cases,
}
use mathlib.Core.List.{map}
use free_cli.Ipc.Wire.{rejected, u32_mod, le_bytes, length-le_bytes, guard-leb}
use free_cli.Ipc.Payload.Fields.{read_int_last}
use free_cli.Ipc.Frame.{Kernel, IpcMsg, ipc_recv, recv_frame}
use free_cli.Ipc.Frame.Transfer.{net_recv_all-short, net_recv_all-append}
use free_cli.Ipc.Frame.Channel.{
  IsSendable, wire_bytes, body_bytes, length-body_bytes, length-wire_bytes,
}
use free_cli.Tui.{InFlight, Ui, next}
use free_cli.Tui.Requests.{inflight_count}
use free_cli.Tui.Receive.{disconnected, on_recv, check_ipc}

take_past : (xs ys : List ℕ) (j : ℕ) → take (length xs + j) (xs ++ ys) ≡ xs ++ take j ys
take_past [] ys j = let e : 0 + j ≡ j = omega arith in rw e refl
take_past (x ∷ xs) ys j =
    let e : suc (length xs) + j ≡ suc (length xs + j) = omega arith in
    rw e (ap (λ zs. x ∷ zs) (take_past xs ys j))

-- The length word has arrived, but not the whole body.
partial_body :
    (k : Kernel) (m : IpcMsg) (j : ℕ)
    → IsSendable m
    → j < length (body_bytes m)
    → recv_frame k (le_bytes 4 (length (body_bytes m)) ++ take j (body_bytes m)) ≡ rejected
unfolding recv_frame
partial_body k m j v h =
    let size = length (body_bytes m) in
    let fits : size < u32_mod = omega (arith, v.payload_fits, length-body_bytes m) in
    rw
      (
        net_recv_all-append k 4 (le_bytes 4 size) (take j (body_bytes m)) (length-le_bytes 4 size),
        read_int_last 4 size fits,
        guard-leb 12 size (omega (arith, length-body_bytes m)),
        net_recv_all-short k size size (take j (body_bytes m)) (omega arith)
            (omega (arith, length-take j (body_bytes m))),
      )
      refl

partial_frame :
    (k : Kernel) (m : IpcMsg) (n : ℕ)
    → IsSendable m
    → n < length (wire_bytes m)
    → recv_frame k (take n (wire_bytes m)) ≡ rejected
unfolding recv_frame
partial_frame k m n v h = elim (Bool-cases (leb 4 n)) [
  | inr e ↦
      rw
        (net_recv_all-short k 4 4 (take n (wire_bytes m)) (omega arith)
          (ground (arith, length-take n (wire_bytes m))))
        refl
  | inl e ↦
      let word = le_bytes 4 (length (body_bytes m)) in
      let four : length word ≡ 4 = length-le_bytes 4 (length (body_bytes m)) in
      let split : n ≡ length word + (n - 4) = ground arith in
      let rest : n - 4 < length (body_bytes m) =
        ground (arith, length-wire_bytes m, length-body_bytes m) in
      subst (λ s. recv_frame k s ≡ rejected)
        (sym (ap (λ i. take i (wire_bytes m)) split ∙ take_past word (body_bytes m) (n - 4)))
        (partial_body k m (n - 4) v rest)
]

inflight_count-cleared :
    (es : List InFlight)
    → inflight_count (map (λ (e : InFlight). record e { active = false }) es) ≡ 0
unfolding inflight_count
inflight_count-cleared [] = refl
inflight_count-cleared (e ∷ es) = inflight_count-cleared es

-- When a part of a frame has arrived at the connected UI, whose socket does not block, and the
-- socket is readable, then the UI closes the connection and forgets every request that waits.
pub partial_frame_disconnects :
    (k : Kernel) (m : IpcMsg) (n : ℕ) (u : Ui)
    → IsSendable m
    → n < length (wire_bytes m)
    → k.readable (take n (wire_bytes m)) ≡ true
    → u.connected ≡ true
    → (u' : Ui) × (check_ipc u (ipc_recv k (take n (wire_bytes m))) ≡ next u' [])
      × (u'.connected ≡ false)
      × (inflight_count u'.in_flight ≡ 0)
unfolding check_ipc on_recv ipc_recv disconnected
partial_frame_disconnects k m n u v h r on = (
  disconnected u,
  rw (r, on, partial_frame k m n v h) refl,
  refl,
  inflight_count-cleared u.in_flight,
)

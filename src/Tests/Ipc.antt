-- ===== src/Tests/Ipc.antt =====
-- Runs of the channel of src/core/ipc.c, over kernels that move a single byte with each call.
use free_cli.Base.{
  ℕ, ◌+◌, ◌<◌, ◌≤◌, ◌≡◌, ◌≢◌, refl, Bool, true, false, List, [], ◌∷◌, ◌++◌, Option, none, some,
  arith, length, All, bytes, min, ltb, if◌then◌else◌, inl, inr, ◌⊎◌,
}
use mathlib.Core.List.{map}
use free_cli.Ipc.Types.{msg_req_send, msg_worker_end}
use free_cli.Ipc.Wire.{Outcome, done, rejected, fault, transmit, u32_mod}
use free_cli.Ipc.Payload.{
  encode_approval_req, ReqSend, encode_req_send, decode_req_send, encode_worker_req,
  decode_worker_req, encode_rep_final, decode_rep_final, encode_worker_rep, decode_worker_rep,
  encode_session_rename, decode_session_rename, encode_worker_start, decode_worker_start,
  decode_approval_req, decode_approval_rep, encode_approval_rep,
}
use free_cli.Ipc.Payload.RoundTrip.{payloads_round_trip}
use free_cli.Ipc.Payload.History.{req_send_round_trip}
use free_cli.Ipc.Payload.Safety.{decoders_safe}
use free_cli.Ipc.Frame.{Kernel, IpcMsg, ipc_send, ipc_recv, message, no_data}
use free_cli.Ipc.Frame.Channel.{IsSendable, arrived, wire_bytes}
use free_cli.Ipc.Frame.Stream.{Totals, ipc_recv_total, send_many, recv_many, recv_many-send_many}

abbrev pub one_byte : Kernel
one_byte = record {
  send_size = λ buf. min 1 (length buf);
  recv_size = λ n stream. min 1 (min n (length stream));
  readable = λ stream. ltb 0 (length stream);
  send_fits = λ buf. omega arith;
  recv_fits = λ n stream. omega arith;
  recv_has = λ n stream. omega arith;
  recv_some = λ n stream p q. omega arith;
}

abbrev pub hello : IpcMsg
hello = record { type = msg_req_send; corr_id = 7; payload = some (1 ∷ 2 ∷ []) }

abbrev bye : IpcMsg
bye = record { type = msg_worker_end; corr_id = 7; payload = none }

pub hello-IsSendable : IsSendable hello
hello-IsSendable = record {
  type_fits = omega arith;
  corr_fits = omega arith;
  payload_fits = omega arith;
}

bye-IsSendable : IsSendable bye
bye-IsSendable = record {
  type_fits = omega arith;
  corr_fits = omega arith;
  payload_fits = omega arith;
}

both_sent : send_many one_byte (hello ∷ bye ∷ []) ≡ done (wire_bytes hello ++ wire_bytes bye)
unfolding send_many ipc_send free_cli.Ipc.Frame.frame_of free_cli.Ipc.Wire.alloc_write
    free_cli.Ipc.Wire.le_bytes free_cli.Ipc.Frame.net_send_all
both_sent = refl

ipc_recv_total_example : Totals (4 ∷ 0 ∷ 0 ∷ []) (ipc_recv one_byte (4 ∷ 0 ∷ 0 ∷ []))
ipc_recv_total_example = ipc_recv_total one_byte (4 ∷ 0 ∷ 0 ∷ [])

recv_many-send_many_example :
    recv_many one_byte 2 (wire_bytes hello ++ wire_bytes bye)
    ≡ some (map arrived (hello ∷ bye ∷ []))
recv_many-send_many_example =
    recv_many-send_many one_byte one_byte (hello ∷ bye ∷ []) (wire_bytes hello ++ wire_bytes bye)
      (hello-IsSendable, (bye-IsSendable, tt)) readable_when_pending both_sent
  where
    readable_when_pending : (s : List ℕ) → 0 < length s → ltb 0 (length s) ≡ true
    readable_when_pending s p = ground arith

abbrev chat_request : ReqSend
chat_request = record {
  session_idx = 2;
  turns =
      record { is_user = 1; text = bytes "hi" } ∷ record { is_user = 0; text = bytes "hello" } ∷ [];
  model = some (bytes "m");
  provider = none;
}

req_send_round_trip_example :
    transmit (encode_req_send chat_request) decode_req_send
    ≡ done (record chat_request { model = some (bytes "m"); provider = none })
unfolding bytes free_cli.Base.utf8
req_send_round_trip_example =
    req_send_round_trip chat_request (omega arith) (omega arith, (omega arith, tt)) (omega arith)

decoders_safe_example :
    (decode_req_send (255 ∷ []) ≢ fault)
    × (decode_rep_final (255 ∷ []) ≢ fault)
    × (decode_worker_start (255 ∷ []) ≢ fault)
    × (decode_session_rename (255 ∷ []) ≢ fault)
    × (decode_worker_req (255 ∷ []) ≢ fault)
    × (decode_worker_rep (255 ∷ []) ≢ fault)
    × (decode_approval_req (255 ∷ []) ≢ fault)
    × (decode_approval_rep (255 ∷ []) ≢ fault)
decoders_safe_example = decoders_safe (255 ∷ [])

payloads_round_trip_example :
    (transmit (encode_worker_req 3 (some (7 ∷ 8 ∷ [])) none) decode_worker_req
      ≡ done (record { worker_type = 3; op = 7 ∷ 8 ∷ []; args_json = none }))
    × (transmit (encode_rep_final 3 (some (7 ∷ 8 ∷ [])) none) decode_rep_final
        ≡ done (record { session_idx = 3; content = 7 ∷ 8 ∷ []; reasoning = none }))
    × (transmit (encode_worker_rep true (some (7 ∷ 8 ∷ []))) decode_worker_rep
        ≡ done (record { success = true; result = some (7 ∷ 8 ∷ []) }))
    × (transmit (encode_session_rename 3 (some (7 ∷ 8 ∷ []))) decode_session_rename
        ≡ done (record { session_idx = 3; topic = some (7 ∷ 8 ∷ []) }))
    × (transmit (encode_worker_start 9 (some (7 ∷ 8 ∷ [])) none) decode_worker_start
        ≡ done (record { parent_corr_id = 9; model = some (7 ∷ 8 ∷ []); description = none }))
    × (transmit (encode_approval_req 9 (some (7 ∷ 8 ∷ []))) decode_approval_req
        ≡ done (record { req_corr_id = 9; description = some (7 ∷ 8 ∷ []) }))
    × (transmit (encode_approval_rep 9 true) decode_approval_rep
        ≡ done (record { req_corr_id = 9; approved = true }))
payloads_round_trip_example =
    payloads_round_trip 3 9 true (some (7 ∷ 8 ∷ [])) none (omega arith) (omega arith) (omega arith)

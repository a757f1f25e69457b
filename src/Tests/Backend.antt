-- ===== src/Tests/Backend.antt =====
-- A run of a chat request of src/backend/backend.c.
use free_cli.Base.{
  ℕ, ◌+◌, ◌≡◌, true, List, [], ◌∷◌, ◌++◌, none, some, ◌==◌, if◌then◌else◌, replicate, bytes,
}
use free_cli.Base.{arith}
use free_cli.Ipc.Types.{msg_req_send, msg_approval_rep}
use free_cli.Ipc.Payload.{ReqSend, encode_req_send, encode_approval_rep}
use free_cli.Ipc.Frame.{IpcMsg}
use free_cli.Worker.{with_payload}
use free_cli.Worker.Approval.{PendingApproval, bw_notify_approval}
use free_cli.Backend.Loop.{start, decide, on_message, on_message_lem}
use free_cli.Ipc.Wire.{done}
use free_cli.Fs.{CJson}
use free_cli.Backend.{
  Backend, not_tried, Providers, ProviderReply, RequestArg, Sent, handle_request,
}
use free_cli.Backend.Yields.{Answers}
use free_cli.Backend.Request.{handle_request-Answers}

abbrev as_text : CJson (List ℕ)
as_text = record {
  parse = λ text. some text;
  item = λ v key. some v;
  string_of = λ v. some v;
  create_object = [];
  number_of = λ v. none;
  children = λ v. [];
  create_array = [];
  add_string = λ v key s. v ++ s;
  add_number = λ v key n. v ++ n ∷ [];
  add_item = λ v key w. v ++ w;
  add_element = λ v w. v ++ w;
  print = λ v. v;
}

abbrev asks_first : ProviderReply
asks_first = record {
  content = none;
  reasoning = none;
  tool_calls =
      record { id = none; name = some (bytes "ask_ai"); arguments = some (bytes "grok-3") } ∷ [];
}

abbrev answers : ProviderReply
answers = record { content = some (bytes "Yes."); reasoning = none; tool_calls = [] }

-- A provider whose first reply calls a tool; the world counts the calls.
abbrev counting : Providers ℕ
counting = record {
  init = λ w i. (w, true);
  send = λ w i req. (w + 1, some (if w == 0 then asks_first else answers));
}

abbrev fresh : Backend ℕ
fresh = record {
  initialized = replicate 4 not_tried;
  sub_corr_next = 0x8000000000000000;
  world = 0;
}

abbrev one_turn : RequestArg
one_turn = record {
  corr_id = 3;
  session_idx = 1;
  turns = record { is_user = 1; text = bytes "Is it?" } ∷ [];
  model = none;
  provider_id = none;
}

handle_request-Answers_example :
    (r : Backend ℕ × List Sent) × (handle_request counting as_text fresh one_turn ≡ done r)
    × Answers 3 1 r.1
handle_request-Answers_example = handle_request-Answers counting as_text fresh one_turn

abbrev no_slots : List PendingApproval
no_slots = []

abbrev question : ReqSend
question = record {
  session_idx = 1;
  turns = record { is_user = 1; text = 63 ∷ [] } ∷ [];
  model = none;
  provider = none;
}

on_message_lem_example :
    ((m : IpcMsg) × (with_payload msg_req_send 3 (encode_req_send question) ≡ done m)
      × (on_message [] true no_slots m
          ≡ start (record {
            corr_id = 3;
            session_idx = 1;
            turns = question.turns;
            model = none;
            provider_id = none;
          })))
    × ((m : IpcMsg) × (with_payload msg_approval_rep 3 (encode_approval_rep 9 true) ≡ done m)
        × (on_message [] true no_slots m ≡ decide (bw_notify_approval no_slots 9 true)))
on_message_lem_example =
    on_message_lem [] true no_slots 3 question 9 true (omega arith) (omega arith, tt) (omega arith)
      (omega arith)

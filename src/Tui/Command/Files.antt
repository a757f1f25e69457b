-- ===== src/Tui/Command/Files.antt =====
-- A /fs line from the input line to the file worker (submit_message and do_send_worker_req of
-- src/ui/main.c, main of src/backend/backend.c).
use free_cli.Base.{
  ℕ, ◌+◌, ◌≤◌, ◌<◌, ◌≡◌, refl, ap, ◌∙◌, true, false, if◌then◌else◌, none, List, [], ◌∷◌, ◌++◌, some,
  arith, ◌==◌, length, length-append, utf8, take, take_all, ℤ, bytes,
}
use free_cli.Ipc.Types.{msg_worker_req}
use free_cli.Ipc.Wire.{done, u32_mod}
use free_cli.Ipc.Payload.{encode_worker_req}
use free_cli.Ipc.Payload.Fields.{size_of, received}
use free_cli.Ipc.Frame.{IpcMsg}
use free_cli.Worker.{BackendWorker, BusMsg, spawned, dispatch_to, with_payload}
use free_cli.Worker.Registry.{NoneOf, bw_registry_find-first}
use free_cli.Persist.Json.{CJsonLaws}
use free_cli.Fs.Operations.{string_arg}
use free_cli.Tui.Command.Arguments.{takes_content, string_arg-fs_args}
use free_cli.Worker.Approval.{PendingApproval}
use free_cli.Backend.Loop.{to_worker, on_message, on_worker_req_lem}
use free_cli.Session.{Session, SessionManager, sm_active_session}
use free_cli.Input.{input_reset}
use free_cli.Fs.{CJson, FileOs}
use free_cli.Commands.{
  backend_op, backend_type_filesystem, fs_args, said, cmd_dispatch, send_worker_req, draw,
}
use free_cli.Commands.Request.{IsWord, StartsPlain, fs_request}
use free_cli.Commands.Total.{system_msg-ChatsValid}
use free_cli.Tui.{Ui, sent, next}
use free_cli.Tui.Requests.{inflight_add}
use free_cli.Tui.Submit.{start_request}
use free_cli.Tui.Command.{
  do_send_worker_req, run_callback, run_callbacks, ctx_of, finish_command, starts_slash,
  submit_command, submit_line, submit_message,
}
use free_cli.Tui.Valid.{IsValid}

-- The state with the command's line taken and its answer in the chat.
abbrev told : Ui → SessionManager → Ui
told u sm = record u { input_line = input_reset u.input_line; sessions = sm }

-- The arguments of the request.
abbrev pub request_args : {V : Type 0} → CJson V → List ℕ → List ℕ → List ℕ → List ℕ → List ℕ
request_args json op w p c = fs_args json op (record { op_name = w; path = p; content = c })

fs_prefix : bytes "/fs " ≡ b'/' ∷ (b'f' ∷ (b's' ∷ (b' ' ∷ [])))
unfolding bytes utf8
fs_prefix = refl

length-fs_line :
    (w p c : List ℕ)
    → length (bytes "/fs " ++ (w ++ b' ' ∷ (p ++ b' ' ∷ c))) ≡ 6 + length w + length p + length c
length-fs_line w p c =
    rw fs_prefix
      (omega (arith, length-append w (b' ' ∷ (p ++ b' ' ∷ c)), length-append p (b' ' ∷ c)))

-- The callback sends one request, under the next id.
callback_sends :
    (u : Ui) (op args : List ℕ) (m : IpcMsg)
    → u.connected ≡ true
    → with_payload msg_worker_req u.next_corr
        (encode_worker_req backend_type_filesystem (some op) (some args))
      ≡ done m
    → (u' : Ui) × (run_callbacks u (send_worker_req backend_type_filesystem op args ∷ draw ∷ [])
        ≡ next u' (sent m ∷ []))
      × (u'.in_flight ≡ inflight_add u.in_flight u.next_corr u.sessions.active (some op))
unfolding run_callbacks run_callback do_send_worker_req start_request
callback_sends u op args m on built = rw (on, built) (_, refl, refl)

-- In a valid connected state with an active session, a typed line "/fs <op> <path> <content>" of
-- at most 255 bytes, with a known operation of at most 31 bytes, a path without spaces that is not
-- empty, and a content that does not begin with a space, sends exactly one message, if the request
-- fits 32 bits and cJSON does what it documents. On it the backend, where threads start, starts
-- the first file worker of its registry under the id of the request and with the operation; that
-- worker finds the path of the line in its arguments and, for create and write and no other
-- operation, the content.
pub fs_line_dispatched :
    {F V : Type 0} (os : FileOs F) (json : CJson V) (root : List ℕ)
    (before after : List BackendWorker) (worker : BackendWorker) (approvals : List PendingApproval)
    (u : Ui) (s : Session) (w p c op : List ℕ) (picked : ℤ)
    → CJsonLaws json
    → NoneOf backend_type_filesystem before
    → worker.type ≡ backend_type_filesystem
    → IsValid u
    → u.connected ≡ true
    → sm_active_session u.sessions ≡ some s
    → u.input_line.buffer ≡ bytes "/fs " ++ (w ++ b' ' ∷ (p ++ b' ' ∷ c))
    → u.input_line.len ≤ 255
    → backend_op w ≡ some op
    → IsWord w
    → IsWord p
    → StartsPlain c
    → 0 < length w
    → 0 < length p
    → length w ≤ 31
    → 12 + size_of (some op) + size_of (some (request_args json op w p c)) < u32_mod
    → (m : IpcMsg) × (u' : Ui) × (msg : BusMsg) × (submit_message json u picked
        ≡ next u' (sent m ∷ []))
      × (on_message (before ++ worker ∷ after) true approvals m ≡ to_worker (spawned worker msg))
      × (msg.corr_id ≡ u.next_corr)
      × (msg.op ≡ op)
      × (string_arg os json root msg (bytes "path") ≡ some p)
      × (string_arg os json root msg (bytes "content")
          ≡ (if takes_content op then some c else none))
unfolding submit_message submit_line submit_command finish_command said ctx_of starts_slash
    dispatch_to
fs_line_dispatched os json root before after worker approvals u s w p c op picked laws earlier kind
      v on here typed short known hw hp hc nw np lw fits =
    let u0 = record u { input_line = input_reset u.input_line } in
    let args = request_args json op w p c in
    let size : 6 + length w + length p + length c ≤ 255 =
      omega (arith, v.line.len_fits, ap length typed, length-fs_line w p c) in
    let (text, dispatched) =
      fs_request json (ctx_of u0) w p c op picked refl known hw hp hc nw np lw (omega arith) in
    let (sm, told_so, _, _) = system_msg-ChatsValid u.sessions text v.sessions_valid in
    let (m, built, begun) =
      on_worker_req_lem (before ++ worker ∷ after) true approvals u.next_corr
        backend_type_filesystem (some op) (some args) (omega arith) fits in
    let (u', sends, _) = callback_sends (told u sm) op args m on built in
    let found = bw_registry_find-first before after worker backend_type_filesystem earlier kind in
    let msg : BusMsg = record {
      corr_id = u.next_corr;
      worker_type = backend_type_filesystem;
      op = op;
      args_json = received (some args);
    } in
    let read = string_arg-fs_args os json laws root op w p c msg refl in
    let filled : (u.input_line.len == 0) ≡ false =
      ground (arith, v.line.len_fits, ap length typed, length-fs_line w p c) in
    let slash : starts_slash u.input_line.buffer ≡ true = rw (typed, fs_prefix) refl in
    let whole : take 255 u.input_line.buffer ≡ u.input_line.buffer =
      take_all 255 u.input_line.buffer (omega (arith, v.line.len_fits)) in
    (
      m,
      u',
      msg,
      rw (here, submit_message)
          (rw filled (
            rw slash (
              ap (λ l. finish_command u0 (cmd_dispatch json (ctx_of u0) (some l) picked))
                (whole ∙ typed)
              ∙ ap (finish_command u0) (dispatched ∙ ap (said (ctx_of u0) _) told_so)
              ∙ sends))),
      begun ∙ rw found refl,
      refl,
      refl,
      read.0,
      read.1,
    )

-- ===== src/Backend.antt =====
-- The handling of a chat request in the backend (src/backend/backend.c). The providers' init and send
-- are a parameter, with a state `W` of the world that their calls pass through; what a request sends
-- to the TUI is listed in order. Messages of other threads may come between them.
pub mod Yields
pub mod Loop
pub mod Request
use free_cli.Base.{
  ℕ, zero, suc, ◌+◌, ◌%◌, ◌^◌, Bool, true, false, not, ◌&&◌, ◌||◌, List, [], ◌∷◌, ◌++◌, Option,
  none, some, ltb, leb, ◌==◌, if◌then◌else◌, length, take, set, get_elem?, str_eq, bytes,
}
use mathlib.Core.Option
use free_cli.Ipc.Wire.{Outcome, done, rejected, fault, ◌>>=◌, u64_mod}
use free_cli.Ipc.Types.{
  msg_worker_start, msg_worker_end, msg_rep_final, msg_rep_error, msg_session_rename,
}
use free_cli.Ipc.Payload.{Turn, encode_worker_start, encode_rep_final, encode_session_rename}
use free_cli.Ipc.Frame.{IpcMsg, payload_of}
use free_cli.Worker.{with_payload}
use free_cli.Chat.{
  ToolCall, Message, ChatBuffer, nonempty, chat_init, chat_add, chat_add_tool_calls,
  chat_add_tool_result,
}
use free_cli.Fs.{CJson, after_prefix}

abbrev pub max_tool_iters : ℕ
max_tool_iters = 5

-- `initialized`: 0, 1 and -1
pub data Init : Type 0 where
  not_tried : Init
  usable : Init
  failed : Init

pub record Backend (W : Type 0) : Type 0 where
  pub initialized : List Init
  pub sub_corr_next : ℕ
  pub world : W

pub record ProviderRequest : Type 0 where
  pub history : ChatBuffer
  pub model : Option (List ℕ)
  pub enable_tools : Bool

pub record ProviderReply : Type 0 where
  pub content : Option (List ℕ)
  pub reasoning : Option (List ℕ)
  pub tool_calls : List ToolCall

-- The providers, by their index in backend_providers.
pub record Providers (W : Type 0) : Type 0 where
  pub init : W → ℕ → W × Bool
  pub send : W → ℕ → ProviderRequest → W × Option ProviderReply

pub record RequestArg : Type 0 where
  pub corr_id : ℕ
  pub session_idx : ℕ
  pub turns : List Turn
  pub model : Option (List ℕ)
  pub provider_id : Option (List ℕ)

-- A message to the TUI, with the payload's fields.
pub data Sent : Type 0 where
  worker_start : ℕ → ℕ → List ℕ → List ℕ → Sent
  worker_end : ℕ → Sent
  rep_final : ℕ → List ℕ → Option (List ℕ) → Sent
  rep_error : List ℕ → Sent
  session_rename : ℕ → List ℕ → Sent

-- The messages themselves, those about the request under its id.
unfoldable pub sent_messages : ℕ → Sent → Outcome (List IpcMsg)
sent_messages corr (worker_start sub parent model text) = do
  m ← with_payload msg_worker_start sub (encode_worker_start parent (some model) (some text))
  done (m ∷ [])
sent_messages corr (worker_end sub) =
    done (record { type = msg_worker_end; corr_id = sub; payload = none } ∷ [])
sent_messages corr (rep_final idx content reasoning) = do
  m ← with_payload msg_rep_final corr (encode_rep_final idx (some content) reasoning)
  done (m ∷ [])
sent_messages corr (rep_error text) =
    done (record { type = msg_rep_error; corr_id = corr; payload = payload_of text } ∷ [])
sent_messages corr (session_rename idx topic) = do
  m ← with_payload msg_session_rename corr (encode_session_rename idx (some topic))
  done (m ∷ [])

-- The buffer after a store, or an access behind its array.
abbrev pub stored : Option ChatBuffer → Outcome ChatBuffer
stored none = fault
stored (some cb) = done cb

unfoldable pub provider_index : List ℕ → ℕ
provider_index id =
    if str_eq (bytes "xai") id
    then 0
    else if str_eq (bytes "anthropic") id
    then 1
    else if str_eq (bytes "google") id
    then 2
    else if str_eq (bytes "ibm") id
    then 3
    else 0

-- The prefix of a model's name decides on its provider.
unfoldable pub model_provider : List ℕ → List ℕ
model_provider model =
    if starts (bytes "claude")
    then bytes "anthropic"
    else if starts (bytes "gemini")
    then bytes "google"
    else if starts (bytes "ibm/") || starts (bytes "meta-")
    then bytes "ibm"
    else bytes "xai"
  where
    starts : List ℕ → Bool
    starts prefix = elim (after_prefix prefix model) [ none ↦ false | some rest ↦ true ]

unfoldable pub is_space : ℕ → Bool
is_space c = c == b' ' || c == 0x0A || c == 0x0D || c == 0x09

unfoldable pub trim_start : List ℕ → List ℕ
trim_start [] = []
trim_start (c ∷ cs) = let rest = trim_start cs in if is_space c then rest else c ∷ cs

-- Without the white space and the dots at the end.
unfoldable pub trim_tail : List ℕ → List ℕ
trim_tail [] = []
trim_tail (c ∷ cs) = elim (trim_tail cs) [
  | [] ↦ (if is_space c || c == b'.' then [] else c ∷ [])
  | d ∷ ds ↦ c ∷ d ∷ ds
]

-- The end never moves in front of the first character.
unfoldable pub trim_end : List ℕ → List ℕ
trim_end [] = []
trim_end (c ∷ cs) = c ∷ trim_tail cs

unfoldable pub add_turns_to : ChatBuffer → List Turn → Outcome ChatBuffer
add_turns_to cb [] = done cb
add_turns_to cb (t ∷ ts) = do
  cb' ← stored (chat_add cb t.text (not (t.is_user == 0)))
  add_turns_to cb' ts

module _ {W V : Type 0} (providers : Providers W) (json : CJson V) where
  unfoldable pub init_provider : Backend W → ℕ → Init → Backend W × Option ℕ
  init_provider b i usable = (b, some i)
  init_provider b i failed = (b, none)
  init_provider b i not_tried =
      let (world, ok) = providers.init b.world i in
      (
        record b {
          initialized = set b.initialized i (if ok then usable else failed);
          world = world;
        },
        (if ok then some i else none),
      )

  unfoldable pub get_provider : Backend W → Option (List ℕ) → Backend W × Option ℕ
  get_provider b id =
      let i = provider_index (Option.get_or (nonempty id) (bytes "xai")) in
      init_provider b i (Option.get_or (get_elem? b.initialized i) failed)

  unfoldable pub alloc_sub_corr : Backend W → Backend W × ℕ
  alloc_sub_corr b = (record b { sub_corr_next = (b.sub_corr_next + 1) % u64_mod }, b.sub_corr_next)

  unfoldable pub ask : Backend W → Option ℕ → ProviderRequest → Backend W × Option ProviderReply
  ask b none req = (b, none)
  ask b (some i) req =
      let (world, reply) = providers.send b.world i req in (record b { world = world }, reply)

  -- The provider of a sub-query, or xai if that cannot be used.
  unfoldable pub sub_provider : Backend W → List ℕ → Backend W × Option ℕ
  sub_provider b model =
      let r = get_provider b (some (model_provider model)) in
      elim r.1 [ some i ↦ r | none ↦ get_provider r.0 (some (bytes "xai")) ]

  unfoldable pub sub_result : Option ProviderReply → List ℕ
  sub_result none = bytes "(no response from sub-model)"
  sub_result (some r) = Option.get_or (nonempty r.content) (bytes "(no response from sub-model)")

  unfoldable pub run_subquery :
      Backend W → ℕ → List ℕ → List ℕ → Outcome (Backend W × List Sent × List ℕ)
  run_subquery b parent model prompt = do
    let s = alloc_sub_corr b
    let p = sub_provider s.0 model
    cb ← stored (chat_add chat_init prompt true)
    let r = ask p.0 p.1 (record { history = cb; model = some model; enable_tools = false })
    done (r.0, worker_start s.1 parent model (take 40 prompt) ∷ worker_end s.1 ∷ [], sub_result r.1)

  unfoldable pub string_item : V → List ℕ → Option (List ℕ)
  string_item root key = elim (json.item root key) [ none ↦ none | some v ↦ json.string_of v ]

  unfoldable pub both : Option (List ℕ) → Option (List ℕ) → Option (List ℕ × List ℕ)
  both (some model) (some prompt) = some (model, prompt)
  both (some model) none = none
  both none prompt = none

  unfoldable pub parse_ask_ai_args : Option (List ℕ) → Option (List ℕ × List ℕ)
  parse_ask_ai_args none = none
  parse_ask_ai_args (some text) = elim (json.parse text) [
    | none ↦ none
    | some root ↦ both (string_item root (bytes "model")) (string_item root (bytes "prompt"))
  ]

  -- The backend, the history and the messages after the execution of a tool call.
  unfoldable pub run_ask_ai :
      Backend W → ℕ → Option (List ℕ × List ℕ) → Outcome (Backend W × List Sent × List ℕ)
  run_ask_ai b parent none = done (b, [], bytes "(could not parse ask_ai arguments)")
  run_ask_ai b parent (some (model, prompt)) = run_subquery b parent model prompt

  unfoldable pub is_ask_ai : Option (List ℕ) → Bool
  is_ask_ai none = false
  is_ask_ai (some name) = str_eq name (bytes "ask_ai")

  unfoldable pub run_tool :
      Backend W → ℕ → ChatBuffer → ToolCall → Outcome (Backend W × ChatBuffer × List Sent)
  run_tool b corr cb tc = do
    (b', ms, text) ←
        (if is_ask_ai tc.name
          then run_ask_ai b corr (parse_ask_ai_args tc.arguments)
          else done (b, [], bytes "(tool not available)"))
    cb' ← stored (chat_add_tool_result cb (some (Option.get_or tc.id [])) (some text))
    done (b', cb', ms)

  unfoldable pub run_tools :
      Backend W → ℕ → ChatBuffer → List ToolCall → Outcome (Backend W × ChatBuffer × List Sent)
  run_tools b corr cb [] = done (b, cb, [])
  run_tools b corr cb (tc ∷ tcs) = do
    (b₁, cb₁, ms) ← run_tool b corr cb tc
    (b₂, cb₂, rest) ← run_tools b₁ corr cb₁ tcs
    done (b₂, cb₂, ms ++ rest)

  -- The loop over at most `n` rounds: the backend, the history, the messages and the plain reply that
  -- ended it, if one did.
  unfoldable pub agent_loop :
      ℕ
      → Backend W
      → RequestArg
      → ℕ
      → Bool
      → ChatBuffer
      → Outcome (Backend W × ChatBuffer × List Sent × Option ProviderReply)
  agent_loop zero b ra prov tools cb = done (b, cb, [], none)
  agent_loop (suc n) b ra prov tools cb =
      let r = ask b (some prov) (record { history = cb; model = ra.model; enable_tools = tools }) in
      elim r.1 [
        | none ↦ done (r.0, cb, [], none)
        | some reply ↦
            (if length reply.tool_calls == 0 then done (r.0, cb, [], some reply) else (do
              cb₁ ← stored (chat_add_tool_calls cb reply.content reply.reasoning reply.tool_calls)
              (b₂, cb₂, ms) ← run_tools r.0 ra.corr_id cb₁ reply.tool_calls
              (b₃, cb₃, rest, final) ← agent_loop n b₂ ra prov tools cb₂
              done (b₃, cb₃, ms ++ rest, final)))
      ]

  unfoldable pub naming_prompt : List ℕ → List ℕ → List ℕ
  naming_prompt question content = take 2047 (
      bytes
        "Summarise the following conversation in 2-4 words as a concise topic label. Reply with ONLY those words, no punctuation, no quotes, no explanation.\n\nUser: "
      ++ take 500 question
      ++ bytes "\nAssistant: "
      ++ take 500 content)

  unfoldable pub renamed : ℕ → Option ProviderReply → List Sent
  renamed idx none = []
  renamed idx (some r) = elim (nonempty r.content) [
    | none ↦ []
    | some text ↦ (elim (trim_end (trim_start text)) [
      | [] ↦ []
      | c ∷ cs ↦ session_rename idx (c ∷ cs) ∷ []
    ])
  ]

  unfoldable pub user_question : List Message → Option (List ℕ)
  user_question [] = none
  user_question (m ∷ ms) = if m.is_user then m.text else none

  -- The topic that xai gives the session.
  unfoldable pub name_session :
      Backend W → ℕ → List ℕ → Option (List ℕ) → Outcome (Backend W × List Sent)
  name_session b idx content none = done (b, [])
  name_session b idx content (some question) = do
    cb ← stored (chat_add chat_init (naming_prompt question content) true)
    let p = get_provider b (some (bytes "xai"))
    let r =
        ask p.0 p.1
          (record { history = cb; model = some (bytes "grok-3-mini-fast"); enable_tools = false })
    done (r.0, renamed idx r.1)

  unfoldable pub final_content : Option ProviderReply → List ℕ
  final_content none = []
  final_content (some r) = Option.get_or r.content []

  unfoldable pub final_reasoning : Option ProviderReply → Option (List ℕ)
  final_reasoning none = none
  final_reasoning (some r) = r.reasoning

  -- Only a request to xai may call tools.
  unfoldable pub supports_tools : Option (List ℕ) → Bool
  supports_tools none = true
  supports_tools (some id) = str_eq id (bytes "xai")

  unfoldable pub auto_name :
      Backend W → RequestArg → List ℕ → List Message → Outcome (Backend W × List Sent)
  auto_name b ra content msgs =
      if length ra.turns == 1 && not (length content == 0)
      then name_session b ra.session_idx content (user_question msgs)
      else done (b, [])

  unfoldable pub answer : Backend W → RequestArg → Option ℕ → Outcome (Backend W × List Sent)
  answer b ra none = done (b, rep_error (bytes "provider unavailable (check API keys)") ∷ [])
  answer b ra (some prov) = do
    cb ← add_turns_to chat_init ra.turns
    (b₁, cb₁, ms, final) ← agent_loop max_tool_iters b ra prov (supports_tools ra.provider_id) cb
    (b₂, naming) ← auto_name b₁ ra (final_content final) cb₁.msgs
    done (b₂, ms ++ rep_final ra.session_idx (final_content final) (final_reasoning final) ∷ naming)

  unfoldable pub handle_request : Backend W → RequestArg → Outcome (Backend W × List Sent)
  handle_request b ra = let p = get_provider b ra.provider_id in answer p.0 ra p.1

-- ===== src/Chat/Buffer.antt =====
-- The buffer of src/core/chat.c grows before it is full, and its operations touch one message.
use free_cli.Base.{
  ℕ, ◌+◌, ◌-◌, ◌*◌, ◌≤◌, ◌≡◌, refl, ap, Bool, false, List, [], ◌∷◌, ◌++◌, Option, none, some, arith,
  length, length-append, take, take-append,
}
use free_cli.Chat.{
  ToolCall, Message, ChatBuffer, chat_init, grown, chat_ensure_capacity, chat_store, chat_add,
  chat_add_r, chat_add_tool_calls, chat_add_tool_result, chat_remove_last, nonempty, or_empty,
}

-- The array has room for its messages, and is at most twice as large as they need.
pub record IsValid (cb : ChatBuffer) : Type 0 where
  pub room : length cb.msgs ≤ cb.capacity
  pub tight : cb.capacity ≤ 64 + 2 * length cb.msgs

pub chat_init-IsValid : IsValid chat_init
unfolding chat_init
chat_init-IsValid = omega arith

-- What an operation that appends `m` has to do.
abbrev pub Appends : ChatBuffer → Message → Option ChatBuffer → Type 0
Appends cb m r =
    (cb' : ChatBuffer) × (r ≡ some cb')
    × (cb'.msgs ≡ cb.msgs ++ m ∷ [])
    × (cb'.scroll ≡ cb.scroll)
    × IsValid cb'

abbrev after_store : ChatBuffer → Message → ChatBuffer
after_store cb m = record (chat_ensure_capacity cb) { msgs = cb.msgs ++ m ∷ [] }

pub chat_store-Appends :
    (cb : ChatBuffer) (m : Message)
    → IsValid cb
    → Appends cb m (chat_store (chat_ensure_capacity cb) m)
unfolding chat_store chat_ensure_capacity grown
chat_store-Appends cb m v = (
  after_store cb m,
  ground arith,
  refl,
  ground arith,
  record {
    room = ground (arith, length-append cb.msgs (m ∷ []));
    tight = ground (arith, length-append cb.msgs (m ∷ []));
  },
)

-- In a valid buffer, each of the four ways to add a message appends that one message behind the
-- others, into an array that has room for it, and leaves the scroll position alone.
pub chat_add-Appends :
    (cb : ChatBuffer)
    → IsValid cb
    → ((text : List ℕ) (is_user : Bool)
        → Appends cb
            (record {
              text = some text;
              is_user = is_user;
              reasoning = none;
              tool_calls = [];
              tool_call_id = none;
            })
            (chat_add cb text is_user))
      × ((text : List ℕ) (is_user : Bool) (reasoning : Option (List ℕ))
          → Appends cb
              (record {
                text = some text;
                is_user = is_user;
                reasoning = nonempty reasoning;
                tool_calls = [];
                tool_call_id = none;
              })
              (chat_add_r cb text is_user reasoning))
      × ((content reasoning : Option (List ℕ)) (tc : List ToolCall)
          → Appends cb
              (record {
                text = nonempty content;
                is_user = false;
                reasoning = nonempty reasoning;
                tool_calls = tc;
                tool_call_id = none;
              })
              (chat_add_tool_calls cb content reasoning tc))
      × ((id result : Option (List ℕ))
          → Appends cb
              (record {
                text = or_empty result;
                is_user = false;
                reasoning = none;
                tool_calls = [];
                tool_call_id = or_empty id;
              })
              (chat_add_tool_result cb id result))
unfolding chat_add chat_add_r chat_add_tool_calls chat_add_tool_result
chat_add-Appends cb v = (
  λ text is_user. chat_store-Appends cb _ v,
  λ text is_user reasoning. chat_store-Appends cb _ v,
  λ content reasoning tc. chat_store-Appends cb _ v,
  λ id result. chat_store-Appends cb _ v,
)

-- chat_remove_last takes back the last message that was added, and nothing else.
pub chat_remove_last-append :
    (cb : ChatBuffer) (ms : List Message) (m : Message)
    → cb.msgs ≡ ms ++ m ∷ []
    → (chat_remove_last cb).msgs ≡ ms
unfolding chat_remove_last
chat_remove_last-append cb ms m e =
    let size : length cb.msgs ≡ length ms + 1 =
      omega (arith, ap length e, length-append ms (m ∷ [])) in
    let less : length cb.msgs - 1 ≡ length ms = omega arith in
    let front : take (length cb.msgs - 1) cb.msgs ≡ ms = rw (less, e) (take-append ms (m ∷ [])) in
    ground (arith, front)

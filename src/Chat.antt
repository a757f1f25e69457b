-- ===== src/Chat.antt =====
-- The message buffer of one session (src/core/chat.c, chat.h). Strings are the bytes before the
-- terminator, a NULL pointer is `none`, and malloc, realloc and strdup succeed.
pub mod Buffer
use free_cli.Base.{
  ℕ, zero, suc, ◌+◌, ◌-◌, ◌*◌, Bool, true, false, List, [], ◌∷◌, ◌++◌, Option, none, some, ltb, leb,
  ◌==◌, if◌then◌else◌, length, ℤ, pos, negsuc, ◌+ℤ◌, ltb_ℤ, take,
}

pub record ToolCall : Type 0 where
  pub id : Option (List ℕ)
  pub name : Option (List ℕ)
  pub arguments : Option (List ℕ)

pub record Message : Type 0 where
  pub text : Option (List ℕ)
  pub is_user : Bool
  pub reasoning : Option (List ℕ)
  pub tool_calls : List ToolCall
  pub tool_call_id : Option (List ℕ)

-- `msgs` holds the first `count` elements of the array, so that count is its length.
pub record ChatBuffer : Type 0 where
  pub msgs : List Message
  pub capacity : ℕ
  pub scroll : ℤ

unfoldable pub chat_init : ChatBuffer
chat_init = record { msgs = []; capacity = 0; scroll = pos 0 }

-- `capacity ? capacity * 2 : INITIAL_CAP`
unfoldable pub grown : ℕ → ℕ
grown capacity = if capacity == 0 then 64 else capacity * 2

unfoldable pub chat_ensure_capacity : ChatBuffer → ChatBuffer
chat_ensure_capacity cb =
    if leb cb.capacity (length cb.msgs) then record cb { capacity = grown cb.capacity } else cb

-- `msgs[count] = m; count++`; `none` is a write behind the array.
unfoldable pub chat_store : ChatBuffer → Message → Option ChatBuffer
chat_store cb m =
    if ltb (length cb.msgs) cb.capacity then some (record cb { msgs = cb.msgs ++ m ∷ [] }) else none

-- `(s && *s) ? strdup(s) : NULL`
abbrev pub nonempty : Option (List ℕ) → Option (List ℕ)
nonempty none = none
nonempty (some []) = none
nonempty (some (c ∷ cs)) = some (c ∷ cs)

-- `strdup(s ? s : "")`
abbrev pub or_empty : Option (List ℕ) → Option (List ℕ)
or_empty none = some []
or_empty (some s) = some s

unfoldable pub chat_add : ChatBuffer → List ℕ → Bool → Option ChatBuffer
chat_add cb text is_user = chat_store (chat_ensure_capacity cb) (record {
  text = some text;
  is_user = is_user;
  reasoning = none;
  tool_calls = [];
  tool_call_id = none;
})

unfoldable pub chat_add_r : ChatBuffer → List ℕ → Bool → Option (List ℕ) → Option ChatBuffer
chat_add_r cb text is_user reasoning = chat_store (chat_ensure_capacity cb) (record {
  text = some text;
  is_user = is_user;
  reasoning = nonempty reasoning;
  tool_calls = [];
  tool_call_id = none;
})

unfoldable pub chat_add_tool_calls :
    ChatBuffer → Option (List ℕ) → Option (List ℕ) → List ToolCall → Option ChatBuffer
chat_add_tool_calls cb content reasoning tc = chat_store (chat_ensure_capacity cb) (record {
  text = nonempty content;
  is_user = false;
  reasoning = nonempty reasoning;
  tool_calls = tc;
  tool_call_id = none;
})

unfoldable pub chat_add_tool_result :
    ChatBuffer → Option (List ℕ) → Option (List ℕ) → Option ChatBuffer
chat_add_tool_result cb tool_call_id result = chat_store (chat_ensure_capacity cb) (record {
  text = or_empty result;
  is_user = false;
  reasoning = none;
  tool_calls = [];
  tool_call_id = or_empty tool_call_id;
})

unfoldable pub chat_scroll : ChatBuffer → ℤ → ChatBuffer
chat_scroll cb delta =
    let moved = cb.scroll +ℤ delta in
    let low = if ltb_ℤ moved (pos 0) then pos 0 else moved in
    let high = if ltb_ℤ (pos (length cb.msgs)) low then pos (length cb.msgs) else low in
    record cb { scroll = high }

unfoldable pub chat_remove_last : ChatBuffer → ChatBuffer
chat_remove_last cb =
    if ltb 0 (length cb.msgs) then record cb { msgs = take (length cb.msgs - 1) cb.msgs } else cb

-- ===== src/Persist/Json.antt =====
-- What src/ui/persist.c writes as JSON it reads back, over what cJSON documents.
use free_cli.Base.{
  ℕ, ◌≡◌, refl, sym, ◌∙◌, Bool, true, false, List, [], ◌∷◌, ◌++◌, append_assoc, append-nil, Option,
  none, some, if◌then◌else◌, take, str_eq, bytes,
}
use mathlib.Core.List.{map}
use free_cli.Chat.{ToolCall, Message, ChatBuffer, chat_add_r}
use free_cli.Session.{Session, SessionManager}
use free_cli.Fs.{CJson}
use free_cli.Persist.{
  key_next_id, key_sessions, key_id, key_name, key_messages, add_sessions, index_json, add_text,
  message_json, add_messages, session_json, elements, number_item, string_item, restore_message,
}

-- The first item of a name counts: one that is added is found if there was none.
abbrev pub first {ℓ} : {A : Type ℓ} → Option A → Option A → Option A
first none o = o
first (some a) o = some a

-- `text` and `number` are the JSON strings and numbers that the cJSON_Add functions make.
pub record CJsonLaws {V : Type 0} (json : CJson V) : Type 0 where
  pub text : List ℕ → V
  pub number : ℕ → V
  pub string_of-text : (s : List ℕ) → json.string_of (text s) ≡ some s
  pub number_of-number : (n : ℕ) → json.number_of (number n) ≡ some n
  pub parse-print : (v : V) → json.parse (json.print v) ≡ some v
  pub parse_empty : json.parse [] ≡ none
  pub item-create_object : (key : List ℕ) → json.item json.create_object key ≡ none
  pub item-add_string :
      (o : V) (k s key : List ℕ)
      → json.item (json.add_string o k s) key
        ≡ first (json.item o key) (if str_eq k key then some (text s) else none)
  pub item-add_number :
      (o : V) (k : List ℕ) (n : ℕ) (key : List ℕ)
      → json.item (json.add_number o k n) key
        ≡ first (json.item o key) (if str_eq k key then some (number n) else none)
  pub item-add_item :
      (o : V) (k : List ℕ) (v : V) (key : List ℕ)
      → json.item (json.add_item o k v) key
        ≡ first (json.item o key) (if str_eq k key then some v else none)
  pub children-create_array : json.children json.create_array ≡ []
  pub children-add_element :
      (arr v : V) → json.children (json.add_element arr v) ≡ json.children arr ++ v ∷ []

module _ {V : Type 0} (json : CJson V) (laws : CJsonLaws json) where
  open laws use {
    text, number, string_of-text, number_of-number, item-create_object, item-add_string,
    item-add_number, item-add_item, children-create_array, children-add_element,
  }

  -- The entry of a session in the index.
  abbrev pub entry_json : Session → V
  entry_json s = json.add_string (json.add_number json.create_object key_id s.id) key_name s.name

  pub children-add_sessions :
      (arr : V) (ss : List Session)
      → json.children (add_sessions json arr ss) ≡ json.children arr ++ map entry_json ss
  unfolding add_sessions
  children-add_sessions arr [] = sym (append-nil (json.children arr))
  children-add_sessions arr (s ∷ ss) =
      children-add_sessions (json.add_element arr (entry_json s)) ss
      ∙ rw (children-add_element arr (entry_json s))
          (append_assoc (json.children arr) (entry_json s ∷ []) (map entry_json ss))

  children-add_messages :
      (arr : V) (ms : List Message)
      → json.children (add_messages json arr ms) ≡ json.children arr ++ map (message_json json) ms
  unfolding add_messages
  children-add_messages arr [] = sym (append-nil (json.children arr))
  children-add_messages arr (m ∷ ms) =
      children-add_messages (json.add_element arr (message_json json m)) ms
      ∙ rw (children-add_element arr (message_json json m))
          (append_assoc (json.children arr) (message_json json m ∷ []) (map (message_json json) ms))

  pub entry_id : (s : Session) → number_item json (entry_json s) key_id ≡ some s.id
  unfolding bytes str_eq
  entry_id s = rw (item-add_string, item-add_number, item-create_object) (number_of-number s.id)

  pub entry_name : (s : Session) → string_item json (entry_json s) key_name ≡ some s.name
  unfolding bytes str_eq
  entry_name s = rw (item-add_string, item-add_number, item-create_object) (string_of-text s.name)

  pub index_next_id :
      (sm : SessionManager) → number_item json (index_json json sm) key_next_id ≡ some sm.next_id
  unfolding bytes str_eq index_json
  index_next_id sm =
      rw (item-add_item, item-add_number, item-create_object) (number_of-number sm.next_id)

  pub index_entries :
      (sm : SessionManager)
      → elements json (json.item (index_json json sm) key_sessions)
        ≡ map entry_json (take sm.count sm.sessions)
  unfolding bytes str_eq index_json elements
  index_entries sm =
      rw (item-add_item, item-add_number, item-create_object)
        (children-add_sessions json.create_array (take sm.count sm.sessions)
          ∙ rw children-create_array refl)

  pub session_messages :
      (s : Session)
      → elements json (json.item (session_json json s) key_messages)
        ≡ map (message_json json) s.chat.msgs
  unfolding bytes str_eq session_json elements
  session_messages s =
      rw (item-add_item, item-add_string, item-add_number, item-create_object)
        (children-add_messages json.create_array s.chat.msgs ∙ rw children-create_array refl)

  -- A message that has a text comes back with it; the reasoning of a user's message is not kept.
  unfoldable pub restored_message : ChatBuffer → Message → Option (List ℕ) → Option ChatBuffer
  restored_message cb m none = some cb
  restored_message cb m (some t) =
      chat_add_r cb t m.is_user (if m.is_user then none else m.reasoning)

  restore_fields :
      (cb : ChatBuffer) (b : Bool) (t r : Option (List ℕ)) (tc : List ToolCall)
      (id : Option (List ℕ))
      → let m : Message = record {
        text = t;
        is_user = b;
        reasoning = r;
        tool_calls = tc;
        tool_call_id = id;
      } in
        restore_message json cb (message_json json m) ≡ restored_message cb m t
  unfolding bytes str_eq message_json add_text restore_message restored_message
  restore_fields cb true none r tc id =
      simp (restore_message, item-add_string, item-create_object, string_of-text)
  restore_fields cb true (some t) r tc id =
      simp (restore_message, item-add_string, item-create_object, string_of-text)
  restore_fields cb false none none tc id =
      simp (restore_message, item-add_string, item-create_object, string_of-text)
  restore_fields cb false none (some r) tc id =
      simp (restore_message, item-add_string, item-create_object, string_of-text)
  restore_fields cb false (some t) none tc id =
      simp (restore_message, item-add_string, item-create_object, string_of-text)
  restore_fields cb false (some t) (some r) tc id =
      simp (restore_message, item-add_string, item-create_object, string_of-text)

  pub restore_message-message_json :
      (cb : ChatBuffer) (m : Message)
      → restore_message json cb (message_json json m) ≡ restored_message cb m m.text
  restore_message-message_json cb m =
      restore_fields cb m.is_user m.text m.reasoning m.tool_calls m.tool_call_id

-- ===== src/Persist.antt =====
-- The sessions on disk (src/ui/persist.c, persist.h), off Windows. The file system and cJSON are
-- parameters, an id is an int that is not negative, and malloc succeeds.
pub mod Paths
pub mod Json
pub mod Load
pub mod Saved
pub mod RoundTrip
use free_cli.Base.{
  ℕ, zero, suc, ◌+◌, Bool, true, false, List, [], ◌∷◌, ◌++◌, Option, none, some, if◌then◌else◌,
  take, set, get_elem?, ℤ, pos, negsuc, str_eq, bytes,
}
use mathlib.Core.Option
use free_cli.Chat.{Message, ChatBuffer, chat_add_r}
use free_cli.Session.{Session, SessionManager, in_range, sm_new_session}
use free_cli.Fs.{CJson, bind}
use free_cli.Commands.{decimal}

-- getenv of XDG_DATA_HOME and of HOME, and the pw_dir of getpwuid.
pub record Env : Type 0 where
  pub xdg : Option (List ℕ)
  pub home : Option (List ℕ)
  pub pw_dir : Option (List ℕ)

-- `read` is what fopen and fread give, and `none` where fopen fails; `write`, `remove` and `mkdir`
-- leave the file system as it is where they fail.
pub record Files (F : Type 0) : Type 0 where
  pub read : F → List ℕ → Option (List ℕ)
  pub write : F → List ℕ → List ℕ → F
  pub remove : F → List ℕ → F
  pub mkdir : F → List ℕ → F

-- `s && s[0]`, and else the other.
unfoldable pub or_else : Option (List ℕ) → List ℕ → List ℕ
or_else none d = d
or_else (some []) d = d
or_else (some (c ∷ cs)) d = c ∷ cs

unfoldable pub home_dir : Env → List ℕ
home_dir env = or_else env.home (Option.get_or env.pw_dir (bytes "."))

unfoldable pub data_dir_of : Env → Option (List ℕ) → List ℕ
data_dir_of env none = home_dir env ++ bytes "/.local/share/freecli"
data_dir_of env (some []) = home_dir env ++ bytes "/.local/share/freecli"
data_dir_of env (some (c ∷ cs)) = (c ∷ cs) ++ bytes "/freecli"

-- snprintf into 512 bytes.
unfoldable pub get_data_dir : Env → List ℕ
get_data_dir env = take 511 (data_dir_of env env.xdg)

unfoldable pub index_path : Env → List ℕ
index_path env = take 599 (get_data_dir env ++ bytes "/sessions.json")

unfoldable pub session_path : Env → ℕ → List ℕ
session_path env id =
    take 599 (get_data_dir env ++ (bytes "/sessions/" ++ (decimal id ++ bytes ".json")))

-- A file that is empty reads as NULL.
unfoldable pub contents : Option (List ℕ) → Option (List ℕ)
contents none = none
contents (some []) = none
contents (some (c ∷ cs)) = some (c ∷ cs)

abbrev pub key_next_id : List ℕ
key_next_id = bytes "next_id"

abbrev pub key_sessions : List ℕ
key_sessions = bytes "sessions"

abbrev pub key_id : List ℕ
key_id = bytes "id"

abbrev pub key_name : List ℕ
key_name = bytes "name"

abbrev pub key_messages : List ℕ
key_messages = bytes "messages"

abbrev pub key_role : List ℕ
key_role = bytes "role"

abbrev pub key_content : List ℕ
key_content = bytes "content"

abbrev pub key_reasoning : List ℕ
key_reasoning = bytes "reasoning"

abbrev pub role_of : Bool → List ℕ
role_of is_user = if is_user then bytes "user" else bytes "assistant"

-- What one turn of the loop of persist_load does: `continue`, `break`, a session more, or a write
-- behind an array.
pub data LoadStep : Type 0 where
  skipped : LoadStep
  stopped : LoadStep
  restored : SessionManager → LoadStep
  overrun : LoadStep

module _ {V : Type 0} (json : CJson V) where
  unfoldable pub add_sessions : V → List Session → V
  add_sessions arr [] = arr
  add_sessions arr (s ∷ ss) =
      add_sessions
        (json.add_element arr
          (json.add_string (json.add_number json.create_object key_id s.id) key_name s.name))
        ss

  unfoldable pub index_json : SessionManager → V
  index_json sm =
      json.add_item (json.add_number json.create_object key_next_id sm.next_id) key_sessions
        (add_sessions json.create_array (take sm.count sm.sessions))

  -- cJSON_AddStringToObject; a NULL string adds nothing.
  unfoldable pub add_text : V → List ℕ → Option (List ℕ) → V
  add_text obj key none = obj
  add_text obj key (some s) = json.add_string obj key s

  unfoldable pub message_json : Message → V
  message_json m =
      let obj =
        add_text (json.add_string json.create_object key_role (role_of m.is_user)) key_content
          m.text in
      if m.is_user then obj else add_text obj key_reasoning m.reasoning

  unfoldable pub add_messages : V → List Message → V
  add_messages msgs [] = msgs
  add_messages msgs (m ∷ ms) = add_messages (json.add_element msgs (message_json m)) ms

  unfoldable pub session_json : Session → V
  session_json s =
      json.add_item
        (json.add_string (json.add_number json.create_object key_id s.id) key_name s.name)
        key_messages (add_messages json.create_array s.chat.msgs)

  -- The item's children, and none where the item is missing.
  unfoldable pub elements : Option V → List V
  elements none = []
  elements (some arr) = json.children arr

  abbrev pub string_item : V → List ℕ → Option (List ℕ)
  string_item obj key = bind (json.item obj key) json.string_of

  -- `(int)valuedouble` of a number from 0 on; a negative one is not modelled.
  abbrev pub number_item : V → List ℕ → Option ℕ
  number_item obj key = bind (json.item obj key) json.number_of

  unfoldable pub restore_message : ChatBuffer → V → Option ChatBuffer
  restore_message cb msg = elim (string_item msg key_role) [
    | none ↦ some cb
    | some role ↦ (elim (string_item msg key_content) [
      | none ↦ some cb
      | some content ↦
          chat_add_r cb content (str_eq role (bytes "user")) (string_item msg key_reasoning)
    ])
  ]

  unfoldable pub restore_messages : ChatBuffer → List V → Option ChatBuffer
  restore_messages cb [] = some cb
  restore_messages cb (m ∷ ms) = bind (restore_message cb m) (λ cb'. restore_messages cb' ms)

module _ {F V : Type 0} (os : Files F) (json : CJson V) (env : Env) where
  unfoldable pub ensure_dirs : F → F
  ensure_dirs fs =
      os.mkdir (os.mkdir fs (get_data_dir env)) (take 599 (get_data_dir env ++ bytes "/sessions"))

  unfoldable pub read_file : F → List ℕ → Option (List ℕ)
  read_file fs path = contents (os.read fs path)

  unfoldable pub save_index : F → SessionManager → F
  save_index fs sm = os.write fs (index_path env) (json.print (index_json json sm))

  unfoldable pub save_one : F → Option Session → F
  save_one fs none = fs
  save_one fs (some s) =
      os.write (ensure_dirs fs) (session_path env s.id) (json.print (session_json json s))

  unfoldable pub persist_save_session : F → SessionManager → ℤ → F
  persist_save_session fs sm idx = elim (in_range idx sm.count) [
    | none ↦ fs
    | some i ↦ save_one fs (get_elem? sm.sessions i)
  ]

  -- The loop of persist_save_all over the indices below n.
  unfoldable pub save_sessions : F → SessionManager → ℕ → F
  save_sessions fs sm zero = fs
  save_sessions fs sm (suc n) = persist_save_session (save_sessions fs sm n) sm (pos n)

  unfoldable pub persist_save_all : F → SessionManager → F
  persist_save_all fs sm = save_sessions (save_index (ensure_dirs fs) sm) sm sm.count

  unfoldable pub persist_delete_session : F → ℕ → F
  persist_delete_session fs session_id = os.remove fs (session_path env session_id)

  unfoldable pub read_json : F → List ℕ → Option V
  read_json fs path = bind (read_file fs path) json.parse

  unfoldable pub saved_messages : F → ℕ → List V
  saved_messages fs id =
      elements json
        (bind (read_json fs (session_path env id)) (λ root. json.item root key_messages))

  unfoldable pub filled : SessionManager → ℕ → Session → Option ChatBuffer → LoadStep
  filled sm idx s none = overrun
  filled sm idx s (some chat) =
      restored (record sm { sessions = set sm.sessions idx (record s { chat = chat }) })

  -- The session at `idx` with the stored id and its messages.
  unfoldable pub fill : F → SessionManager → ℕ → ℕ → Option Session → LoadStep
  fill fs sm idx id none = overrun
  fill fs sm idx id (some s) =
      filled sm idx (record s { id = id }) (restore_messages json s.chat (saved_messages fs id))

  unfoldable pub placed : F → ℕ → SessionManager × ℤ → LoadStep
  placed fs id (sm, negsuc n) = stopped
  placed fs id (sm, pos idx) = fill fs sm idx id (get_elem? sm.sessions idx)

  unfoldable pub load_entry : F → SessionManager → V → LoadStep
  load_entry fs sm entry = elim (number_item json entry key_id) [
    | none ↦ skipped
    | some id ↦ (elim (string_item json entry key_name) [
      | none ↦ skipped
      | some name ↦ placed fs id (sm_new_session sm name)
    ])
  ]

  unfoldable pub load_entries : F → SessionManager → ℕ → List V → Option (SessionManager × ℕ)
  load_entries fs sm loaded [] = some (sm, loaded)
  load_entries fs sm loaded (e ∷ es) = elim (load_entry fs sm e) [
    | skipped ↦ load_entries fs sm loaded es
    | stopped ↦ some (sm, loaded)
    | restored sm' ↦ load_entries fs sm' (loaded + 1) es
    | overrun ↦ none
  ]

  unfoldable pub load_index : F → SessionManager → V → Option (SessionManager × ℕ)
  load_index fs sm root =
      Option.map
        (λ (r : SessionManager × ℕ).
          (record r.0 { next_id = Option.get_or (number_item json root key_next_id) 1 }, r.1))
        (load_entries fs sm 0 (elements json (json.item root key_sessions)))

  -- The manager and the number of sessions that were loaded; `none` is a write behind an array.
  unfoldable pub persist_load : F → SessionManager → Option (SessionManager × ℕ)
  persist_load fs sm = elim (read_json fs (index_path env)) [
    | none ↦ some (sm, 0)
    | some root ↦ load_index fs sm root
  ]

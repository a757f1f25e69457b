-- ===== src/Commands.antt =====
-- The slash commands of the terminal UI (src/ui/commands.c, commands.h). The callbacks that the
-- context holds are effects, in the order of their calls; cJSON is a parameter, and `picked` is what
-- overlay_pick returns.
pub mod Request
pub mod Chats
pub mod Total
use free_cli.Base.{
  ℕ, zero, suc, ◌+◌, ◌-◌, ◌/◌, ◌%◌, Bool, true, false, not, ◌&&◌, ◌||◌, List, [], ◌∷◌, ◌++◌, Option,
  none, some, ltb, leb, ◌==◌, if◌then◌else◌, length, take, drop, set, get_elem?, ℤ, pos, negsuc,
  str_eq, bytes,
}
use mathlib.Core.Option
use free_cli.Chat.{ChatBuffer, chat_init, chat_add}
use free_cli.Session.{
  Session, SessionManager, in_range, sm_active_session, sm_new_session, sm_select, copy_name,
}
use free_cli.Providers.{ProviderInfo, xai, providers, provider_registry_find}
use free_cli.Fs.{CJson, after_prefix}

pub data Effect : Type 0 where
  draw : Effect
  save_session : ℤ → Effect
  delete_session : ℤ → Effect
  set_provider : List ℕ → Effect
  set_model : List ℕ → Effect
  send_worker_req : ℕ → List ℕ → List ℕ → Effect

-- The context; a Boolean says that a callback is set, and `reply` is what send_worker_req returns.
pub record CmdCtx : Type 0 where
  pub sessions : SessionManager
  pub sidebar_sel : ℤ
  pub focus : ℕ
  pub current_model : Option (List ℕ)
  pub current_provider : Option (List ℕ)
  pub has_delete : Bool
  pub has_set_model : Bool
  pub has_set_provider : Bool
  pub has_worker_req : Bool
  pub reply : ℕ

-- A return of 0, or of 1 with the context and the callbacks; `overrun` is a write behind an array.
pub data Handled : Type 0 where
  not_command : Handled
  handled : CmdCtx → List Effect → Handled
  overrun : Handled

-- The active session, changed.
unfoldable pub update_active : SessionManager → (Session → Session) → SessionManager
update_active sm f = elim (in_range sm.active sm.count) [
  | none ↦ sm
  | some i ↦ (elim (get_elem? sm.sessions i) [
    | none ↦ sm
    | some s ↦ record sm { sessions = set sm.sessions i (f s) }
  ])
]

unfoldable pub add_to_active : SessionManager → Option Session → List ℕ → Option SessionManager
add_to_active sm none text = some sm
add_to_active sm (some s) text =
    Option.map (λ chat. update_active sm (λ s. record s { chat = chat }))
      (chat_add s.chat text false)

unfoldable pub system_msg : SessionManager → List ℕ → Option SessionManager
system_msg sm text = add_to_active sm (sm_active_session sm) text

unfoldable pub said : CmdCtx → List Effect → Option SessionManager → Handled
said ctx effects none = overrun
said ctx effects (some sm) = handled (record ctx { sessions = sm }) effects

-- system_msg, and then what the command calls.
abbrev pub say : CmdCtx → List ℕ → List Effect → Handled
say ctx text effects = said ctx effects (system_msg ctx.sessions text)

-- The word and the end of the input or a space: `strncmp(input, word, n) == 0 && (input[n] ...)`.
unfoldable pub ends_word : Option (List ℕ) → Bool
ends_word none = false
ends_word (some []) = true
ends_word (some (c ∷ cs)) = c == b' '

abbrev help_text : List ℕ
help_text =
    bytes "Available commands:\n"
    ++ bytes "  /new [name]      create a new chat session\n"
    ++ bytes "  /delete          delete the current session\n"
    ++ bytes "  /clear           clear current session messages\n"
    ++ bytes "  /rename <name>   rename current session\n"
    ++ bytes "  /provider        choose AI provider\n"
    ++ bytes "  /model           choose model for current provider\n"
    ++ bytes "  /fs list [path]           list sandbox directory\n"
    ++ bytes "  /fs read <path>           read a file from the sandbox\n"
    ++ bytes "  /fs delete <path>         delete a file (requires approval)\n"
    ++ bytes "  /fs create <path> [text]  create a file (requires approval)\n"
    ++ bytes "  /fs write <path> [text]   overwrite a file (requires approval)\n"
    ++ bytes "  /help            show this help"

-- What stands behind a word and a space, if that is anything.
unfoldable pub argument : Option (List ℕ) → Option (List ℕ)
argument none = none
argument (some []) = none
argument (some (c ∷ [])) = none
argument (some (c ∷ d ∷ ds)) = if c == b' ' then some (d ∷ ds) else none

unfoldable pub skip_spaces : List ℕ → List ℕ
skip_spaces [] = []
skip_spaces (c ∷ cs) = let rest = skip_spaces cs in if c == b' ' then rest else c ∷ cs

-- The bytes before the first space, and those from it on.
unfoldable pub split_word : List ℕ → List ℕ × List ℕ
split_word [] = ([], [])
split_word (c ∷ cs) = let r = split_word cs in if c == b' ' then ([], c ∷ cs) else (c ∷ r.0, r.1)

unfoldable pub digits : ℕ → ℕ → List ℕ
digits zero n = []
digits (suc fuel) n =
    let front = digits fuel (n / 10) in
    if ltb n 10 then (48 + n) ∷ [] else front ++ (48 + n % 10) ∷ []

-- "%d"
abbrev pub decimal : ℕ → List ℕ
decimal n = digits (suc n) n

unfoldable pub backend_op : List ℕ → Option (List ℕ)
backend_op op_name =
    if str_eq op_name (bytes "list")
    then some (bytes "list_dir")
    else if str_eq op_name (bytes "read")
    then some (bytes "read_file")
    else if str_eq op_name (bytes "delete")
    then some (bytes "delete_file")
    else if str_eq op_name (bytes "create")
    then some (bytes "create_file")
    else if str_eq op_name (bytes "write")
    then some (bytes "modify_file")
    else none

abbrev pub backend_type_filesystem : ℕ
backend_type_filesystem = 4

unfoldable pub cmd_clear : CmdCtx → Option Session → Handled
cmd_clear ctx none = handled ctx []
cmd_clear ctx (some s) =
    handled
      (record ctx { sessions = update_active ctx.sessions (λ s. record s { chat = chat_init }) })
      (save_session ctx.sessions.active ∷ draw ∷ [])

unfoldable pub new_selected : CmdCtx → SessionManager × ℤ → Handled
new_selected ctx (sm, negsuc n) = handled (record ctx { sessions = sm }) (draw ∷ [])
new_selected ctx (sm, pos idx) =
    handled (record ctx { sessions = sm_select sm (pos idx); sidebar_sel = pos idx; focus = 2 })
      (save_session (negsuc 0) ∷ draw ∷ [])

unfoldable pub cmd_new : CmdCtx → Option (List ℕ) → Handled
cmd_new ctx (some name) = new_selected ctx (sm_new_session ctx.sessions name)
cmd_new ctx none =
    new_selected ctx
      (sm_new_session ctx.sessions (bytes "Chat " ++ decimal (ctx.sessions.count + 1)))

unfoldable pub cmd_rename : CmdCtx → List ℕ → Option Session → Handled
cmd_rename ctx name none = handled ctx []
cmd_rename ctx name (some s) =
    handled
      (record ctx {
        sessions = update_active ctx.sessions (λ s. record s { name = copy_name name });
      })
      (save_session (negsuc 0) ∷ draw ∷ [])

-- The element that overlay_pick chose, if it chose one.
unfoldable pub chosen {ℓ} : {A : Type ℓ} → ℤ → List A → Option A
chosen (negsuc n) xs = none
chosen (pos i) xs = get_elem? xs i

unfoldable pub provider_chosen : CmdCtx → Option ProviderInfo → Handled
provider_chosen ctx none = handled ctx (draw ∷ [])
provider_chosen ctx (some p) =
    let default = Option.get_or (get_elem? p.models 0) (bytes "?") in
    said ctx
      (draw ∷ (if ctx.has_set_provider then set_provider p.id ∷ [] else [])
        ++ (if ctx.has_set_model then set_model default ∷ [] else [])
        ++ draw ∷ [])
      (system_msg ctx.sessions
        (take 127 (bytes "Provider: " ++ p.display_name ++ bytes "  Model: " ++ default)))

unfoldable pub model_chosen : CmdCtx → Option (List ℕ) → Handled
model_chosen ctx none = handled ctx (draw ∷ [])
model_chosen ctx (some m) =
    if ctx.has_set_model
    then said ctx (draw ∷ set_model m ∷ draw ∷ [])
        (system_msg ctx.sessions (take 127 (bytes "Model set to: " ++ m)))
    else handled ctx (draw ∷ [])

-- The operation, the path and the rest of a line behind "/fs", in buffers of 32 and 1024 bytes.
pub record FsLine : Type 0 where
  pub op_name : List ℕ
  pub path : List ℕ
  pub content : List ℕ

unfoldable pub fs_line : List ℕ → FsLine
fs_line rest =
    let op = split_word rest in
    let after_op = skip_spaces op.1 in
    let path = take 1023 (split_word after_op).0 in
    record {
      op_name = take 31 op.0;
      path = path;
      content = skip_spaces (drop (length path) after_op);
    }

module _ {V : Type 0} (json : CJson V) where
  unfoldable pub fs_args : List ℕ → FsLine → List ℕ
  fs_args op l =
      let args = json.add_string json.create_object (bytes "path") l.path in
      json.print (
        if str_eq op (bytes "create_file") || str_eq op (bytes "modify_file")
        then json.add_string args (bytes "content") l.content
        else args)

  unfoldable pub cmd_fs_op : CmdCtx → FsLine → Option (List ℕ) → Handled
  cmd_fs_op ctx l none =
      say ctx
        (take 95
          (bytes "/fs: unknown op '" ++ l.op_name ++ bytes "'  (list|read|delete|create|write)"))
        (draw ∷ [])
  cmd_fs_op ctx l (some op) =
      say ctx
        (if ctx.reply == 0
          then bytes "[fs] failed to send request to backend"
          else take 127 (bytes "[fs] " ++ l.op_name ++ b' ' ∷ l.path ++ bytes " — waiting…"))
        (send_worker_req backend_type_filesystem op (fs_args op l) ∷ draw ∷ [])

  unfoldable pub cmd_fs_line : CmdCtx → List ℕ → Handled
  cmd_fs_line ctx [] =
      say ctx (bytes "/fs: missing operation  (list|read|delete|create|write)") (draw ∷ [])
  cmd_fs_line ctx (c ∷ cs) = let l = fs_line (c ∷ cs) in cmd_fs_op ctx l (backend_op l.op_name)

  unfoldable pub cmd_fs : CmdCtx → Option (List ℕ) → Handled
  cmd_fs ctx rest =
      if ctx.has_worker_req
      then cmd_fs_line ctx (skip_spaces (Option.get_or rest []))
      else say ctx (bytes "[fs] worker not available") (draw ∷ [])

  unfoldable pub cmd_word : CmdCtx → List ℕ → ℤ → Handled
  cmd_word ctx input picked =
      if ends_word (after_prefix (bytes "/help") input)
      then say ctx help_text (draw ∷ [])
      else if ends_word (after_prefix (bytes "/delete") input)
      then handled ctx
          ((if ctx.has_delete then delete_session ctx.sessions.active ∷ [] else []) ++ draw ∷ [])
      else if ends_word (after_prefix (bytes "/clear") input)
      then cmd_clear ctx (sm_active_session ctx.sessions)
      else if ends_word (after_prefix (bytes "/new") input)
      then cmd_new ctx (argument (after_prefix (bytes "/new") input))
      else elim (argument (after_prefix (bytes "/rename") input)) [
        | some name ↦ cmd_rename ctx name (sm_active_session ctx.sessions)
        | none ↦
            (if ends_word (after_prefix (bytes "/provider") input)
              then provider_chosen ctx (chosen picked providers)
              else if ends_word (after_prefix (bytes "/model") input)
              then model_chosen ctx (
                  chosen picked
                    (Option.get_or (provider_registry_find ctx.current_provider) xai).models)
              else if ends_word (after_prefix (bytes "/fs") input)
              then cmd_fs ctx (after_prefix (bytes "/fs") input)
              else say ctx (take 127 (bytes "Unknown command: " ++ input ++ bytes "  (try /help)"))
                  (draw ∷ []))
      ]

  unfoldable pub cmd_dispatch : CmdCtx → Option (List ℕ) → ℤ → Handled
  cmd_dispatch ctx none picked = not_command
  cmd_dispatch ctx (some []) picked = not_command
  cmd_dispatch ctx (some (c ∷ cs)) picked =
      if c == b'/' then cmd_word ctx (c ∷ cs) picked else not_command

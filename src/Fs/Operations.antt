-- ===== src/Fs/Operations.antt =====
-- The operations and the dispatcher of src/workers/fs_worker.c. An operation takes the state of the
-- file system and gives the one it leaves, with what it sends, in that order. What the user decides
-- and the file system that the worker finds after it has waited for that are given by `ask`.
pub mod Confined
use free_cli.Base.{
  ℕ, ◌+◌, ◌-◌, Bool, true, false, not, ◌&&◌, ◌||◌, List, [], ◌∷◌, ◌++◌, Option, none, some, ltb,
  leb, ◌==◌, if◌then◌else◌, length, take, str_eq, bytes,
}
use free_cli.Ipc.Wire.{Outcome}
use free_cli.Ipc.Frame.{IpcMsg}
use free_cli.Worker.{BusMsg, or_else, bw_send_progress, bw_send_result, approval_message}
use free_cli.Fs.{
  FileOs, CJson, fs_path_max, fs_max_read, slash, dot, dot_dot, bind, fs_resolve, fs_rel,
}

-- What an operation sends to the TUI, each by a helper of the worker bus.
pub data Sent : Type 0 where
  progress : List ℕ → Sent
  asked : List ℕ → Sent
  result : Bool → List ℕ → Sent

unfoldable pub messages : ℕ → Sent → Outcome (List IpcMsg)
messages corr (progress text) = bw_send_progress corr 0 (some (bytes "filesystem")) (some text)
messages corr (asked text) = approval_message corr (some text)
messages corr (result success text) = bw_send_result corr success (some text)

-- bw_send_error
abbrev pub failure : List ℕ → Sent
failure text = result false text

-- What the rest of the program and the memory decide: whether bw_request_approval finds a free slot
-- in its table, what the user answers where it does, the file system when it returns, and the text
-- that is read where the arguments were, which are freed before their content is written.
pub record Answer (F : Type 0) : Type 0 where
  pub claimed : Bool
  pub granted : Bool
  pub after : F
  pub freed : List ℕ

-- The bytes before the first NUL.
unfoldable pub c_string : List ℕ → List ℕ
c_string [] = []
c_string (c ∷ cs) = let rest = c_string cs in if c == 0 then [] else c ∷ rest

module _ {F V : Type 0} (os : FileOs F) (json : CJson V) (root : List ℕ) where
  unfoldable pub string_arg : BusMsg → List ℕ → Option (List ℕ)
  string_arg msg key =
      bind msg.args_json
        (λ text. bind (json.parse text) (λ args. bind (json.item args key) json.string_of))

  unfoldable pub read_file_contents : F → List ℕ → Option (List ℕ)
  read_file_contents fs path =
      bind (os.read fs path)
        (λ content. if ltb fs_max_read (length content) then none else some content)

  -- `flen` is what the variable holds when read_file_contents has not set it.
  unfoldable pub read_reply : ℕ → Option (List ℕ) → Sent
  read_reply flen none = failure (
      if flen == 0
      then bytes "read_file: file too large (> 512 KB)"
      else bytes "read_file: could not read file")
  read_reply flen (some content) =
      result true
        (json.print (json.add_string json.create_object (bytes "content") (c_string content)))

  unfoldable pub read_resolved : ℕ → F → Option (List ℕ) → F × List Sent
  read_resolved flen fs none =
      (fs, failure (bytes "read_file: path outside sandbox or not found") ∷ [])
  read_resolved flen fs (some path) =
      (fs, progress (bytes "reading file…") ∷ read_reply flen (read_file_contents fs path) ∷ [])

  unfoldable pub op_read_file : ℕ → F → BusMsg → F × List Sent
  op_read_file flen fs msg = elim (string_arg msg (bytes "path")) [
    | none ↦ (fs, failure (bytes "read_file: missing 'path' argument") ∷ [])
    | some req_path ↦ read_resolved flen fs (fs_resolve os fs root req_path false)
  ]

  unfoldable pub list_entry : List ℕ → Bool × ℕ → V
  list_entry name st =
      let named = json.add_string json.create_object (bytes "name") name in
      if st.0
      then json.add_string named (bytes "type") (bytes "dir")
      else json.add_number (json.add_string named (bytes "type") (bytes "file")) (bytes "size") st.1

  -- A turn of the loop on readdir: the entries `.` and `..`, and those without a stat, are left out.
  unfoldable pub add_entry : F → List ℕ → V → List ℕ → V
  add_entry fs dir entries name =
      if str_eq name dot || str_eq name dot_dot
      then entries
      else elim (os.stat fs (take (fs_path_max - 1) (dir ++ slash ∷ name))) [
        | none ↦ entries
        | some st ↦ json.add_element entries (list_entry name st)
      ]

  unfoldable pub add_entries : F → List ℕ → V → List (List ℕ) → V
  add_entries fs dir entries [] = entries
  add_entries fs dir entries (name ∷ names) =
      add_entries fs dir (add_entry fs dir entries name) names

  unfoldable pub list_reply : F → List ℕ → Option (List (List ℕ)) → Sent
  list_reply fs dir none = failure (bytes "list_dir: cannot open directory")
  list_reply fs dir (some names) = result true (
      json.print (
        json.add_item json.create_object (bytes "entries")
          (add_entries fs dir json.create_array names)))

  unfoldable pub list_resolved : F → Option (List ℕ) → F × List Sent
  list_resolved fs none = (fs, failure (bytes "list_dir: path outside sandbox or not found") ∷ [])
  list_resolved fs (some path) =
      (fs, progress (bytes "listing directory…") ∷ list_reply fs path (os.opendir fs path) ∷ [])

  unfoldable pub op_list_dir : F → BusMsg → F × List Sent
  op_list_dir fs msg =
      list_resolved fs (fs_resolve os fs root (or_else (string_arg msg (bytes "path")) []) false)

  unfoldable pub ok_text : List ℕ → List ℕ
  ok_text path = json.print (
      json.add_string (json.add_string json.create_object (bytes "status") (bytes "ok"))
        (bytes "path") (fs_rel root path))

  -- snprintf into a buffer of FS_PATH_MAX + 64 bytes.
  unfoldable pub describe : List ℕ → List ℕ → List ℕ
  describe verb path = take (fs_path_max + 64 - 1) (verb ++ fs_rel root path)

  -- The last steps of an operation that changes the file system: what is asked, if a slot is free,
  -- and, where it is granted, the change and its result.
  unfoldable pub with_approval :
      List ℕ → Answer F → (F → F × Bool) → List ℕ → List ℕ → List ℕ → F × List Sent
  with_approval description ask change path denied failed =
      let changed = change ask.after in
      if not ask.claimed
      then (ask.after, failure denied ∷ [])
      else if ask.granted
      then (
        changed.0,
        asked description ∷ (if changed.1 then result true (ok_text path) else failure failed) ∷ [],
      )
      else (ask.after, asked description ∷ failure denied ∷ [])

  -- `content` where it is written: the literal "", or a pointer into `args`, after cJSON_Delete(args).
  unfoldable pub content_read : Answer F → Option (List ℕ) → List ℕ
  content_read ask none = []
  content_read ask (some content) = ask.freed

  unfoldable pub create_resolved : F → Answer F → List ℕ → Option (List ℕ) → F × List Sent
  create_resolved fs ask content none =
      (fs, failure (bytes "create_file: invalid or unsafe path") ∷ [])
  create_resolved fs ask content (some path) = elim (os.stat fs path) [
    | some st ↦ (fs, failure (bytes "create_file: file already exists — use modify_file") ∷ [])
    | none ↦
        with_approval (describe (bytes "Create file: ") path) ask (λ f. os.write f path content)
          path (bytes "create_file: denied by user") (bytes "create_file: write failed")
  ]

  unfoldable pub op_create_file : F → Answer F → BusMsg → F × List Sent
  op_create_file fs ask msg = elim (string_arg msg (bytes "path")) [
    | none ↦ (fs, failure (bytes "create_file: missing 'path' argument") ∷ [])
    | some req_path ↦
        create_resolved fs ask (content_read ask (string_arg msg (bytes "content")))
          (fs_resolve os fs root req_path true)
  ]

  unfoldable pub modify_resolved : F → Answer F → List ℕ → Option (List ℕ) → F × List Sent
  modify_resolved fs ask content none =
      (fs, failure (bytes "modify_file: path outside sandbox or file not found") ∷ [])
  modify_resolved fs ask content (some path) =
      with_approval (describe (bytes "Modify file: ") path) ask (λ f. os.write f path content) path
        (bytes "modify_file: denied by user") (bytes "modify_file: write failed")

  unfoldable pub op_modify_file : F → Answer F → BusMsg → F × List Sent
  op_modify_file fs ask msg = elim (string_arg msg (bytes "path")) [
    | none ↦ (fs, failure (bytes "modify_file: missing 'path' argument") ∷ [])
    | some req_path ↦
        modify_resolved fs ask (content_read ask (string_arg msg (bytes "content")))
          (fs_resolve os fs root req_path false)
  ]

  unfoldable pub delete_resolved : F → Answer F → Option (List ℕ) → F × List Sent
  delete_resolved fs ask none =
      (fs, failure (bytes "delete_file: path outside sandbox or file not found") ∷ [])
  delete_resolved fs ask (some path) =
      with_approval (describe (bytes "Delete file: ") path) ask (λ f. os.remove f path) path
        (bytes "delete_file: denied by user") (bytes "delete_file: remove failed")

  unfoldable pub op_delete_file : F → Answer F → BusMsg → F × List Sent
  op_delete_file fs ask msg = elim (string_arg msg (bytes "path")) [
    | none ↦ (fs, failure (bytes "delete_file: missing 'path' argument") ∷ [])
    | some req_path ↦ delete_resolved fs ask (fs_resolve os fs root req_path false)
  ]

  unfoldable pub fs_dispatch : ℕ → F → Answer F → BusMsg → F × List Sent
  fs_dispatch flen fs ask msg =
      if str_eq msg.op (bytes "read_file")
      then op_read_file flen fs msg
      else if str_eq msg.op (bytes "list_dir")
      then op_list_dir fs msg
      else if str_eq msg.op (bytes "create_file")
      then op_create_file fs ask msg
      else if str_eq msg.op (bytes "modify_file")
      then op_modify_file fs ask msg
      else if str_eq msg.op (bytes "delete_file")
      then op_delete_file fs ask msg
      else (
        fs,
        failure (take 127 (bytes "fs_worker: unknown operation '" ++ msg.op ++ 39 ∷ [])) ∷ [],
      )

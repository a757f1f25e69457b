-- ===== src/Persist/RoundTrip.antt =====
-- What persist_load of src/ui/persist.c gives back of the sessions that persist_save_all wrote.
use free_cli.Base.{
  ℕ, ◌+◌, ◌≤◌, ◌<◌, ◌≡◌, ◌≢◌, refl, ap, sym, ◌∙◌, List, [], ◌∷◌, ◌++◌, append_assoc, append-nil,
  Option, none, some, arith, if◌then◌else◌, length, length-take, All,
}
use mathlib.Core.List.{map, map-append}
use free_cli.Chat.{Message, ChatBuffer, chat_init, nonempty}
use free_cli.Chat.Buffer as Buffer
use free_cli.Chat.Buffer.{chat_init-IsValid, chat_add-Appends}
use free_cli.Session.{Session, SessionManager, max_sessions, copy_name, sm_init}
use free_cli.Session.Invariant.{IsValid, view, view-new}
use free_cli.Commands.Chats.{sm_init-ChatsValid}
use free_cli.Fs.{CJson, bind}
use free_cli.Persist.{
  Files, Env, index_path, session_path, index_json, session_json, message_json, restore_messages,
  saved_messages, read_json, read_file, contents, elements, load_entry, load_entries, load_index,
  persist_load, persist_save_all, key_messages, restored,
}
use free_cli.Persist.Json.{
  CJsonLaws, restored_message, entry_json, entry_id, entry_name, index_next_id, index_entries,
  session_messages, restore_message-message_json,
}
use free_cli.Persist.Load.{Fits, grown, grown-Fits, placed-grown, counted}
use free_cli.Persist.Saved.{FilesLaws, index_read, sessions_read}

-- What a file keeps of a message: its text, who wrote it, and an assistant's reasoning.
unfoldable pub stored_message : Message → List ℕ → Message
stored_message m text = record {
  text = some text;
  is_user = m.is_user;
  reasoning = nonempty (if m.is_user then none else m.reasoning);
  tool_calls = [];
  tool_call_id = none;
}

-- A message with no text is not kept.
unfoldable pub keep_message : Message → Option (List ℕ) → List Message → List Message
keep_message m none rest = rest
keep_message m (some text) rest = stored_message m text ∷ rest

unfoldable pub stored_messages : List Message → List Message
stored_messages [] = []
stored_messages (m ∷ ms) = keep_message m m.text (stored_messages ms)

-- What the user sees of a session: its id, its name and its messages.
abbrev pub Outline : Type 0
Outline = ℕ × List ℕ × List Message

abbrev pub outline : Session → Outline
outline s = (s.id, s.name, s.chat.msgs)

-- The outline that the files keep.
abbrev pub stored : Session → Outline
stored s = (s.id, copy_name s.name, stored_messages s.chat.msgs)

contents_nonempty : (s : List ℕ) → s ≢ [] → contents (some s) ≡ some s
unfolding contents
contents_nonempty [] n = absurd (n refl)
contents_nonempty (c ∷ cs) n = refl

-- The buffer of stored messages behind those that are there.
Refilled : {V : Type 0} → CJson V → ChatBuffer → List Message → Type 0
Refilled json cb ms =
    (cb' : ChatBuffer) × (restore_messages json cb (map (message_json json) ms) ≡ some cb')
    × (cb'.msgs ≡ cb.msgs ++ stored_messages ms)
    × Buffer.IsValid cb'

module _ {F V : Type 0} (os : Files F) (json : CJson V) (laws : CJsonLaws json) (env : Env)
    (fs : F) where
  refill_one :
      (cb : ChatBuffer) (m : Message) (o : Option (List ℕ))
      → Buffer.IsValid cb
      → (cb' : ChatBuffer) × (restored_message json laws cb m o ≡ some cb')
        × ((rest : List Message) → cb'.msgs ++ rest ≡ cb.msgs ++ keep_message m o rest)
        × Buffer.IsValid cb'
  unfolding restored_message keep_message stored_message
  refill_one cb m none v = (cb, refl, λ rest. refl, v)
  refill_one cb m (some t) v =
      let (cb', stores, seen, _, valid) =
        (chat_add-Appends cb v).1 t m.is_user (if m.is_user then none else m.reasoning) in
      (cb', stores, λ rest. rw seen (append_assoc cb.msgs (stored_message m t ∷ []) rest), valid)

  refill : (ms : List Message) (cb : ChatBuffer) → Buffer.IsValid cb → Refilled json cb ms
  unfolding Refilled restore_messages stored_messages
  refill [] cb v = (cb, refl, sym (append-nil cb.msgs), v)
  refill (m ∷ ms) cb v =
      let (cb', one, grows, valid) = refill_one cb m m.text v in
      let (last, r, seen, ends) = refill ms cb' valid in
      (
        last,
        ap
              (λ (o : Option ChatBuffer).
                bind o (λ c. restore_messages json c (map (message_json json) ms)))
              (restore_message-message_json json laws cb m ∙ one)
            ∙ r,
        seen ∙ grows (stored_messages ms),
        ends,
      )

  HasFile : Session → Type 0
  HasFile s = os.read fs (session_path env s.id) ≡ some (json.print (session_json json s))

  print-ne-empty : (v : V) → json.print v ≢ []
  print-ne-empty v e = cc (laws.parse-print v, laws.parse_empty, ap json.parse e)

  read_parsed :
      (path : List ℕ) (v : V)
      → os.read fs path ≡ some (json.print v)
      → read_json os json env fs path ≡ some v
  unfolding read_json read_file
  read_parsed path v e =
      ap (λ (o : Option (List ℕ)). bind o json.parse)
        (ap contents e ∙ contents_nonempty (json.print v) (print-ne-empty v))
      ∙ laws.parse-print v

  read_messages :
      (s : Session)
      → HasFile s
      → saved_messages os json env fs s.id ≡ map (message_json json) s.chat.msgs
  unfolding HasFile saved_messages
  read_messages s h =
      ap (λ (o : Option V). elements json (bind o (λ root. json.item root key_messages)))
        (read_parsed (session_path env s.id) (session_json json s) h)
      ∙ session_messages json laws s

  -- A session that has its file is loaded from its entry.
  load_entry-stored :
      (sm : SessionManager) (s : Session)
      → Fits sm
      → sm.count < max_sessions
      → HasFile s
      → (sm' : SessionManager) × (load_entry os json env fs sm (entry_json json laws s)
          ≡ restored sm')
        × (map outline (view sm') ≡ map outline (view sm) ++ stored s ∷ [])
        × (sm'.count ≡ sm.count + 1)
        × Fits sm'
  unfolding load_entry Refilled chat_init
  load_entry-stored sm s v h file =
      let (chat, e, seen, valid) = refill s.chat.msgs chat_init chat_init-IsValid in
      let all = read_messages s file in
      (
        grown sm s.id s.name chat,
        rw (entry_id json laws s, entry_name json laws s, load_entry)
            (placed-grown os json env fs sm s.id s.name chat v h
              (ap (restore_messages json chat_init) all ∙ e)),
        ap (map outline) (view-new sm _ v.slots h)
            ∙ map-append outline (view sm) _
            ∙ ap (λ (ms : List Message). map outline (view sm) ++ (s.id, copy_name s.name, ms) ∷ [])
                seen,
        refl,
        grown-Fits sm s.id s.name chat v h valid,
      )

  load_entries-stored :
      (ss : List Session) (sm : SessionManager) (n : ℕ)
      → Fits sm
      → sm.count + length ss ≤ max_sessions
      → All HasFile ss
      → (sm' : SessionManager) × (load_entries os json env fs sm n (map (entry_json json laws) ss)
          ≡ some (sm', n + length ss))
        × (map outline (view sm') ≡ map outline (view sm) ++ map stored ss)
        × (sm'.count ≡ sm.count + length ss)
        × Fits sm'
  unfolding load_entries
  load_entries-stored [] sm n v h files =
      (sm, counted sm (omega arith), sym (append-nil (map outline (view sm))), omega arith, v)
  load_entries-stored (s ∷ ss) sm n v h files =
      let (next, e, seen, count, w) = load_entry-stored sm s v (omega arith) files.0 in
      let (last, r, view_last, count_last, ends) =
        load_entries-stored ss next (n + 1) w (omega arith) files.1 in
      (
        last,
        rw (e, load_entries) (r ∙ counted last (omega arith)),
        view_last ∙ rw seen (append_assoc (map outline (view sm)) (stored s ∷ []) (map stored ss)),
        omega arith,
        ends,
      )

sm_init-Fits : Fits sm_init
sm_init-Fits = record {
  slots = sm_init-ChatsValid.sessions_valid.slots;
  within = sm_init-ChatsValid.sessions_valid.within;
  active_fits = sm_init-ChatsValid.sessions_valid.active_fits;
  chats = sm_init-ChatsValid.chats_valid;
  names = sm_init-ChatsValid.names;
}

-- On a disk that takes every write, persist_load into an empty manager gives back the sessions of
-- a valid one that persist_save_all wrote, where its ids fit an int: as many, in their order, with
-- their ids, the first 63 bytes of their names, and their messages as far as a file keeps them;
-- and the next id.
pub persist_load-persist_save_all :
    {F V : Type 0} (os : Files F) (json : CJson V)
    → FilesLaws os
    → CJsonLaws json
    → (env : Env) (fs : F) (sm : SessionManager) → IsValid sm
    → sm.next_id ≤ 2147483648
    → (sm' : SessionManager) × (persist_load os json env
          (persist_save_all os json env fs sm)
          sm_init
        ≡ some (sm', sm.count))
      × (map outline (view sm') ≡ map stored (view sm))
      × (sm'.next_id ≡ sm.next_id)
      × Fits sm'
unfolding persist_load load_index sm_init
persist_load-persist_save_all os json disk laws env fs sm v ids =
    let saved = persist_save_all os json env fs sm in
    let all : 0 + length (view sm) ≡ sm.count =
      omega (arith, length-take sm.count sm.sessions, v.slots, v.within) in
    let (sm', r, seen, count, fits) =
      load_entries-stored os json laws env saved (view sm) sm_init 0 sm_init-Fits
        (omega (arith, v.within)) (unfold HasFile in sessions_read os disk json env sm v ids fs) in
    (
      record sm' { next_id = sm.next_id },
      rw
          (
            read_parsed os json laws env saved (index_path env) (index_json json sm)
                (index_read os disk json env sm v ids fs),
            persist_load,
          )
          (rw (index_next_id json laws sm) (
            rw (index_entries json laws sm)
              (rw r (counted (record sm' { next_id = sm.next_id }) all)))),
      seen,
      refl,
      record {
        slots = fits.slots;
        within = fits.within;
        active_fits = fits.active_fits;
        chats = fits.chats;
        names = fits.names;
      },
    )

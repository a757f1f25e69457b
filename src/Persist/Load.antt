-- ===== src/Persist/Load.antt =====
-- Whatever the files hold, persist_load of src/ui/persist.c leaves sessions that fit their arrays.
use free_cli.Base.{
  length-take-le, ℕ, ◌+◌, ◌≤◌, ◌<◌, ◌≡◌, refl, ap, sym, ◌∙◌, true, false, List, [], ◌∷◌, ◌++◌,
  append_assoc, append-nil, Option, none, some, arith, leb, length, length-set, set, set-set,
  get_elem?-set_self, str_eq, bytes, pos, inl, inr, Bool-cases, Option-cases, All, All-set,
}
use mathlib.Core.Option
use free_cli.Chat.{ChatBuffer, chat_init}
use free_cli.Chat.Buffer as Buffer
use free_cli.Chat.Buffer.{chat_init-IsValid, chat_add-Appends}
use free_cli.Session.{Session, SessionManager, max_sessions, copy_name, if_unset, sm_new_session}
use free_cli.Session.Invariant.{ActiveFits, view, view-new, if_unset-ActiveFits}
use free_cli.Commands.Chats.{NameFits}
use free_cli.Fs.{CJson}
use free_cli.Persist.{
  Files, Env, LoadStep, skipped, stopped, restored, overrun, key_role, key_content, key_reasoning,
  string_item, restore_message, restore_messages, saved_messages, filled, fill, placed, load_entry,
  load_entries, load_index, persist_load, key_id, key_name, number_item, read_json, index_path,
  elements, key_sessions, key_next_id,
}

-- The sessions and their messages fit their arrays, and the active index is one of them.
pub record Fits (sm : SessionManager) : Type 0 where
  pub slots : length sm.sessions ≡ max_sessions
  pub within : sm.count ≤ max_sessions
  pub active_fits : ActiveFits sm.active sm.count
  pub chats : All (λ (s : Session). Buffer.IsValid s.chat) sm.sessions
  pub names : All NameFits sm.sessions

module _ {V : Type 0} (json : CJson V) where
  restore_message-IsValid :
      (cb : ChatBuffer) (m : V)
      → Buffer.IsValid cb
      → (cb' : ChatBuffer) × (restore_message json cb m ≡ some cb') × Buffer.IsValid cb'
  unfolding restore_message
  restore_message-IsValid cb m v = elim (Option-cases (string_item json m key_role)) [
    | inl e ↦ (cb, rw (e, restore_message) refl, v)
    | inr (role, e) ↦ (elim (Option-cases (string_item json m key_content)) [
      | inl f ↦ (cb, rw (e, f, restore_message) refl, v)
      | inr (content, f) ↦
          let (cb', stored, _, _, valid) =
            (chat_add-Appends cb v).1 content (str_eq role (bytes "user"))
              (string_item json m key_reasoning) in
          (cb', rw (e, f, restore_message) stored, valid)
    ])
  ]

  restore_messages-IsValid :
      (cb : ChatBuffer) (ms : List V)
      → Buffer.IsValid cb
      → (cb' : ChatBuffer) × (restore_messages json cb ms ≡ some cb') × Buffer.IsValid cb'
  unfolding restore_messages
  restore_messages-IsValid cb [] v = (cb, refl, v)
  restore_messages-IsValid cb (m ∷ ms) v =
      let (cb', e, w) = restore_message-IsValid cb m v in
      let (last, f, x) = restore_messages-IsValid cb' ms w in (last, rw e f, x)

-- The manager with a session more.
abbrev pub grown : SessionManager → ℕ → List ℕ → ChatBuffer → SessionManager
grown sm id name chat = record {
  sessions = set sm.sessions sm.count (record { id = id; name = copy_name name; chat = chat });
  count = sm.count + 1;
  active = if_unset sm.active sm.count;
  next_id = sm.next_id + 1;
}

pub grown-Fits :
    (sm : SessionManager) (id : ℕ) (name : List ℕ) (chat : ChatBuffer)
    → Fits sm
    → sm.count < max_sessions
    → Buffer.IsValid chat
    → Fits (grown sm id name chat)
grown-Fits sm id name chat v h c = record {
  slots = length-set sm.sessions sm.count _ ∙ v.slots;
  within = omega arith;
  active_fits = if_unset-ActiveFits sm.active sm.count v.active_fits;
  chats = All-set (λ (t : Session). Buffer.IsValid t.chat) sm.sessions sm.count _ v.chats c;
  names = All-set NameFits sm.sessions sm.count _ v.names (length-take-le 63 name);
}

-- One more session, or none, but no array overrun.
data Steps (sm : SessionManager) : LoadStep → Type 0 where
  skips : Steps sm skipped
  stops : Steps sm stopped
  grows :
      {sm' : SessionManager} (s : Session)
      → Fits sm'
      → sm'.count ≡ sm.count + 1
      → view sm' ≡ view sm ++ s ∷ []
      → Steps sm (restored sm')

-- What a load that has counted `loaded` sessions before may give.
abbrev pub Loads : SessionManager → ℕ → Option (SessionManager × ℕ) → Type 0
Loads sm loaded r =
    (sm' : SessionManager) × (ss : List Session) × (r ≡ some (sm', loaded + length ss))
    × (view sm' ≡ view sm ++ ss)
    × (sm'.count ≡ sm.count + length ss)
    × Fits sm'

pub counted :
    (sm : SessionManager) {m n : ℕ}
    → m ≡ n
    → ◌≡◌ {A = Option (SessionManager × ℕ)} (some (sm, m)) (some (sm, n))
counted sm e = ap (λ (k : ℕ). some (sm, k)) e

fresh : SessionManager → List ℕ → Session
fresh sm name = record { id = sm.next_id; name = copy_name name; chat = chat_init }

new-fresh :
    (sm : SessionManager) (name : List ℕ)
    → sm.count < max_sessions
    → sm_new_session sm name ≡ (
      record {
        sessions = set sm.sessions sm.count (fresh sm name);
        count = sm.count + 1;
        active = if_unset sm.active sm.count;
        next_id = sm.next_id + 1;
      },
      pos sm.count,
    )
unfolding sm_new_session fresh
new-fresh sm name h = let free : leb max_sessions sm.count ≡ false = ground arith in rw free refl

module _ {F V : Type 0} (os : Files F) (json : CJson V) (env : Env) (fs : F) where
  pub placed-grown :
      (sm : SessionManager) (id : ℕ) (name : List ℕ) (chat : ChatBuffer)
      → Fits sm
      → sm.count < max_sessions
      → restore_messages json chat_init (saved_messages os json env fs id) ≡ some chat
      → placed os json env fs id (sm_new_session sm name) ≡ restored (grown sm id name chat)
  unfolding placed fill filled fresh
  placed-grown sm id name chat v h e =
      ap (placed os json env fs id) (new-fresh sm name h)
      ∙ (rw (get_elem?-set_self sm.sessions sm.count (fresh sm name) (omega (arith, v.slots)), fill)
          (rw e (
            ap (λ (t : List Session). restored (record (grown sm id name chat) { sessions = t }))
              (set-set sm.sessions sm.count _ _))))

  placed-full :
      (sm : SessionManager) (id : ℕ) (name : List ℕ)
      → max_sessions ≤ sm.count
      → placed os json env fs id (sm_new_session sm name) ≡ stopped
  unfolding placed sm_new_session
  placed-full sm id name h =
      let full : leb max_sessions sm.count ≡ true = ground arith in rw (full, placed) refl

  placed-Steps :
      (sm : SessionManager) (id : ℕ) (name : List ℕ)
      → Fits sm
      → Steps sm (placed os json env fs id (sm_new_session sm name))
  placed-Steps sm id name v = elim (Bool-cases (leb max_sessions sm.count)) [
    | inl full ↦ rw (placed-full sm id name (ground arith)) stops
    | inr free ↦
        let room : sm.count < max_sessions = ground arith in
        let (chat, e, valid) =
          restore_messages-IsValid json chat_init (saved_messages os json env fs id)
            chat_init-IsValid in
        rw (placed-grown sm id name chat v room e)
          (grows _ (grown-Fits sm id name chat v room valid) refl (view-new sm _ v.slots room))
  ]

  load_entry-Steps :
      (sm : SessionManager) (entry : V) → Fits sm → Steps sm (load_entry os json env fs sm entry)
  unfolding load_entry
  load_entry-Steps sm entry v = elim (Option-cases (number_item json entry key_id)) [
    | inl e ↦ rw (e, load_entry) skips
    | inr (id, e) ↦ (elim (Option-cases (string_item json entry key_name)) [
      | inl f ↦ rw (e, f, load_entry) skips
      | inr (name, f) ↦ rw (e, f, load_entry) (placed-Steps sm id name v)
    ])
  ]

  after_step :
      (es : List V) (sm : SessionManager) (loaded : ℕ) (step : LoadStep)
      → Fits sm
      → Steps sm step
      → ((sm' : SessionManager) (n : ℕ)
          → Fits sm'
          → Loads sm' n (load_entries os json env fs sm' n es))
      → Loads sm loaded (elim step [
        | skipped ↦ load_entries os json env fs sm loaded es
        | stopped ↦ some (sm, loaded)
        | restored sm' ↦ load_entries os json env fs sm' (loaded + 1) es
        | overrun ↦ none
      ])
  after_step es sm loaded _ v skips ih = ih sm loaded v
  after_step es sm loaded _ v stops ih =
      (sm, [], counted sm (omega arith), sym (append-nil (view sm)), omega arith, v)
  after_step es sm loaded _ v (grows {sm'} s w c e) ih =
      let (last, ss, r, seen, count, fits) = ih sm' (loaded + 1) w in
      (
        last,
        s ∷ ss,
        r ∙ counted last (omega arith),
        seen ∙ rw e (append_assoc (view sm) (s ∷ []) ss),
        omega arith,
        fits,
      )

  load_entries-Loads :
      (es : List V) (sm : SessionManager) (loaded : ℕ)
      → Fits sm
      → Loads sm loaded (load_entries os json env fs sm loaded es)
  unfolding load_entries
  load_entries-Loads [] sm loaded v =
      (sm, [], counted sm (omega arith), sym (append-nil (view sm)), omega arith, v)
  load_entries-Loads (e ∷ es) sm loaded v =
      after_step es sm loaded (load_entry os json env fs sm e) v (load_entry-Steps sm e v)
        (λ sm' n w. load_entries-Loads es sm' n w)

  -- Whatever the files hold, where no id in them is negative, a load over sessions that fit stores
  -- each message inside its buffer. It leaves those sessions in front, puts as many behind them as
  -- it returns, and with them at most 32, all with valid buffers and with names of at most 63
  -- bytes.
  pub persist_load-Loads :
      (sm : SessionManager) → Fits sm → Loads sm 0 (persist_load os json env fs sm)
  unfolding persist_load load_index
  persist_load-Loads sm v = elim (Option-cases (read_json os json env fs (index_path env))) [
    | inl e ↦ rw (e, persist_load) (sm, [], refl, sym (append-nil (view sm)), omega arith, v)
    | inr (root, e) ↦
        let (sm', ss, r, seen, count, fits) =
          load_entries-Loads (elements json (json.item root key_sessions)) sm 0 v in
        rw (e, persist_load)
          (rw r (
            record sm' { next_id = Option.get_or (number_item json root key_next_id) 1 },
            ss,
            refl,
            seen,
            count,
            record {
              slots = fits.slots;
              within = fits.within;
              active_fits = fits.active_fits;
              chats = fits.chats;
              names = fits.names;
            },
          ))
  ]

-- ===== src/Commands/Total.antt =====
-- What the commands of src/ui/commands.c keep: the sessions stay valid, and no message is stored
-- outside its buffer.
use free_cli.Base.{
  ◌+◌, ◌++◌, get_elem?, Option-cases, length, length-take-le, ◌<◌, ◌≤◌, ℕ, arith, length-take, ◌≡◌,
  refl, ap, Bool, true, false, List, [], ◌∷◌, Option, none, some, if◌then◌else◌, leb, ℤ, pos,
  negsuc, bytes, inl, inr, Bool-cases, All-set,
}
use mathlib.Core.Option
use free_cli.Chat.{chat_init}
use free_cli.Chat.Buffer as Buffer
use free_cli.Chat.Buffer.{chat_init-IsValid, chat_add-Appends}
use free_cli.Session.{
  Session, SessionManager, max_sessions, copy_name, sm_active_session, sm_new_session, sm_select,
}
use free_cli.Session.Invariant.{
  new-next_id, select-next_id, new-IsValid, select-IsValid, in_range_cases,
}
use free_cli.Fs.{CJson, after_prefix}
use free_cli.Providers.{ProviderInfo}
use free_cli.Commands.{
  decimal, fs_line, split_word, skip_spaces, Effect, CmdCtx, Handled, not_command, handled,
  update_active, add_to_active, system_msg, said, argument, FsLine, cmd_clear, new_selected,
  cmd_new, cmd_rename, provider_chosen, model_chosen, cmd_fs_op, cmd_fs_line, cmd_fs, cmd_word,
  cmd_dispatch,
}
use free_cli.Commands.Chats.{NameFits, get_elem?-All, ChatsValid, update_active-ChatsValid}

-- What a command may give: nothing overrun, and valid sessions, with a next id of at most `b`.
pub data Keeps (b : ℕ) : Handled → Type 0 where
  ignores : Keeps b not_command
  keeps :
      {ctx : CmdCtx} {es : List Effect}
      → ctx.sessions.next_id ≤ b
      → ChatsValid ctx.sessions
      → Keeps b (handled ctx es)

next_id-update_active :
    (sm : SessionManager) (f : Session → Session) → (update_active sm f).next_id ≡ sm.next_id
unfolding update_active
next_id-update_active sm f = elim (in_range_cases sm.active sm.count) [
  | inl e ↦ rw (e, update_active) refl
  | inr (i, e, _, _) ↦ (elim (Option-cases (get_elem? sm.sessions i)) [
    | inl g ↦ rw (e, g, update_active) refl
    | inr (s, g) ↦ rw (e, g, update_active) refl
  ])
]

pub active-IsValid :
    (sm : SessionManager) (s : Session)
    → ChatsValid sm
    → sm_active_session sm ≡ some s
    → Buffer.IsValid s.chat
unfolding sm_active_session
active-IsValid sm s v h = elim (in_range_cases sm.active sm.count) [
  | inl e ↦ absurd (nobody (rw (e, sm_active_session) at h))
  | inr (i, e, _, _) ↦
      get_elem?-All (λ (t : Session). Buffer.IsValid t.chat) sm.sessions i s v.chats_valid
        (rw (e, sm_active_session) at h)
]
  where
    nobody : ¬ (none ≡ some s)
    nobody e = cc

add_to_active-ChatsValid :
    (sm : SessionManager) (o : Option Session) (text : List ℕ)
    → ChatsValid sm
    → sm_active_session sm ≡ o
    → (sm' : SessionManager) × (add_to_active sm o text ≡ some sm')
      × ChatsValid sm'
      × (sm'.next_id ≡ sm.next_id)
unfolding add_to_active
add_to_active-ChatsValid sm none text v e = (sm, refl, v, refl)
add_to_active-ChatsValid sm (some s) text v e =
    let (cb, stored, _, _, valid) =
      (chat_add-Appends s.chat (active-IsValid sm s v e)).0 text false in
    (
      update_active sm (λ t. record t { chat = cb }),
      ap (Option.map (λ chat. update_active sm (λ t. record t { chat = chat }))) stored,
      update_active-ChatsValid sm (λ t. record t { chat = cb }) v (λ t. refl) (λ t _. valid)
          (λ t n. n),
      next_id-update_active sm (λ t. record t { chat = cb }),
    )

pub system_msg-ChatsValid :
    (sm : SessionManager) (text : List ℕ)
    → ChatsValid sm
    → (sm' : SessionManager) × (system_msg sm text ≡ some sm')
      × ChatsValid sm'
      × (sm'.next_id ≡ sm.next_id)
unfolding system_msg
system_msg-ChatsValid sm text v = add_to_active-ChatsValid sm (sm_active_session sm) text v refl

said-Keeps :
    {b : ℕ} (ctx : CmdCtx) (text : List ℕ) (es : List Effect)
    → ChatsValid ctx.sessions
    → ctx.sessions.next_id < b
    → Keeps b (said ctx es (system_msg ctx.sessions text))
unfolding said
said-Keeps ctx text es v h =
    let (sm, e, v', same) = system_msg-ChatsValid ctx.sessions text v in
    rw e (keeps (omega (arith, same)) v')

cmd_clear-Keeps :
    {b : ℕ} (ctx : CmdCtx) (o : Option Session)
    → ChatsValid ctx.sessions
    → ctx.sessions.next_id < b
    → Keeps b (cmd_clear ctx o)
unfolding cmd_clear
cmd_clear-Keeps ctx none v h = keeps (omega arith) v
cmd_clear-Keeps ctx (some s) v h =
    keeps (omega (arith, next_id-update_active ctx.sessions (λ t. record t { chat = chat_init }))) (
      update_active-ChatsValid ctx.sessions (λ t. record t { chat = chat_init }) v (λ t. refl)
        (λ t _. chat_init-IsValid) (λ t n. n))

cmd_rename-Keeps :
    {b : ℕ} (ctx : CmdCtx) (name : List ℕ) (o : Option Session)
    → ChatsValid ctx.sessions
    → ctx.sessions.next_id < b
    → Keeps b (cmd_rename ctx name o)
unfolding cmd_rename
cmd_rename-Keeps ctx name none v h = keeps (omega arith) v
cmd_rename-Keeps ctx name (some s) v h =
    keeps
      (omega (arith, next_id-update_active ctx.sessions (λ t. record t { name = copy_name name })))
      (update_active-ChatsValid ctx.sessions (λ t. record t { name = copy_name name }) v (λ t. refl)
        (λ t c. c) (λ t _. omega (arith, length-take 63 name)))

pub new-ChatsValid :
    (sm : SessionManager) (name : List ℕ) → ChatsValid sm → ChatsValid (sm_new_session sm name).0
unfolding sm_new_session
new-ChatsValid sm name v = record {
  sessions_valid = new-IsValid sm name v.sessions_valid;
  chats_valid = elim (Bool-cases (leb max_sessions sm.count)) [
    | inl full ↦ rw full v.chats_valid
    | inr free ↦ rw free (
        All-set (λ (t : Session). Buffer.IsValid t.chat) sm.sessions sm.count
          (record { id = sm.next_id; name = copy_name name; chat = chat_init }) v.chats_valid
          chat_init-IsValid)
  ];
  names = elim (Bool-cases (leb max_sessions sm.count)) [
    | inl full ↦ rw full v.names
    | inr free ↦ rw free (
        All-set NameFits sm.sessions sm.count
          (record { id = sm.next_id; name = copy_name name; chat = chat_init }) v.names
          (omega (arith, length-take 63 name)))
  ];
}

pub select-ChatsValid :
    (sm : SessionManager) (index : ℤ) → ChatsValid sm → ChatsValid (sm_select sm index)
unfolding sm_select
select-ChatsValid sm index v = record {
  sessions_valid = select-IsValid sm index v.sessions_valid;
  chats_valid = elim (in_range_cases index sm.count) [
    | inl e ↦ rw (e, sm_select) v.chats_valid
    | inr (i, e, _, _) ↦ rw (e, sm_select) v.chats_valid
  ];
  names = elim (in_range_cases index sm.count) [
    | inl e ↦ rw (e, sm_select) v.names
    | inr (i, e, _, _) ↦ rw (e, sm_select) v.names
  ];
}

new_selected-Keeps :
    {b : ℕ} (ctx : CmdCtx) (r : SessionManager × ℤ)
    → ChatsValid r.0
    → r.0.next_id ≤ b
    → Keeps b (new_selected ctx r)
unfolding new_selected
new_selected-Keeps ctx (sm, negsuc n) v h = keeps h v
new_selected-Keeps ctx (sm, pos idx) v h =
    keeps (omega (arith, select-next_id sm (pos idx))) (select-ChatsValid sm (pos idx) v)

cmd_new-Keeps :
    {b : ℕ} (ctx : CmdCtx) (o : Option (List ℕ))
    → ChatsValid ctx.sessions
    → ctx.sessions.next_id < b
    → Keeps b (cmd_new ctx o)
unfolding cmd_new
cmd_new-Keeps ctx none v h =
    new_selected-Keeps ctx _ (new-ChatsValid ctx.sessions _ v)
      (omega (arith, new-next_id ctx.sessions (bytes "Chat " ++ decimal (ctx.sessions.count + 1))))
cmd_new-Keeps ctx (some name) v h =
    new_selected-Keeps ctx _ (new-ChatsValid ctx.sessions name v)
      (omega (arith, new-next_id ctx.sessions name))

provider_chosen-Keeps :
    {b : ℕ} (ctx : CmdCtx) (o : Option ProviderInfo)
    → ChatsValid ctx.sessions
    → ctx.sessions.next_id < b
    → Keeps b (provider_chosen ctx o)
unfolding provider_chosen
provider_chosen-Keeps ctx none v h = keeps (omega arith) v
provider_chosen-Keeps ctx (some p) v h = said-Keeps ctx _ _ v h

if-Keeps : {b : ℕ} (t : Bool) (x y : Handled) → Keeps b x → Keeps b y → Keeps b (if t then x else y)
if-Keeps true x y p q = p
if-Keeps false x y p q = q

model_chosen-Keeps :
    {b : ℕ} (ctx : CmdCtx) (o : Option (List ℕ))
    → ChatsValid ctx.sessions
    → ctx.sessions.next_id < b
    → Keeps b (model_chosen ctx o)
unfolding model_chosen
model_chosen-Keeps ctx none v h = keeps (omega arith) v
model_chosen-Keeps ctx (some m) v h =
    if-Keeps _ _ _ (said-Keeps ctx _ _ v h) (keeps (omega arith) v)

module _ {V : Type 0} (json : CJson V) where
  cmd_fs_op-Keeps :
      {b : ℕ} (ctx : CmdCtx) (l : FsLine) (o : Option (List ℕ))
      → ChatsValid ctx.sessions
      → ctx.sessions.next_id < b
      → Keeps b (cmd_fs_op json ctx l o)
  unfolding cmd_fs_op
  cmd_fs_op-Keeps ctx l none v h = said-Keeps ctx _ _ v h
  cmd_fs_op-Keeps ctx l (some op) v h = said-Keeps ctx _ _ v h

  cmd_fs_line-Keeps :
      {b : ℕ} (ctx : CmdCtx) (rest : List ℕ)
      → ChatsValid ctx.sessions
      → ctx.sessions.next_id < b
      → Keeps b (cmd_fs_line json ctx rest)
  unfolding cmd_fs_line
  cmd_fs_line-Keeps ctx [] v h = said-Keeps ctx _ _ v h
  cmd_fs_line-Keeps ctx (c ∷ cs) v h = cmd_fs_op-Keeps ctx _ _ v h

  cmd_fs-Keeps :
      {b : ℕ} (ctx : CmdCtx) (o : Option (List ℕ))
      → ChatsValid ctx.sessions
      → ctx.sessions.next_id < b
      → Keeps b (cmd_fs json ctx o)
  unfolding cmd_fs
  cmd_fs-Keeps ctx o v h = if-Keeps _ _ _ (cmd_fs_line-Keeps ctx _ v h) (said-Keeps ctx _ _ v h)

  renamed-Keeps :
      {b : ℕ} (ctx : CmdCtx) (o : Option (List ℕ)) (rest : Handled)
      → ChatsValid ctx.sessions
      → ctx.sessions.next_id < b
      → Keeps b rest
      → Keeps b (elim o [
        | some name ↦ cmd_rename ctx name (sm_active_session ctx.sessions)
        | none ↦ rest
      ])
  renamed-Keeps ctx none rest v h k = k
  renamed-Keeps ctx (some name) rest v h k = cmd_rename-Keeps ctx name _ v h

  cmd_word-Keeps :
      {b : ℕ} (ctx : CmdCtx) (input : List ℕ) (picked : ℤ)
      → ChatsValid ctx.sessions
      → ctx.sessions.next_id < b
      → Keeps b (cmd_word json ctx input picked)
  unfolding cmd_word
  cmd_word-Keeps ctx input picked v h = if-Keeps _ _ _ (said-Keeps ctx _ _ v h) (
      if-Keeps _ _ _ (keeps (omega arith) v) (
        if-Keeps _ _ _ (cmd_clear-Keeps ctx _ v h) (
          if-Keeps _ _ _ (cmd_new-Keeps ctx _ v h) (
            renamed-Keeps ctx (argument (after_prefix (bytes "/rename") input)) _ v h (
              if-Keeps _ _ _ (provider_chosen-Keeps ctx _ v h) (
                if-Keeps _ _ _ (model_chosen-Keeps ctx _ v h)
                  (if-Keeps _ _ _ (cmd_fs-Keeps ctx _ v h) (said-Keeps ctx _ _ v h))))))))

  -- A command keeps the sessions valid.
  pub command-Keeps :
      {b : ℕ} (ctx : CmdCtx) (input : Option (List ℕ)) (picked : ℤ)
      → ChatsValid ctx.sessions
      → ctx.sessions.next_id < b
      → Keeps b (cmd_dispatch json ctx input picked)
  unfolding cmd_dispatch
  command-Keeps ctx none picked v h = ignores
  command-Keeps ctx (some []) picked v h = ignores
  command-Keeps ctx (some (c ∷ cs)) picked v h =
      if-Keeps _ _ _ (cmd_word-Keeps ctx (c ∷ cs) picked v h) ignores

  -- From valid sessions with an id left below 2^31 - 1, a command, whatever its text and whatever
  -- is picked, stores each message inside its buffer and leaves valid sessions: at most 32, an
  -- active one that exists, distinct ids, valid buffers, a next id of at most 2^31 - 1, and names
  -- that fit their arrays with the terminator. The operation and the path that are taken from any
  -- /fs line fit their arrays of 32 and 1024 bytes.
  pub cmd_dispatch-Keeps :
      (ctx : CmdCtx) (input : Option (List ℕ)) (picked : ℤ) (rest : List ℕ)
      → ChatsValid ctx.sessions
      → ctx.sessions.next_id < 2147483647
      → Keeps 2147483647 (cmd_dispatch json ctx input picked)
        × (length (fs_line rest).op_name ≤ 31)
        × (length (fs_line rest).path ≤ 1023)
  unfolding fs_line
  cmd_dispatch-Keeps ctx input picked rest v below = (
    command-Keeps ctx input picked v below,
    length-take-le 31 (split_word rest).0,
    length-take-le 1023 (split_word (skip_spaces (split_word rest).1)).0,
  )

-- ===== src/Tui/Command/Sidebar.antt =====
-- A command leaves the sidebar with one of the sessions selected (src/ui/commands.c, for
-- src/ui/main.c).
use free_cli.Base.{
  ℕ, sym, subst, Bool, true, false, List, [], ◌∷◌, Option, none, some, arith, if◌then◌else◌, ℤ, pos,
  bytes, inl, inr, Option-cases,
}
use free_cli.Session.{Session, SessionManager, sm_active_session}
use free_cli.Chat.{chat_add}
use free_cli.Fs.{CJson, after_prefix}
use free_cli.Providers.{ProviderInfo}
use free_cli.Commands.{
  Effect, CmdCtx, Handled, not_command, handled, overrun, update_active, add_to_active, system_msg,
  said, argument, FsLine, cmd_clear, new_selected, cmd_new, cmd_rename, provider_chosen,
  model_chosen, cmd_fs_op, cmd_fs_line, cmd_fs, cmd_word, cmd_dispatch,
}
use free_cli.Tui.Valid.{InList, count-update_active, count-sm_select}
use free_cli.Tui.Valid.Submitting.{Opens, full, grows, new-Opens}

-- If a command ends, the selected entry is one of the list.
pub data Selects : Handled → Type 0 where
  passes : Selects not_command
  breaks : Selects overrun
  selects :
      {ctx : CmdCtx} {es : List Effect}
      → InList ctx.sidebar_sel ctx.sessions.count
      → Selects (handled ctx es)

if-Selects : (b : Bool) (x y : Handled) → Selects x → Selects y → Selects (if b then x else y)
if-Selects true x y p q = p
if-Selects false x y p q = q

abbrev Selected : CmdCtx → Type 0
Selected ctx = InList ctx.sidebar_sel ctx.sessions.count

updated-Selects :
    (ctx : CmdCtx) (f : Session → Session) (es : List Effect)
    → Selected ctx
    → Selects (handled (record ctx { sessions = update_active ctx.sessions f }) es)
updated-Selects ctx f es h =
    selects (subst (InList ctx.sidebar_sel) (sym (count-update_active ctx.sessions f)) h)

said-Selects :
    (ctx : CmdCtx) (text : List ℕ) (es : List Effect)
    → Selected ctx
    → Selects (said ctx es (system_msg ctx.sessions text))
unfolding said system_msg add_to_active
said-Selects ctx text es h = elim (Option-cases (sm_active_session ctx.sessions)) [
  | inl e ↦ rw e (selects h)
  | inr (s, e) ↦ rw e (elim (Option-cases (chat_add s.chat text false)) [
    | inl f ↦ rw f breaks
    | inr (cb, f) ↦ rw f (updated-Selects ctx (λ t. record t { chat = cb }) es h)
  ])
]

cmd_clear-Selects : (ctx : CmdCtx) (o : Option Session) → Selected ctx → Selects (cmd_clear ctx o)
unfolding cmd_clear
cmd_clear-Selects ctx none h = selects h
cmd_clear-Selects ctx (some s) h = updated-Selects ctx _ _ h

cmd_rename-Selects :
    (ctx : CmdCtx) (name : List ℕ) (o : Option Session)
    → Selected ctx
    → Selects (cmd_rename ctx name o)
unfolding cmd_rename
cmd_rename-Selects ctx name none h = selects h
cmd_rename-Selects ctx name (some s) h = updated-Selects ctx _ _ h

new_selected-Selects :
    (ctx : CmdCtx) (r : SessionManager × ℤ)
    → Selected ctx
    → Opens ctx.sessions r
    → Selects (new_selected ctx r)
unfolding new_selected
new_selected-Selects ctx _ h full = selects h
new_selected-Selects ctx _ h (grows {sm} {idx} k) =
    selects (omega (arith, count-sm_select sm (pos idx)))

cmd_new-Selects : (ctx : CmdCtx) (o : Option (List ℕ)) → Selected ctx → Selects (cmd_new ctx o)
unfolding cmd_new
cmd_new-Selects ctx none h = new_selected-Selects ctx _ h (new-Opens ctx.sessions _)
cmd_new-Selects ctx (some name) h = new_selected-Selects ctx _ h (new-Opens ctx.sessions name)

provider_chosen-Selects :
    (ctx : CmdCtx) (o : Option ProviderInfo) → Selected ctx → Selects (provider_chosen ctx o)
unfolding provider_chosen
provider_chosen-Selects ctx none h = selects h
provider_chosen-Selects ctx (some p) h = said-Selects ctx _ _ h

model_chosen-Selects :
    (ctx : CmdCtx) (o : Option (List ℕ)) → Selected ctx → Selects (model_chosen ctx o)
unfolding model_chosen
model_chosen-Selects ctx none h = selects h
model_chosen-Selects ctx (some m) h = if-Selects _ _ _ (said-Selects ctx _ _ h) (selects h)

module _ {V : Type 0} (json : CJson V) where
  cmd_fs_op-Selects :
      (ctx : CmdCtx) (l : FsLine) (o : Option (List ℕ))
      → Selected ctx
      → Selects (cmd_fs_op json ctx l o)
  unfolding cmd_fs_op
  cmd_fs_op-Selects ctx l none h = said-Selects ctx _ _ h
  cmd_fs_op-Selects ctx l (some op) h = said-Selects ctx _ _ h

  cmd_fs_line-Selects :
      (ctx : CmdCtx) (rest : List ℕ) → Selected ctx → Selects (cmd_fs_line json ctx rest)
  unfolding cmd_fs_line
  cmd_fs_line-Selects ctx [] h = said-Selects ctx _ _ h
  cmd_fs_line-Selects ctx (c ∷ cs) h = cmd_fs_op-Selects ctx _ _ h

  cmd_fs-Selects : (ctx : CmdCtx) (o : Option (List ℕ)) → Selected ctx → Selects (cmd_fs json ctx o)
  unfolding cmd_fs
  cmd_fs-Selects ctx o h = if-Selects _ _ _ (cmd_fs_line-Selects ctx _ h) (said-Selects ctx _ _ h)

  renamed-Selects :
      (ctx : CmdCtx) (o : Option (List ℕ)) (rest : Handled)
      → Selected ctx
      → Selects rest
      → Selects (elim o [
        | some name ↦ cmd_rename ctx name (sm_active_session ctx.sessions)
        | none ↦ rest
      ])
  renamed-Selects ctx none rest h k = k
  renamed-Selects ctx (some name) rest h k = cmd_rename-Selects ctx name _ h

  cmd_word-Selects :
      (ctx : CmdCtx) (input : List ℕ) (picked : ℤ)
      → Selected ctx
      → Selects (cmd_word json ctx input picked)
  unfolding cmd_word
  cmd_word-Selects ctx input picked h = if-Selects _ _ _ (said-Selects ctx _ _ h) (
      if-Selects _ _ _ (selects h) (
        if-Selects _ _ _ (cmd_clear-Selects ctx _ h) (
          if-Selects _ _ _ (cmd_new-Selects ctx _ h) (
            renamed-Selects ctx (argument (after_prefix (bytes "/rename") input)) _ h (
              if-Selects _ _ _ (provider_chosen-Selects ctx _ h) (
                if-Selects _ _ _ (model_chosen-Selects ctx _ h)
                  (if-Selects _ _ _ (cmd_fs-Selects ctx _ h) (said-Selects ctx _ _ h))))))))

  pub cmd_dispatch-Selects :
      (ctx : CmdCtx) (input : Option (List ℕ)) (picked : ℤ)
      → Selected ctx
      → Selects (cmd_dispatch json ctx input picked)
  unfolding cmd_dispatch
  cmd_dispatch-Selects ctx none picked h = passes
  cmd_dispatch-Selects ctx (some []) picked h = passes
  cmd_dispatch-Selects ctx (some (c ∷ cs)) picked h =
      if-Selects _ _ _ (cmd_word-Selects ctx (c ∷ cs) picked h) passes

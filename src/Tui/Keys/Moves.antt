-- ===== src/Tui/Keys/Moves.antt =====
-- The moves in the sidebar and in the picker keep the UI's state valid (the loop of src/ui/main.c).
use free_cli.Base.{
  ℕ, zero, suc, ◌+◌, ◌-◌, ◌≡◌, sym, subst, Bool, true, false, ◌&&◌, [], Option, none, some, arith,
  ltb, ◌==◌, if◌then◌else◌, length, ℤ, pos, negsuc, ◌+ℤ◌, ltb_ℤ, sub_ℕ, inl, inr, Bool-cases,
}
use free_cli.Ipc.Wire.{Outcome, done, rejected, fault}
use free_cli.Ipc.Frame.{IpcMsg}
use free_cli.Session.{SessionManager, sm_select}
use free_cli.Input.{InputLine}
use free_cli.Input.Edit as Line
use free_cli.Input.Edit.{input_init-IsValid, input_handle_key-IsValid}
use free_cli.Commands.Chats.{ChatsValid}
use free_cli.Commands.Total.{select-ChatsValid}
use free_cli.Tui.{PendingChoices, Ui, Turn, next}
use free_cli.Tui.Keys.{Loop, quit, goes, approval_sent, answer_approval}
use free_cli.Tui.Valid.{InList, ChoicesFit, IsValid, Ends, ends, outgrows, count-sm_select}

-- The loop is left with `q`, or goes on in a valid state.
pub data LoopEnds (ch : ℕ) : Loop → Type 0 where
  quits : (ch == b'q') ≡ true → LoopEnds ch quit
  continues : {t : Turn} → Ends t → LoopEnds ch (goes t)

pub if-LoopEnds :
    {ch : ℕ} (b : Bool) (x y : Loop)
    → LoopEnds ch x
    → LoopEnds ch y
    → LoopEnds ch (if b then x else y)
if-LoopEnds true x y p q = p
if-LoopEnds false x y p q = q

pub quit-LoopEnds :
    (ch : ℕ) (rest : Loop) → LoopEnds ch rest → LoopEnds ch (if ch == b'q' then quit else rest)
quit-LoopEnds ch rest r = elim (Bool-cases (ch == b'q')) [ inl e ↦ rw e (quits e) | inr e ↦ rw e r ]

module _ (u : Ui) (v : IsValid u) where
  pub with_sel : (sel : ℤ) → InList sel u.sessions.count → IsValid (record u { sidebar_sel = sel })
  with_sel sel h = record {
    sessions_valid = v.sessions_valid;
    selected = h;
    line = v.line;
    slots = v.slots;
    choices = v.choices;
    texts = v.texts;
    entries = v.entries;
  }

  pub with_choices :
      (p : Option PendingChoices) → ChoicesFit p → IsValid (record u { pending_choices = p })
  with_choices p h = record {
    sessions_valid = v.sessions_valid;
    selected = v.selected;
    line = v.line;
    slots = v.slots;
    choices = h;
    texts = v.texts;
    entries = v.entries;
  }

  pub with_line : (l : InputLine) → Line.IsValid l → IsValid (record u { input_line = l })
  with_line l h = record {
    sessions_valid = v.sessions_valid;
    selected = v.selected;
    line = h;
    slots = v.slots;
    choices = v.choices;
    texts = v.texts;
    entries = v.entries;
  }

up-InList : (sel : ℤ) (n : ℕ) → ltb_ℤ (pos 0) sel ≡ true → InList sel n → InList (sel +ℤ negsuc 0) n
up-InList (pos zero) n e h = absurd (ground arith)
up-InList (pos (suc k)) n e h = ground arith
up-InList (negsuc k) n e h = absurd h

down-InList :
    (sel : ℤ) (n : ℕ) → ltb_ℤ sel (sub_ℕ n 1) ≡ true → InList sel n → InList (sel +ℤ pos 1) n
down-InList (pos k) n e h = ground arith
down-InList (negsuc k) n e h = absurd h

-- A state whose sessions changed, with as many of them.
pub with_sessions :
    (u : Ui) (sm : SessionManager)
    → IsValid u
    → ChatsValid sm
    → sm.count ≡ u.sessions.count
    → IsValid (record u { sessions = sm })
with_sessions u sm v w e = record {
  sessions_valid = w;
  selected = subst (InList u.sidebar_sel) (sym e) v.selected;
  line = v.line;
  slots = v.slots;
  choices = v.choices;
  texts = v.texts;
  entries = v.entries;
}

approval_sent-Ends : (u : Ui) (o : Outcome IpcMsg) → IsValid u → Ends (approval_sent u o)
unfolding approval_sent
approval_sent-Ends u rejected v = ends v
approval_sent-Ends u fault v = outgrows
approval_sent-Ends u (done m) v = ends v

pub answer_approval-Ends :
    (u : Ui) (approved : Bool) → IsValid u → Ends (answer_approval u approved)
unfolding answer_approval
answer_approval-Ends u approved v = approval_sent-Ends _ _ (record {
  sessions_valid = v.sessions_valid;
  selected = v.selected;
  line = v.line;
  slots = v.slots;
  choices = v.choices;
  texts = record {
    model_fits = v.texts.model_fits;
    provider_fits = v.texts.provider_fits;
    description_fits = omega arith;
  };
  entries = v.entries;
})

-- The sidebar's selection moves within the list.
pub up-LoopEnds :
    {ch : ℕ} (u : Ui) (b : Bool) (rest : Loop)
    → IsValid u
    → LoopEnds ch rest
    → LoopEnds ch (
        if b && ltb_ℤ (pos 0) u.sidebar_sel
        then goes (next (record u { sidebar_sel = u.sidebar_sel +ℤ negsuc 0 }) [])
        else rest)
up-LoopEnds u false rest v r = r
up-LoopEnds u true rest v r = elim (Bool-cases (ltb_ℤ (pos 0) u.sidebar_sel)) [
  | inl e ↦
      rw e
        (continues (ends (with_sel u v _ (up-InList u.sidebar_sel u.sessions.count e v.selected))))
  | inr e ↦ rw e r
]

pub down-LoopEnds :
    {ch : ℕ} (u : Ui) (b : Bool) (rest : Loop)
    → IsValid u
    → LoopEnds ch rest
    → LoopEnds ch (
        if b && ltb_ℤ u.sidebar_sel (sub_ℕ u.sessions.count 1)
        then goes (next (record u { sidebar_sel = u.sidebar_sel +ℤ pos 1 }) [])
        else rest)
down-LoopEnds u false rest v r = r
down-LoopEnds u true rest v r = elim (Bool-cases (ltb_ℤ u.sidebar_sel (sub_ℕ u.sessions.count 1))) [
  | inl e ↦
      rw e (
        continues (ends (with_sel u v _ (down-InList u.sidebar_sel u.sessions.count e v.selected))))
  | inr e ↦ rw e r
]

pub select-IsValid :
    (u : Ui)
    → IsValid u
    → IsValid (record u { sessions = sm_select u.sessions u.sidebar_sel; focus = 2 })
select-IsValid u v = record {
  sessions_valid = select-ChatsValid u.sessions u.sidebar_sel v.sessions_valid;
  selected =
      subst (InList u.sidebar_sel) (sym (count-sm_select u.sessions u.sidebar_sel)) v.selected;
  line = v.line;
  slots = v.slots;
  choices = v.choices;
  texts = v.texts;
  entries = v.entries;
}

-- What a key that the picker may take gives, if it takes it.
pub data PickerEnds : Option Turn → Type 0 where
  leaves : PickerEnds none
  takes : {t : Turn} → Ends t → PickerEnds (some t)

pub if-PickerEnds :
    (b : Bool) (x y : Option Turn) → PickerEnds x → PickerEnds y → PickerEnds (if b then x else y)
if-PickerEnds true x y p q = p
if-PickerEnds false x y p q = q

pub prev-PickerEnds :
    (u : Ui) (p : PendingChoices) (b : Bool) (rest : Option Turn)
    → IsValid u
    → u.pending_choices ≡ some p
    → PickerEnds rest
    → PickerEnds (
        if b && ltb 0 p.selected
        then some
            (next (record u { pending_choices = some (record p { selected = p.selected - 1 }) }) [])
        else rest)
prev-PickerEnds u p b rest v e r =
    let fit : ChoicesFit (some p) = subst ChoicesFit e v.choices in
    if-PickerEnds (b && ltb 0 p.selected) _ rest
      (takes (
        ends
          (with_choices u v (some (record p { selected = p.selected - 1 })) (fit.0, omega arith))))
      r

pub next-PickerEnds :
    (u : Ui) (p : PendingChoices) (b : Bool) (rest : Option Turn)
    → IsValid u
    → u.pending_choices ≡ some p
    → PickerEnds rest
    → PickerEnds (
        if b && ltb p.selected (length p.choices - 1)
        then some
            (next (record u { pending_choices = some (record p { selected = p.selected + 1 }) }) [])
        else rest)
next-PickerEnds u p false rest v e r = r
next-PickerEnds u p true rest v e r =
    let fit : ChoicesFit (some p) = subst ChoicesFit e v.choices in
    elim (Bool-cases (ltb p.selected (length p.choices - 1))) [
      | inl f ↦ rw f (takes (ends (with_choices u v _ (fit.0, ground arith))))
      | inr f ↦ rw f r
    ]

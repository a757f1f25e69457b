-- ===== src/Tui/Valid/Receiving.antt =====
-- The backend's messages keep the UI's state valid (check_ipc of src/ui/main.c): the chats.
use free_cli.Base.{
  All, ℕ, zero, suc, ◌-◌, ◌≤◌, ◌<◌, ◌≡◌, refl, ap, sym, subst, Bool, true, false, List, [], ◌∷◌,
  ◌++◌, Option, none, some, arith, ltb, leb, length, length-append, length-take, take, set,
  get_elem?, ℤ, pos, negsuc, inl, inr, ◌⊎◌, Bool-cases, ltb→lt,
}
use mathlib.Core.Option
use free_cli.Chat.{
  Message, chat_store, chat_ensure_capacity, grown, ChatBuffer, chat_add, chat_add_r,
  chat_remove_last,
}
use free_cli.Chat.Buffer as Buffer
use free_cli.Chat.Buffer.{chat_add-Appends, chat_store-Appends}
use free_cli.Session.{Session, SessionManager}
use free_cli.Session.Invariant.{in_range_cases}
use free_cli.Commands.Chats.{NameFits, ChatsValid, changed-ChatsValid, get_elem?-All}
use free_cli.Tui.{InFlight, PendingChoices, Ui}
use free_cli.Tui.Requests.{max_in_flight}
use free_cli.Tui.Choices.{max_choices}
use free_cli.Tui.Choices.Bounds.{detect_choices_bounds}
use free_cli.Tui.Receive.{
  known_or, Target, at, nobody, active_target, final_target, error_target, change_chat, put_answer,
  offered, choices_after, answered, final_to, put_error, failed, error_to, say_result,
}
use free_cli.Tui.Valid.{EntryFits, InList, ChoicesFit, IsValid, Ends, ends}

-- A place where the session is.
pub data Placed (sm : SessionManager) : Target → Type 0 where
  here : {i : ℕ} → i < sm.count → Placed sm (at i)
  nowhere : Placed sm nobody

pub active_target-Placed : (sm : SessionManager) → Placed sm (active_target sm)
unfolding active_target
active_target-Placed sm = elim (in_range_cases sm.active sm.count) [
  | inl e ↦ rw (e, active_target) nowhere
  | inr (i, e, _, h) ↦ rw (e, active_target) (here h)
]

pub error_target-Placed : (sm : SessionManager) (sidx : ℤ) → Placed sm (error_target sm sidx)
unfolding error_target
error_target-Placed sm sidx = elim (in_range_cases sidx sm.count) [
  | inl e ↦ rw (e, error_target) (active_target-Placed sm)
  | inr (i, e, _, h) ↦ rw (e, error_target) (here h)
]

-- An index that is not negative.
abbrev pub NonNegative : ℤ → Type 0
NonNegative (pos i) = Unit {0}
NonNegative (negsuc i) = ⊥

pub known_or-NonNegative : (a b : ℤ) → NonNegative b → NonNegative (known_or a b)
unfolding known_or
known_or-NonNegative (pos i) b h = tt
known_or-NonNegative (negsuc i) b h = h

pub final_target-Placed :
    (sm : SessionManager) (sidx : ℤ) → NonNegative sidx → Placed sm (final_target sm sidx)
unfolding final_target
final_target-Placed sm (pos i) h = elim (Bool-cases (ltb i sm.count)) [
  | inl e ↦ rw e (here (ltb→lt i sm.count e))
  | inr e ↦ rw e (active_target-Placed sm)
]
final_target-Placed sm (negsuc i) h = absurd h

pub get_elem?-lt :
    (xs : List Session) (i : ℕ) → i < length xs → (s : Session) × (get_elem? xs i ≡ some s)
get_elem?-lt [] i h = absurd (omega arith)
get_elem?-lt (x ∷ xs) zero h = (x, refl)
get_elem?-lt (x ∷ xs) (suc i) h = get_elem?-lt xs i (omega arith)

-- What an operation on a buffer may give.
abbrev pub Refills : (ChatBuffer → Option ChatBuffer) → Type 0
Refills f =
    (cb : ChatBuffer)
    → Buffer.IsValid cb
    → (cb' : ChatBuffer) × (f cb ≡ some cb') × Buffer.IsValid cb'

change_chat-Valid :
    (sm : SessionManager) (i : ℕ) (f : ChatBuffer → Option ChatBuffer)
    → ChatsValid sm
    → i < sm.count
    → Refills f
    → (sm' : SessionManager) × (change_chat sm i f ≡ some sm')
      × (sm'.count ≡ sm.count)
      × ChatsValid sm'
unfolding change_chat
change_chat-Valid sm i f v h r =
    let (s, e) =
      get_elem?-lt sm.sessions i (omega (arith, v.sessions_valid.slots, v.sessions_valid.within)) in
    let (cb, g, w) =
      r s.chat
        (get_elem?-All (λ (t : Session). Buffer.IsValid t.chat) sm.sessions i s v.chats_valid e) in
    (
      record sm { sessions = set sm.sessions i (record s { chat = cb }) },
      rw (e, change_chat) (rw g refl),
      refl,
      changed-ChatsValid sm i s (record s { chat = cb }) v e refl w
          (get_elem?-All NameFits sm.sessions i s v.names e),
    )

-- A message in the place of the last one, or the first message.
replace_last-Refills :
    (m : Message) → Refills (λ cb. chat_store (chat_ensure_capacity (chat_remove_last cb)) m)
unfolding chat_remove_last chat_store chat_ensure_capacity grown
replace_last-Refills m cb v = elim (Bool-cases (ltb 0 (length cb.msgs))) [
  | inl e ↦
      let size : length (take (length cb.msgs - 1) cb.msgs) ≡ length cb.msgs - 1 =
        omega (arith, length-take {0} (length cb.msgs - 1) cb.msgs) in
      let room : leb cb.capacity (length (take (length cb.msgs - 1) cb.msgs)) ≡ false =
        ground arith in
      let fits : ltb (length (take (length cb.msgs - 1) cb.msgs)) cb.capacity ≡ true =
        ground arith in
      (
        record cb { msgs = take (length cb.msgs - 1) cb.msgs ++ m ∷ [] },
        rw e (rw room (rw fits refl)),
        record {
          room = ground (arith, length-append {0} (take (length cb.msgs - 1) cb.msgs) (m ∷ []));
          tight = ground (arith, length-append {0} (take (length cb.msgs - 1) cb.msgs) (m ∷ []));
        },
      )
  | inr e ↦ let (cb', stored, _, _, valid) = chat_store-Appends cb m v in rw e (cb', stored, valid)
]

pub put_answer-Refills :
    (text : List ℕ) (reasoning : Option (List ℕ)) → Refills (put_answer text reasoning)
unfolding put_answer chat_add_r
put_answer-Refills text reasoning cb v =
    let (cb', e, w) = replace_last-Refills _ cb v in
    (
      record cb' { scroll = pos 0 },
      ap (Option.map (λ (t : ChatBuffer). record t { scroll = pos 0 })) e,
      record { room = w.room; tight = w.tight },
    )

put_error-Refills : (text : List ℕ) → Refills (put_error (some text))
unfolding put_error chat_add
put_error-Refills text cb v = replace_last-Refills _ cb v

-- A state that differs in its sessions and its table.
pub updated-IsValid :
    (u : Ui) (sm : SessionManager) (table : List InFlight) (p : Option PendingChoices)
    → IsValid u
    → ChatsValid sm
    → sm.count ≡ u.sessions.count
    → length table ≡ max_in_flight
    → ChoicesFit p
    → All EntryFits table
    → IsValid (record u { sessions = sm; in_flight = table; pending_choices = p })
updated-IsValid u sm table p v w e l c a = record {
  sessions_valid = w;
  selected = subst (InList u.sidebar_sel) (sym e) v.selected;
  line = v.line;
  slots = l;
  choices = c;
  texts = v.texts;
  entries = a;
}

offered-ChoicesFit :
    (sidx : ℤ) (items : List (List ℕ))
    → (length items ≡ 0) ⊎ ((2 ≤ length items) × (length items ≤ max_choices))
    → ChoicesFit (offered sidx items)
unfolding offered
offered-ChoicesFit sidx [] n = tt
offered-ChoicesFit sidx (c ∷ cs) n = ground arith

choices_after-ChoicesFit :
    (p : Option PendingChoices) (sidx : ℤ) (text : List ℕ)
    → ChoicesFit p
    → ChoicesFit (choices_after p sidx text)
unfolding choices_after
choices_after-ChoicesFit (some p) sidx text h = h
choices_after-ChoicesFit none sidx text h =
    let (items, e, n, _) = detect_choices_bounds text in rw e (offered-ChoicesFit sidx items n)

failed-Ends :
    (u : Ui) (i : ℕ) (f : ChatBuffer → Option ChatBuffer)
    → IsValid u
    → i < u.sessions.count
    → Refills f
    → Ends (failed u (change_chat u.sessions i f))
unfolding failed
failed-Ends u i f v h r =
    let (sm, e, c, w) = change_chat-Valid u.sessions i f v.sessions_valid h r in
    rw e
      (ends (updated-IsValid u sm u.in_flight u.pending_choices v w c v.slots v.choices v.entries))

pub final_to-Ends :
    (u : Ui) (sidx : ℤ) (text : List ℕ) (reasoning : Option (List ℕ)) (t : Target)
    → IsValid u
    → Placed u.sessions t
    → Ends (final_to u sidx text reasoning t)
unfolding final_to answered
final_to-Ends u sidx text reasoning _ v nowhere = ends v
final_to-Ends u sidx text reasoning _ v (here {i} h) =
    let (sm, e, c, w) =
      change_chat-Valid u.sessions i (put_answer text reasoning) v.sessions_valid h
        (put_answer-Refills text reasoning) in
    rw e (
      ends (
        updated-IsValid u sm u.in_flight _ v w c v.slots
          (choices_after-ChoicesFit u.pending_choices sidx text v.choices) v.entries))

pub error_to-Ends :
    (u : Ui) (text : List ℕ) (t : Target)
    → IsValid u
    → Placed u.sessions t
    → Ends (error_to u (some text) t)
unfolding error_to
error_to-Ends u text _ v nowhere = ends v
error_to-Ends u text _ v (here {i} h) = failed-Ends u i _ v h (put_error-Refills text)

pub say_result-Ends :
    (u : Ui) (success : Bool) (result : Option (List ℕ)) (t : Target)
    → IsValid u
    → Placed u.sessions t
    → Ends (say_result u success result t)
unfolding say_result
say_result-Ends u success none _ v p = ends v
say_result-Ends u success (some []) _ v p = ends v
say_result-Ends u success (some (c ∷ cs)) _ v nowhere = ends v
say_result-Ends u success (some (c ∷ cs)) _ v (here {i} h) =
    failed-Ends u i _ v h
      (λ cb w. let (cb', e, _, _, x) = (chat_add-Appends cb w).0 _ false in (cb', e, x))

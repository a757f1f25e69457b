-- ===== src/Tui/Valid/Messages.antt =====
-- The messages that the backend is trusted to send keep the UI's state valid (check_ipc of
-- src/ui/main.c): those whose final replies name an int and whose error texts have a terminator.
use free_cli.Base.{
  All, ◌++◌, length-take, length-take-le, take, ◌≤◌, ℕ, suc, ◌*◌, ◌<◌, ◌≡◌, ◌≢◌, refl, ap, ◌∙◌,
  subst, true, false, List, [], ◌∷◌, Option, none, some, arith, ltb, ◌==◌, length, get_elem?, inl,
  inr, ◌⊎◌, Bool-cases, bytes, lt→ltb, ==_iff,
}
use mathlib.Core.List.{map}
use free_cli.Ipc.Wire.{Outcome, done, rejected, fault, u32_mod}
use free_cli.Ipc.Types.{msg_rep_final, msg_rep_error}
use free_cli.Ipc.Payload.{
  RepFinal, decode_rep_final, WorkerStart, WorkerRep, ApprovalReq, SessionRename,
}
use free_cli.Ipc.Payload.Safety.{decoders_safe}
use free_cli.Ipc.Frame.{payload_bytes, IpcMsg, Recv, message, no_data, broken, stuck}
use free_cli.Chat.Buffer as Buffer
use free_cli.Chat.Buffer.{chat_add-Appends, chat_store-Appends}
use free_cli.Session.{Session}
use free_cli.Commands.Chats.{changed-ChatsValid, get_elem?-All}
use free_cli.Tui.{InFlight, Ui, Turn}
use free_cli.Tui.Requests.{sub_label, inflight_remove, inflight_add_sub}
use free_cli.Tui.Receive.{
  on_rep_final, c_string, error_text, on_rep_error, on_worker_start, on_worker_rep, on_approval_req,
  given, on_message, disconnected, on_recv, check_ipc,
}
use free_cli.Tui.Submit.{int_of}
use free_cli.Commands.{decimal}
use free_cli.Worker.{or_else}
use free_cli.Tui.Rename.{topic_name, rename_at, rename_in, rename_to, on_session_rename}
use free_cli.Tui.Valid.{
  IsValid, Ends, ends, if-Ends, length-fill_free, length-inflight_remove, EntryFits,
  entries-fill_free, entries-inflight_remove,
}
use free_cli.Tui.Valid.Receiving.{
  active_target-Placed, error_target-Placed, known_or-NonNegative, final_target-Placed,
  updated-IsValid, final_to-Ends, error_to-Ends, say_result-Ends,
}

-- A text that ends inside its bytes.
abbrev pub HasEnd : List ℕ → Type 0
HasEnd [] = ⊥
HasEnd (c ∷ cs) = (c ≡ 0) ⊎ HasEnd cs

c_string_ends : (cs : List ℕ) → HasEnd cs → (s : List ℕ) × (c_string cs ≡ some s)
unfolding c_string
c_string_ends [] h = absurd h
c_string_ends (c ∷ cs) h = elim (Bool-cases (c == 0)) [
  | inl e ↦ ([], rw e refl)
  | inr e ↦ (elim h [
    | inl p ↦ absurd (ground arith)
    | inr t ↦ let (s, f) = c_string_ends cs t in (c ∷ s, rw (e, f) refl)
  ])
]

-- What the backend is trusted in: an index of a final reply is an int that is not negative, and an
-- error's text has its terminator.
abbrev pub FinalFits : Outcome RepFinal → Type 0
FinalFits (done r) = r.session_idx * 2 < u32_mod
FinalFits rejected = Unit {0}
FinalFits fault = Unit {0}

abbrev pub ErrorEnds : Option (List ℕ) → Type 0
ErrorEnds none = Unit {0}
ErrorEnds (some p) = HasEnd p

error_text_ends : (p : Option (List ℕ)) → ErrorEnds p → (s : List ℕ) × (error_text p ≡ some s)
unfolding error_text
error_text_ends none h = (bytes "backend error", refl)
error_text_ends (some p) h = c_string_ends p h

pub record IsSound (m : IpcMsg) : Type 0 where
  pub final_fits : m.type ≡ msg_rep_final → FinalFits (decode_rep_final (payload_bytes m.payload))
  pub error_ends : m.type ≡ msg_rep_error → ErrorEnds m.payload

on_rep_final-Ends :
    (u : Ui) (corr : ℕ) (o : Outcome RepFinal)
    → IsValid u
    → FinalFits o
    → o ≢ fault
    → Ends (on_rep_final u corr o)
unfolding on_rep_final int_of
on_rep_final-Ends u corr rejected v f n = ends v
on_rep_final-Ends u corr fault v f n = absurd (n refl)
on_rep_final-Ends u corr (done r) v f n =
    let small : ltb (r.session_idx * 2) u32_mod ≡ true = lt→ltb (r.session_idx * 2) u32_mod f in
    final_to-Ends _ _ _ r.reasoning _
      (updated-IsValid u u.sessions _ u.pending_choices v v.sessions_valid refl
        (length-inflight_remove u.in_flight corr ∙ v.slots) v.choices
        (entries-inflight_remove u.in_flight corr v.entries))
      (final_target-Placed u.sessions _
        (known_or-NonNegative _ (int_of r.session_idx) (rw small tt)))

on_rep_error-Ends :
    (u : Ui) (corr : ℕ) (p : Option (List ℕ))
    → IsValid u
    → ErrorEnds p
    → Ends (on_rep_error u corr p)
unfolding on_rep_error
on_rep_error-Ends u corr p v h =
    let (text, e) = error_text_ends p h in
    rw e (
      error_to-Ends _ text _
        (updated-IsValid u u.sessions _ u.pending_choices v v.sessions_valid refl
          (length-inflight_remove u.in_flight corr ∙ v.slots) v.choices
          (entries-inflight_remove u.in_flight corr v.entries))
        (error_target-Placed u.sessions _))

sub_label-fits : (model description : Option (List ℕ)) → length (sub_label model description) ≤ 63
unfolding sub_label
sub_label-fits model description =
    length-take-le 63
      (bytes "→" ++ (or_else model (bytes "?") ++ (bytes ": " ++ take 30 (or_else description []))))

on_worker_start-Ends :
    (u : Ui) (corr : ℕ) (o : Outcome WorkerStart)
    → IsValid u
    → o ≢ fault
    → Ends (on_worker_start u corr o)
unfolding on_worker_start inflight_add_sub
on_worker_start-Ends u corr rejected v n = ends v
on_worker_start-Ends u corr fault v n = absurd (n refl)
on_worker_start-Ends u corr (done r) v n = ends (
    updated-IsValid u u.sessions _ u.pending_choices v v.sessions_valid refl
      (length-fill_free u.in_flight _ ∙ v.slots) v.choices
      (entries-fill_free u.in_flight _ v.entries (sub_label-fits r.model r.description)))

on_worker_rep-Ends :
    (u : Ui) (o : Outcome WorkerRep) → IsValid u → o ≢ fault → Ends (on_worker_rep u o)
unfolding on_worker_rep
on_worker_rep-Ends u rejected v n = ends v
on_worker_rep-Ends u fault v n = absurd (n refl)
on_worker_rep-Ends u (done r) v n =
    say_result-Ends u r.success r.result _ v (active_target-Placed u.sessions)

on_approval_req-Ends :
    (u : Ui) (o : Outcome ApprovalReq) → IsValid u → o ≢ fault → Ends (on_approval_req u o)
unfolding on_approval_req
on_approval_req-Ends u rejected v n = ends v
on_approval_req-Ends u fault v n = absurd (n refl)
on_approval_req-Ends u (done r) v n = ends (record {
  sessions_valid = v.sessions_valid;
  selected = v.selected;
  line = v.line;
  slots = v.slots;
  choices = v.choices;
  texts = record {
    model_fits = v.texts.model_fits;
    provider_fits = v.texts.provider_fits;
    description_fits =
        omega (arith, length-take 511 (or_else r.description (bytes "unknown operation")));
  };
  entries = v.entries;
})

topic_name-fits : (id : ℕ) (topic : List ℕ) → length (topic_name id topic) ≤ 63
unfolding topic_name
topic_name-fits id topic = length-take-le 63 (b'#' ∷ (decimal id ++ b' ' ∷ topic))

rename_at-Ends :
    (u : Ui) (i : ℕ) (topic : List ℕ) (o : Option Session)
    → IsValid u
    → get_elem? u.sessions.sessions i ≡ o
    → Ends (rename_at u i topic o)
unfolding rename_at
rename_at-Ends u i topic none v e = ends v
rename_at-Ends u i topic (some s) v e =
    if-Ends _ _ _
      (ends (
        updated-IsValid u _ u.in_flight u.pending_choices v
          (changed-ChatsValid u.sessions i s _ v.sessions_valid e refl
            (get_elem?-All (λ (t : Session). Buffer.IsValid t.chat) u.sessions.sessions i s
              v.sessions_valid.chats_valid e)
            (topic_name-fits s.id topic))
          refl v.slots v.choices v.entries))
      (ends v)

rename_in-Ends : (u : Ui) (topic : List ℕ) (o : Option ℕ) → IsValid u → Ends (rename_in u topic o)
unfolding rename_in
rename_in-Ends u topic none v = ends v
rename_in-Ends u topic (some i) v = rename_at-Ends u i topic _ v refl

rename_to-Ends :
    (u : Ui) (sidx : ℕ) (topic : Option (List ℕ)) → IsValid u → Ends (rename_to u sidx topic)
unfolding rename_to
rename_to-Ends u sidx none v = ends v
rename_to-Ends u sidx (some []) v = ends v
rename_to-Ends u sidx (some (c ∷ cs)) v = rename_in-Ends u (c ∷ cs) _ v

on_session_rename-Ends :
    (u : Ui) (o : Outcome SessionRename) → IsValid u → o ≢ fault → Ends (on_session_rename u o)
unfolding on_session_rename
on_session_rename-Ends u rejected v n = ends v
on_session_rename-Ends u fault v n = absurd (n refl)
on_session_rename-Ends u (done r) v n = rename_to-Ends u r.session_idx r.topic v

given-Ends :
    (u : Ui) (p : Option (List ℕ)) (f : List ℕ → Turn)
    → IsValid u
    → ((buf : List ℕ) → p ≡ some buf → Ends (f buf))
    → Ends (given u p f)
unfolding given
given-Ends u none f v h = ends v
given-Ends u (some buf) f v h = h buf refl

removed-IsValid :
    (u : Ui) (corr : ℕ)
    → IsValid u
    → IsValid (record u { in_flight = (inflight_remove u.in_flight corr).0 })
removed-IsValid u corr v =
    updated-IsValid u u.sessions _ u.pending_choices v v.sessions_valid refl
      (length-inflight_remove u.in_flight corr ∙ v.slots) v.choices
      (entries-inflight_remove u.in_flight corr v.entries)

on_message-Ends : (u : Ui) (m : IpcMsg) → IsValid u → IsSound m → Ends (on_message u m)
unfolding on_message
on_message-Ends u m v s = elim (Bool-cases (m.type == msg_rep_final)) [
  | inl e ↦ rw e (
      given-Ends u m.payload _ v (λ buf p.
        on_rep_final-Ends u m.corr_id _ v
          (subst (λ (o : Option (List ℕ)). FinalFits (decode_rep_final (payload_bytes o))) p
            (s.final_fits ((==_iff m.type msg_rep_final).0 e)))
          (decoders_safe buf).1))
  | inr e ↦ rw e (elim (Bool-cases (m.type == msg_rep_error)) [
    | inl f ↦ rw f (
        on_rep_error-Ends u m.corr_id m.payload v
          (s.error_ends ((==_iff m.type msg_rep_error).0 f)))
    | inr f ↦ rw f (
        if-Ends _ _ _
          (given-Ends u m.payload _ v
            (λ buf p. on_worker_start-Ends u m.corr_id _ v (decoders_safe buf).2))
          (if-Ends _ _ _ (ends (removed-IsValid u m.corr_id v)) (
            if-Ends _ _ _
              (given-Ends u m.payload _ v (λ buf p. on_worker_rep-Ends u _ v (decoders_safe buf).5))
              (if-Ends _ _ _
                (given-Ends u m.payload _ v
                  (λ buf p. on_approval_req-Ends u _ v (decoders_safe buf).6))
                (if-Ends _ _ _
                  (given-Ends u m.payload _ v
                    (λ buf p. on_session_rename-Ends u _ v (decoders_safe buf).3))
                  (ends v))))))
  ])
]

entries-cleared :
    (es : List InFlight)
    → All EntryFits es
    → All EntryFits (map (λ (e : InFlight). record e { active = false }) es)
entries-cleared [] a = tt
entries-cleared (e ∷ es) a = (a.0, entries-cleared es a.1)

length-cleared :
    (es : List InFlight)
    → length (map (λ (e : InFlight). record e { active = false }) es) ≡ length es
length-cleared [] = refl
length-cleared (e ∷ es) = ap suc (length-cleared es)

-- What ipc_recv may give: a sound message, nothing, or a failure.
abbrev pub SoundRecv : Recv → Type 0
SoundRecv (message m rest) = IsSound m
SoundRecv no_data = Unit {0}
SoundRecv broken = Unit {0}
SoundRecv stuck = ⊥

on_recv-Ends : (u : Ui) (r : Recv) → IsValid u → SoundRecv r → Ends (on_recv u r)
unfolding on_recv disconnected
on_recv-Ends u (message m rest) v s = on_message-Ends u m v s
on_recv-Ends u no_data v s = ends v
on_recv-Ends u broken v s = ends (record {
  sessions_valid = v.sessions_valid;
  selected = v.selected;
  line = v.line;
  slots = length-cleared u.in_flight ∙ v.slots;
  choices = v.choices;
  texts = v.texts;
  entries = entries-cleared u.in_flight v.entries;
})
on_recv-Ends u stuck v s = absurd s

pub check_ipc-Ends : (u : Ui) (r : Recv) → IsValid u → SoundRecv r → Ends (check_ipc u r)
unfolding check_ipc
check_ipc-Ends u r v s = if-Ends _ _ _ (on_recv-Ends u r v s) (ends v)

-- ===== src/Tui/Receive/Replies.antt =====
-- Where the answer to a request goes (check_ipc of src/ui/main.c).
use free_cli.Base.{
  ℕ, ◌+◌, ◌<◌, ◌≡◌, refl, ap, ◌∙◌, false, List, [], ◌∷◌, ◌++◌, Option, none, some, arith, set,
  get_elem?, pos, inl, inr, Bool-cases, lt→ltb,
}
use free_cli.Ipc.Types.{msg_rep_final}
use free_cli.Ipc.Wire.{done, chars_of, u32_mod}
use free_cli.Ipc.Payload.{RepFinal, encode_rep_final, decode_rep_final}
use free_cli.Ipc.Payload.RoundTrip.{rep_final_round_trip}
use free_cli.Ipc.Payload.Fields.{size_of, received}
use free_cli.Ipc.Frame.{IpcMsg, payload_bytes}
use free_cli.Worker.{with_payload}
use free_cli.Worker.Reply.{with_payload-Carries}
use free_cli.Chat.{Message, ChatBuffer, chat_add_r, chat_store, chat_ensure_capacity, nonempty}
use free_cli.Chat.Buffer as Buffer
use free_cli.Chat.Buffer.{chat_remove_last-append}
use free_cli.Session.{Session, SessionManager}
use free_cli.Commands.Chats.{get_elem?-All}
use free_cli.Tui.{InFlight, Ui, wrote_session, next}
use free_cli.Tui.Requests.{is_request, inflight_remove, inflight_find_sidx}
use free_cli.Tui.Receive.{
  known_or, final_target, change_chat, reply_text, put_answer, answered, final_to, on_rep_final,
  given, on_message, choices_after,
}
use free_cli.Tui.Valid.{IsValid}
use free_cli.Tui.Valid.Receiving.{put_answer-Refills}

pub remove-find :
    (es : List InFlight) (corr : ℕ) → (inflight_remove es corr).1 ≡ inflight_find_sidx es corr
unfolding inflight_remove inflight_find_sidx
remove-find [] corr = refl
remove-find (e ∷ es) corr = elim (Bool-cases (is_request corr e)) [
  | inl f ↦ rw f refl
  | inr f ↦ rw f (remove-find es corr)
]

-- The message of an answer.
abbrev pub answer_of : List ℕ → Option (List ℕ) → Message
answer_of text reasoning = record {
  text = some text;
  is_user = false;
  reasoning = nonempty reasoning;
  tool_calls = [];
  tool_call_id = none;
}

put_answer-msgs :
    (text : List ℕ) (reasoning : Option (List ℕ)) (cb cb' : ChatBuffer) (ms : List Message)
    (p : Message)
    → cb.msgs ≡ ms ++ p ∷ []
    → put_answer text reasoning cb ≡ some cb'
    → (cb'.msgs ≡ ms ++ answer_of text reasoning ∷ []) × (cb'.scroll ≡ pos 0)
unfolding put_answer chat_add_r chat_store chat_ensure_capacity
put_answer-msgs text reasoning cb cb' ms p e h = ground (arith, chat_remove_last-append cb ms p e)

change_chat-at :
    (sm : SessionManager) (i : ℕ) (f : ChatBuffer → Option ChatBuffer) (s : Session)
    (cb : ChatBuffer)
    → get_elem? sm.sessions i ≡ some s
    → f s.chat ≡ some cb
    → change_chat sm i f
      ≡ some (record sm { sessions = set sm.sessions i (record s { chat = cb }) })
unfolding change_chat
change_chat-at sm i f s cb e g = rw (e, change_chat) (rw g refl)

abbrev with_chat : SessionManager → ℕ → Session → ChatBuffer → SessionManager
with_chat sm i s cb = record sm { sessions = set sm.sessions i (record s { chat = cb }) }

abbrev after_answer : Ui → ℕ → ℕ → RepFinal → SessionManager → Ui
after_answer u corr i r sm = record u {
  sessions = sm;
  in_flight = (inflight_remove u.in_flight corr).0;
  pending_choices = choices_after u.pending_choices (pos i) (reply_text r.content);
}

final_at :
    (u : Ui) (corr i : ℕ) (r : RepFinal) (s : Session) (cb : ChatBuffer)
    → inflight_find_sidx u.in_flight corr ≡ pos i
    → i < u.sessions.count
    → get_elem? u.sessions.sessions i ≡ some s
    → put_answer (reply_text r.content) r.reasoning s.chat ≡ some cb
    → on_rep_final u corr (done r)
      ≡ next
          (after_answer u corr i r (with_chat u.sessions i s cb))
          (wrote_session (with_chat u.sessions i s cb) (pos i) ∷ [])
unfolding on_rep_final known_or final_target final_to answered
final_at u corr i r s cb f h e g =
    let found : (inflight_remove u.in_flight corr).1 ≡ pos i = remove-find u.in_flight corr ∙ f in
    rw found (rw (lt→ltb i u.sessions.count h) (rw (change_chat-at u.sessions i _ s cb e g) refl))

given_final :
    (u : Ui) (corr : ℕ) (p : Option (List ℕ)) (r : RepFinal)
    → decode_rep_final (payload_bytes p) ≡ done r
    → given u p (λ buf. on_rep_final u corr (decode_rep_final buf)) ≡ on_rep_final u corr (done r)
unfolding given decode_rep_final
given_final u corr none r h = absurd cc
given_final u corr (some buf) r h = ap (on_rep_final u corr) h

-- In a valid state, a final reply that fits 32 bits, to a request that is in the table with the
-- session at i, puts the reply, or "(no response)" for an empty one, with its reasoning, in the
-- place of that session's last message, changes no other session, takes the request out and saves
-- that session, whatever session the message names.
pub answer_replaces :
    (u : Ui) (corr i idx : ℕ) (content reasoning : Option (List ℕ)) (s : Session)
    (ms : List Message) (placeholder : Message)
    → IsValid u
    → inflight_find_sidx u.in_flight corr ≡ pos i
    → i < u.sessions.count
    → get_elem? u.sessions.sessions i ≡ some s
    → s.chat.msgs ≡ ms ++ placeholder ∷ []
    → idx < u32_mod
    → 12 + size_of content + size_of reasoning < u32_mod
    → (m : IpcMsg) × (u' : Ui) × (cb : ChatBuffer) × (with_payload msg_rep_final corr
          (encode_rep_final idx content reasoning)
        ≡ done m)
      × (on_message u m ≡ next u' (wrote_session u'.sessions (pos i) ∷ []))
      × (u'.sessions
          ≡ record u.sessions { sessions = set u.sessions.sessions i (record s { chat = cb }) })
      × (u'.in_flight ≡ (inflight_remove u.in_flight corr).0)
      × (cb.msgs ≡ ms ++ answer_of (reply_text (chars_of content)) (received reasoning) ∷ [])
unfolding on_message
answer_replaces u corr i idx content reasoning s ms placeholder v found h here last small fits =
    let r : RepFinal = record {
      session_idx = idx;
      content = chars_of content;
      reasoning = received reasoning;
    } in
    let (m, e, (type, id, payload)) =
      with_payload-Carries msg_rep_final corr (encode_rep_final idx content reasoning)
        decode_rep_final r (rep_final_round_trip idx content reasoning small fits) in
    let (cb, put, _) = put_answer-Refills (reply_text r.content) r.reasoning s.chat (
      get_elem?-All (λ (t : Session). Buffer.IsValid t.chat) u.sessions.sessions i s
        v.sessions_valid.chats_valid here) in
    (
      m,
      after_answer u corr i r (with_chat u.sessions i s cb),
      cb,
      e,
      rw type (
          given_final u m.corr_id m.payload r payload
          ∙ rw id (final_at u corr i r s cb found h here put)),
      refl,
      refl,
      (put_answer-msgs (reply_text r.content) r.reasoning s.chat cb ms placeholder last put).0,
    )

-- ===== src/Tui/Command/Typed.antt =====
-- The two copies of the code of src/ui/main.c that sends a question, in submit_message and in
-- submit_text.
use free_cli.Base.{
  ℕ, ◌≡◌, refl, Bool, true, false, not, ◌&&◌, List, [], Option, none, some, if◌then◌else◌, ap, ◌∙◌,
}
use free_cli.Chat.{ChatBuffer}
use free_cli.Session.{Session}
use free_cli.Tui.{Ui, Turn, next}
use free_cli.Tui.Requests.{inflight_session_active}
use free_cli.Tui.Submit.{request_of, with_question, send_question, try_send}
use free_cli.Tui.Command.{typed_request, send_typed_in, send_typed}

send_typed_in-eq :
    (u : Ui) (s : Session) (o : Option ChatBuffer) → send_typed_in u s o ≡ send_question u s o
unfolding send_typed_in send_question typed_request request_of
send_typed_in-eq u s none = refl
send_typed_in-eq u s (some cb) = refl

tests-eq :
    (on busy : Bool) (x y : Turn)
    → (if not on then y else if busy then y else x) ≡ (if on && not busy then x else y)
tests-eq true true x y = refl
tests-eq true false x y = refl
tests-eq false busy x y = refl

-- From the test of the connection on, both copies do the same.
pub send_typed-try_send :
    (u : Ui) (s : Session) (text : List ℕ) → send_typed u s text ≡ try_send u s text
unfolding send_typed try_send with_question
send_typed-try_send u s text =
    tests-eq u.connected (inflight_session_active u.in_flight u.sessions.active) _ _
    ∙ ap
        (λ x.
          if u.connected && not (inflight_session_active u.in_flight u.sessions.active)
          then x
          else next u [])
        (send_typed_in-eq u s _)

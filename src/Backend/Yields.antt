-- ===== src/Backend/Yields.antt =====
-- The shape of what a chat request sends (src/backend/backend.c), and calls that return.
use free_cli.Base.{ℕ, Bool, true, false, not, List, [], ◌∷◌, ◌++◌, Option, if◌then◌else◌, ◌==◌}
use free_cli.Ipc.Wire.{Outcome, done, rejected, fault, ◌>>=◌}
use free_cli.Ipc.Payload.{Turn}
use free_cli.Chat.{Message, ChatBuffer, chat_add}
use free_cli.Chat.Buffer.{IsValid, Appends, chat_add-Appends}
use free_cli.Backend.{
  Sent, worker_start, worker_end, rep_final, rep_error, session_rename, stored, add_turns_to,
}

-- The call returns, and its result has the property.
unfoldable pub Yields {ℓ} : {A : Type ℓ} → (A → Type 0) → Outcome A → Type 0
Yields P (done a) = P a
Yields P rejected = ⊥
Yields P fault = ⊥

pub Yields-bind {ℓ κ} :
    {A : Type ℓ} {B : Type κ} (P : A → Type 0) (Q : B → Type 0) (m : Outcome A) (f : A → Outcome B)
    → Yields P m
    → ((a : A) → P a → Yields Q (f a))
    → Yields Q (m >>= f)
unfolding Yields
Yields-bind P Q (done a) f p k = k a p
Yields-bind P Q rejected f p k = absurd p
Yields-bind P Q fault f p k = absurd p

pub Yields-done {ℓ} : {A : Type ℓ} (P : A → Type 0) (a : A) → P a → Yields P (done a)
unfolding Yields
Yields-done P a p = p

-- Sub-queries under the request's id, each of which ends before the next begins.
pub data Queries (corr : ℕ) : List Sent → Type 0 where
  no_query : Queries corr []
  query :
      (sub : ℕ) (model text : List ℕ) {ms : List Sent}
      → Queries corr ms
      → Queries corr (worker_start sub corr model text ∷ worker_end sub ∷ ms)

pub Queries-append :
    (corr : ℕ) (xs ys : List Sent) → Queries corr xs → Queries corr ys → Queries corr (xs ++ ys)
Queries-append corr _ ys no_query q = q
Queries-append corr _ ys (query sub model text p) q =
    query sub model text (Queries-append corr _ ys p q)

-- One answer: an error, or sub-queries, the reply, and then at most one topic for the session.
pub data Answers (corr idx : ℕ) : List Sent → Type 0 where
  fails : (text : List ℕ) → Answers corr idx (rep_error text ∷ [])
  replies :
      {ms : List Sent} (content : List ℕ) (reasoning : Option (List ℕ))
      → Queries corr ms
      → Answers corr idx (ms ++ rep_final idx content reasoning ∷ [])
  names :
      {ms : List Sent} (content : List ℕ) (reasoning : Option (List ℕ)) (topic : List ℕ)
      → Queries corr ms
      → Answers corr idx (ms ++ rep_final idx content reasoning ∷ session_rename idx topic ∷ [])

pub stored-Yields :
    (cb : ChatBuffer) (m : Message) (r : Option ChatBuffer)
    → Appends cb m r
    → Yields IsValid (stored r)
unfolding Yields
stored-Yields cb m r a = let (cb', e, _, _, v) = a in rw e v

pub add_turns_to-Yields :
    (cb : ChatBuffer) (ts : List Turn) → IsValid cb → Yields IsValid (add_turns_to cb ts)
unfolding add_turns_to
add_turns_to-Yields cb [] v = unfold Yields in v
add_turns_to-Yields cb (t ∷ ts) v =
    Yields-bind IsValid IsValid (stored (chat_add cb t.text (not (t.is_user == 0)))) _
      (stored-Yields cb _ _ ((chat_add-Appends cb v).0 t.text (not (t.is_user == 0))))
      (λ cb' v'. add_turns_to-Yields cb' ts v')

pub if-Yields :
    {A : Type 0} (P : A → Type 0) (c : Bool) (x y : Outcome A)
    → Yields P x
    → Yields P y
    → Yields P (if c then x else y)
if-Yields P true x y p q = p
if-Yields P false x y p q = q

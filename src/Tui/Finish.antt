-- ===== src/Tui/Finish.antt =====
-- What the end of main of src/ui/main.c frees and then reads: chat_free of src/core/chat.c, and the
-- loops of persist_save_all and persist_save_session of src/ui/persist.c over what they read.
use free_cli.Base.{
  ℕ, zero, suc, ◌+◌, ◌<◌, ◌≡◌, refl, Bool, true, false, List, [], ◌∷◌, Option, none, some, arith,
  if◌then◌else◌, length, get_elem?,
}
use free_cli.Chat.{Message}
use free_cli.Session.{Session}
use free_cli.Fs.{bind}

-- A block of memory, with what it held last and whether it was not given back.
pub record Block (A : Type 0) : Type 0 where
  pub held : A
  pub live : Bool

-- A message in memory; a NULL string is a block with `none`, which is not read further.
pub record StoredMessage : Type 0 where
  pub text : Block (Option (List ℕ))
  pub is_user : Bool
  pub reasoning : Block (Option (List ℕ))

-- `count` stands in the session and not in the array that `msgs` points to.
pub record StoredChat : Type 0 where
  pub msgs : Block (List StoredMessage)
  pub count : ℕ

module _ {A : Type 0} where
  abbrev pub allocated : A → Block A
  allocated a = record { held = a; live = true }

  unfoldable pub give_back : Block A → Block A
  give_back b = record b { live = false }

  -- `none` is a read of memory that was given back.
  unfoldable pub read_block : Block A → Option A
  read_block b = if b.live then some b.held else none

unfoldable pub store_messages : List Message → List StoredMessage
store_messages [] = []
store_messages (m ∷ ms) =
    record { text = allocated m.text; is_user = m.is_user; reasoning = allocated m.reasoning }
    ∷ store_messages ms

unfoldable pub store_chats : List Session → List StoredChat
store_chats [] = []
store_chats (s ∷ ss) =
    record { msgs = allocated (store_messages s.chat.msgs); count = length s.chat.msgs }
    ∷ store_chats ss

unfoldable pub free_messages : List StoredMessage → List StoredMessage
free_messages [] = []
free_messages (m ∷ ms) =
    record m { text = give_back m.text; reasoning = give_back m.reasoning } ∷ free_messages ms

-- `count` and `msgs` keep their values.
unfoldable pub chat_free : StoredChat → StoredChat
chat_free cb = record cb { msgs = give_back (record cb.msgs { held = free_messages cb.msgs.held }) }

-- The loop over the first n sessions.
unfoldable pub free_chats : ℕ → List StoredChat → List StoredChat
free_chats n [] = []
free_chats zero (c ∷ cs) = c ∷ cs
free_chats (suc n) (c ∷ cs) = chat_free c ∷ free_chats n cs

-- What persist_save_session reads of a message: the reasoning only of an assistant's.
unfoldable pub read_message : StoredMessage → Option (List (Option (List ℕ)))
read_message m = bind (read_block m.text) (λ text.
    if m.is_user
    then some (text ∷ [])
    else bind (read_block m.reasoning) (λ reasoning. some (text ∷ reasoning ∷ [])))

-- The loop over `i < count`, with n turns left.
unfoldable pub read_messages : StoredChat → ℕ → ℕ → Option (List (List (Option (List ℕ))))
read_messages cb i zero = some []
read_messages cb i (suc n) = bind (read_block cb.msgs) (λ msgs. bind (get_elem? msgs i) (λ m.
    bind (read_message m)
      (λ texts. bind (read_messages cb (i + 1) n) (λ rest. some (texts ∷ rest)))))

-- The loop of persist_save_all over the first n sessions.
unfoldable pub read_chats : ℕ → List StoredChat → Option (List (List (List (Option (List ℕ)))))
read_chats n [] = some []
read_chats zero (c ∷ cs) = some []
read_chats (suc n) (c ∷ cs) =
    bind (read_messages c 0 c.count) (λ texts. bind (read_chats n cs) (λ rest. some (texts ∷ rest)))

-- A chat that was freed is read in vain if its count is not zero.
freed_chat : (cb : StoredChat) (n : ℕ) → 0 < n → read_messages (chat_free cb) 0 n ≡ none
unfolding read_messages chat_free give_back read_block
freed_chat cb zero h = absurd (omega arith)
freed_chat cb (suc n) h = refl

bind-nothing :
    {A B : Type 0} (x : Option A) (f : A → Option B) → ((a : A) → f a ≡ none) → bind x f ≡ none
bind-nothing none f h = refl
bind-nothing (some a) f h = h a

-- A session in use with a message stops the loop.
pub freed_session :
    (n i : ℕ) (ss : List Session) (s : Session)
    → i < n
    → get_elem? ss i ≡ some s
    → 0 < length s.chat.msgs
    → read_chats n (free_chats n (store_chats ss)) ≡ none
unfolding read_chats free_chats store_chats chat_free
freed_session n i [] s h e some_msg = absurd cc
freed_session zero i (t ∷ ts) s h e some_msg = absurd (omega arith)
freed_session (suc n) zero (t ∷ ts) s h e some_msg =
    let here : t ≡ s = ground arith in
    rw (freed_chat _ (length t.chat.msgs) (rw here some_msg)) refl
freed_session (suc n) (suc i) (t ∷ ts) s h e some_msg =
    let rest = freed_session n i ts s (omega arith) e some_msg in
    bind-nothing (read_messages _ 0 _) _ (λ texts. rw rest refl)

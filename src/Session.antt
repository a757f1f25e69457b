-- ===== src/Session.antt =====
-- The session manager of the terminal UI (src/ui/session.c, session.h).
pub mod Invariant
pub mod Refine
use free_cli.Base.{
  ℕ, zero, suc, ◌+◌, ◌-◌, ◌≤◌, Bool, true, false, List, [], ◌∷◌, Option, none, some, ltb, leb, ◌==◌,
  if◌then◌else◌, length, take, set, get_or, get_elem?, replicate, shift_down, ℤ, pos, negsuc, ◌+ℤ◌,
}
use free_cli.Chat.{ChatBuffer, chat_init}

abbrev pub max_sessions : ℕ
max_sessions = 32

pub record Session : Type 0 where
  pub id : ℕ
  pub name : List ℕ
  pub chat : ChatBuffer

-- `sessions` is the whole array; its first `count` elements are in use. `active` may be -1. The
-- ids are ints; a natural number stands for one as long as it is below 2 ^ 31, and an index file
-- with a negative id is not modelled.
pub record SessionManager : Type 0 where
  pub sessions : List Session
  pub count : ℕ
  pub active : ℤ
  pub next_id : ℕ

abbrev pub zero_session : Session
zero_session = record {
  id = 0;
  name = [];
  chat = record { msgs = []; capacity = 0; scroll = pos 0 };
}

unfoldable pub sm_init : SessionManager
sm_init = record {
  sessions = replicate max_sessions zero_session;
  count = 0;
  active = negsuc 0;
  next_id = 1;
}

-- strncpy(name, s, 63) into 64 bytes that end in a terminator.
abbrev pub copy_name : List ℕ → List ℕ
copy_name s = take 63 s

abbrev pub if_unset : ℤ → ℕ → ℤ
if_unset (pos a) idx = pos a
if_unset (negsuc zero) idx = pos idx
if_unset (negsuc (suc n)) idx = negsuc (suc n)

-- The new manager and the return value.
unfoldable pub sm_new_session : SessionManager → List ℕ → SessionManager × ℤ
unfolding chat_init
sm_new_session sm name = if leb max_sessions sm.count then (sm, negsuc 0) else (
  record {
    sessions =
        set sm.sessions sm.count
          (record { id = sm.next_id; name = copy_name name; chat = chat_init });
    count = sm.count + 1;
    active = if_unset sm.active sm.count;
    next_id = sm.next_id + 1;
  },
  pos sm.count,
)

-- `index >= 0 && index < count`
unfoldable pub in_range : ℤ → ℕ → Option ℕ
in_range (pos i) count = if ltb i count then some i else none
in_range (negsuc i) count = none

unfoldable pub sm_get : SessionManager → ℤ → Option Session
sm_get sm index = elim (in_range index sm.count) [ some i ↦ get_elem? sm.sessions i | none ↦ none ]

unfoldable pub sm_active_session : SessionManager → Option Session
sm_active_session sm = elim (in_range sm.active sm.count) [
  | some i ↦ get_elem? sm.sessions i
  | none ↦ none
]

unfoldable pub sm_select : SessionManager → ℤ → SessionManager
sm_select sm index = elim (in_range index sm.count) [
  | some i ↦ record sm { active = pos i }
  | none ↦ sm
]

-- The active index after the session at `i` is gone and `count` are left.
unfoldable pub active_after : ℤ → ℕ → ℕ → ℤ
active_after (negsuc a) i count = negsuc a
active_after (pos a) i count =
    if ltb i a
    then pos (a - 1)
    else if a == i
    then (if ltb i count then pos i else pos (count - 1))
    else pos a

unfoldable pub remove_valid : SessionManager → ℕ → SessionManager
remove_valid sm i =
    let count = sm.count - 1 in
    record sm {
      sessions = shift_down (count - i) i sm.sessions zero_session;
      count = count;
      active = if count == 0 then negsuc 0 else active_after sm.active i count;
    }

-- The new manager and the return value, which is the new active index.
unfoldable pub sm_remove : SessionManager → ℤ → SessionManager × ℤ
unfolding remove_valid
sm_remove sm index = elim (in_range index sm.count) [
  | none ↦ (sm, sm.active)
  | some i ↦ (remove_valid sm i, (remove_valid sm i).active)
]

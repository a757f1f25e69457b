-- ===== src/Tui.antt =====
-- The terminal UI's program (src/ui/main.c): its state, and what its parts give. Drawing is left
-- out, and with it the spinner's tick and the start time of a request, which are only drawn.
pub mod Requests
pub mod Choices
pub mod Submit
pub mod Delete
pub mod Command
pub mod Receive
pub mod Finish
pub mod Keys
pub mod Valid
pub mod Rename
use free_cli.Base.{
  ℕ, ◌+◌, Bool, true, List, [], ◌∷◌, ◌++◌, Option, none, some, take, ℤ, pos, negsuc, bytes,
}
use free_cli.Ipc.Frame.{IpcMsg}
use free_cli.Session.{SessionManager}
use free_cli.Input.{InputLine}

-- A request that waits for its answer; `depth` is 0 for one of the user and 1 for a sub-worker.
pub record InFlight : Type 0 where
  pub corr_id : ℕ
  pub parent_corr_id : ℕ
  pub depth : ℕ
  pub session_idx : ℤ
  pub name : List ℕ
  pub active : Bool

-- `n` is the length of the list.
pub record PendingChoices : Type 0 where
  pub session_idx : ℤ
  pub choices : List (List ℕ)
  pub selected : ℕ

-- The static variables; `connected` says that ipc_fd is valid.
pub record Ui : Type 0 where
  pub in_flight : List InFlight
  pub pending_choices : Option PendingChoices
  pub sessions : SessionManager
  pub input_line : InputLine
  pub focus : ℕ
  pub sidebar_sel : ℤ
  pub connected : Bool
  pub next_corr : ℕ
  pub selected_model : List ℕ
  pub selected_provider : List ℕ
  pub pending_approval_corr : ℕ
  pub pending_approval_desc : List ℕ

-- What goes out: persist_save_all and persist_save_session with the sessions that they are given,
-- persist_delete_session with the id, and a message.
pub data Output : Type 0 where
  wrote_all : SessionManager → Output
  wrote_session : SessionManager → ℤ → Output
  removed_file : ℕ → Output
  sent : IpcMsg → Output

-- The new state and the outputs in order; an encoder wrote behind its buffer, since its payload
-- takes 2^32 bytes; there was another access outside an array; or one to messages that chat_free had
-- given back, of which only the end of the program is a case.
pub data Turn : Type 0 where
  next : Ui → List Output → Turn
  too_large : Turn
  outside : Turn
  dangling : Turn

abbrev pub add_outputs : List Output → Turn → Turn
add_outputs es (next u fs) = next u (es ++ fs)
add_outputs es too_large = too_large
add_outputs es outside = outside
add_outputs es dangling = dangling

-- One step after the other.
abbrev pub and_then : Turn → (Ui → Turn) → Turn
and_then (next u es) f = add_outputs es (f u)
and_then too_large f = too_large
and_then outside f = outside
and_then dangling f = dangling

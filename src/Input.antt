-- ===== src/Input.antt =====
-- The input line of the terminal UI (src/ui/input.c, input.h). A key is an `int` that is not
-- negative; ncurses' key codes are a parameter, and so is isprint where C does not define it.
pub mod Edit
pub mod History
use free_cli.Base.{
  ℕ, zero, suc, ◌+◌, ◌-◌, ◌%◌, ◌≤◌, Bool, true, false, ◌&&◌, ◌||◌, List, [], ◌∷◌, ◌++◌, Option,
  none, some, ltb, leb, ◌==◌, if◌then◌else◌, length, take, drop, get_elem?,
}

abbrev pub input_max : ℕ
input_max = 1024

abbrev pub history_max : ℕ
history_max = 32

pub record Keys : Type 0 where
  pub key_enter : ℕ
  pub key_backspace : ℕ
  pub key_left : ℕ
  pub key_right : ℕ
  pub key_home : ℕ
  pub key_end : ℕ
  pub key_up : ℕ
  pub key_down : ℕ
  pub prints_beyond : ℕ → Bool

-- `buffer` holds the bytes before the terminator at `len`; `history` the entries in use.
pub record InputLine : Type 0 where
  pub buffer : List ℕ
  pub len : ℕ
  pub pos : ℕ
  pub history : List (List ℕ)
  pub hist_pos : ℕ

-- isprint of an unsigned char, of which the ASCII ones print.
unfoldable pub isprint : ℕ → Bool
isprint ch = leb b' ' ch && leb ch b'~'

-- The argument may be a key code of ncurses, above 255, for which C does not define isprint: then it
-- answers what `prints_beyond` says.
unfoldable pub prints : Keys → ℕ → Bool
prints k ch = if leb ch 255 then isprint ch else k.prints_beyond ch

unfoldable pub input_init : InputLine
input_init = record { buffer = []; len = 0; pos = 0; history = []; hist_pos = 0 }

unfoldable pub input_reset : InputLine → InputLine
input_reset l = record l { buffer = []; len = 0; pos = 0 }

unfoldable pub save_history : InputLine → InputLine
save_history l =
    if l.len == 0
    then l
    else let history =
        if ltb (length l.history) history_max then l.history ++ l.buffer ∷ [] else l.history in
      record l { history = history; hist_pos = length history }

-- memmove(&buffer[pos - 1], &buffer[pos], len - pos + 1)
unfoldable pub delete_before : InputLine → InputLine
delete_before l =
    if ltb 0 l.pos
    then record l {
      buffer = take (l.pos - 1) l.buffer ++ drop l.pos l.buffer;
      pos = l.pos - 1;
      len = l.len - 1;
    }
    else l

-- memmove(&buffer[pos + 1], &buffer[pos], len - pos + 1); buffer[pos++] = (char)ch; len++
unfoldable pub insert_char : InputLine → ℕ → InputLine
insert_char l ch = record l {
  buffer = take l.pos l.buffer ++ (ch % 256) ∷ drop l.pos l.buffer;
  pos = l.pos + 1;
  len = l.len + 1;
}

-- strcpy(buffer, entry); len = pos = strlen(buffer)
unfoldable pub recall : InputLine → ℕ → Option (List ℕ) → InputLine
recall l i none = record l { hist_pos = i }
recall l i (some entry) = record l {
  buffer = entry;
  len = length entry;
  pos = length entry;
  hist_pos = i;
}

unfoldable pub history_up : InputLine → InputLine
history_up l =
    if ltb 0 l.hist_pos then recall l (l.hist_pos - 1) (get_elem? l.history (l.hist_pos - 1)) else l

unfoldable pub history_down : InputLine → InputLine
history_down l =
    if ltb l.hist_pos (length l.history)
    then (if l.hist_pos + 1 == length l.history
        then record l { buffer = []; len = 0; pos = 0; hist_pos = l.hist_pos + 1 }
        else recall l (l.hist_pos + 1) (get_elem? l.history (l.hist_pos + 1)))
    else l

module _ (k : Keys) where
  open k use {key_enter, key_backspace, key_left, key_right, key_home, key_end, key_up, key_down}

  -- The new line and *submitted.
  unfoldable pub input_handle_key : InputLine → ℕ → InputLine × Bool
  input_handle_key l ch =
      if ch == 0x0A || ch == key_enter
      then (if ltb 0 l.len then (save_history l, true) else (l, false))
      else if ch == key_backspace || ch == 127
      then (delete_before l, false)
      else if ch == key_left
      then ((if ltb 0 l.pos then record l { pos = l.pos - 1 } else l), false)
      else if ch == key_right
      then ((if ltb l.pos l.len then record l { pos = l.pos + 1 } else l), false)
      else if ch == key_home
      then (record l { pos = 0 }, false)
      else if ch == key_end
      then (record l { pos = l.len }, false)
      else if ch == key_up
      then (history_up l, false)
      else if ch == key_down
      then (history_down l, false)
      else if prints k ch && ltb l.len (input_max - 1)
      then (insert_char l ch, false)
      else (l, false)

-- ===== src/Input/Edit.antt =====
-- What holds of every line that src/ui/input.c edits: no index leaves its array.
use free_cli.Base.{
  ◌%◌, ℕ, zero, suc, ◌+◌, ◌-◌, ◌≤◌, ◌<◌, ◌≡◌, refl, List, [], ◌∷◌, Option, none, some, arith, inl,
  inr, ltb, ◌==◌, length, length-append, length-take, length-drop, take, drop, get_elem?, All,
  All-append, Bool-cases,
}
use free_cli.Input.{
  Keys, InputLine, input_max, history_max, input_init, input_reset, save_history, delete_before,
  insert_char, recall, history_up, history_down, input_handle_key,
}

-- An entry of the history is not empty and fits its array.
abbrev pub IsEntry : List ℕ → Type 0
IsEntry s = (0 < length s) × (length s < input_max)

pub record IsValid (l : InputLine) : Type 0 where
  pub len_fits : length l.buffer ≡ l.len
  pub cursor : l.pos ≤ l.len
  pub bounded : l.len < input_max
  pub hist_cursor : l.hist_pos ≤ length l.history
  pub hist_bounded : length l.history ≤ history_max
  pub entries : All IsEntry l.history

pub input_init-IsValid : IsValid input_init
unfolding input_init
input_init-IsValid = record {
  len_fits = refl;
  cursor = omega arith;
  bounded = omega arith;
  hist_cursor = omega arith;
  hist_bounded = omega arith;
  entries = tt;
}

pub input_reset-IsValid : (l : InputLine) → IsValid l → IsValid (input_reset l)
unfolding input_reset
input_reset-IsValid l v = ground arith

pub save_history-IsValid : (l : InputLine) → IsValid l → IsValid (save_history l)
unfolding save_history
save_history-IsValid l v = elim (Bool-cases (l.len == 0)) [
  | inl e ↦ rw e v
  | inr e ↦ rw e (elim (Bool-cases (ltb (length l.history) history_max)) [
    | inl f ↦ rw f (record {
      len_fits = v.len_fits;
      cursor = v.cursor;
      bounded = v.bounded;
      hist_cursor = omega arith;
      hist_bounded = ground (arith, length-append l.history (l.buffer ∷ []));
      entries =
          All-append IsEntry l.history (l.buffer ∷ []) v.entries ((ground arith, ground arith), tt);
    })
    | inr f ↦ rw f (record {
      len_fits = v.len_fits;
      cursor = v.cursor;
      bounded = v.bounded;
      hist_cursor = omega arith;
      hist_bounded = v.hist_bounded;
      entries = v.entries;
    })
  ])
]

delete_before-IsValid : (l : InputLine) → IsValid l → IsValid (delete_before l)
unfolding delete_before
delete_before-IsValid l v = ground (
  arith,
  length-append (take (l.pos - 1) l.buffer) (drop l.pos l.buffer),
  length-take (l.pos - 1) l.buffer,
  length-drop l.pos l.buffer,
)

insert_char-IsValid :
    (l : InputLine) (ch : ℕ) → IsValid l → l.len < input_max - 1 → IsValid (insert_char l ch)
unfolding insert_char
insert_char-IsValid l ch v h = ground (
  arith,
  length-append (take l.pos l.buffer) ((ch % 256) ∷ drop l.pos l.buffer),
  length-take l.pos l.buffer,
  length-drop l.pos l.buffer,
)

All-get_elem? :
    (xs : List (List ℕ)) (i : ℕ) (x : List ℕ) → All IsEntry xs → get_elem? xs i ≡ some x → IsEntry x
All-get_elem? [] i x a e = cc
All-get_elem? (y ∷ ys) zero x a e = ground (arith, a.0)
All-get_elem? (y ∷ ys) (suc i) x a e = All-get_elem? ys i x a.1 e

recall-IsValid :
    (l : InputLine) (i : ℕ) (o : Option (List ℕ))
    → IsValid l
    → i ≤ length l.history
    → get_elem? l.history i ≡ o
    → IsValid (recall l i o)
unfolding recall
recall-IsValid l i none v h e = ground arith
recall-IsValid l i (some x) v h e = ground (arith, All-get_elem? l.history i x v.entries e)

history_up-IsValid : (l : InputLine) → IsValid l → IsValid (history_up l)
unfolding history_up
history_up-IsValid l v = elim (Bool-cases (ltb 0 l.hist_pos)) [
  | inl e ↦ rw e (recall-IsValid l (l.hist_pos - 1) _ v (omega arith) refl)
  | inr e ↦ rw e v
]

history_down-IsValid : (l : InputLine) → IsValid l → IsValid (history_down l)
unfolding history_down
history_down-IsValid l v = elim (Bool-cases (ltb l.hist_pos (length l.history))) [
  | inl e ↦ rw e (elim (Bool-cases (l.hist_pos + 1 == length l.history)) [
    | inl f ↦ rw f (ground arith)
    | inr f ↦ rw f (recall-IsValid l (l.hist_pos + 1) _ v (ground arith) refl)
  ])
  | inr e ↦ rw e v
]

cursor_at-IsValid : (l : InputLine) (p : ℕ) → IsValid l → p ≤ l.len → IsValid (record l { pos = p })
cursor_at-IsValid l p v h = record {
  len_fits = v.len_fits;
  cursor = h;
  bounded = v.bounded;
  hist_cursor = v.hist_cursor;
  hist_bounded = v.hist_bounded;
  entries = v.entries;
}

-- Every key keeps the line valid.
pub input_handle_key-IsValid :
    (k : Keys) (l : InputLine) (ch : ℕ) → IsValid l → IsValid (input_handle_key k l ch).0
unfolding input_handle_key
input_handle_key-IsValid k l ch v = ground (
  arith,
  save_history-IsValid l v,
  delete_before-IsValid l v,
  history_up-IsValid l v,
  history_down-IsValid l v,
  insert_char-IsValid l ch,
  cursor_at-IsValid l (l.pos - 1),
  cursor_at-IsValid l (l.pos + 1),
  cursor_at-IsValid l 0,
  cursor_at-IsValid l l.len,
)

-- A key press, and the reset that follows a submitted line.
pub data Event : Type 0 where
  key : ℕ → Event
  reset : Event

unfoldable pub run : Keys → InputLine → List Event → InputLine
run k l [] = l
run k l (key ch ∷ es) = run k (input_handle_key k l ch).0 es
run k l (reset ∷ es) = run k (input_reset l) es

-- ===== src/Tui/Keys/Quit.antt =====
-- The end of the program (main of src/ui/main.c).
use free_cli.Base.{
  ℕ, ◌<◌, ◌≡◌, ◌≢◌, refl, Option, none, Bool, true, false, ◌||◌, List, [], ◌∷◌, some, arith, ◌==◌,
  length, get_elem?, ℤ, inl, inr, Bool-cases,
}
use free_cli.Session.{Session}
use free_cli.Fs.{CJson}
use free_cli.Tui.{Ui, Output, Turn, dangling, add_outputs, and_then}
use free_cli.Tui.Keys.{
  LoopKeys, Event, tick, key, quit, saved, shut_down, run_on, sidebar_key, handle_key, handle_event,
  run,
}
use free_cli.Tui.Finish.{freed_session}
use free_cli.Tui.Valid.{IsValid, Ends, ends, outgrows}

abbrev pub asks_quit : List Event → Bool
asks_quit [] = false
asks_quit (tick r ∷ es) = asks_quit es
asks_quit (key ch picked ∷ es) = ch == b'q' || asks_quit es

-- A run ends as a turn does; if `q` is among its keys, it may read what was freed.
pub data RunEnds : Bool → Turn → Type 0 where
  stays : {q : Bool} {t : Turn} → Ends t → RunEnds q t
  frees : RunEnds true dangling

pub or_later : (b later : Bool) (t : Turn) → RunEnds later t → RunEnds (b || later) t
or_later true later t (stays e) = stays e
or_later true _ _ frees = frees
or_later false later t r = r

saved-RunEnds :
    (u : Ui) (texts : Option (List (List (List (Option (List ℕ))))))
    → IsValid u
    → RunEnds true (saved u texts)
unfolding saved
saved-RunEnds u none v = frees
saved-RunEnds u (some texts) v = stays (ends v)

pub shut_down-RunEnds : (u : Ui) → IsValid u → RunEnds true (shut_down u)
unfolding shut_down
shut_down-RunEnds u v = saved-RunEnds u _ v

add_outputs-RunEnds :
    (q : Bool) (outputs : List Output) (t : Turn) → RunEnds q t → RunEnds q (add_outputs outputs t)
add_outputs-RunEnds q outputs _ (stays (ends v)) = stays (ends v)
add_outputs-RunEnds q outputs _ (stays outgrows) = stays outgrows
add_outputs-RunEnds _ outputs _ frees = frees

pub and_then-RunEnds :
    (q : Bool) (t : Turn) (f : Ui → Turn)
    → Ends t
    → ((u : Ui) → IsValid u → RunEnds q (f u))
    → RunEnds q (and_then t f)
and_then-RunEnds q _ f (ends {u} {outputs} v) h = add_outputs-RunEnds q outputs (f u) (h u v)
and_then-RunEnds q _ f outgrows h = stays outgrows

-- `q` in the sidebar leaves the loop.
q-quit :
    {V : Type 0} (k : LoopKeys) (json : CJson V) (u : Ui) (picked : ℤ)
    → u.focus ≡ 0
    → b'q' ≢ k.key_resize
    → handle_key k json u b'q' picked ≡ quit
unfolding handle_key sidebar_key
q-quit k json u picked f r =
    let in_sidebar : (u.focus == 0) ≡ true = ground arith in
    let other : (b'q' == k.key_resize) ≡ false = ground arith in
    elim (Bool-cases (u.pending_approval_corr == 0)) [
      | inl z ↦ rw (other, z, in_sidebar) refl
      | inr z ↦ rw (other, z, in_sidebar) refl
    ]

-- If a session in use has a message, the key q in the sidebar, where it is not KEY_RESIZE, ends
-- the program with a read, by the loop of persist_save_session, of an array of messages that
-- chat_free gave back.
pub quit_reads_freed :
    {V : Type 0} (k : LoopKeys) (json : CJson V) (u : Ui) (picked : ℤ) (es : List Event) (i : ℕ)
    (s : Session)
    → u.focus ≡ 0
    → b'q' ≢ k.key_resize
    → i < u.sessions.count
    → get_elem? u.sessions.sessions i ≡ some s
    → 0 < length s.chat.msgs
    → run k json u (key b'q' picked ∷ es) ≡ dangling
unfolding run handle_event run_on shut_down saved
quit_reads_freed k json u picked es i s f r h e some_msg =
    let freed = freed_session u.sessions.count i u.sessions.sessions s h e some_msg in
    rw (q-quit k json u picked f r, freed) refl

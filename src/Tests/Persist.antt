-- ===== src/Tests/Persist.antt =====
-- Runs of src/ui/persist.c on a disk that is a list of files, with a JSON of trees.
use free_cli.Base.{
  ℕ, ◌≡◌, refl, sym, true, false, List, [], ◌∷◌, Option, none, some, arith, if◌then◌else◌,
  replicate, pos, str_eq, str_eq_refl, str_eq→eq, bytes, Bool-cases, inl, inr,
}
use mathlib.Core.List.{map}
use free_cli.Chat.{Message}
use free_cli.Session.{Session, SessionManager, sm_init, zero_session}
use free_cli.Session.Invariant.{IsValid, view}
use free_cli.Persist.{Files, Env, persist_load, persist_save_all}
use free_cli.Persist.Saved.{FilesLaws}
use free_cli.Persist.Load.{Fits, Loads, persist_load-Loads}
use free_cli.Tui.Keys as Keys
use free_cli.Tui.Keys.{start_ui, run}
use free_cli.Tui.Keys.Quit.{RunEnds}
use free_cli.Tui.Keys.Restart.{restart_valid}
use free_cli.Tests.Desk.{codes}
use free_cli.Persist.RoundTrip.{outline, stored, persist_load-persist_save_all}
use free_cli.Tests.Trees.{trees, trees_laws}

-- The files, the newest first.
abbrev Disk : Type 0
Disk = List (List ℕ × List ℕ)

read_disk : Disk → List ℕ → Option (List ℕ)
read_disk [] path = none
read_disk (f ∷ fs) path = let rest = read_disk fs path in if str_eq f.0 path then some f.1 else rest

without : Disk → List ℕ → Disk
without [] path = []
without (f ∷ fs) path = let rest = without fs path in if str_eq f.0 path then rest else f ∷ rest

abbrev disk : Files Disk
disk = record {
  read = read_disk;
  write = λ fs path out. (path, out) ∷ fs;
  remove = without;
  mkdir = λ fs dir. fs;
}

disk_laws : FilesLaws disk
unfolding read_disk
disk_laws = record {
  read-write_same = λ fs path out. rw (str_eq_refl path) refl;
  read-write_other = λ fs path out other n. elim (Bool-cases (str_eq path other)) [
    | inl e ↦ absurd (n (sym (str_eq→eq path other e)))
    | inr e ↦ rw e refl
  ];
  read-mkdir = λ fs dir path out e. e;
}

abbrev question : Message
question = record {
  text = some (bytes "hello");
  is_user = true;
  reasoning = none;
  tool_calls = [];
  tool_call_id = none;
}

abbrev answer : Message
answer = record {
  text = some (bytes "hi");
  is_user = false;
  reasoning = some (bytes "greet");
  tool_calls = [];
  tool_call_id = none;
}

abbrev work : Session
work = record {
  id = 3;
  name = bytes "work";
  chat = record { msgs = question ∷ answer ∷ []; capacity = 64; scroll = pos 0 };
}

abbrev home : Session
home = record {
  id = 7;
  name = bytes "home";
  chat = record { msgs = []; capacity = 0; scroll = pos 0 };
}

abbrev two : SessionManager
two = record {
  sessions = work ∷ home ∷ replicate 30 zero_session;
  count = 2;
  active = pos 1;
  next_id = 9;
}

two-IsValid : IsValid two
two-IsValid = record {
  slots = refl;
  within = omega arith;
  active_fits = omega arith;
  below = (omega arith, (omega arith, tt));
  distinct = (((λ e. omega arith), tt), (tt, tt));
}

abbrev env : Env
env = record { xdg = none; home = some (bytes "/home/me"); pw_dir = none }

persist_load-persist_save_all_example :
    (sm' : SessionManager) × (persist_load disk trees env
        (persist_save_all disk trees env [] two)
        sm_init
      ≡ some (sm', 2))
    × (map outline (view sm') ≡ map stored (view two))
    × (sm'.next_id ≡ 9)
    × Fits sm'
persist_load-persist_save_all_example =
    persist_load-persist_save_all disk trees disk_laws trees_laws env [] two two-IsValid
      (omega arith)

persist_load-Loads_example :
    Loads two 0 (persist_load disk trees env (persist_save_all disk trees env [] two) two)
unfolding bytes
persist_load-Loads_example =
    persist_load-Loads disk trees env (persist_save_all disk trees env [] two) two (record {
      slots = refl;
      within = omega arith;
      active_fits = omega arith;
      chats = omega arith;
      names = omega arith;
    })

restart_valid_example :
    (sm' : SessionManager) × (persist_load disk trees env
        (persist_save_all disk trees env [] two)
        sm_init
      ≡ some (sm', 2))
    × (map outline (view sm') ≡ map stored (view two))
    × RunEnds true
        (run codes trees (start_ui (sm', 2)) (Keys.key 9 (pos 0) ∷ Keys.key 113 (pos 0) ∷ []))
restart_valid_example =
    restart_valid disk trees disk_laws trees_laws env [] two codes
      (Keys.key 9 (pos 0) ∷ Keys.key 113 (pos 0) ∷ []) two-IsValid (omega arith) (tt, (tt, tt))

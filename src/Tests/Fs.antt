-- ===== src/Tests/Fs.antt =====
-- Runs of the file worker of src/workers/fs_worker.c, in a sandbox /r that may hold one file, /r/a.
use free_cli.Base.{
  ℕ, ◌≡◌, refl, true, false, List, [], ◌∷◌, ◌++◌, Option, none, some, if◌then◌else◌, str_eq, bytes,
}
use free_cli.Worker.{BusMsg}
use free_cli.Fs.{FileOs, CJson, slash, strip_slashes, fs_resolve, fs_max_read}
use free_cli.Fs.Operations.{Answer}

abbrev root : List ℕ
root = 47 ∷ 114 ∷ []

abbrev file : List ℕ
file = 47 ∷ 114 ∷ 47 ∷ 97 ∷ []

abbrev found : {A : Type 0} → Option (List ℕ) → A → Option A
found none a = none
found (some content) a = some a

-- A state is the content of /r/a, if it exists.
abbrev pub one_file : FileOs (Option (List ℕ))
one_file = record {
  realpath = λ fs p. if str_eq p root then some p else if str_eq p file then found fs p else none;
  stat = λ fs p. if str_eq p file then found fs (false, 1) else none;
  read = λ fs p. if str_eq p file then fs else none;
  opendir = λ fs p. if str_eq p root then some ((97 ∷ []) ∷ []) else none;
  write = λ fs p content. if str_eq p file then (some content, true) else (fs, false);
  remove = λ fs p. if str_eq p file then (none, true) else (fs, false);
}

-- Arguments whose path is "a" and whose content is "n".
abbrev a_json : CJson (List ℕ)
a_json = record {
  parse = λ text. some text;
  item =
      λ v key. if str_eq key (112 ∷ 97 ∷ 116 ∷ 104 ∷ []) then some (97 ∷ []) else some (110 ∷ []);
  string_of = λ v. some v;
  create_object = [];
  number_of = λ v. none;
  children = λ v. [];
  create_array = [];
  add_string = λ v key s. v ++ s;
  add_number = λ v key n. v ++ n ∷ [];
  add_item = λ v key w. v ++ w;
  add_element = λ v w. v ++ w;
  print = λ v. v;
}

abbrev modify : BusMsg
modify = record { corr_id = 9; worker_type = 1; op = bytes "modify_file"; args_json = some [] }

abbrev yes : Answer (Option (List ℕ))
yes = record { claimed = true; granted = true; freed = 120 ∷ []; after = some (111 ∷ []) }

abbrev no : Answer (Option (List ℕ))
no = record { claimed = true; granted = false; freed = 120 ∷ []; after = some (111 ∷ []) }

resolved : fs_resolve one_file (some (111 ∷ [])) root (97 ∷ []) false ≡ some file
unfolding fs_resolve free_cli.Fs.strip_slashes free_cli.Fs.join_path free_cli.Fs.enforce
    free_cli.Fs.inside str_eq
resolved = refl

created : fs_resolve one_file none root (97 ∷ []) true ≡ some file
unfolding fs_resolve free_cli.Fs.resolve_parent free_cli.Fs.split_last_slash free_cli.Fs.is_plain
    free_cli.Fs.has_slash free_cli.Fs.strip_slashes free_cli.Fs.join_path free_cli.Fs.enforce
    free_cli.Fs.inside str_eq
created = refl

-- ".." above the sandbox is turned away.
escape : fs_resolve one_file none root (46 ∷ 46 ∷ []) false ≡ none
unfolding fs_resolve free_cli.Fs.strip_slashes free_cli.Fs.join_path str_eq
escape = refl

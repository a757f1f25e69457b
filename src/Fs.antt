-- ===== src/Fs.antt =====
-- The sandboxed file worker (src/workers/fs_worker.c). The file system and cJSON are parameters: a
-- state of the file system is a value of `F`, and a JSON value one of `V`.

pub mod Resolve
pub mod Operations
use free_cli.Base.{
  ℕ, zero, suc, ◌+◌, ◌*◌, ◌≤◌, ◌<◌, Bool, true, false, not, ◌&&◌, ◌||◌, List, [], ◌∷◌, ◌++◌, Option,
  none, some, ltb, leb, ◌==◌, if◌then◌else◌, length, take, str_eq, bytes,
}

abbrev pub fs_path_max : ℕ
fs_path_max = 4096

abbrev pub fs_max_read : ℕ
fs_max_read = 512 * 1024

abbrev pub slash : ℕ
slash = 47

-- The calls on the file system: `stat` gives whether the path is a directory and its size, `read`
-- what fopen, ftell and fread give, and `write` and `remove` whether they succeed.
pub record FileOs (F : Type 0) : Type 0 where
  pub realpath : F → List ℕ → Option (List ℕ)
  pub stat : F → List ℕ → Option (Bool × ℕ)
  pub read : F → List ℕ → Option (List ℕ)
  pub opendir : F → List ℕ → Option (List (List ℕ))
  pub write : F → List ℕ → List ℕ → F × Bool
  pub remove : F → List ℕ → F × Bool

-- The calls of cJSON; `string_of` is cJSON_IsString with the valuestring, `number_of` cJSON_IsNumber
-- with the valuedouble as an int that is not negative, and `children` what cJSON_ArrayForEach visits.
pub record CJson (V : Type 0) : Type 0 where
  pub parse : List ℕ → Option V
  pub item : V → List ℕ → Option V
  pub string_of : V → Option (List ℕ)
  pub number_of : V → Option ℕ
  pub children : V → List V
  pub create_object : V
  pub create_array : V
  pub add_string : V → List ℕ → List ℕ → V
  pub add_number : V → List ℕ → ℕ → V
  pub add_item : V → List ℕ → V → V
  pub add_element : V → V → V
  pub print : V → List ℕ

-- while (*requested == '/') requested++
unfoldable pub strip_slashes : List ℕ → List ℕ
strip_slashes [] = []
strip_slashes (c ∷ cs) = let rest = strip_slashes cs in if c == slash then rest else c ∷ cs

abbrev pub split_here : ℕ → List ℕ → Option (List ℕ × List ℕ)
split_here c cs = if c == slash then some ([], cs) else none

-- strrchr(s, '/'): what stands before the last slash and what stands behind it.
unfoldable pub split_last_slash : List ℕ → Option (List ℕ × List ℕ)
split_last_slash [] = none
split_last_slash (c ∷ cs) = elim (split_last_slash cs) [
  | some (dir, base) ↦ some (c ∷ dir, base)
  | none ↦ split_here c cs
]

-- strchr(s, '/') != NULL
unfoldable pub has_slash : List ℕ → Bool
has_slash [] = false
has_slash (c ∷ cs) = c == slash || has_slash cs

abbrev pub dot : List ℕ
dot = 46 ∷ []

abbrev pub dot_dot : List ℕ
dot_dot = 46 ∷ 46 ∷ []

-- The names that may be created.
unfoldable pub is_plain : List ℕ → Bool
is_plain base = not (length base == 0 || str_eq base dot || str_eq base dot_dot || has_slash base)

-- strncmp(path, root, strlen(root)) == 0, and then '/' or the end.
unfoldable pub inside : List ℕ → List ℕ → Bool
inside [] [] = true
inside [] (c ∷ cs) = c == slash
inside (r ∷ rs) [] = false
inside (r ∷ rs) (c ∷ cs) = r == c && inside rs cs

-- snprintf("%s/%s") into a buffer of FS_PATH_MAX bytes, or NULL where it does not fit.
unfoldable pub join_path : List ℕ → List ℕ → Option (List ℕ)
join_path dir name =
    let path = dir ++ slash ∷ name in if leb fs_path_max (length path) then none else some path

abbrev pub bind : {A B : Type 0} → Option A → (A → Option B) → Option B
bind none f = none
bind (some a) f = f a

unfoldable pub enforce : List ℕ → List ℕ → Option (List ℕ)
enforce root resolved = if inside root resolved then some resolved else none

module _ {F : Type 0} (os : FileOs F) where
  unfoldable pub resolve_parent : F → List ℕ → Option (List ℕ)
  resolve_parent fs cand = bind (split_last_slash cand) (λ (parts : List ℕ × List ℕ).
      if is_plain parts.1
      then bind (os.realpath fs parts.0) (λ par. join_path par parts.1)
      else none)

  unfoldable pub fs_resolve : F → List ℕ → List ℕ → Bool → Option (List ℕ)
  fs_resolve fs root requested for_create =
      let path = strip_slashes requested in
      if length path == 0
      then some root
      else bind (join_path root path) (λ cand.
        bind (if for_create then resolve_parent fs cand else os.realpath fs cand)
          (λ resolved. enforce root resolved))

unfoldable pub skip_slash : List ℕ → List ℕ
skip_slash [] = []
skip_slash (c ∷ cs) = if c == slash then cs else c ∷ cs

unfoldable pub dot_if_empty : List ℕ → List ℕ
dot_if_empty [] = dot
dot_if_empty (c ∷ cs) = c ∷ cs

-- abs_path + strlen(root), if the root is a prefix.
unfoldable pub after_prefix : List ℕ → List ℕ → Option (List ℕ)
after_prefix [] path = some path
after_prefix (r ∷ rs) [] = none
after_prefix (r ∷ rs) (c ∷ cs) = if r == c then after_prefix rs cs else none

unfoldable pub fs_rel : List ℕ → List ℕ → List ℕ
fs_rel root path = elim (after_prefix root path) [
  | none ↦ path
  | some rest ↦ dot_if_empty (skip_slash rest)
]

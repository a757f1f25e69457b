-- ===== src/Tui/Rename.antt =====
-- How the UI names a session by its topic (check_ipc of src/ui/main.c).
use free_cli.Base.{
  ℕ, Bool, false, not, ◌&&◌, List, [], ◌∷◌, ◌++◌, Option, none, some, ltb, ◌==◌, if◌then◌else◌,
  take, set, get_elem?, str_eq, bytes,
}
use free_cli.Ipc.Wire.{Outcome, done, rejected, fault}
use free_cli.Ipc.Payload.{SessionRename}
use free_cli.Session.{Session, in_range}
use free_cli.Commands.{decimal}
use free_cli.Fs.{after_prefix}
use free_cli.Tui.Submit.{int_of}
use free_cli.Tui.{Ui, wrote_all, Turn, next, outside}
use free_cli.Tui.Choices.{read_number}

-- Whether decimal digits are those of an int below the bound.
unfoldable pub is_decimal : ℕ → List ℕ → Bool
is_decimal bound ds = let n = (read_number 0 0 ds).0 in str_eq (decimal n) ds && ltb n bound

unfoldable pub is_int : List ℕ → Bool
is_int [] = false
is_int (c ∷ cs) =
    if c == b'-'
    then is_decimal 2147483649 cs && not (str_eq cs (b'0' ∷ []))
    else is_decimal 2147483648 (c ∷ cs)

-- sscanf(name, "Chat %d", &n) gives 1, and the name is "Chat %d" of that n.
unfoldable pub is_default_name : List ℕ → Bool
is_default_name name = elim (after_prefix (bytes "Chat ") name) [
  | none ↦ false
  | some rest ↦ is_int rest
]

-- snprintf("#%d %s") into 64 bytes.
unfoldable pub topic_name : ℕ → List ℕ → List ℕ
topic_name id topic = take 63 (b'#' ∷ (decimal id ++ b' ' ∷ topic))

unfoldable pub rename_at : Ui → ℕ → List ℕ → Option Session → Turn
rename_at u i topic none = next u []
rename_at u i topic (some s) =
    let named = record s { name = topic_name s.id topic } in
    let sm = record u.sessions { sessions = set u.sessions.sessions i named } in
    if is_default_name s.name
    then next (record u { sessions = sm }) (wrote_all sm ∷ [])
    else next u []

unfoldable pub rename_in : Ui → List ℕ → Option ℕ → Turn
rename_in u topic none = next u []
rename_in u topic (some i) = rename_at u i topic (get_elem? u.sessions.sessions i)

unfoldable pub rename_to : Ui → ℕ → Option (List ℕ) → Turn
rename_to u sidx none = next u []
rename_to u sidx (some []) = next u []
rename_to u sidx (some (c ∷ cs)) = rename_in u (c ∷ cs) (in_range (int_of sidx) u.sessions.count)

unfoldable pub on_session_rename : Ui → Outcome SessionRename → Turn
on_session_rename u rejected = next u []
on_session_rename u fault = outside
on_session_rename u (done r) = rename_to u r.session_idx r.topic

-- ===== src/Tests/Files.antt =====
-- A /fs line from the input line of src/ui/main.c to the file worker, with a JSON of trees.
use free_cli.Base.{
  ℕ, ◌≡◌, refl, true, List, [], ◌∷◌, none, some, arith, pos, str_eq, bytes, utf8, if◌then◌else◌,
}
use free_cli.Ipc.Frame.{IpcMsg}
use free_cli.Worker.{BackendWorker, BusMsg, spawned}
use free_cli.Commands.{backend_op, backend_type_filesystem, fs_args}
use free_cli.Backend.Loop.{on_message, to_worker}
use free_cli.Fs.Operations.{string_arg}
use free_cli.Tui.{Ui, next, sent}
use free_cli.Tui.Command.{submit_message}
use free_cli.Tui.Command.Arguments.{takes_content}
use free_cli.Tui.Command.Files.{fs_line_dispatched}
use free_cli.Session.{in_range, sm_active_session}
use free_cli.Tests.Fs.{one_file}
use free_cli.Tests.Tui.{asking, asking-IsValid}
use free_cli.Tests.Desk.{work}
use free_cli.Tests.Trees.{trees, trees_laws, show, add_last}

abbrev file_worker : BackendWorker
file_worker = record { type = backend_type_filesystem; name = bytes "fs" }

abbrev other_worker : BackendWorker
other_worker = record { type = 1; name = bytes "web" }

abbrev read_op : List ℕ
read_op = bytes "read_file"

-- The line "/fs read a b", and a registry whose second worker is the one for files.
fs_line_dispatched_example :
    (m : IpcMsg) × (u' : Ui) × (msg : BusMsg) × (submit_message trees asking (pos 0)
      ≡ next u' (sent m ∷ []))
    × (on_message (other_worker ∷ file_worker ∷ []) true [] m ≡ to_worker (spawned file_worker msg))
    × (msg.corr_id ≡ 6)
    × (msg.op ≡ read_op)
    × (string_arg one_file trees [] msg (bytes "path") ≡ some (97 ∷ []))
    × (string_arg one_file trees [] msg (bytes "content")
        ≡ (if takes_content read_op then some (98 ∷ []) else none))
unfolding bytes utf8 str_eq backend_op sm_active_session in_range fs_args show add_last
fs_line_dispatched_example =
    fs_line_dispatched one_file trees [] (other_worker ∷ []) [] file_worker [] asking work
      (bytes "read") (97 ∷ []) (98 ∷ []) read_op (pos 0) trees_laws ((λ e. omega arith), tt) refl
      asking-IsValid refl refl refl (omega arith) refl (refl, (refl, (refl, (refl, tt)))) (refl, tt)
      refl (omega arith) (omega arith) (omega arith) (omega arith)

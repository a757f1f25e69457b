-- ===== src/Tui/Command/Arguments.antt =====
-- The arguments that a /fs line of src/ui/commands.c sends, as src/workers/fs_worker.c reads them.
use free_cli.Base.{
  ℕ, ◌≡◌, refl, ◌∙◌, Bool, true, false, ◌||◌, List, [], ◌∷◌, Option, none, some, str_eq, bytes,
  utf8, if◌then◌else◌,
}
use free_cli.Ipc.Payload.Fields.{received}
use free_cli.Fs.{CJson, FileOs, bind}
use free_cli.Fs.Operations.{string_arg}
use free_cli.Worker.{BusMsg}
use free_cli.Commands.{fs_args}
use free_cli.Persist.Json.{CJsonLaws}

-- Whether the operation takes a content.
abbrev pub takes_content : List ℕ → Bool
takes_content op = str_eq op (bytes "create_file") || str_eq op (bytes "modify_file")

module _ {F V : Type 0} (os : FileOs F) (json : CJson V) (laws : CJsonLaws json)
    (root : List ℕ) where
  open laws use {
    text, string_of-text, parse-print, parse_empty, item-create_object, item-add_string,
  }

  -- The text of a value is not empty, so that it arrives and gives the value back.
  parse-received :
      {B : Type 0} (xs : List ℕ) (v : V) (f : V → Option B)
      → json.parse xs ≡ some v
      → bind (received (some xs)) (λ t. bind (json.parse t) f) ≡ f v
  parse-received [] v f h = absurd cc
  parse-received (c ∷ cs) v f h = rw h refl

  -- The object that is printed.
  abbrev sent_args : List ℕ → List ℕ → Bool → V
  sent_args p c has_content =
      let args = json.add_string json.create_object (bytes "path") p in
      if has_content then json.add_string args (bytes "content") c else args

  read_arg :
      (op w p c : List ℕ) (msg : BusMsg) (key : List ℕ)
      → msg.args_json
        ≡ received (some (fs_args json op (record { op_name = w; path = p; content = c })))
      → string_arg os json root msg key
        ≡ bind (json.item (sent_args p c (takes_content op)) key) json.string_of
  unfolding string_arg fs_args
  read_arg op w p c msg key e =
      rw e (parse-received _ (sent_args p c (takes_content op)) _ (parse-print _))

  path_arg :
      (p c : List ℕ) (b : Bool)
      → bind (json.item (sent_args p c b) (bytes "path")) json.string_of ≡ some p
  unfolding bytes utf8 str_eq
  path_arg p c true = rw (item-add_string, item-add_string, item-create_object) (string_of-text p)
  path_arg p c false = rw (item-add_string, item-create_object) (string_of-text p)

  content_arg :
      (p c : List ℕ) (b : Bool)
      → bind (json.item (sent_args p c b) (bytes "content")) json.string_of
        ≡ (if b then some c else none)
  unfolding bytes utf8 str_eq
  content_arg p c true =
      rw (item-add_string, item-add_string, item-create_object) (string_of-text c)
  content_arg p c false = rw (item-add_string, item-create_object) refl

  -- The worker reads the path as it was sent, and the content if the operation takes one.
  pub string_arg-fs_args :
      (op w p c : List ℕ) (msg : BusMsg)
      → msg.args_json
        ≡ received (some (fs_args json op (record { op_name = w; path = p; content = c })))
      → (string_arg os json root msg (bytes "path") ≡ some p)
        × (string_arg os json root msg (bytes "content")
            ≡ (if takes_content op then some c else none))
  string_arg-fs_args op w p c msg e = (
    read_arg op w p c msg (bytes "path") e ∙ path_arg p c (takes_content op),
    read_arg op w p c msg (bytes "content") e ∙ content_arg p c (takes_content op),
  )

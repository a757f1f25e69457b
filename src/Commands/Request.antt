-- ===== src/Commands/Request.antt =====
-- The request that a /fs line of src/ui/commands.c makes.
use free_cli.Base.{
  ℕ, zero, suc, ◌+◌, ◌≤◌, ◌<◌, ◌≡◌, refl, ap, sym, ◌∙◌, subst, Bool, true, false, ◌||◌, List, [],
  ◌∷◌, ◌++◌, Option, none, some, arith, ◌==◌, if◌then◌else◌, length, take, drop, length-append,
  take_all, drop-append, take-append, append_assoc, All, bytes, str_eq, ℤ, inl, inr, ◌⊎◌,
  Bool-cases,
}
use free_cli.Fs.{CJson, after_prefix}
use free_cli.Commands.{
  Effect, draw, send_worker_req, CmdCtx, Handled, handled, overrun, said, system_msg, skip_spaces,
  split_word, backend_op, backend_type_filesystem, FsLine, fs_line, fs_args, cmd_fs_op, cmd_fs_line,
  cmd_fs, cmd_word, cmd_dispatch,
}

-- A word holds no space.
abbrev pub IsWord : List ℕ → Type 0
IsWord s = All (λ c. (c == b' ') ≡ false) s

-- A text that does not begin with a space.
abbrev pub StartsPlain : List ℕ → Type 0
StartsPlain [] = Unit {0}
StartsPlain (c ∷ cs) = (c == b' ') ≡ false

split_word_space : (w rest : List ℕ) → IsWord w → split_word (w ++ b' ' ∷ rest) ≡ (w, b' ' ∷ rest)
unfolding split_word
split_word_space [] rest h = refl
split_word_space (c ∷ w) rest h =
    rw (h.0) (ap (λ (r : List ℕ × List ℕ). (c ∷ r.0, r.1)) (split_word_space w rest h.1))

skip_spaces_plain : (s : List ℕ) → StartsPlain s → skip_spaces s ≡ s
unfolding skip_spaces
skip_spaces_plain [] h = refl
skip_spaces_plain (c ∷ cs) h = rw h refl

skip_spaces_one : (s : List ℕ) → StartsPlain s → skip_spaces (b' ' ∷ s) ≡ s
unfolding skip_spaces
skip_spaces_one s h = skip_spaces_plain s h

StartsPlain-word : (w rest : List ℕ) → IsWord w → 0 < length w → StartsPlain (w ++ rest)
StartsPlain-word [] rest h n = absurd (omega arith)
StartsPlain-word (c ∷ w) rest h n = h.0

fs_line_split :
    (w p c : List ℕ)
    → IsWord w
    → IsWord p
    → StartsPlain c
    → 0 < length p
    → length w ≤ 31
    → length p ≤ 1023
    → fs_line (w ++ b' ' ∷ (p ++ b' ' ∷ c)) ≡ record { op_name = w; path = p; content = c }
unfolding fs_line
fs_line_split w p c hw hp hc np lw lp = rw (
  split_word_space w (p ++ b' ' ∷ c) hw,
  skip_spaces_one (p ++ b' ' ∷ c) (StartsPlain-word p (b' ' ∷ c) hp np),
  split_word_space p c hp,
  take_all 31 w lw,
  take_all 1023 p lp,
  drop-append p (b' ' ∷ c),
  skip_spaces_one c hc,
)

module _ {V : Type 0} (json : CJson V) where
  -- No other command begins like "/fs ".
  fs_command :
      (ctx : CmdCtx) (rest : List ℕ) (picked : ℤ)
      → cmd_dispatch json ctx (some (bytes "/fs " ++ rest)) picked
        ≡ cmd_fs json ctx (some (b' ' ∷ rest))
  unfolding cmd_dispatch cmd_word after_prefix bytes free_cli.Base.utf8 free_cli.Commands.ends_word
      free_cli.Commands.argument
  fs_command ctx rest picked = refl

  cmd_fs_words :
      (ctx : CmdCtx) (w rest : List ℕ)
      → ctx.has_worker_req ≡ true
      → IsWord w
      → 0 < length w
      → cmd_fs json ctx (some (b' ' ∷ (w ++ rest))) ≡ cmd_fs_line json ctx (w ++ rest)
  unfolding cmd_fs
  cmd_fs_words ctx w rest r h n =
      rw (r, skip_spaces_one (w ++ rest) (StartsPlain-word w rest h n)) refl

  cmd_fs_line_parsed :
      (ctx : CmdCtx) (w rest : List ℕ)
      → 0 < length w
      → cmd_fs_line json ctx (w ++ rest)
        ≡ cmd_fs_op json ctx (fs_line (w ++ rest)) (backend_op (fs_line (w ++ rest)).op_name)
  unfolding cmd_fs_line
  cmd_fs_line_parsed ctx [] rest n = absurd (omega arith)
  cmd_fs_line_parsed ctx (c ∷ w) rest n = refl

  -- A line "/fs <op> <path> <content>" with a known operation of at most 31 bytes, a path of 1 to
  -- 1023 bytes without spaces, and a content that does not begin with one, sends, where the
  -- callback is set, exactly one request, to the file worker, with the operation's name there, the
  -- path and (for create and write) the content as they stand in the line, and the screen is drawn
  -- once.
  pub fs_request :
      (ctx : CmdCtx) (w p c op : List ℕ) (picked : ℤ)
      → ctx.has_worker_req ≡ true
      → backend_op w ≡ some op
      → IsWord w
      → IsWord p
      → StartsPlain c
      → 0 < length w
      → 0 < length p
      → length w ≤ 31
      → length p ≤ 1023
      → (text : List ℕ) × (cmd_dispatch json ctx
            (some (bytes "/fs " ++ (w ++ b' ' ∷ (p ++ b' ' ∷ c))))
            picked
          ≡ said ctx
              (send_worker_req backend_type_filesystem op
                  (fs_args json op (record { op_name = w; path = p; content = c }))
                ∷ draw
                ∷ [])
              (system_msg ctx.sessions text))
  unfolding cmd_fs_op
  fs_request ctx w p c op picked r b hw hp hc nw np lw lp = (
    _,
    fs_command ctx (w ++ b' ' ∷ (p ++ b' ' ∷ c)) picked
        ∙ cmd_fs_words ctx w (b' ' ∷ (p ++ b' ' ∷ c)) r hw nw
        ∙ cmd_fs_line_parsed ctx w (b' ' ∷ (p ++ b' ' ∷ c)) nw
        ∙ ap (λ (l : FsLine). cmd_fs_op json ctx l (backend_op l.op_name))
            (fs_line_split w p c hw hp hc np lw lp)
        ∙ ap (cmd_fs_op json ctx (record { op_name = w; path = p; content = c })) b,
  )

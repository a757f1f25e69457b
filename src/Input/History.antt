-- ===== src/Input/History.antt =====
-- Typing, sending and recalling a line (src/ui/input.c).
use free_cli.Base.{
  ◌%◌, leb, ℕ, zero, suc, ◌+◌, ◌-◌, ◌≤◌, ◌<◌, ◌≡◌, ◌≢◌, refl, ap, subst, ◌∙◌, true, false, List, [],
  ◌∷◌, ◌++◌, some, arith, ◌==◌, length, length-append, drop, take_all, append-nil, append_assoc,
  get_elem?, All, lt→ltb, ==_refl,
}
use free_cli.Input.{
  Keys, InputLine, input_max, history_max, isprint, prints, input_reset, save_history, insert_char,
  recall, history_up, input_handle_key,
}
use free_cli.Input.Edit.{IsValid, run, Event, key, reset, input_handle_key-IsValid}

-- The key codes lie above the bytes, and those before KEY_UP in the handler are other codes.
pub record HasCodes (k : Keys) : Type 0 where
  pub enter_above : 255 < k.key_enter
  pub backspace_above : 255 < k.key_backspace
  pub left_above : 255 < k.key_left
  pub right_above : 255 < k.key_right
  pub home_above : 255 < k.key_home
  pub end_above : 255 < k.key_end
  pub up_above : 255 < k.key_up
  pub down_above : 255 < k.key_down
  pub up_ne_enter : k.key_up ≢ k.key_enter
  pub up_ne_backspace : k.key_up ≢ k.key_backspace
  pub up_ne_left : k.key_up ≢ k.key_left
  pub up_ne_right : k.key_up ≢ k.key_right
  pub up_ne_home : k.key_up ≢ k.key_home
  pub up_ne_end : k.key_up ≢ k.key_end

abbrev pub IsPrintable : ℕ → Type 0
IsPrintable ch = isprint ch ≡ true

==-false : (a b : ℕ) → a ≢ b → (a == b) ≡ false
==-false a b h = ground arith

printable_bounds : (ch : ℕ) → IsPrintable ch → (32 ≤ ch) × (ch ≤ 126)
unfolding isprint
printable_bounds ch p = ground arith

printable_prints : (k : Keys) (ch : ℕ) → IsPrintable ch → prints k ch ≡ true
unfolding prints
printable_prints k ch p =
    let (lo, hi) = printable_bounds ch p in
    let char : leb ch 255 ≡ true = ground arith in rw (char, p)

printable_key :
    (k : Keys) (l : InputLine) (ch : ℕ)
    → HasCodes k
    → IsPrintable ch
    → l.len < 1023
    → input_handle_key k l ch ≡ (insert_char l ch, false)
unfolding input_handle_key
printable_key k l ch c p h =
    let (lo, hi) = printable_bounds ch p in
    rw (
      ==-false ch 0x0A (λ e. omega arith),
      ==-false ch k.key_enter (λ e. omega (arith, c.enter_above)),
      ==-false ch k.key_backspace (λ e. omega (arith, c.backspace_above)),
      ==-false ch 127 (λ e. omega arith),
      ==-false ch k.key_left (λ e. omega (arith, c.left_above)),
      ==-false ch k.key_right (λ e. omega (arith, c.right_above)),
      ==-false ch k.key_home (λ e. omega (arith, c.home_above)),
      ==-false ch k.key_end (λ e. omega (arith, c.end_above)),
      ==-false ch k.key_up (λ e. omega (arith, c.up_above)),
      ==-false ch k.key_down (λ e. omega (arith, c.down_above)),
      printable_prints k ch p,
      lt→ltb l.len 1023 h,
    )

enter_key :
    (k : Keys) (l : InputLine) → 0 < l.len → input_handle_key k l 0x0A ≡ (save_history l, true)
unfolding input_handle_key
enter_key k l h = rw (lt→ltb 0 l.len h)

up_key :
    (k : Keys) (l : InputLine) → HasCodes k → input_handle_key k l k.key_up ≡ (history_up l, false)
unfolding input_handle_key
up_key k l c = rw (
  ==-false k.key_up 0x0A (λ e. omega (arith, c.up_above)),
  ==-false k.key_up k.key_enter c.up_ne_enter,
  ==-false k.key_up k.key_backspace c.up_ne_backspace,
  ==-false k.key_up 127 (λ e. omega (arith, c.up_above)),
  ==-false k.key_up k.key_left c.up_ne_left,
  ==-false k.key_up k.key_right c.up_ne_right,
  ==-false k.key_up k.key_home c.up_ne_home,
  ==-false k.key_up k.key_end c.up_ne_end,
  ==_refl k.key_up,
)

drop_all {ℓ} : {A : Type ℓ} (n : ℕ) (xs : List A) → length xs ≤ n → drop n xs ≡ []
drop_all zero [] h = refl
drop_all zero (x ∷ xs) h = absurd (omega arith)
drop_all (suc n) [] h = refl
drop_all (suc n) (x ∷ xs) h = drop_all n xs (omega arith)

-- The keys of a text.
pub keys_of : List ℕ → List Event
keys_of [] = []
keys_of (c ∷ cs) = key c ∷ keys_of cs

-- The line with a text typed at its end.
abbrev typed : InputLine → List ℕ → InputLine
typed l s = record l { buffer = l.buffer ++ s; pos = l.len + length s; len = l.len + length s }

insert_at_end :
    (l : InputLine) (ch : ℕ)
    → IsPrintable ch
    → IsValid l
    → l.pos ≡ l.len
    → insert_char l ch ≡ typed l (ch ∷ [])
unfolding insert_char
insert_at_end l ch p v e =
    let (lo, hi) = printable_bounds ch p in
    let byte : ch % 256 ≡ ch = omega arith in
    rw byte
      (ground (arith, take_all l.pos l.buffer (omega arith), drop_all l.pos l.buffer (omega arith)))

run-typed :
    (k : Keys) (l : InputLine) (s : List ℕ) (es : List Event)
    → HasCodes k
    → IsValid l
    → l.pos ≡ l.len
    → All IsPrintable s
    → l.len + length s < input_max
    → run k l (keys_of s ++ es) ≡ run k (typed l s) es
unfolding run keys_of
run-typed k l [] es c v e a h = ap (λ x. run k x es) (ground (arith, append-nil l.buffer))
run-typed k l (ch ∷ s) es c v e (p, a) h =
    let next : InputLine = typed l (ch ∷ []) in
    let key_at_end : (input_handle_key k l ch).0 ≡ next =
      ap (λ r. r.0) (printable_key k l ch c p (omega arith)) ∙ insert_at_end l ch p v e in
    ap (λ x. run k x (keys_of s ++ es)) key_at_end
    ∙ run-typed k next s es c (subst IsValid key_at_end (input_handle_key-IsValid k l ch v)) refl a
        (omega arith)
    ∙ ap (λ x. run k x es) (ground (arith, append_assoc l.buffer (ch ∷ []) s))

no_elements {ℓ} : {A : Type ℓ} (xs : List A) → length xs ≡ 0 → xs ≡ []
no_elements [] e = refl
no_elements (x ∷ xs) e = absurd (omega arith)

get_elem?-last {ℓ} :
    {A : Type ℓ} (xs : List A) (x : A) → get_elem? (xs ++ x ∷ []) (length xs) ≡ some x
get_elem?-last [] x = refl
get_elem?-last (y ∷ ys) x = get_elem?-last ys x

save_history_fresh :
    (l : InputLine)
    → 0 < l.len
    → length l.history < history_max
    → save_history l ≡ record l {
      history = l.history ++ l.buffer ∷ [];
      hist_pos = length (l.history ++ l.buffer ∷ []);
    }
unfolding save_history
save_history_fresh l h f =
    let e : (l.len == 0) ≡ false = ground arith in rw (e, lt→ltb (length l.history) history_max f)

history_up_last :
    (l : InputLine) (xs : List (List ℕ)) (x : List ℕ)
    → l.history ≡ xs ++ x ∷ []
    → l.hist_pos ≡ length l.history
    → history_up l ≡ record l { buffer = x; len = length x; pos = length x; hist_pos = length xs }
unfolding history_up recall
history_up_last l xs x e p =
    let size : length l.history ≡ length xs + 1 =
      omega (arith, ap length e, length-append xs (x ∷ [])) in
    let back : l.hist_pos - 1 ≡ length xs = omega arith in
    let found : get_elem? l.history (length xs) ≡ some x = rw e (get_elem?-last xs x) in
    rw (lt→ltb 0 l.hist_pos (omega arith), back, found, recall) (ground arith)

-- What KEY_UP shows after a line was sent.
abbrev recalled : InputLine → InputLine
recalled l = record {
  buffer = l.buffer;
  len = length l.buffer;
  pos = length l.buffer;
  history = l.history ++ l.buffer ∷ [];
  hist_pos = length l.history;
}

send_recall :
    (k : Keys) (l : InputLine)
    → HasCodes k
    → 0 < l.len
    → length l.history < history_max
    → run k l (key 0x0A ∷ reset ∷ key k.key_up ∷ []) ≡ recalled l
unfolding run
send_recall k l c h f =
    let entries = l.history ++ l.buffer ∷ [] in
    let saved : InputLine = record l { history = entries; hist_pos = length entries } in
    let cleared : InputLine = record saved { buffer = []; len = 0; pos = 0 } in
    let sent : (input_handle_key k l 0x0A).0 ≡ saved =
      ap (λ r. r.0) (enter_key k l h) ∙ save_history_fresh l h f in
    let reset_line : input_reset saved ≡ cleared = unfold input_reset in refl in
    ap (λ x. (input_handle_key k (input_reset x) k.key_up).0) sent
    ∙ ap (λ x. (input_handle_key k x k.key_up).0) reset_line
    ∙ ap (λ r. r.0) (up_key k cleared c)
    ∙ history_up_last cleared l.history l.buffer refl refl

-- A printable text of at most 1023 bytes that is typed into an empty line of a valid state and
-- sent joins the history, while that has fewer than 32 entries, and KEY_UP in the next line brings
-- it back with the cursor behind it; this for key codes above the bytes, KEY_UP's being none of
-- those tested before it.
pub type_send_recall :
    (k : Keys) (l : InputLine) (s : List ℕ)
    → HasCodes k
    → IsValid l
    → l.len ≡ 0
    → All IsPrintable s
    → 0 < length s
    → length s < input_max
    → length l.history < history_max
    → let l' = run k l (keys_of s ++ key 0x0A ∷ reset ∷ key k.key_up ∷ []) in
      (l'.buffer ≡ s) × (l'.pos ≡ length s) × (l'.history ≡ l.history ++ s ∷ [])
type_send_recall k l s c v z a p h f =
    let whole =
      run-typed k l s (key 0x0A ∷ reset ∷ key k.key_up ∷ []) c v (omega arith) a (omega arith)
      ∙ send_recall k (typed l s) c (omega arith) f in
    let blank : l.buffer ≡ [] = no_elements l.buffer (omega arith) in
    let text : l.buffer ++ s ≡ s = rw blank in
    (
      ap (λ x. x.buffer) whole ∙ text,
      ap (λ x. x.pos) whole ∙ ap length text,
      ap (λ x. x.history) whole ∙ ap (λ (t : List ℕ). l.history ++ t ∷ []) text,
    )

-- ===== src/Tests/Trees.antt =====
-- A JSON of trees with what cJSON documents, for runs of src/ui/persist.c and src/ui/commands.c.
use free_cli.Base.{
  ℕ, zero, suc, ◌+◌, ◌≤◌, ◌≡◌, refl, ap, sym, ◌∙◌, List, [], ◌∷◌, ◌++◌, append_assoc, append-nil,
  Option, none, some, arith, ◌==◌, if◌then◌else◌, length, length-append, take, drop, take-append,
  drop-append, str_eq, Bool-cases, inl, inr,
}
use free_cli.Fs.{CJson, bind}
use free_cli.Persist.Json.{CJsonLaws, first}

-- A value: a string, a number, or the items that an object or an array holds.
pub data Json : Type 0 where
  text : List ℕ → Json
  number : ℕ → Json
  empty : Json
  entry : List ℕ → Json → Json → Json

unfoldable pub add_last : Json → List ℕ → Json → Json
add_last (text s) k v = entry k v (text s)
add_last (number n) k v = entry k v (number n)
add_last empty k v = entry k v empty
add_last (entry l w r) k v = entry l w (add_last r k v)

unfoldable pub item_of : Json → List ℕ → Option Json
item_of (text s) key = none
item_of (number n) key = none
item_of empty key = none
item_of (entry k v r) key = let rest = item_of r key in if str_eq k key then some v else rest

unfoldable pub items_of : Json → List Json
items_of (text s) = []
items_of (number n) = []
items_of empty = []
items_of (entry k v r) = v ∷ items_of r

unfoldable pub text_of : Json → Option (List ℕ)
text_of (text s) = some s
text_of _ = none

unfoldable pub value_of : Json → Option ℕ
value_of (number n) = some n
value_of _ = none

unfoldable pub show : Json → List ℕ
show (text s) = 0 ∷ length s ∷ s
show (number n) = 1 ∷ n ∷ []
show empty = 2 ∷ []
show (entry k v r) = 3 ∷ length k ∷ k ++ (show v ++ show r)

read_entry : List ℕ → (List ℕ → Option (Json × List ℕ)) → List ℕ → Option (Json × List ℕ)
read_entry k next p =
    bind (next p)
      (λ (v : Json × List ℕ). bind (next v.1) (λ (r : Json × List ℕ). some (entry k v.0 r.0, r.1)))

read_tagged : ℕ → List ℕ → (List ℕ → Option (Json × List ℕ)) → Option (Json × List ℕ)
read_tagged t [] next = if t == 2 then some (empty, []) else none
read_tagged t (n ∷ p) next =
    if t == 0
    then some (text (take n p), drop n p)
    else if t == 1
    then some (number n, p)
    else if t == 2
    then some (empty, n ∷ p)
    else read_entry (take n p) next (drop n p)

-- A value at the front of a text, and what is left of the text.
read_value : ℕ → List ℕ → Option (Json × List ℕ)
read_value zero p = none
read_value (suc fuel) [] = none
read_value (suc fuel) (t ∷ p) = read_tagged t p (read_value fuel)

size : Json → ℕ
size (text s) = 1
size (number n) = 1
size empty = 1
size (entry k v r) = 1 + size v + size r

read_value-show :
    (v : Json) (fuel : ℕ) (rest : List ℕ)
    → size v ≤ fuel
    → read_value fuel (show v ++ rest) ≡ some (v, rest)
unfolding read_value show size read_tagged read_entry
read_value-show (text s) zero rest h = absurd (omega arith)
read_value-show (number n) zero rest h = absurd (omega arith)
read_value-show empty zero rest h = absurd (omega arith)
read_value-show (entry k v r) zero rest h = absurd (omega arith)
read_value-show (text s) (suc fuel) rest h = rw (take-append s rest, drop-append s rest) refl
read_value-show (number n) (suc fuel) rest h = refl
read_value-show empty (suc fuel) [] h = refl
read_value-show empty (suc fuel) (n ∷ p) h = refl
read_value-show (entry k v r) (suc fuel) rest h =
    let tail : List ℕ = show v ++ (show r ++ rest) in
    let regroup : (k ++ (show v ++ show r)) ++ rest ≡ k ++ tail = simp append_assoc in
    rw regroup (
      rw (take-append k tail, drop-append k tail)
        (rw (read_value-show v fuel (show r ++ rest) (omega arith))
          (rw (read_value-show r fuel rest (omega arith)) refl)))

size-le-length : (v : Json) → size v ≤ length (show v)
unfolding size show
size-le-length (text s) = omega arith
size-le-length (number n) = omega arith
size-le-length empty = omega arith
size-le-length (entry k v r) = omega (
  arith,
  size-le-length v,
  size-le-length r,
  length-append {0} k (show v ++ show r),
  length-append {0} (show v) (show r),
)

pub parse_value : List ℕ → Option Json
parse_value p = bind (read_value (length p) p) (λ (r : Json × List ℕ). some r.0)

parse_value-show : (v : Json) → parse_value (show v) ≡ some v
unfolding parse_value
parse_value-show v =
    let whole : show v ++ [] ≡ show v = append-nil (show v) in
    ap (λ (p : List ℕ). bind (read_value (length (show v)) p) (λ (r : Json × List ℕ). some r.0))
      (sym whole)
    ∙ rw (read_value-show v (length (show v)) [] (size-le-length v)) refl

abbrev pub trees : CJson Json
trees = record {
  parse = parse_value;
  item = item_of;
  string_of = text_of;
  number_of = value_of;
  children = items_of;
  create_object = empty;
  create_array = empty;
  add_string = λ o k s. add_last o k (text s);
  add_number = λ o k n. add_last o k (number n);
  add_item = add_last;
  add_element = λ a v. add_last a [] v;
  print = show;
}

item_of-add_last :
    (o : Json) (k : List ℕ) (v : Json) (key : List ℕ)
    → item_of (add_last o k v) key ≡ first (item_of o key) (if str_eq k key then some v else none)
unfolding item_of add_last
item_of-add_last (text s) k v key = refl
item_of-add_last (number n) k v key = refl
item_of-add_last empty k v key = refl
item_of-add_last (entry l w r) k v key = elim (Bool-cases (str_eq l key)) [
  | inl e ↦ rw e refl
  | inr e ↦ rw e (item_of-add_last r k v key)
]

items_of-add_last : (o : Json) (v : Json) → items_of (add_last o [] v) ≡ items_of o ++ v ∷ []
unfolding items_of add_last
items_of-add_last (text s) v = refl
items_of-add_last (number n) v = refl
items_of-add_last empty v = refl
items_of-add_last (entry l w r) v = ap (λ t. w ∷ t) (items_of-add_last r v)

pub trees_laws : CJsonLaws trees
unfolding item_of items_of parse_value read_value text_of value_of
trees_laws = record {
  text = text;
  number = number;
  string_of-text = λ s. refl;
  number_of-number = λ n. refl;
  parse-print = parse_value-show;
  parse_empty = refl;
  item-create_object = λ key. refl;
  item-add_string = λ o k s key. item_of-add_last o k (text s) key;
  item-add_number = λ o k n key. item_of-add_last o k (number n) key;
  item-add_item = item_of-add_last;
  children-create_array = refl;
  children-add_element = items_of-add_last;
}

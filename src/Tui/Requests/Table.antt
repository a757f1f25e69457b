-- ===== src/Tui/Requests/Table.antt =====
-- The table of requests in flight as a map from ids to sessions (src/ui/main.c).
use free_cli.Base.{
  ℕ, ◌+◌, ◌≤◌, ◌<◌, ◌≡◌, ◌≢◌, refl, ap, ◌∙◌, true, false, List, [], ◌∷◌, Option, arith, ◌==◌,
  length, ℤ, negsuc, inl, inr, ◌⊎◌, Bool-cases, All, ==_refl,
}
use native.Mathlib.Decide.{dec_lt}
use free_cli.Tui.{InFlight}
use free_cli.Tui.Requests.{
  is_request, fill_free, inflight_add, inflight_remove, inflight_find_sidx, inflight_count,
}

-- No entry waits under the id.
abbrev pub IsFresh : ℕ → List InFlight → Type 0
IsFresh corr es = All (λ e. is_request corr e ≡ false) es

count-le-length : (es : List InFlight) → inflight_count es ≤ length es
unfolding inflight_count
count-le-length [] = omega arith
count-le-length (e ∷ es) = ground (arith, count-le-length es)

fill_free_busy :
    (x : InFlight) (xs : List InFlight) (e : InFlight)
    → x.active ≡ true
    → fill_free (x ∷ xs) e ≡ x ∷ fill_free xs e
unfolding fill_free
fill_free_busy x xs e h = simp h

find_skip :
    (x : InFlight) (xs : List InFlight) (corr : ℕ)
    → is_request corr x ≡ false
    → inflight_find_sidx (x ∷ xs) corr ≡ inflight_find_sidx xs corr
unfolding inflight_find_sidx
find_skip x xs corr h = simp h

remove_skip :
    (x : InFlight) (xs : List InFlight) (corr : ℕ)
    → is_request corr x ≡ false
    → (inflight_remove (x ∷ xs) corr).0 ≡ x ∷ (inflight_remove xs corr).0
unfolding inflight_remove
remove_skip x xs corr h = simp h

-- A new entry under a fresh id is found if there is room for it.
pub find-fill_free :
    (es : List InFlight) (e : InFlight) (corr : ℕ)
    → inflight_count es < length es
    → IsFresh corr es
    → is_request corr e ≡ true
    → inflight_find_sidx (fill_free es e) corr ≡ e.session_idx
unfolding inflight_find_sidx fill_free inflight_count
find-fill_free [] e corr h f r = absurd (omega arith)
find-fill_free (x ∷ xs) e corr h f r = elim (Bool-cases x.active) [
  | inr free ↦ rw free (rw r refl)
  | inl busy ↦
      ap (λ (t : List InFlight). inflight_find_sidx t corr) (fill_free_busy x xs e busy)
      ∙ find_skip x (fill_free xs e) corr f.0
      ∙ find-fill_free xs e corr (ground arith) f.1 r
]

-- The other entries are found as before.
find-fill_free_other :
    (es : List InFlight) (e : InFlight) (corr : ℕ)
    → is_request corr e ≡ false
    → inflight_find_sidx (fill_free es e) corr ≡ inflight_find_sidx es corr
unfolding inflight_find_sidx fill_free
find-fill_free_other [] e corr r = refl
find-fill_free_other (x ∷ xs) e corr r = elim (Bool-cases x.active) [
  | inr free ↦ rw free (rw r refl)
  | inl busy ↦ ground (arith, find-fill_free_other xs e corr r)
]

count-fill_free :
    (es : List InFlight) (e : InFlight)
    → inflight_count es < length es
    → e.active ≡ true
    → inflight_count (fill_free es e) ≡ inflight_count es + 1
unfolding inflight_count fill_free
count-fill_free [] e h a = absurd (omega arith)
count-fill_free (x ∷ xs) e h a = elim (Bool-cases x.active) [
  | inr free ↦ rw (free, a) refl
  | inl busy ↦ rw busy (omega (arith, count-fill_free xs e (ground arith) a))
]

fill_free_full :
    (es : List InFlight) (e : InFlight) → inflight_count es ≡ length es → fill_free es e ≡ es
unfolding inflight_count fill_free
fill_free_full [] e h = refl
fill_free_full (x ∷ xs) e h = elim (Bool-cases x.active) [
  | inr free ↦ absurd (ground (arith, count-le-length xs))
  | inl busy ↦ simp busy (ap (λ t. x ∷ t) (fill_free_full xs e (ground arith)))
]

-- After a removal nothing is found under an id that one entry had.
remove_absent :
    (es : List InFlight) (corr : ℕ) → IsFresh corr es → inflight_find_sidx es corr ≡ negsuc 0
unfolding inflight_find_sidx
remove_absent [] corr f = refl
remove_absent (x ∷ xs) corr f = simp f.0 (remove_absent xs corr f.1)

find-remove-fill_free :
    (es : List InFlight) (e : InFlight) (corr : ℕ)
    → inflight_count es < length es
    → IsFresh corr es
    → is_request corr e ≡ true
    → inflight_find_sidx (inflight_remove (fill_free es e) corr).0 corr ≡ negsuc 0
unfolding inflight_find_sidx inflight_remove fill_free inflight_count
find-remove-fill_free [] e corr h f r = absurd (omega arith)
find-remove-fill_free (x ∷ xs) e corr h f r = elim (Bool-cases x.active) [
  | inr free ↦ simp free (simp r (remove_absent xs corr f.1))
  | inl busy ↦
      ap (λ (t : List InFlight). inflight_find_sidx (inflight_remove t corr).0 corr)
        (fill_free_busy x xs e busy)
      ∙ ap (λ (t : List InFlight). inflight_find_sidx t corr)
          (remove_skip x (fill_free xs e) corr f.0)
      ∙ find_skip x (inflight_remove (fill_free xs e) corr).0 corr f.0
      ∙ find-remove-fill_free xs e corr (ground arith) f.1 r
]

-- For an id under which no entry is active, a table with a free slot takes the entry: it is found
-- with its session, all other ids are found as before, one more entry is active, and after
-- inflight_remove it is found no more. A full table stays as it is.
pub inflight_add_lem :
    (es : List InFlight) (corr other : ℕ) (sidx : ℤ) (name : Option (List ℕ))
    → IsFresh corr es
    → other ≢ corr
    → ((inflight_count es < length es)
        × (inflight_find_sidx (inflight_add es corr sidx name) corr ≡ sidx)
        × (inflight_find_sidx (inflight_add es corr sidx name) other ≡ inflight_find_sidx es other)
        × (inflight_count (inflight_add es corr sidx name) ≡ inflight_count es + 1)
        × (inflight_find_sidx (inflight_remove (inflight_add es corr sidx name) corr).0 corr
            ≡ negsuc 0))
      ⊎ ((inflight_count es ≡ length es) × (inflight_add es corr sidx name ≡ es))
unfolding inflight_add
inflight_add_lem es corr other sidx name f n = elim (dec_lt (inflight_count es) (length es)) [
  | yes room ↦
      let mine : (corr == corr) ≡ true = ==_refl corr in
      let theirs : (corr == other) ≡ false = ground arith in
      inl (
        room,
        find-fill_free es _ corr room f mine,
        find-fill_free_other es _ other theirs,
        count-fill_free es _ room refl,
        find-remove-fill_free es _ corr room f mine,
      )
  | no none_left ↦
      let all : inflight_count es ≡ length es = omega (arith, count-le-length es) in
      inr (all, fill_free_full es _ all)
]

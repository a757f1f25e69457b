-- ===== src/Overlay/Frames.antt =====
-- What the popup of src/ui/overlay.c shows and returns.
use free_cli.Base.{
  ℕ, ◌+◌, ◌-◌, ◌≤◌, ◌<◌, ◌≡◌, Bool, true, false, List, [], ◌∷◌, Option, none, some, arith, ltb, leb,
  ◌==◌, if◌then◌else◌, ℤ, pos, negsuc, All, inl, inr, Bool-cases,
}
use free_cli.Session.Invariant.{in_range_cases}
use free_cli.Overlay.{
  Keys, Frame, visible, keep_in_view, Turn, select, return, handle_key, pick_loop, overlay_pick,
}

-- The selected option exists and is among the visible ones, and no row behind the last is shown.
pub record InView (count vis : ℕ) (f : Frame) : Type 0 where
  pub exists : f.sel < count
  pub below_top : f.scroll ≤ f.sel
  pub above_bottom : f.sel < f.scroll + vis
  pub full : f.scroll + vis ≤ count

-- -1 or an index of an option.
pub data IsChoice (count : ℕ) : Option ℤ → Type 0 where
  waiting : IsChoice count none
  cancelled : IsChoice count (some (negsuc 0))
  chosen : {i : ℕ} → i < count → IsChoice count (some (pos i))

view-InView :
    (count vis sel scroll : ℕ)
    → sel < count
    → 0 < vis
    → vis ≤ count
    → scroll + vis ≤ count
    → InView count vis (record { sel = sel; scroll = keep_in_view vis sel scroll })
unfolding keep_in_view
view-InView count vis sel scroll s p v b = record {
  exists = s;
  below_top = ground arith;
  above_bottom = ground arith;
  full = ground arith;
}

data TurnFits (count : ℕ) : Turn → Type 0 where
  selects : {sel : ℕ} → sel < count → TurnFits count (select sel)
  returns : {r : ℤ} → IsChoice count (some r) → TurnFits count (return r)

if-TurnFits :
    (count : ℕ) (b : Bool) (x y : Turn)
    → TurnFits count x
    → TurnFits count y
    → TurnFits count (if b then x else y)
if-TurnFits count true x y p q = p
if-TurnFits count false x y p q = q

handle_key-TurnFits :
    (k : Keys) (count vis sel ch : ℕ) → sel < count → TurnFits count (handle_key k count vis sel ch)
unfolding handle_key
handle_key-TurnFits k count vis sel ch h =
    let up : (if ltb 0 sel then sel - 1 else sel) < count = ground arith in
    let down : (if ltb (sel + 1) count then sel + 1 else sel) < count = ground arith in
    let back : (if ltb sel vis then 0 else sel - vis) < count = ground arith in
    let forth : (if leb count (sel + vis) then count - 1 else sel + vis) < count = ground arith in
    if-TurnFits count _ _ _ (selects up) (
      if-TurnFits count _ _ _ (selects down) (
        if-TurnFits count _ _ _ (selects back) (
          if-TurnFits count _ _ _ (selects forth) (
            if-TurnFits count _ _ _ (returns (chosen h))
              (if-TurnFits count _ _ _ (returns cancelled) (selects h))))))

abbrev pub Picks : ℕ → ℕ → List Frame × Option ℤ → Type 0
Picks count vis r = All (InView count vis) r.0 × IsChoice count r.1

pick_loop-Picks :
    (k : Keys) (count vis sel scroll : ℕ) (chs : List ℕ)
    → sel < count
    → 0 < vis
    → vis ≤ count
    → scroll + vis ≤ count
    → Picks count vis (pick_loop k count vis sel scroll chs)
unfolding pick_loop
pick_loop-Picks k count vis sel scroll [] s p v b =
    ((view-InView count vis sel scroll s p v b, tt), waiting)
pick_loop-Picks k count vis sel scroll (ch ∷ chs) s p v b =
    turned (handle_key k count vis sel ch) (handle_key-TurnFits k count vis sel ch s) (λ sel' s'.
      pick_loop-Picks k count vis sel' (keep_in_view vis sel scroll) chs s' p v
        (view-InView count vis sel scroll s p v b).full)
  where
    turned :
        (t : Turn)
        → TurnFits count t
        → ((sel' : ℕ)
            → sel' < count
            → Picks count vis (pick_loop k count vis sel' (keep_in_view vis sel scroll) chs))
        → Picks count vis (elim t [
          | return r ↦ (record { sel = sel; scroll = keep_in_view vis sel scroll } ∷ [], some r)
          | select sel' ↦
              let rest = pick_loop k count vis sel' (keep_in_view vis sel scroll) chs in
              (record { sel = sel; scroll = keep_in_view vis sel scroll } ∷ rest.0, rest.1)
        ])
    turned (select sel') (selects f) rest =
        ((view-InView count vis sel scroll s p v b, (rest sel' f).0), (rest sel' f).1)
    turned (return r) (returns f) rest = ((view-InView count vis sel scroll s p v b, tt), f)

-- Whatever keys are pressed, each frame shows the selected option, with no empty row behind the
-- last option, and the popup returns -1 or the index of an option, if it returns.
pub overlay_pick-Picks :
    (k : Keys) (count : ℕ) (current : ℤ) (lines : ℕ) (chs : List ℕ)
    → Picks count (visible count lines) (overlay_pick k count current lines chs)
unfolding overlay_pick
overlay_pick-Picks k count current lines chs = elim (Bool-cases (count == 0)) [
  | inl e ↦ rw e (tt, cancelled)
  | inr e ↦ rw e (elim (in_range_cases current count) [
    | inl f ↦ rw f (
        pick_loop-Picks k count (visible count lines) 0 0 chs (ground arith) (shown lines)
          (fits lines e) (omega (arith, fits lines e)))
    | inr (i, f, _, h) ↦ rw f (
        pick_loop-Picks k count (visible count lines) i 0 chs h (shown lines) (fits lines e)
          (omega (arith, fits lines e)))
  ])
]
  where
    shown : (lines : ℕ) → 0 < visible count lines
    shown lines = unfold visible in ground arith

    fits : (lines : ℕ) → (count == 0) ≡ false → visible count lines ≤ count
    fits lines e = unfold visible in ground arith

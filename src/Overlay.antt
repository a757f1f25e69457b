-- ===== src/Overlay.antt =====
-- The selection popup of the terminal UI (src/ui/overlay.c). The keys are a list; a frame is what one
-- turn of the loop draws, as the selected option and the first one that is visible.
pub mod Frames
use free_cli.Base.{
  ℕ, zero, suc, ◌+◌, ◌-◌, Bool, true, false, ◌||◌, List, [], ◌∷◌, Option, none, some, ltb, leb,
  ◌==◌, if◌then◌else◌, ℤ, pos, negsuc,
}
use free_cli.Session.{in_range}

pub record Keys : Type 0 where
  pub key_up : ℕ
  pub key_down : ℕ
  pub key_ppage : ℕ
  pub key_npage : ℕ
  pub key_enter : ℕ

pub record Frame : Type 0 where
  pub sel : ℕ
  pub scroll : ℕ

-- The options that the popup shows at once, on a screen of `lines` lines.
unfoldable pub visible : ℕ → ℕ → ℕ
visible count lines =
    let vis = if ltb count (lines - 8) then count else lines - 8 in if ltb vis 1 then 1 else vis

unfoldable pub keep_in_view : ℕ → ℕ → ℕ → ℕ
keep_in_view vis sel scroll =
    let low = if ltb sel scroll then sel else scroll in
    if leb (low + vis) sel then sel + 1 - vis else low

-- The next selection, or what is returned.
pub data Turn : Type 0 where
  select : ℕ → Turn
  return : ℤ → Turn

module _ (k : Keys) where
  open k use {key_up, key_down, key_ppage, key_npage, key_enter}

  unfoldable pub handle_key : ℕ → ℕ → ℕ → ℕ → Turn
  handle_key count vis sel ch =
      if ch == key_up
      then select (if ltb 0 sel then sel - 1 else sel)
      else if ch == key_down
      then select (if ltb (sel + 1) count then sel + 1 else sel)
      else if ch == key_ppage
      then select (if ltb sel vis then 0 else sel - vis)
      else if ch == key_npage
      then select (if leb count (sel + vis) then count - 1 else sel + vis)
      else if ch == 0x0A || ch == key_enter
      then return (pos sel)
      else if ch == 27 || ch == b'q'
      then return (negsuc 0)
      else select sel

  -- The frames that are drawn, and the return value once a key gives one.
  unfoldable pub pick_loop : ℕ → ℕ → ℕ → ℕ → List ℕ → List Frame × Option ℤ
  pick_loop count vis sel scroll [] =
      (record { sel = sel; scroll = keep_in_view vis sel scroll } ∷ [], none)
  pick_loop count vis sel scroll (ch ∷ chs) =
      let top = keep_in_view vis sel scroll in
      elim (handle_key count vis sel ch) [
        | return r ↦ (record { sel = sel; scroll = top } ∷ [], some r)
        | select sel' ↦
            let rest = pick_loop count vis sel' top chs in
            (record { sel = sel; scroll = top } ∷ rest.0, rest.1)
      ]

  unfoldable pub overlay_pick : ℕ → ℤ → ℕ → List ℕ → List Frame × Option ℤ
  overlay_pick count current lines chs =
      if count == 0
      then ([], some (negsuc 0))
      else pick_loop count (visible count lines)
          (elim (in_range current count) [ none ↦ 0 | some i ↦ i ]) 0 chs

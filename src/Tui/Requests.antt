-- ===== src/Tui/Requests.antt =====
-- The table of requests in flight (src/ui/main.c). time(NULL) is left out.
pub mod Table
use free_cli.Base.{
  ℕ, ◌+◌, Bool, true, false, ◌&&◌, List, [], ◌∷◌, ◌++◌, Option, none, some, ◌==◌, if◌then◌else◌,
  take, replicate, ℤ, pos, negsuc, bytes,
}
use free_cli.Worker.{or_else}
use free_cli.Tui.{InFlight}

abbrev pub max_in_flight : ℕ
max_in_flight = 32

abbrev pub no_requests : List InFlight
no_requests = replicate max_in_flight (record {
  corr_id = 0;
  parent_corr_id = 0;
  depth = 0;
  session_idx = pos 0;
  name = [];
  active = false;
})

-- The first slot that is free takes the entry.
unfoldable pub fill_free : List InFlight → InFlight → List InFlight
fill_free [] e = []
fill_free (f ∷ fs) e = let rest = fill_free fs e in if f.active then f ∷ rest else e ∷ fs

unfoldable pub inflight_add : List InFlight → ℕ → ℤ → Option (List ℕ) → List InFlight
inflight_add table corr_id sidx name = fill_free table (record {
  corr_id = corr_id;
  parent_corr_id = 0;
  depth = 0;
  session_idx = sidx;
  name = take 63 (or_else name (bytes "?"));
  active = true;
})

-- snprintf("→%s: %.30s") into 64 bytes.
unfoldable pub sub_label : Option (List ℕ) → Option (List ℕ) → List ℕ
sub_label model desc =
    take 63 (bytes "→" ++ (or_else model (bytes "?") ++ (bytes ": " ++ take 30 (or_else desc []))))

unfoldable pub inflight_add_sub :
    List InFlight → ℕ → ℕ → ℤ → Option (List ℕ) → Option (List ℕ) → List InFlight
inflight_add_sub table corr_id parent_corr_id parent_sidx model desc = fill_free table (record {
  corr_id = corr_id;
  parent_corr_id = parent_corr_id;
  depth = 1;
  session_idx = parent_sidx;
  name = sub_label model desc;
  active = true;
})

abbrev pub is_request : ℕ → InFlight → Bool
is_request corr_id e = e.active && e.corr_id == corr_id

-- The new table, and the session of the entry or -1.
unfoldable pub inflight_remove : List InFlight → ℕ → List InFlight × ℤ
inflight_remove [] corr_id = ([], negsuc 0)
inflight_remove (e ∷ es) corr_id =
    let rest = inflight_remove es corr_id in
    if is_request corr_id e
    then (record e { active = false } ∷ es, e.session_idx)
    else (e ∷ rest.0, rest.1)

unfoldable pub inflight_find_sidx : List InFlight → ℕ → ℤ
inflight_find_sidx [] corr_id = negsuc 0
inflight_find_sidx (e ∷ es) corr_id =
    let rest = inflight_find_sidx es corr_id in if is_request corr_id e then e.session_idx else rest

unfoldable pub same_ℤ : ℤ → ℤ → Bool
same_ℤ (pos a) (pos b) = a == b
same_ℤ (pos a) (negsuc b) = false
same_ℤ (negsuc a) (pos b) = false
same_ℤ (negsuc a) (negsuc b) = a == b

unfoldable pub inflight_session_active : List InFlight → ℤ → Bool
inflight_session_active [] sidx = false
inflight_session_active (e ∷ es) sidx =
    let rest = inflight_session_active es sidx in
    if e.active && (same_ℤ e.session_idx sidx && e.depth == 0) then true else rest

unfoldable pub inflight_count : List InFlight → ℕ
inflight_count [] = 0
inflight_count (e ∷ es) = let rest = inflight_count es in if e.active then rest + 1 else rest

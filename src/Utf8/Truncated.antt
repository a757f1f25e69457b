-- ===== src/Utf8/Truncated.antt =====
-- A text that ends inside a character (src/core/utf8.c): the scan leaves the text.
use free_cli.Base.{ℕ, suc, ◌+◌, ◌≤◌, ◌<◌, ◌≡◌, List, [], ◌∷◌, none, arith, length}
use free_cli.Utf8.{
  utf8_clen, utf8_cwidth, byte_at, wide_or_not, advance, overrun, stop, wrap_char, wrap_step, move,
  wrap_line_end, available,
}
use free_cli.Utf8.Wrap.{wrap_loop-stop}

wrap_step-truncated :
    (avail b : ℕ) (t : List ℕ)
    → suc (length t) < utf8_clen b
    → 2 ≤ avail
    → wrap_step avail (record { p = b ∷ t; pos = 0; col = 0; last = none }) (b ∷ t) ≡ stop overrun
unfolding wrap_step wrap_char utf8_clen utf8_cwidth byte_at wide_or_not move advance
wrap_step-truncated avail b [] h a = ground arith
wrap_step-truncated avail b (x ∷ []) h a = ground arith
wrap_step-truncated avail b (x ∷ y ∷ []) h a = ground arith
wrap_step-truncated avail b (x ∷ y ∷ z ∷ t) h a = absurd (ground arith)

-- A text that is a first byte with fewer bytes behind it than it announces makes wrap_line_end
-- read behind the terminator, in every window that has room for two columns.
pub wrap_line_end_truncated :
    (b : ℕ) (t : List ℕ) (x_start width : ℕ)
    → suc (length t) < utf8_clen b
    → x_start + 2 ≤ width
    → wrap_line_end (b ∷ t) x_start width ≡ overrun
unfolding wrap_line_end
wrap_line_end_truncated b t x_start width h w =
    wrap_loop-stop _ (available x_start width) _ _
      (wrap_step-truncated (available x_start width) b t h (ground arith))

-- ===== src/Tests/Text.antt =====
-- Runs of the word wrap of src/core/utf8.c.
use free_cli.Base.{ℕ, ◌+◌, ◌<◌, ◌≤◌, ◌≡◌, refl, List, [], ◌∷◌, none, some, arith, length, ◌⊎◌, All}
use free_cli.Utf8.{wrap_line_end, line, overrun, available, count_rows, utf8_clen}
use free_cli.Utf8.Chars.{IsChar, bytes_of, width_of}
use free_cli.Utf8.Wrap.{wrap_line_end_lem}
use free_cli.Utf8.Steps.{Breaks, NoneFits}
use free_cli.Utf8.Rows.{count_rows_total, count_rows_diverges}
use free_cli.Utf8.Truncated.{wrap_line_end_truncated}

-- "ab é c", of which the é has two bytes.
abbrev words : List (List ℕ)
words = (97 ∷ []) ∷ (98 ∷ []) ∷ (32 ∷ []) ∷ (0xC3 ∷ 0xA9 ∷ []) ∷ (32 ∷ []) ∷ (99 ∷ []) ∷ []

words-IsChar : All IsChar words
unfolding utf8_clen
words-IsChar = (refl, (refl, (refl, (refl, (refl, (refl, tt))))))

wrap_line_end_lem_example :
    (end next : ℕ) × (wrap_line_end (bytes_of words) 0 4 ≡ line end next)
    × Breaks words (available 0 4) end next
    × ((0 < next) ⊎ NoneFits (available 0 4) words)
wrap_line_end_lem_example = wrap_line_end_lem words 0 4 words-IsChar

count_rows_total_example :
    (rows : ℕ) × (count_rows 7 (bytes_of words) 0 2 4 ≡ some rows)
    × (1 ≤ rows)
    × (rows ≤ length words + 1)
count_rows_total_example =
    count_rows_total 7 words 0 2 4 words-IsChar (omega arith) (omega arith) (omega arith)

-- A CJK character behind a prefix of 11 columns, in a window of 12.
count_rows_diverges_example :
    (wrap_line_end (0xE4 ∷ 0xBD ∷ 0xA0 ∷ []) 11 12 ≡ line 0 0)
    × (wrap_line_end (0xE4 ∷ 0xBD ∷ 0xA0 ∷ []) 11 12 ≡ line 0 0)
    × (count_rows 1000 (0xE4 ∷ 0xBD ∷ 0xA0 ∷ []) 11 11 12 ≡ none)
unfolding utf8_clen width_of free_cli.Utf8.utf8_cwidth free_cli.Utf8.byte_at
    free_cli.Utf8.wide_or_not free_cli.Utf8.is_wide free_cli.Utf8.code_point
count_rows_diverges_example =
    count_rows_diverges 1000 0xE4 (0xBD ∷ 0xA0 ∷ []) [] 11 11 12 refl refl refl (omega arith)
      (omega arith)

wrap_line_end_truncated_example : wrap_line_end (0xE4 ∷ []) 0 80 ≡ overrun
unfolding utf8_clen
wrap_line_end_truncated_example = wrap_line_end_truncated 0xE4 [] 0 80 (omega arith) (omega arith)

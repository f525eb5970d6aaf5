-- ===== src/Query/Difflib/Tests.antt =====
-- Two table names that differ in one letter.
use sobs.Prelude.{ℕ, ◌≤◌, ◌<◌, ◌≡◌, some, [], ◌∷◌, arith, length}
use sobs.Text.{Text, lit}
use sobs.Query.Difflib.{
  Box, Ratio, find_longest_match, matching_blocks_total, sequence_ratio, get_close_matches,
}
use sobs.Query.Difflib.Rows.{IsBlock}
use sobs.Query.Difflib.Blocks.{find_longest_match-IsBlock}
use sobs.Query.Difflib.Total.{matching_blocks_total-bounded, sequence_ratio-bounded}
use sobs.Query.Difflib.Close.{IsCloseMatches, get_close_matches-IsCloseMatches}

abbrev one : Text
one = lit "otel_logs"

abbrev other : Text
other = lit "otel_log"

abbrev whole : Box
whole = record { alo = 0; ahi = 9; blo = 0; bhi = 8 }

abbrev cutoff : Ratio
cutoff = record { num = 45; den = 100 }

find_longest_match-IsBlock_example : IsBlock one other whole (find_longest_match one other whole)
find_longest_match-IsBlock_example =
    find_longest_match-IsBlock one other whole (omega arith) (omega arith)

matching_blocks_total-bounded_example :
    (m : ℕ) × (matching_blocks_total one other ≡ some m) × (m ≤ length one) × (m ≤ length other)
matching_blocks_total-bounded_example = matching_blocks_total-bounded one other

sequence_ratio-bounded_example :
    ((sequence_ratio one other).num ≤ (sequence_ratio one other).den)
    × (0 < (sequence_ratio one other).den)
sequence_ratio-bounded_example = sequence_ratio-bounded one other

get_close_matches-IsCloseMatches_example :
    IsCloseMatches other (one ∷ []) 3 cutoff (get_close_matches other (one ∷ []) 3 cutoff)
get_close_matches-IsCloseMatches_example =
    get_close_matches-IsCloseMatches other (one ∷ []) 3 cutoff

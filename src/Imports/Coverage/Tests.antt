-- ===== src/Imports/Coverage/Tests.antt =====
-- Declared ranges, parsed and merged, and the theorems at them.
use koharu_suite.Prelude.{◌≡◌, refl, ℕ, true, false, List, [], ◌∷◌, ok, err, ◌>>=◌}
use koharu_suite.Prelude.Texts.{codes, split}
use koharu_suite.Prelude.Int.{pos, negsuc, add_ℤ}
use koharu_suite.Prelude.Sorting.{insert_before, sort}
use koharu_suite.Imports.Coverage.{
  CompleteRange, matched_range, parse_complete_range, unique_ranges, compare_ranges, merge_from,
  merge_ranges, validate_complete_ranges, has_invalid_bound, not_selected, wrong_syntax,
  start_after_end,
}
use koharu_suite.Imports.Coverage.Merging.{covered}
use koharu_suite.Imports.Coverage.Covering.{validate_complete_ranges-covered}
use koharu_suite.Imports.Coverage.Separation.{AreApart, validate_complete_ranges-AreApart}
use koharu_suite.Imports.Coverage.Parsing.{parse_complete_range-valid}

running : Unit {0}
unfolding ◌>>=◌ split add_ℤ insert_before sort matched_range parse_complete_range unique_ranges
    compare_ranges merge_from merge_ranges validate_complete_ranges
running = tt

abbrev range : ℕ → ℕ → ℕ → CompleteRange
range chat start end' = record {
  telegram_chat_id = negsuc chat;
  start_message_id = pos start;
  end_message_id = pos end';
}

abbrev declared : List CompleteRange
declared = range 4 8 9 ∷ range 4 1 3 ∷ range 9 2 2 ∷ range 4 4 6 ∷ range 4 1 3 ∷ []

abbrev merged : List CompleteRange
merged = range 9 2 2 ∷ range 4 1 6 ∷ range 4 8 9 ∷ []

merged_run : validate_complete_ranges declared (negsuc 4 ∷ negsuc 9 ∷ []) true ≡ ok merged
unfolding running
merged_run = refl

not_selected_run : validate_complete_ranges declared (negsuc 4 ∷ []) true ≡ err not_selected
unfolding running
not_selected_run = refl

parsed_run : parse_complete_range (codes "-5:1:30") ≡ ok (range 4 1 30)
unfolding running
parsed_run = refl

leading_zero_run : parse_complete_range (codes "-5:01:30") ≡ err wrong_syntax
unfolding running
leading_zero_run = refl

reversed_run : parse_complete_range (codes "-5:7:3") ≡ err start_after_end
unfolding running
reversed_run = refl

validate_complete_ranges-covered_example :
    covered merged (negsuc 4) (pos 5) ≡ covered declared (negsuc 4) (pos 5)
validate_complete_ranges-covered_example =
    validate_complete_ranges-covered declared (negsuc 4 ∷ negsuc 9 ∷ []) true merged merged_run
      (negsuc 4) (pos 5)

validate_complete_ranges-AreApart_example : AreApart merged
validate_complete_ranges-AreApart_example =
    validate_complete_ranges-AreApart declared (negsuc 4 ∷ negsuc 9 ∷ []) true merged merged_run

parse_complete_range-valid_example : has_invalid_bound (range 4 1 30) ≡ false
parse_complete_range-valid_example =
    parse_complete_range-valid (codes "-5:1:30") (range 4 1 30) parsed_run

-- ===== src/Imports/Coverage.antt =====
-- apps/server/src/imports/coverage.ts: the ranges of messages that an import declares complete.
mod Merging
pub mod Covering
pub mod Separation
pub mod Parsing
mod Tests
use koharu_suite.Prelude.{
  ℕ, zero, suc, ◌+◌, ◌-◌, ◌*◌, ◌^◌, Bool, true, false, not, ◌&&◌, ◌||◌, List, [], ◌∷◌, ◌++◌, ltb,
  leb, if◌then◌else◌, Result, ok, err, ◌>>=◌, ◌>>◌, throw_if, length, any,
}
use koharu_suite.Prelude.Texts.{Text, split, is_digit}
use koharu_suite.Prelude.Int.{ℤ, pos, negsuc, ltb_ℤ, eqb_ℤ, add_ℤ}
use koharu_suite.Prelude.Sorting.{Sign, less, same, more, sort}

pub data CoverageError : Type 0 where
  wrong_syntax out_of_bigint_range start_after_end too_many not_applied : CoverageError
  invalid_bound not_selected : CoverageError

-- `TelegramDesktopCompleteRange`.
pub record CompleteRange : Type 0 where
  pub telegram_chat_id : ℤ
  pub start_message_id : ℤ
  pub end_message_id : ℤ

abbrev pub postgres_bigint_max : ℤ
postgres_bigint_max = pos (2 ^ 63 - 1)

abbrev pub postgres_bigint_min : ℤ
postgres_bigint_min = negsuc (2 ^ 63 - 1)

abbrev pub complete_range_limit : ℕ
complete_range_limit = 100

abbrev pub all_digits : Text → Bool
all_digits [] = true
all_digits (c ∷ s) = is_digit c && all_digits s

-- `[1-9]\d*`
abbrev pub is_positive_decimal : Text → Bool
is_positive_decimal [] = false
is_positive_decimal (c ∷ s) = leb b'1' c && leb c b'9' && all_digits s

-- `-[1-9]\d*`
abbrev pub is_negative_decimal : Text → Bool
is_negative_decimal [] = false
is_negative_decimal (c ∷ s) = leb b'-' c && leb c b'-' && is_positive_decimal s

-- `BigInt` of digits, behind the value of those before them.
abbrev pub digits_value : ℕ → Text → ℕ
digits_value n [] = n
digits_value n (c ∷ s) = digits_value (n * 10 + (c - b'0')) s

-- The negation of a natural number.
abbrev pub negated : ℕ → ℤ
negated zero = pos 0
negated (suc n) = negsuc n

-- `BigInt` of a match of `-[1-9]\d*`.
abbrev pub negative_value : Text → ℤ
negative_value [] = pos 0
negative_value (c ∷ s) = negated (digits_value 0 s)

abbrev pub positive_value : Text → ℤ
positive_value s = pos (digits_value 0 s)

-- The range of three texts that the regular expression has matched.
unfoldable pub matched_range : ℤ → ℤ → ℤ → Result CoverageError CompleteRange
matched_range chat start end' = do
  throw_if
      (ltb_ℤ chat postgres_bigint_min
        || ltb_ℤ postgres_bigint_max start
        || ltb_ℤ postgres_bigint_max end')
      out_of_bigint_range
  throw_if (ltb_ℤ end' start) start_after_end
  ok (record { telegram_chat_id = chat; start_message_id = start; end_message_id = end' })

-- The three parts between the colons; no other number of parts matches.
abbrev pub parse_parts : List Text → Result CoverageError CompleteRange
parse_parts [] = err wrong_syntax
parse_parts (a ∷ []) = err wrong_syntax
parse_parts (a ∷ b ∷ []) = err wrong_syntax
parse_parts (a ∷ b ∷ c ∷ []) =
    if is_negative_decimal a && is_positive_decimal b && is_positive_decimal c
    then matched_range (negative_value a) (positive_value b) (positive_value c)
    else err wrong_syntax
parse_parts (a ∷ b ∷ c ∷ d ∷ ds) = err wrong_syntax

-- `parseTelegramDesktopCompleteRange`.
unfoldable pub parse_complete_range : Text → Result CoverageError CompleteRange
parse_complete_range value = parse_parts (split b':' value)

abbrev pub has_invalid_bound : CompleteRange → Bool
has_invalid_bound r =
    not (ltb_ℤ r.telegram_chat_id (pos 0))
    || ltb_ℤ r.telegram_chat_id postgres_bigint_min
    || not (ltb_ℤ (pos 0) r.start_message_id)
    || ltb_ℤ r.end_message_id r.start_message_id
    || ltb_ℤ postgres_bigint_max r.end_message_id

abbrev pub same_range : CompleteRange → CompleteRange → Bool
same_range r s =
    eqb_ℤ r.telegram_chat_id s.telegram_chat_id
    && eqb_ℤ r.start_message_id s.start_message_id
    && eqb_ℤ r.end_message_id s.end_message_id

-- The loop that checks each range and enters it into the map `unique`, where the key is made of the
-- three numbers: a range whose key is there already takes the place of its equal.
unfoldable pub unique_ranges :
    List ℤ → List CompleteRange → List CompleteRange → Result CoverageError (List CompleteRange)
unique_ranges selected unique [] = ok unique
unique_ranges selected unique (r ∷ rs) = do
  throw_if (has_invalid_bound r) invalid_bound
  throw_if (not (any selected (eqb_ℤ r.telegram_chat_id))) not_selected
  unique_ranges selected (if any unique (same_range r) then unique else unique ++ r ∷ []) rs

-- The comparator of the sort.
unfoldable pub compare_ranges : CompleteRange → CompleteRange → Sign
compare_ranges left right =
    if not (eqb_ℤ left.telegram_chat_id right.telegram_chat_id)
    then if ltb_ℤ left.telegram_chat_id right.telegram_chat_id then less else more
    else if not (eqb_ℤ left.start_message_id right.start_message_id)
    then if ltb_ℤ left.start_message_id right.start_message_id then less else more
    else if ltb_ℤ left.end_message_id right.end_message_id
    then less
    else if ltb_ℤ right.end_message_id left.end_message_id
    then more
    else same

-- Whether the next range continues the last merged one.
abbrev pub continues : CompleteRange → CompleteRange → Bool
continues previous r =
    eqb_ℤ previous.telegram_chat_id r.telegram_chat_id
    && not (ltb_ℤ (add_ℤ previous.end_message_id (pos 1)) r.start_message_id)

abbrev pub extended : CompleteRange → CompleteRange → CompleteRange
extended previous r =
    if ltb_ℤ previous.end_message_id r.end_message_id
    then record previous { end_message_id = r.end_message_id }
    else previous

-- The loop that merges, from the range that `merged.at(-1)` is; what was merged before it does not
-- change any more.
unfoldable pub merge_from : CompleteRange → List CompleteRange → List CompleteRange
merge_from previous [] = previous ∷ []
merge_from previous (r ∷ rs) =
    let joined = merge_from (extended previous r) rs in
    let apart = previous ∷ merge_from r rs in if continues previous r then joined else apart

unfoldable pub merge_ranges : List CompleteRange → List CompleteRange
merge_ranges [] = []
merge_ranges (r ∷ rs) = merge_from r rs

-- `validateTelegramDesktopCompleteRanges`.
unfoldable pub validate_complete_ranges :
    List CompleteRange → List ℤ → Bool → Result CoverageError (List CompleteRange)
validate_complete_ranges ranges selected apply' = do
  throw_if (ltb complete_range_limit (length ranges)) too_many
  throw_if (not apply' && ltb 0 (length ranges)) not_applied
  unique ← unique_ranges selected [] ranges
  ok (merge_ranges (sort compare_ranges unique))

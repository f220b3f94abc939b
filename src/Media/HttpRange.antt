-- ===== src/Media/HttpRange.antt =====
-- apps/server/src/media-cache/http-range.ts: the `Range` header of a request for a cached file.
-- `bigint` values are natural numbers: none of them is ever negative.
pub mod Bounds
pub mod Reading
mod Tests
use koharu_suite.Prelude.{
  ℕ, ◌+◌, ◌-◌, ◌*◌, Bool, true, false, not, ◌&&◌, ◌||◌, Option, none, some, List, [], ◌∷◌, ◌==◌,
  leb, ltb, if◌then◌else◌, Result, ok, err, ◌>>=◌, ◌>>◌, throw_if, length,
}
use koharu_suite.Prelude.Texts.{Text, codes, is_digit, is_space, is_upper, includes_unit}
use koharu_suite.Prelude.Numbers.{JsNumber, is_safe_integer, below}
use koharu_suite.Archive.Limits.{to_ℕ}

pub record MediaByteRange : Type 0 where
  pub end : ℕ
  pub length : ℕ
  pub start : ℕ

-- `MediaByteRange | 'unsatisfiable' | null`.
pub data RangeAnswer : Type 0 where
  range : MediaByteRange → RangeAnswer
  unsatisfiable whole_file : RangeAnswer

-- The `TypeError` on a length that is no positive safe integer.
pub data RangeError : Type 0 where
  invalid_length : RangeError

-- Case folding under the flags `iu`, for the letters of `bytes`: U+017F folds to `s`.
abbrev pub fold_case : ℕ → ℕ
fold_case c = if is_upper c then c + 32 else if c == 0x17f then b's' else c

-- `\s*`
unfoldable pub skip_spaces : Text → Text
skip_spaces [] = []
skip_spaces (c ∷ s) = let rest = skip_spaces s in if is_space c then rest else c ∷ s

-- `\d*`: the digits and what follows them.
unfoldable pub take_digits : Text → Text × Text
take_digits [] = ([], [])
take_digits (c ∷ s) =
    let rest = take_digits s in if is_digit c then (c ∷ rest.0, rest.1) else ([], c ∷ s)

-- A literal, up to case; the rest of the text where it matches.
unfoldable pub match_literal : Text → Text → Option Text
match_literal [] s = some s
match_literal (c ∷ l) [] = none
match_literal (c ∷ l) (d ∷ s) = if fold_case d == c then match_literal l s else none

infixl 5 ◌>>=?◌
abbrev pub ◌>>=?◌ {ℓ κ} : {A : Type ℓ} {B : Type κ} → Option A → (A → Option B) → Option B
none >>=? f = none
some a >>=? f = f a

abbrev pub at_end : Text → Text × Text → Option (Text × Text)
at_end [] r = some r
at_end (c ∷ s) r = none

-- `/^\s*bytes\s*=\s*(\d*)-(\d*)\s*$/iu`: the two captures.
unfoldable pub match_range : Text → Option (Text × Text)
match_range header = match_literal (codes "bytes") (skip_spaces header) >>=? λ s.
    match_literal (codes "=") (skip_spaces s) >>=? λ t.
    let first = take_digits (skip_spaces t) in
    match_literal (codes "-") first.1 >>=? λ u.
    let last = take_digits u in at_end (skip_spaces last.1) (first.0, last.0)

-- `BigInt(value)` of a text of digits.
unfoldable pub decimal_from : ℕ → Text → ℕ
decimal_from n [] = n
decimal_from n (c ∷ s) = decimal_from (n * 10 + (c - b'0')) s

-- `parseBound`.
unfoldable pub parse_bound : Text → Option ℕ
parse_bound s = if (length s == 0) || ltb 16 (length s) then none else some (decimal_from 0 s)

-- `byteRange`.
abbrev pub byte_range : ℕ → ℕ → RangeAnswer
byte_range start end = range (record { end = end; length = end - start + 1; start = start })

unfoldable pub suffix_range : Option ℕ → ℕ → RangeAnswer
suffix_range none size = unsatisfiable
suffix_range (some suffix_length) size =
    if leb suffix_length 0
    then unsatisfiable
    else byte_range (if leb size suffix_length then 0 else size - suffix_length) (size - 1)

unfoldable pub bounded_range : ℕ → Option ℕ → ℕ → RangeAnswer
bounded_range start none size = unsatisfiable
bounded_range start (some requested_end) size =
    if ltb requested_end start
    then unsatisfiable
    else byte_range start (if leb size requested_end then size - 1 else requested_end)

unfoldable pub range_from : Option ℕ → Text → ℕ → RangeAnswer
range_from none end_text size = unsatisfiable
range_from (some start) end_text size =
    if leb size start
    then unsatisfiable
    else if length end_text == 0
    then byte_range start (size - 1)
    else bounded_range start (parse_bound end_text) size

-- The part of the function behind the match.
unfoldable pub select_range : Text → Text → ℕ → RangeAnswer
select_range start_text end_text size =
    if (length start_text == 0) && (length end_text == 0)
    then unsatisfiable
    else if length start_text == 0
    then suffix_range (parse_bound end_text) size
    else range_from (parse_bound start_text) end_text size

abbrev pub answer_match : Text → Option (Text × Text) → ℕ → RangeAnswer
answer_match header none size = unsatisfiable
answer_match header (some (start_text, end_text)) size =
    if includes_unit header b',' then unsatisfiable else select_range start_text end_text size

abbrev pub answer_header : Option Text → ℕ → RangeAnswer
answer_header none size = whole_file
answer_header (some header) size = answer_match header (match_range header) size

-- `resolveMediaByteRange`.
unfoldable pub resolve_media_byte_range : Option Text → JsNumber → Result RangeError RangeAnswer
resolve_media_byte_range header size = do
  throw_if (not (is_safe_integer size) || below size 1) invalid_length
  ok (answer_header header (to_ℕ size))

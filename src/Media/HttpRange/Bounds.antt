-- ===== src/Media/HttpRange/Bounds.antt =====
-- Every range that is answered lies in the file.
use koharu_suite.Prelude.{
  ℕ, ◌+◌, ◌≤◌, ◌<◌, ◌≡◌, false, Option, none, some, arith, ok, unthrow, ok-injective, not, ◌||◌,
}
use koharu_suite.Prelude.Texts.{Text}
use koharu_suite.Prelude.Numbers.{JsNumber, whole, is_safe_integer, below}
use koharu_suite.Archive.Limits.{to_ℕ}
use koharu_suite.Media.HttpRange.{
  MediaByteRange, range, match_range, parse_bound, select_range, suffix_range, bounded_range,
  range_from, answer_match, resolve_media_byte_range,
}

pub record IsWithin (r : MediaByteRange) (size : ℕ) : Type 0 where
  pub ordered : r.start ≤ r.end
  pub inside : r.end < size
  pub measured : r.start + r.length ≡ r.end + 1

module _ (size : ℕ) (positive : 1 ≤ size) (r : MediaByteRange) where
  suffix_range-IsWithin : (b : Option ℕ) → suffix_range b size ≡ range r → IsWithin r size
  unfolding suffix_range
  suffix_range-IsWithin none h = absurd (cc)
  suffix_range-IsWithin (some n) h = ground arith

  bounded_range-IsWithin :
      (start : ℕ) (b : Option ℕ)
      → start < size
      → bounded_range start b size ≡ range r
      → IsWithin r size
  unfolding bounded_range
  bounded_range-IsWithin start none lt h = absurd (cc)
  bounded_range-IsWithin start (some n) lt h = ground arith

  range_from-IsWithin : (b : Option ℕ) (t : Text) → range_from b t size ≡ range r → IsWithin r size
  unfolding range_from
  range_from-IsWithin none t h = absurd (cc)
  range_from-IsWithin (some start) t h =
      ground (arith, bounded_range-IsWithin start (parse_bound t))

  select_range-IsWithin : (s t : Text) → select_range s t size ≡ range r → IsWithin r size
  unfolding select_range
  select_range-IsWithin s t h =
      ground (arith, suffix_range-IsWithin (parse_bound t), range_from-IsWithin (parse_bound s) t)

  answer_match-IsWithin :
      (header : Text) (m : Option (Text × Text))
      → answer_match header m size ≡ range r
      → IsWithin r size
  answer_match-IsWithin header none h = absurd (cc)
  answer_match-IsWithin header (some (s, t)) h = ground (arith, select_range-IsWithin s t)

whole_positive :
    (v : JsNumber)
    → (not (is_safe_integer v) || below v 1) ≡ false
    → (v ≡ whole (to_ℕ v)) × (1 ≤ to_ℕ v)
whole_positive v h = ground arith

-- A range that is answered, whatever the header, starts no later than it ends, ends inside the
-- file, and has the length that its ends say; the file's length is then a positive whole number.
pub resolve_media_byte_range-IsWithin :
    (header : Option Text) (size : JsNumber) (r : MediaByteRange)
    → resolve_media_byte_range header size ≡ ok (range r)
    → (size ≡ whole (to_ℕ size)) × IsWithin r (to_ℕ size)
unfolding resolve_media_byte_range
resolve_media_byte_range-IsWithin none size r h =
    unthrow _ _ _ h λ valid answered. absurd (cc (ok-injective answered))
resolve_media_byte_range-IsWithin (some header) size r h = unthrow _ _ _ h λ valid answered.
    let (same, positive) = whole_positive size valid in
    (
      same,
      answer_match-IsWithin (to_ℕ size) positive r header (match_range header)
          (ok-injective answered),
    )

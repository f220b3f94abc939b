-- ===== src/Media/HttpRange/Reading.antt =====
-- What a header in the usual spelling, `bytes=first-last`, is answered with.
use koharu_suite.Prelude.{
  ℕ, ◌-◌, ◌≤◌, ◌<◌, ◌≡◌, refl, ap, true, false, ◌&&◌, Option, none, some, [], ◌∷◌, ◌++◌, arith, ok,
  if◌then◌else◌, ◌==◌, length, leb, ltb, min, All, ◌>>=◌, lt→==_false, gt→==_false, above_range,
  below_range, le→ltb_false, le→leb_true,
}
use koharu_suite.Prelude.Texts.{Text, codes, is_digit, is_space, includes_unit}
use koharu_suite.Prelude.Numbers.{whole, max_safe_integer}
use koharu_suite.Media.HttpRange.{
  RangeAnswer, unsatisfiable, byte_range, skip_spaces, take_digits, match_literal, match_range,
  decimal_from, parse_bound, select_range, suffix_range, bounded_range, range_from,
  resolve_media_byte_range,
}

abbrev pub AllDigits : Text → Type 0
AllDigits = All λ c. is_digit c ≡ true

-- The header text of a request for a range; either bound may be left out.
abbrev pub header_text : Text → Text → Text
header_text first last = codes "bytes=" ++ first ++ b'-' ∷ last

-- The bound that a text of at most sixteen digits stands for.
abbrev pub bound : Text → Option ℕ
bound [] = none
bound (c ∷ s) = some (decimal_from 0 (c ∷ s))

-- The specification: the bytes of a file of `size` bytes that a pair of bounds asks for.
abbrev pub selection : Option ℕ → Option ℕ → ℕ → RangeAnswer
selection none none size = unsatisfiable
selection none (some n) size = if n == 0 then unsatisfiable else byte_range (size - n) (size - 1)
selection (some a) none size = if ltb a size then byte_range a (size - 1) else unsatisfiable
selection (some a) (some b) size =
    if ltb a size && leb a b then byte_range a (min b (size - 1)) else unsatisfiable

digit_bounds : (c : ℕ) → is_digit c ≡ true → (0x30 ≤ c) × (c ≤ 0x39)
digit_bounds c h = ground arith

-- White space lies outside the printable ASCII units.
graphic_not_space : (c : ℕ) → 0x21 ≤ c → c ≤ 0x7e → is_space c ≡ false
graphic_not_space c l h =
    let small = λ (k : ℕ) (lt : 0x7e < k). lt→==_false c k (omega arith) in
    rw (
      above_range 0x09 0x0d c (omega arith),
      gt→==_false c 0x20 (omega arith),
      small 0xa0 (omega arith),
      small 0x1680 (omega arith),
      below_range 0x2000 0x200a c (omega arith),
      small 0x2028 (omega arith),
      small 0x2029 (omega arith),
      small 0x202f (omega arith),
      small 0x205f (omega arith),
      small 0x3000 (omega arith),
      small 0xfeff (omega arith),
    )

skip_spaces_graphic : (c : ℕ) (s : Text) → 0x21 ≤ c → c ≤ 0x7e → skip_spaces (c ∷ s) ≡ c ∷ s
unfolding skip_spaces
skip_spaces_graphic c s l h = rw (graphic_not_space c l h)

skip_spaces_digits : (s t : Text) → AllDigits s → skip_spaces (s ++ b'-' ∷ t) ≡ s ++ b'-' ∷ t
skip_spaces_digits [] t h = skip_spaces_graphic b'-' t (omega arith) (omega arith)
skip_spaces_digits (c ∷ s) t (d, h) =
    let (low, high) = digit_bounds c d in skip_spaces_graphic c _ (omega arith) (omega arith)

take_digits-dash : (s t : Text) → AllDigits s → take_digits (s ++ b'-' ∷ t) ≡ (s, b'-' ∷ t)
unfolding take_digits
take_digits-dash [] t h = refl
take_digits-dash (c ∷ s) t (d, h) = rw (d, take_digits-dash s t h)

take_digits-all : (s : Text) → AllDigits s → take_digits s ≡ (s, [])
unfolding take_digits
take_digits-all [] h = refl
take_digits-all (c ∷ s) (d, h) = rw (d, take_digits-all s h)

match_range-header_text :
    (s t : Text) → AllDigits s → AllDigits t → match_range (header_text s t) ≡ some (s, t)
unfolding match_range match_literal skip_spaces
match_range-header_text s t h k =
    rw (skip_spaces_digits s t h, take_digits-dash s t h, take_digits-all t k)

digits_without_comma : (s : Text) → AllDigits s → includes_unit s b',' ≡ false
digits_without_comma [] h = refl
digits_without_comma (c ∷ s) (d, h) = ground (arith, digits_without_comma s h, digit_bounds c d)

header_without_comma :
    (s t : Text) → AllDigits s → AllDigits t → includes_unit (header_text s t) b',' ≡ false
header_without_comma [] t h k = digits_without_comma t k
header_without_comma (c ∷ s) t (d, h) k =
    ground (arith, header_without_comma s t h k, digit_bounds c d)

parse_bound-bound : (c : ℕ) (s : Text) → length (c ∷ s) ≤ 16 → parse_bound (c ∷ s) ≡ bound (c ∷ s)
unfolding parse_bound
parse_bound-bound c s h = ground arith

parse_bound-nil : parse_bound [] ≡ none
unfolding parse_bound
parse_bound-nil = refl

select_range-selection :
    (s t : Text) (size : ℕ)
    → 1 ≤ size
    → length s ≤ 16
    → length t ≤ 16
    → select_range s t size ≡ selection (bound s) (bound t) size
unfolding select_range suffix_range range_from bounded_range
select_range-selection [] [] size p h k = refl
select_range-selection [] (c ∷ t) size p h k = rw (parse_bound-bound c t k) (ground arith)
select_range-selection (c ∷ s) [] size p h k = rw (parse_bound-bound c s h) (ground arith)
select_range-selection (c ∷ s) (d ∷ t) size p h k =
    rw (parse_bound-bound c s h, parse_bound-bound d t k) (ground arith)

-- A header `bytes=first-last` whose bounds have at most sixteen digits each selects exactly the
-- bytes of the specification: from `first` to `last`, cut off at the end of the file; all from
-- `first` on; or the last bytes, as many as `last` says. Selecting nothing is unsatisfiable.
pub resolve_media_byte_range-header_text :
    (first last : Text) (size : ℕ)
    → AllDigits first
    → AllDigits last
    → length first ≤ 16
    → length last ≤ 16
    → 1 ≤ size
    → size ≤ max_safe_integer
    → resolve_media_byte_range (some (header_text first last)) (whole size)
      ≡ ok (selection (bound first) (bound last) size)
unfolding resolve_media_byte_range ◌>>=◌
resolve_media_byte_range-header_text s t size ds dt ls lt positive safe =
    rw
      (
        le→leb_true size max_safe_integer safe,
        le→ltb_false size 1 positive,
        match_range-header_text s t ds dt,
        header_without_comma s t ds dt,
      )
      (ap ok (select_range-selection s t size positive ls lt))

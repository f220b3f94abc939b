-- ===== src/Imports/Coverage/Parsing.antt =====
-- What apps/server/src/imports/coverage.ts accepts as the text of a range.
use koharu_suite.Prelude.{
  ℕ, ◌+◌, ◌-◌, ◌*◌, ◌≤◌, ◌<◌, ◌≡◌, refl, Bool, true, false, not, ◌&&◌, ◌||◌, List, [], ◌∷◌, arith,
  leb, ok, unthrow, ok-injective, subst, Bool-cases, inl, inr, &&-true, ||-false,
}
use koharu_suite.Prelude.Texts.{Text, split}
use koharu_suite.Prelude.Int.{ℤ, pos, ltb_ℤ}
use koharu_suite.Imports.Coverage.{
  CompleteRange, matched_range, parse_parts, parse_complete_range, has_invalid_bound,
  is_positive_decimal, is_negative_decimal, positive_value, negative_value, negated, digits_value,
  all_digits,
}

digits_value-ge : (n : ℕ) (s : Text) → n ≤ digits_value n s
digits_value-ge n [] = omega arith
digits_value-ge n (c ∷ s) = omega (arith, digits_value-ge (n * 10 + (c - b'0')) s)

digits_value-positive : (s : Text) → is_positive_decimal s ≡ true → 0 < digits_value 0 s
digits_value-positive [] h = absurd (cc)
digits_value-positive (c ∷ s) h =
    let (h1, digits) = &&-true (leb b'1' c && leb c b'9') (all_digits s) h in
    let (least, most) = &&-true (leb b'1' c) (leb c b'9') h1 in
    let big : 1 ≤ 0 * 10 + (c - b'0') = ground arith in
    omega (arith, big, digits_value-ge (0 * 10 + (c - b'0')) s)

positive_value-positive :
    (s : Text) → is_positive_decimal s ≡ true → ltb_ℤ (pos 0) (positive_value s) ≡ true
positive_value-positive s h = let p = digits_value-positive s h in ground arith

negated-negative : (n : ℕ) → 0 < n → ltb_ℤ (negated n) (pos 0) ≡ true
negated-negative n h = ground arith

negative_value-negative :
    (s : Text) → is_negative_decimal s ≡ true → ltb_ℤ (negative_value s) (pos 0) ≡ true
negative_value-negative [] h = absurd (cc)
negative_value-negative (c ∷ s) h =
    let (_, digits) = &&-true (leb b'-' c && leb c b'-') (is_positive_decimal s) h in
    negated-negative (digits_value 0 s) (digits_value-positive s digits)

or-all-false :
    (a b c d e : Bool)
    → a ≡ true
    → b ≡ false
    → c ≡ true
    → d ≡ false
    → e ≡ false
    → (not a || b || not c || d || e) ≡ false
or-all-false a b c d e h i j k l = rw (h, i, j, k, l) refl

matched_range-valid :
    (chat start end' : ℤ) (r : CompleteRange)
    → ltb_ℤ chat (pos 0) ≡ true
    → ltb_ℤ (pos 0) start ≡ true
    → matched_range chat start end' ≡ ok r
    → has_invalid_bound r ≡ false
unfolding matched_range
matched_range-valid chat start end' r negative positive h = unthrow _ _ _ h λ bounded h1.
    unthrow _ _ _ h1 λ ordered h2.
      let (below, above) = ||-false _ _ bounded in
      let (small, _) = ||-false _ _ below in
      subst (λ s. has_invalid_bound s ≡ false) (ok-injective h2)
        (or-all-false _ _ _ _ _ negative small positive ordered above)

parse_parts-valid :
    (parts : List Text) (r : CompleteRange) → parse_parts parts ≡ ok r → has_invalid_bound r ≡ false
parse_parts-valid [] r h = absurd (cc)
parse_parts-valid (a ∷ []) r h = absurd (cc)
parse_parts-valid (a ∷ b ∷ []) r h = absurd (cc)
parse_parts-valid (a ∷ b ∷ c ∷ d ∷ ds) r h = absurd (cc)
parse_parts-valid (a ∷ b ∷ c ∷ []) r h =
    elim (Bool-cases (is_negative_decimal a && is_positive_decimal b && is_positive_decimal c)) [
      | inl matches ↦
          let (h1, _) = &&-true _ _ matches in
          let (negative, positive) = &&-true _ _ h1 in
          matched_range-valid (negative_value a) (positive_value b) (positive_value c) r
            (negative_value-negative a negative) (positive_value-positive b positive)
            (rw matches at h)
      | inr no' ↦ absurd (cc (rw no' at h))
    ]

-- A range that is parsed has bounds that the validation accepts.
pub parse_complete_range-valid :
    (value : Text) (r : CompleteRange)
    → parse_complete_range value ≡ ok r
    → has_invalid_bound r ≡ false
unfolding parse_complete_range
parse_complete_range-valid value r h = parse_parts-valid (split b':' value) r h

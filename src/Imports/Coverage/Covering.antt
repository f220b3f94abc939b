-- ===== src/Imports/Coverage/Covering.antt =====
-- The messages that the ranges of apps/server/src/imports/coverage.ts cover.
use koharu_suite.Prelude.{
  or_assoc, or_false, ◌≡◌, refl, sym, ap, ◌∙◌, inl, inr, Bool, true, not, ◌&&◌, ◌||◌, List, [], ◌∷◌,
  ◌++◌, arith, if◌then◌else◌, ok, unchain, unthrow, ok-injective, any, Bool-cases, &&-true,
}
use koharu_suite.Prelude.Int.{ℤ, ltb_ℤ, eqb_ℤ, eq_of_eqb_ℤ}
use koharu_suite.Prelude.Sorting.{sort, sort-IsSorted, any-sort}
use koharu_suite.Imports.Coverage.{
  CompleteRange, same_range, unique_ranges, compare_ranges, merge_ranges, validate_complete_ranges,
}
use koharu_suite.Imports.Coverage.Merging.{
  covers, covered, Ordered, compare_ranges-IsOrder, IsSorted-Ordered, merge_from-covered,
}

same_range-covers :
    (chat message : ℤ) (r u : CompleteRange)
    → same_range r u ≡ true
    → covers chat message r ≡ covers chat message u
same_range-covers chat message r u h =
    let (h1, same_end) = &&-true _ _ h in
    let (same_chat, same_start) = &&-true _ _ h1 in
    let chats = eq_of_eqb_ℤ r.telegram_chat_id u.telegram_chat_id same_chat in
    let starts = eq_of_eqb_ℤ r.start_message_id u.start_message_id same_start in
    let ends = eq_of_eqb_ℤ r.end_message_id u.end_message_id same_end in
    λ i. eqb_ℤ (chats i) chat && not (ltb_ℤ message (starts i)) && not (ltb_ℤ (ends i) message)

covers-known :
    (chat message : ℤ) (r : CompleteRange) (unique : List CompleteRange)
    → any unique (same_range r) ≡ true
    → (covered unique chat message || covers chat message r) ≡ covered unique chat message
covers-known chat message r [] h = cc
covers-known chat message r (u ∷ us) h = elim (Bool-cases (same_range r u)) [
  | inl equal ↦ let e = same_range-covers chat message r u equal in ground arith
  | inr different ↦
      let known : any us (same_range r) ≡ true = ground arith in
      let e = covers-known chat message r us known in
      or_assoc (covers chat message u) (covered us chat message) (covers chat message r)
      ∙ ap (λ b. covers chat message u || b) e
]

covered-append :
    (chat message : ℤ) (rs : List CompleteRange) (r : CompleteRange)
    → covered (rs ++ r ∷ []) chat message ≡ (covered rs chat message || covers chat message r)
covered-append chat message [] r = or_false (covers chat message r)
covered-append chat message (q ∷ rs) r =
    ap (λ b. covers chat message q || b) (covered-append chat message rs r)
    ∙ sym (or_assoc (covers chat message q) (covered rs chat message) (covers chat message r))

entered-covered :
    (chat message : ℤ) (unique : List CompleteRange) (r : CompleteRange)
    → covered (if any unique (same_range r) then unique else unique ++ r ∷ []) chat message
      ≡ (covered unique chat message || covers chat message r)
entered-covered chat message unique r = elim (Bool-cases (any unique (same_range r))) [
  | inl known ↦ rw known (sym (covers-known chat message r unique known))
  | inr unknown ↦ rw unknown (covered-append chat message unique r)
]

unique_ranges-covered :
    (chat message : ℤ) (selected : List ℤ) (rs unique out : List CompleteRange)
    → unique_ranges selected unique rs ≡ ok out
    → covered out chat message ≡ (covered unique chat message || covered rs chat message)
unfolding unique_ranges
unique_ranges-covered chat message selected [] unique out h =
    ap (λ o. covered o chat message) (sym (ok-injective h))
    ∙ sym (or_false (covered unique chat message))
unique_ranges-covered chat message selected (r ∷ rs) unique out h = unthrow _ _ _ h λ valid h1.
    unthrow _ _ _ h1 λ chosen h2.
      unique_ranges-covered chat message selected rs _ out h2
      ∙ ap (λ b. b || covered rs chat message) (entered-covered chat message unique r)
      ∙ or_assoc (covered unique chat message) (covers chat message r) (covered rs chat message)

merge_ranges-covered :
    (chat message : ℤ) (rs : List CompleteRange)
    → Ordered rs
    → covered (merge_ranges rs) chat message ≡ covered rs chat message
unfolding merge_ranges
merge_ranges-covered chat message [] h = refl
merge_ranges-covered chat message (r ∷ rs) (h, hs) = merge_from-covered chat message r rs h hs

-- When the declared ranges are accepted, the merged ranges cover the same messages of the same chats
-- as the declared ones.
pub validate_complete_ranges-covered :
    (ranges : List CompleteRange) (selected : List ℤ) (apply' : Bool) (merged : List CompleteRange)
    → validate_complete_ranges ranges selected apply' ≡ ok merged
    → (chat message : ℤ) → covered merged chat message ≡ covered ranges chat message
unfolding validate_complete_ranges
validate_complete_ranges-covered ranges selected apply' merged h chat message =
    unthrow _ _ _ h λ few h1. unthrow _ _ _ h1 λ applied h2. unchain _ _ h2 λ unique entered h3.
      ap (λ o. covered o chat message) (sym (ok-injective h3))
      ∙ merge_ranges-covered chat message (sort compare_ranges unique)
          (IsSorted-Ordered _ (sort-IsSorted compare_ranges compare_ranges-IsOrder unique))
      ∙ any-sort compare_ranges (covers chat message) unique
      ∙ unique_ranges-covered chat message selected ranges [] unique entered

-- ===== src/Imports/Coverage/Separation.antt =====
-- How far the merged ranges of apps/server/src/imports/coverage.ts stand apart.
use koharu_suite.Prelude.{
  ◌≡◌, subst, ◌⊎◌, inl, inr, Bool, true, false, List, [], ◌∷◌, arith, ok, unchain, unthrow,
  ok-injective, All, All-map, Bool-cases,
}
use koharu_suite.Prelude.Int.{ℤ, pos, ltb_ℤ, eqb_ℤ, add_ℤ, ◌<ℤ◌}
use koharu_suite.Prelude.Sorting.{sort, sort-IsSorted}
use koharu_suite.Imports.Coverage.{
  CompleteRange, compare_ranges, continues, extended, merge_from, merge_ranges,
  validate_complete_ranges,
}
use koharu_suite.Imports.Coverage.Merging.{
  Precedes, Ordered, compare_ranges-IsOrder, IsSorted-Ordered, extended-Precedes,
}

-- A later chat, or a gap of at least one message in the same chat.
abbrev pub Apart : CompleteRange → CompleteRange → Type 0
Apart p q =
    (p.telegram_chat_id <ℤ q.telegram_chat_id)
    ⊎ (eqb_ℤ p.telegram_chat_id q.telegram_chat_id ≡ true)
      × (add_ℤ p.end_message_id (pos 1) <ℤ q.start_message_id)

abbrev pub AreApart : List CompleteRange → Type 0
AreApart [] = Unit {0}
AreApart (p ∷ ps) = All (Apart p) ps × AreApart ps

Apart-Precedes : (p r q : CompleteRange) → Apart p r → Precedes r q → Apart p q
Apart-Precedes p r q (inl h) (chats, starts) = inl (ground arith)
Apart-Precedes p r q (inr (h, gap)) (chats, starts) =
    elim (Bool-cases (eqb_ℤ r.telegram_chat_id q.telegram_chat_id)) [
      | inl equal ↦ let start = starts equal in inr (ground arith, ground arith)
      | inr other ↦ inl (ground arith)
    ]

not_continues-Apart : (p r : CompleteRange) → continues p r ≡ false → Precedes p r → Apart p r
not_continues-Apart p r h (chats, starts) =
    elim (Bool-cases (eqb_ℤ p.telegram_chat_id r.telegram_chat_id)) [
      | inl equal ↦ inr (equal, ground arith)
      | inr other ↦ inl (ground arith)
    ]

extended-Apart : (o p r : CompleteRange) → Apart o p → Apart o (extended p r)
extended-Apart o p r h = elim (Bool-cases (ltb_ℤ p.end_message_id r.end_message_id)) [
  | inl longer ↦ rw longer h
  | inr shorter ↦ rw shorter h
]

-- Merging makes no new chat and no new start.
merge_from-All :
    (o p : CompleteRange) (rs : List CompleteRange)
    → Apart o p
    → All (Apart o) rs
    → All (Apart o) (merge_from p rs)
unfolding merge_from
merge_from-All o p [] h hs = (h, tt)
merge_from-All o p (r ∷ rs) h (k, hs) = elim (Bool-cases (continues p r)) [
  | inl joined ↦
      rw (joined, merge_from) (merge_from-All o (extended p r) rs (extended-Apart o p r h) hs)
  | inr apart ↦ rw (apart, merge_from) (h, merge_from-All o r rs k hs)
]

merge_from-AreApart :
    (p : CompleteRange) (rs : List CompleteRange)
    → All (Precedes p) rs
    → Ordered rs
    → AreApart (merge_from p rs)
unfolding merge_from
merge_from-AreApart p [] h hs = (tt, tt)
merge_from-AreApart p (r ∷ rs) (h, after) (hr, hs) = elim (Bool-cases (continues p r)) [
  | inl joined ↦
      rw (joined, merge_from)
        (merge_from-AreApart (extended p r) rs (All-map _ _ (λ q. extended-Precedes p r q) rs after)
          hs)
  | inr apart ↦
      let gap = not_continues-Apart p r apart h in
      rw (apart, merge_from)
        (
          merge_from-All p r rs gap (All-map _ _ (λ q. Apart-Precedes p r q gap) rs hr),
          merge_from-AreApart r rs hr hs,
        )
]

merge_ranges-AreApart : (rs : List CompleteRange) → Ordered rs → AreApart (merge_ranges rs)
unfolding merge_ranges
merge_ranges-AreApart [] h = tt
merge_ranges-AreApart (r ∷ rs) (h, hs) = merge_from-AreApart r rs h hs

-- When the declared ranges are accepted, the merged ranges come in the order of their chats, and
-- those of one chat in the order of their messages, with at least one message between any two.
pub validate_complete_ranges-AreApart :
    (ranges : List CompleteRange) (selected : List ℤ) (apply' : Bool) (merged : List CompleteRange)
    → validate_complete_ranges ranges selected apply' ≡ ok merged
    → AreApart merged
unfolding validate_complete_ranges
validate_complete_ranges-AreApart ranges selected apply' merged h = unthrow _ _ _ h λ few h1.
    unthrow _ _ _ h1 λ applied h2. unchain _ _ h2 λ unique entered h3.
      subst AreApart (ok-injective h3) (
        merge_ranges-AreApart (sort compare_ranges unique)
          (IsSorted-Ordered _ (sort-IsSorted compare_ranges compare_ranges-IsOrder unique)))

-- ===== src/Imports/Coverage/Merging.antt =====
-- What the merged ranges of apps/server/src/imports/coverage.ts cover, and how far they stand apart.
use koharu_suite.Prelude.{
  or_assoc, not-true, ◌+◌, ◌≡◌, refl, ap, ◌∙◌, ◌≢◌, ◌⊎◌, inl, inr, Bool, true, false, not, ◌&&◌,
  ◌||◌, List, [], ◌∷◌, arith, any, All, All-map, Bool-cases, &&-true,
}
use koharu_suite.Prelude.Int.{
  ℤ, pos, negsuc, ltb_ℤ, eqb_ℤ, eq_of_eqb_ℤ, add_ℤ, pos_part, neg_part, ◌<ℤ◌,
}
use koharu_suite.Prelude.Sorting.{more, IsSorted, IsOrder}
use koharu_suite.Imports.Coverage.{CompleteRange, compare_ranges, continues, extended, merge_from}

-- Whether a range covers a message of a chat.
abbrev pub covers : ℤ → ℤ → CompleteRange → Bool
covers chat message r =
    eqb_ℤ r.telegram_chat_id chat
    && not (ltb_ℤ message r.start_message_id)
    && not (ltb_ℤ r.end_message_id message)

abbrev pub covered : List CompleteRange → ℤ → ℤ → Bool
covered rs chat message = any rs (covers chat message)

successor :
    (a : ℤ) → pos_part (add_ℤ a (pos 1)) + neg_part a ≡ pos_part a + 1 + neg_part (add_ℤ a (pos 1))
unfolding add_ℤ
successor (pos n) = ground arith
successor (negsuc n) = ground arith

-- The comparator.

-- The order of the sort, read off the three numbers.
abbrev Before : CompleteRange → CompleteRange → Type 0
Before x y =
    (x.telegram_chat_id <ℤ y.telegram_chat_id)
    ⊎ (eqb_ℤ x.telegram_chat_id y.telegram_chat_id ≡ true)
      × ((x.start_message_id <ℤ y.start_message_id)
          ⊎ (eqb_ℤ x.start_message_id y.start_message_id ≡ true)
            × (ltb_ℤ y.end_message_id x.end_message_id ≡ false))

module _ (x y : CompleteRange) where
  compare_ranges-Before : compare_ranges x y ≢ more → Before x y
  unfolding compare_ranges
  compare_ranges-Before h = elim (Bool-cases (eqb_ℤ x.telegram_chat_id y.telegram_chat_id)) [
    | inr other ↦ inl (ground arith)
    | inl chat ↦ elim (Bool-cases (eqb_ℤ x.start_message_id y.start_message_id)) [
      | inr start ↦ inr (chat, inl (ground arith))
      | inl start ↦ inr (chat, inr (start, ground arith))
    ]
  ]

  Before-compare_ranges : Before x y → compare_ranges x y ≢ more
  unfolding compare_ranges
  Before-compare_ranges (inl chat) = ground arith
  Before-compare_ranges (inr (chat, inl start)) = ground arith
  Before-compare_ranges (inr (chat, inr (start, end'))) = ground arith

  total : compare_ranges x y ≡ more → compare_ranges y x ≢ more
  unfolding compare_ranges
  total h = ground arith

Before-trans : (x y z : CompleteRange) → Before x y → Before y z → Before x z
Before-trans x y z (inl h) (inl k) = inl (ground arith)
Before-trans x y z (inl h) (inr (k, _)) = inl (ground arith)
Before-trans x y z (inr (h, _)) (inl k) = inl (ground arith)
Before-trans x y z (inr (h, inl hs)) (inr (k, inl ks)) = inr (ground arith, inl (ground arith))
Before-trans x y z (inr (h, inl hs)) (inr (k, inr (ks, _))) = inr (ground arith, inl (ground arith))
Before-trans x y z (inr (h, inr (hs, _))) (inr (k, inl ks)) = inr (ground arith, inl (ground arith))
Before-trans x y z (inr (h, inr (hs, he))) (inr (k, inr (ks, ke))) =
    inr (ground arith, inr (ground arith, ground arith))

pub compare_ranges-IsOrder : IsOrder compare_ranges
compare_ranges-IsOrder = record {
  total = total;
  transitive = λ x y z h k.
      Before-compare_ranges x z
        (Before-trans x y z (compare_ranges-Before x y h) (compare_ranges-Before y z k));
}

-- Merging.

-- Two intervals that overlap or meet make one.
joined_interval :
    (s t e f m : ℤ)
    → ltb_ℤ t s ≡ false
    → ltb_ℤ (add_ℤ e (pos 1)) t ≡ false
    → ltb_ℤ e f ≡ true
    → (not (ltb_ℤ m s) && not (ltb_ℤ f m))
      ≡ ((not (ltb_ℤ m s) && not (ltb_ℤ e m)) || (not (ltb_ℤ m t) && not (ltb_ℤ f m)))
joined_interval s t e f m order close longer =
    let next = successor e in
    elim (Bool-cases (ltb_ℤ m s)) [
      | inl early ↦ rw early (let late : ltb_ℤ m t ≡ true = ground arith in rw late refl)
      | inr begun ↦ elim (Bool-cases (ltb_ℤ e m)) [
        | inl after ↦ rw (begun, after) (let in' : ltb_ℤ m t ≡ false = ground arith in rw in' refl)
        | inr within ↦
            rw (begun, within) (let in' : ltb_ℤ f m ≡ false = ground arith in rw in' refl)
      ]
    ]

guarded :
    (p q a b c d : Bool)
    → p ≡ q
    → (a && b) ≡ ((a && c) || (d && b))
    → (p && a && b) ≡ ((p && a && c) || (q && d && b))
guarded true true a b c d h e = e
guarded false false a b c d h e = refl
guarded true false a b c d h e = cc
guarded false true a b c d h e = cc

same_eqb : (a b c : ℤ) → eqb_ℤ a b ≡ true → eqb_ℤ a c ≡ eqb_ℤ b c
same_eqb a b c h = ap (λ n. eqb_ℤ n c) (eq_of_eqb_ℤ a b h)

-- What the merging needs of the order.
abbrev pub Precedes : CompleteRange → CompleteRange → Type 0
Precedes p r =
    (ltb_ℤ r.telegram_chat_id p.telegram_chat_id ≡ false)
    × (eqb_ℤ p.telegram_chat_id r.telegram_chat_id ≡ true
        → ltb_ℤ r.start_message_id p.start_message_id ≡ false)

Before-Precedes : (p r : CompleteRange) → Before p r → Precedes p r
Before-Precedes p r (inl h) = (ground arith, λ e. absurd (ground arith))
Before-Precedes p r (inr (h, inl k)) = (ground arith, λ e. ground arith)
Before-Precedes p r (inr (h, inr (k, _))) = (ground arith, λ e. ground arith)

abbrev pub Ordered : List CompleteRange → Type 0
Ordered [] = Unit
Ordered (r ∷ rs) = All (Precedes r) rs × Ordered rs

pub IsSorted-Ordered : (rs : List CompleteRange) → IsSorted compare_ranges rs → Ordered rs
IsSorted-Ordered [] h = tt
IsSorted-Ordered (r ∷ rs) (h, hs) = (
  All-map _ _ (λ q before. Before-Precedes r q (compare_ranges-Before r q before)) rs h,
  IsSorted-Ordered rs hs,
)

module _ (p r : CompleteRange) where
  pub extended-Precedes : (q : CompleteRange) → Precedes p q → Precedes (extended p r) q
  extended-Precedes q h = elim (Bool-cases (ltb_ℤ p.end_message_id r.end_message_id)) [
    | inl longer ↦ rw longer h
    | inr shorter ↦ rw shorter h
  ]

  extended-covers :
      (chat message : ℤ)
      → continues p r ≡ true
      → Precedes p r
      → covers chat message (extended p r) ≡ (covers chat message p || covers chat message r)
  extended-covers chat message h (_, order) =
      let (same_chat, close) = &&-true _ _ h in
      let start = order same_chat in
      elim (Bool-cases (ltb_ℤ p.end_message_id r.end_message_id)) [
        | inl longer ↦ rw longer (
            guarded _ _ _ _ _ _ (same_eqb p.telegram_chat_id r.telegram_chat_id chat same_chat) (
              joined_interval p.start_message_id r.start_message_id p.end_message_id
                r.end_message_id message start (not-true _ close) longer))
        | inr shorter ↦ rw shorter (ground arith)
      ]

pub merge_from-covered :
    (chat message : ℤ) (p : CompleteRange) (rs : List CompleteRange)
    → All (Precedes p) rs
    → Ordered rs
    → covered (merge_from p rs) chat message ≡ (covers chat message p || covered rs chat message)
unfolding merge_from
merge_from-covered chat message p [] h hs = refl
merge_from-covered chat message p (r ∷ rs) (h, after) (hr, hs) = elim (Bool-cases (continues p r)) [
  | inl joined ↦
      rw (joined, merge_from)
        (merge_from-covered chat message (extended p r) rs
            (All-map _ _ (λ q. extended-Precedes p r q) rs after) hs
          ∙ ap (λ b. b || covered rs chat message) (extended-covers p r chat message joined h)
          ∙ or_assoc (covers chat message p) (covers chat message r) (covered rs chat message))
  | inr apart ↦
      rw (apart, merge_from)
        (ap (λ b. covers chat message p || b) (merge_from-covered chat message r rs hr hs))
]

-- ===== src/Media/Policy/Ordering.antt =====
-- In what order the items of a plan stand.
use koharu_suite.Prelude.{
  ◌≡◌, refl, ◌≢◌, sym, ◌∙◌, List, [], ◌∷◌, map, arith, All, Bool-cases, inl, inr, ltb, ltb→lt,
  ltb→ge, ◌⊎◌, ◌<◌, All-map,
}
use koharu_suite.Prelude.Texts.{Text}
use koharu_suite.Prelude.Sorting.{Sign, more, IsSorted, IsOrder}
use koharu_suite.Archive.Limits.{to_ℕ}
use koharu_suite.Media.Policy.{
  OriginalMediaPlanItem, post_original_limit_bytes, skip_item, add_known, plan_items, compare_items,
}

pub compare_items-IsOrder :
    (locale_compare : Text → Text → Sign)
    → IsOrder locale_compare
    → IsOrder (compare_items locale_compare)
unfolding compare_items
compare_items-IsOrder lc o = record {
  total = λ x y h k. ground (arith, o.total x.id y.id);
  transitive = λ x y z h k l. ground (arith, o.transitive x.id y.id z.id);
}

pub skip_item-candidate : (i : OriginalMediaPlanItem) → (skip_item i).candidate ≡ i.candidate
unfolding skip_item
skip_item-candidate i = ground arith

-- An item stands before another: at a lower position, or at the same one with an id that the collation
-- does not put behind.
abbrev pub IsBefore : (Text → Text → Sign) → OriginalMediaPlanItem → OriginalMediaPlanItem → Type 0
IsBefore locale_compare i j =
    (to_ℕ i.position < to_ℕ j.position)
    ⊎ (to_ℕ i.position ≡ to_ℕ j.position) × (locale_compare i.id j.id ≢ more)

-- Each item stands before all that follow.
abbrev pub AreInOrder : (Text → Text → Sign) → List OriginalMediaPlanItem → Type 0
AreInOrder locale_compare [] = Unit {0}
AreInOrder locale_compare (i ∷ is) =
    All (IsBefore locale_compare i) is × AreInOrder locale_compare is

module _ (locale_compare : Text → Text → Sign) where
  IsBefore-of_compare :
      (i j : OriginalMediaPlanItem)
      → compare_items locale_compare i j ≢ more
      → IsBefore locale_compare i j
  unfolding compare_items
  IsBefore-of_compare i j h = elim (Bool-cases (ltb (to_ℕ i.position) (to_ℕ j.position))) [
    | inl lower ↦ inl (ltb→lt _ _ lower)
    | inr not_lower ↦ elim (Bool-cases (ltb (to_ℕ j.position) (to_ℕ i.position))) [
      | inl higher ↦ absurd (h (rw (not_lower, higher) refl))
      | inr not_higher ↦ inr (
        omega (arith, ltb→ge _ _ not_lower, ltb→ge _ _ not_higher),
        λ e. h (rw (not_lower, not_higher) e),
      )
    ]
  ]

  pub AreInOrder-of_IsSorted :
      (is : List OriginalMediaPlanItem)
      → IsSorted (compare_items locale_compare) is
      → AreInOrder locale_compare is
  AreInOrder-of_IsSorted [] h = tt
  AreInOrder-of_IsSorted (i ∷ is) (h, hs) =
      (All-map _ _ (IsBefore-of_compare i) is h, AreInOrder-of_IsSorted is hs)

  compare_items-skip :
      (i j : OriginalMediaPlanItem)
      → compare_items locale_compare (skip_item i) (skip_item j) ≡ compare_items locale_compare i j
  unfolding compare_items
  compare_items-skip i j = rw (skip_item-candidate i, skip_item-candidate j)

  All-skip :
      (i : OriginalMediaPlanItem) (is : List OriginalMediaPlanItem)
      → All (λ j. compare_items locale_compare i j ≢ more) is
      → All (λ j. compare_items locale_compare (skip_item i) j ≢ more) (map skip_item is)
  All-skip i [] h = tt
  All-skip i (j ∷ js) (h, hs) = ((λ e. h (sym (compare_items-skip i j) ∙ e)), All-skip i js hs)

  IsSorted-skip :
      (is : List OriginalMediaPlanItem)
      → IsSorted (compare_items locale_compare) is
      → IsSorted (compare_items locale_compare) (map skip_item is)
  IsSorted-skip [] h = tt
  IsSorted-skip (i ∷ is) (h, hs) = (All-skip i is h, IsSorted-skip is hs)

  pub plan_items-IsSorted :
      (is : List OriginalMediaPlanItem)
      → IsSorted (compare_items locale_compare) is
      → IsSorted (compare_items locale_compare) (plan_items is).items
  unfolding plan_items
  plan_items-IsSorted is h = elim (Bool-cases (ltb post_original_limit_bytes (add_known 0 is))) [
    | inl over ↦ rw over (IsSorted-skip is h)
    | inr within ↦ rw within h
  ]

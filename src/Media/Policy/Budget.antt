-- ===== src/Media/Policy/Budget.antt =====
-- The bytes that a plan reserves.
use koharu_suite.Prelude.{
  ℕ, ◌+◌, ◌≤◌, ◌<◌, ◌≡◌, refl, ◌≢◌, subst, sym, ap, true, false, Option, none, some, List, [], ◌∷◌,
  map, arith, ok, sum_by, unchain, ok-injective, All, All-map, Bool-cases, inl, inr, ltb, ltb→lt,
  ltb→ge, if◌then◌else◌, ◌⊎◌, ◌∙◌,
}
use koharu_suite.Prelude.Texts.{Text}
use koharu_suite.Prelude.Int.{ℤ, pos, negsuc}
use koharu_suite.Prelude.Sorting.{Sign, All-sort}
use koharu_suite.Media.Policy.{
  OriginalMediaCandidate, OriginalMediaItemDecision, eligible, skipped_post_limit,
  OriginalMediaPlanItem, OriginalMediaCachePlan, post_original_limit_bytes, original_limit,
  fallback, skipped_kind_limit, decide_item, plan_item, is_eligible, declared, limit_or_zero,
  add_known, add_reserved, skip_item, plan_items, compare_items, plan_original_media_cache,
}

-- An item as `map` made it.
abbrev pub IsPlanned : OriginalMediaPlanItem → Type 0
IsPlanned i = i ≡ plan_item i.candidate

pub IsPlanned-map : (cs : List OriginalMediaCandidate) → All IsPlanned (map plan_item cs)
unfolding plan_item
IsPlanned-map [] = tt
IsPlanned-map (c ∷ cs) = (refl, IsPlanned-map cs)

decided_fits :
    (d : Option ℤ) (l : Option ℕ) → decide_item d l ≡ eligible → declared d ≤ limit_or_zero l
decided_fits d none h = absurd (cc)
decided_fits none (some n) h = omega arith
decided_fits (some (pos b)) (some n) h = ground arith
decided_fits (some (negsuc b)) (some n) h = omega arith

-- What an eligible item declares fits its kind's limit.
pub IsPlanned-fits :
    (i : OriginalMediaPlanItem)
    → IsPlanned i
    → i.decision ≡ eligible
    → declared i.declared_bytes ≤ limit_or_zero i.limit_bytes
unfolding plan_item
IsPlanned-fits i p h =
    subst (λ l. declared i.declared_bytes ≤ limit_or_zero l) (sym (ap (λ j. j.limit_bytes) p))
      (decided_fits i.declared_bytes (original_limit i.kind) (sym (ap (λ j. j.decision) p) ∙ h))

is_eligible_eq : (d : OriginalMediaItemDecision) → is_eligible d ≡ true → d ≡ eligible
is_eligible_eq d h = ground arith

add_known-le-add_reserved :
    (a b : ℕ) (is : List OriginalMediaPlanItem)
    → All IsPlanned is
    → a ≤ b
    → add_known a is ≤ add_reserved b is
unfolding add_known add_reserved
add_known-le-add_reserved a b [] p h = h
add_known-le-add_reserved a b (i ∷ is) (p, ps) h = elim (Bool-cases (is_eligible i.decision)) [
  | inl yes' ↦
      let fits = IsPlanned-fits i p (is_eligible_eq i.decision yes') in
      rw yes' (
        add_known-le-add_reserved (a + declared i.declared_bytes) (b + limit_or_zero i.limit_bytes)
          is ps (omega (arith, fits)))
  | inr no' ↦ rw no' (add_known-le-add_reserved a b is ps h)
]

-- What an item declares, where it is eligible.
abbrev pub eligible_bytes : OriginalMediaItemDecision → Option ℤ → ℕ
eligible_bytes eligible bytes = declared bytes
eligible_bytes fallback bytes = 0
eligible_bytes skipped_kind_limit bytes = 0
eligible_bytes skipped_post_limit bytes = 0

-- What an item declares, where the post's limit keeps it out.
abbrev pub skipped_bytes : OriginalMediaItemDecision → Option ℤ → ℕ
skipped_bytes eligible bytes = 0
skipped_bytes fallback bytes = 0
skipped_bytes skipped_kind_limit bytes = 0
skipped_bytes skipped_post_limit bytes = declared bytes

abbrev pub sum_of_eligible : List OriginalMediaPlanItem → ℕ
sum_of_eligible = sum_by (λ i. eligible_bytes i.decision i.declared_bytes)

abbrev pub sum_of_skipped : List OriginalMediaPlanItem → ℕ
sum_of_skipped = sum_by (λ i. skipped_bytes i.decision i.declared_bytes)

not_eligible-bytes :
    (d : OriginalMediaItemDecision) (bytes : Option ℤ)
    → is_eligible d ≡ false
    → eligible_bytes d bytes ≡ 0
not_eligible-bytes d bytes h = ground arith

add_known-eq-sum :
    (total : ℕ) (is : List OriginalMediaPlanItem) → add_known total is ≡ total + sum_of_eligible is
unfolding add_known
add_known-eq-sum total [] = omega arith
add_known-eq-sum total (i ∷ is) = elim (Bool-cases (is_eligible i.decision)) [
  | inl yes' ↦ rw yes' (
      omega (
        arith,
        ap (λ d. eligible_bytes d i.declared_bytes) (is_eligible_eq i.decision yes'),
        add_known-eq-sum (total + declared i.declared_bytes) is,
      ))
  | inr no' ↦
      rw no' (
        omega
          (arith, not_eligible-bytes i.decision i.declared_bytes no', add_known-eq-sum total is))
]

never_skipped : (d : Option ℤ) (l : Option ℕ) → decide_item d l ≢ skipped_post_limit
never_skipped d none = cc
never_skipped d (some n) = λ e. ground arith

skip_item-bytes :
    (i : OriginalMediaPlanItem)
    → i.decision ≢ skipped_post_limit
    → skipped_bytes (skip_item i).decision (skip_item i).declared_bytes
      ≡ eligible_bytes i.decision i.declared_bytes
unfolding skip_item
skip_item-bytes i h = ground arith

sum_of_skipped-map :
    (is : List OriginalMediaPlanItem)
    → All IsPlanned is
    → sum_of_skipped (map skip_item is) ≡ sum_of_eligible is
unfolding plan_item
sum_of_skipped-map [] h = refl
sum_of_skipped-map (i ∷ is) (h, hs) =
    let planned : i.decision ≢ skipped_post_limit = λ e.
      never_skipped i.declared_bytes (original_limit i.kind) (sym (ap (λ j. j.decision) h) ∙ e) in
    omega (arith, skip_item-bytes i planned, sum_of_skipped-map is hs)

-- The contract of a plan with the ledger that reserves its bytes.
pub record IsWithinBudget (p : OriginalMediaCachePlan) : Type 0 where
  pub capped : p.reservation_bytes ≤ post_original_limit_bytes
  pub decided : (p.decision ≡ eligible) ⊎ (p.decision ≡ skipped_post_limit)
  pub covered :
      p.decision ≡ eligible
      → (p.known_declared_bytes ≡ sum_of_eligible p.items)
        × (sum_of_eligible p.items ≤ p.reservation_bytes)
        × (p.known_declared_bytes ≤ p.reservation_bytes)
        × All
            (λ i. i.decision ≡ eligible → declared i.declared_bytes ≤ limit_or_zero i.limit_bytes)
            p.items
  pub skipped :
      p.decision ≡ skipped_post_limit
      → (p.known_declared_bytes ≡ sum_of_skipped p.items)
        × (post_original_limit_bytes < p.known_declared_bytes)
        × (p.reservation_bytes ≡ 0)
        × All (λ i. i.decision ≢ eligible) p.items

skip_item-ineligible :
    (is : List OriginalMediaPlanItem) → All (λ i. i.decision ≢ eligible) (map skip_item is)
unfolding skip_item
skip_item-ineligible [] = tt
skip_item-ineligible (i ∷ is) = (ground arith, skip_item-ineligible is)

-- The cap of the reservation.
cap-le : (c r : ℕ) → (if ltb c r then c else r) ≤ c
cap-le c r = ground arith

le-cap : (c r k : ℕ) → k ≤ c → k ≤ r → k ≤ (if ltb c r then c else r)
le-cap c r k h j = ground arith

All-IsPlanned-fits :
    (is : List OriginalMediaPlanItem)
    → All IsPlanned is
    → All (λ i. i.decision ≡ eligible → declared i.declared_bytes ≤ limit_or_zero i.limit_bytes) is
All-IsPlanned-fits is ps = All-map IsPlanned _ IsPlanned-fits is ps

plan_items-IsWithinBudget :
    (is : List OriginalMediaPlanItem) → All IsPlanned is → IsWithinBudget (plan_items is)
unfolding plan_items
plan_items-IsWithinBudget is ps =
    let order = add_known-le-add_reserved 0 0 is ps (omega arith) in
    let tally : add_known 0 is ≡ sum_of_eligible is = add_known-eq-sum 0 is ∙ omega arith in
    elim (Bool-cases (ltb post_original_limit_bytes (add_known 0 is))) [
      | inl over ↦ rw over (record {
        capped = omega arith;
        decided = inr refl;
        covered = λ e. absurd (cc e);
        skipped = λ e. (
          tally ∙ sym (sum_of_skipped-map is ps),
          ltb→lt _ _ over,
          refl,
          skip_item-ineligible is,
        );
      })
      | inr within ↦ rw within (record {
        capped = cap-le post_original_limit_bytes (add_reserved 0 is);
        decided = inl refl;
        covered = λ e. (
          tally,
          subst
              (λ n. n ≤ (
                if ltb post_original_limit_bytes (add_reserved 0 is)
                then post_original_limit_bytes
                else add_reserved 0 is))
              tally
              (le-cap post_original_limit_bytes (add_reserved 0 is) _ (ltb→ge _ _ within) order),
          le-cap post_original_limit_bytes (add_reserved 0 is) _ (ltb→ge _ _ within) order,
          All-IsPlanned-fits is ps,
        );
        skipped = λ e. absurd (cc e);
      })
    ]

-- A plan never reserves more than the post's limit. It takes the post, and then the known bytes are
-- what its eligible items declare in total, the reservation covers that total, and each eligible item
-- fits its kind's limit; or it skips the post, because what the skipped items declare in total is
-- more than the limit, reserves nothing and leaves no item eligible.
pub plan_original_media_cache-IsWithinBudget :
    (locale_compare : Text → Text → Sign) (candidates : List OriginalMediaCandidate)
    (p : OriginalMediaCachePlan)
    → plan_original_media_cache locale_compare candidates ≡ ok p
    → IsWithinBudget p
unfolding plan_original_media_cache
plan_original_media_cache-IsWithinBudget locale_compare candidates p h =
    unchain _ _ h λ _ asserted planned. subst IsWithinBudget (ok-injective planned) (
      plan_items-IsWithinBudget _
        (All-sort (compare_items locale_compare) IsPlanned _ (IsPlanned-map candidates)))

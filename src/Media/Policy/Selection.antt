-- ===== src/Media/Policy/Selection.antt =====
-- Which candidates a plan takes, and in what order its items stand.
use mathlib.Core.List.{Perm}
use mathlib.Core.List.Perm
use koharu_suite.Prelude.{
  ℕ, ◌≤◌, ◌≡◌, refl, ◌≢◌, ◌↔◌, subst, sym, ap, false, not, ◌||◌, Option, none, some, List, [], ◌∷◌,
  map, arith, ok, unchain, unthrow, ok-injective, ◌>>=◌, All, Bool-cases, inl, inr, ltb, length,
  ◌==◌, le→leb_true,
}
use koharu_suite.Prelude.Texts.{Text, trim, Fresh, Fresh-of_has, has-of_Fresh}
use koharu_suite.Prelude.Numbers.{JsNumber, whole, is_safe_integer, max_safe_integer}
use koharu_suite.Prelude.Int.{ℤ, pos, negsuc}
use koharu_suite.Prelude.Sorting.{Sign, sort, sort-perm, IsOrder, sort-IsSorted}
use koharu_suite.Archive.Limits.{to_ℕ}
use koharu_suite.Media.Policy.{
  OriginalMediaCandidate, OriginalMediaPlanItem, OriginalMediaCachePlan, post_original_limit_bytes,
  plan_item, skip_item, add_known, plan_items, compare_items, plan_original_media_cache,
  assert_candidates, is_negative, is_negative_bytes,
}
use koharu_suite.Media.Policy.Ordering.{
  compare_items-IsOrder, skip_item-candidate, AreInOrder, AreInOrder-of_IsSorted,
  plan_items-IsSorted,
}

-- A candidate that `assertCandidates` lets through, apart from its id being new.
pub record IsValidCandidate (c : OriginalMediaCandidate) : Type 0 where
  pub named : trim c.id ≢ []
  pub placed : c.position ≡ whole (to_ℕ c.position)
  pub safe : to_ℕ c.position ≤ max_safe_integer
  pub sized : (n : ℕ) → c.declared_bytes ≢ some (negsuc n)

-- No id stands twice, nor among those met before.
abbrev pub AreNew : List Text → List OriginalMediaCandidate → Type 0
AreNew ids [] = Unit {0}
AreNew ids (c ∷ cs) = Fresh c.id ids × AreNew (c.id ∷ ids) cs

placed_of_test :
    (v : JsNumber)
    → (not (is_safe_integer v) || is_negative v) ≡ false
    → (v ≡ whole (to_ℕ v)) × (to_ℕ v ≤ max_safe_integer)
placed_of_test v h = ground arith

test_of_placed :
    (v : JsNumber) (n : ℕ)
    → v ≡ whole n
    → n ≤ max_safe_integer
    → (not (is_safe_integer v) || is_negative v) ≡ false
test_of_placed v n e h = rw e (rw (le→leb_true n max_safe_integer h))

sized_of_test : (d : Option ℤ) → is_negative_bytes d ≡ false → (n : ℕ) → d ≢ some (negsuc n)
sized_of_test d h n = λ e. ground arith

test_of_sized : (d : Option ℤ) → ((n : ℕ) → d ≢ some (negsuc n)) → is_negative_bytes d ≡ false
test_of_sized none h = refl
test_of_sized (some (pos n)) h = refl
test_of_sized (some (negsuc n)) h = absurd (h n refl)

named_of_test : (s : Text) → (length s == 0) ≡ false → s ≢ []
named_of_test [] h = absurd (cc)
named_of_test (c ∷ s) h = cc

test_of_named : (s : Text) → s ≢ [] → (length s == 0) ≡ false
test_of_named [] h = absurd (h refl)
test_of_named (c ∷ s) h = ground arith

assert_candidates_sound :
    (ids : List Text) (cs : List OriginalMediaCandidate) {u : Unit {0}}
    → assert_candidates ids cs ≡ ok u
    → All IsValidCandidate cs × AreNew ids cs
unfolding assert_candidates
assert_candidates_sound ids [] h = (tt, tt)
assert_candidates_sound ids (c ∷ cs) h = unthrow _ _ _ h λ named h1. unthrow _ _ _ h1 λ new h2.
    unthrow _ _ _ h2 λ placed h3. unthrow _ _ _ h3 λ sized h4.
      let (valid, fresh) = assert_candidates_sound (c.id ∷ ids) cs h4 in
      let (whole', safe) = placed_of_test c.position placed in
      (
        (
          record {
            named = named_of_test (trim c.id) named;
            placed = whole';
            safe = safe;
            sized = sized_of_test c.declared_bytes sized;
          },
          valid,
        ),
        (Fresh-of_has c.id ids new, fresh),
      )

assert_candidates_complete :
    (ids : List Text) (cs : List OriginalMediaCandidate)
    → All IsValidCandidate cs
    → AreNew ids cs
    → assert_candidates ids cs ≡ ok tt
unfolding assert_candidates ◌>>=◌
assert_candidates_complete ids [] v n = refl
assert_candidates_complete ids (c ∷ cs) (v, vs) (n, ns) =
    rw
      (
        test_of_named (trim c.id) v.named,
        has-of_Fresh c.id ids n,
        test_of_placed c.position (to_ℕ c.position) v.placed v.safe,
        test_of_sized c.declared_bytes v.sized,
      )
      (assert_candidates_complete (c.id ∷ ids) cs vs ns)

map-skip_item-candidates :
    (is : List OriginalMediaPlanItem)
    → map (λ i. i.candidate) (map skip_item is) ≡ map (λ i. i.candidate) is
map-skip_item-candidates [] = refl
map-skip_item-candidates (i ∷ is) = cc (skip_item-candidate i, map-skip_item-candidates is)

map-plan_item-candidates :
    (cs : List OriginalMediaCandidate) → map (λ i. i.candidate) (map plan_item cs) ≡ cs
unfolding plan_item
map-plan_item-candidates [] = refl
map-plan_item-candidates (c ∷ cs) = ap (λ ds. c ∷ ds) (map-plan_item-candidates cs)

plan_items-candidates :
    (is : List OriginalMediaPlanItem)
    → map (λ i. i.candidate) (plan_items is).items ≡ map (λ i. i.candidate) is
unfolding plan_items
plan_items-candidates is = elim (Bool-cases (ltb post_original_limit_bytes (add_known 0 is))) [
  | inl over ↦ rw over (map-skip_item-candidates is)
  | inr within ↦ rw within
]

-- The items of a plan are the candidates, each once, where the host's collation is a total preorder.
-- Each item has a lower position than any that follows, or the same position and an id that the
-- collation does not put behind the other's.
pub plan_original_media_cache-items :
    (locale_compare : Text → Text → Sign)
    → IsOrder locale_compare
    → (candidates : List OriginalMediaCandidate) (p : OriginalMediaCachePlan)
    → plan_original_media_cache locale_compare candidates ≡ ok p
    → Perm (map (λ i. i.candidate) p.items) candidates × AreInOrder locale_compare p.items
unfolding plan_original_media_cache
plan_original_media_cache-items lc o cs p h = unchain _ _ h λ _ asserted planned.
    let compare = compare_items lc in
    let items = map plan_item cs in
    subst (λ q. Perm (map (λ i. i.candidate) q.items) cs × AreInOrder lc q.items)
      (ok-injective planned)
      (
        subst (λ ds. Perm ds cs) (sym (plan_items-candidates (sort compare items)))
            (subst (Perm _) (map-plan_item-candidates cs)
              (Perm.map (λ i. i.candidate) (sort-perm compare items))),
        AreInOrder-of_IsSorted lc _ (
            plan_items-IsSorted lc (sort compare items)
              (sort-IsSorted compare (compare_items-IsOrder lc o) items)),
      )

-- Planning succeeds exactly on candidates whose ids are not blank and pairwise different, whose
-- positions are safe integers from zero on, and whose declared lengths are not negative.
pub plan_original_media_cache_iff :
    (locale_compare : Text → Text → Sign) (candidates : List OriginalMediaCandidate)
    → ((p : OriginalMediaCachePlan) × (plan_original_media_cache locale_compare candidates ≡ ok p))
      ↔ (All IsValidCandidate candidates × AreNew [] candidates)
unfolding plan_original_media_cache ◌>>=◌
plan_original_media_cache_iff lc cs = (
  λ h. let (p, e) = h in unchain _ _ e λ u asserted planned. assert_candidates_sound [] cs asserted,
  λ h.
      let (valid, new) = h in
      (
        plan_items (sort (compare_items lc) (map plan_item cs)),
        rw (assert_candidates_complete [] cs valid new),
      ),
)

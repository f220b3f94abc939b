-- ===== src/Archive/Json/Loop.antt =====
-- The loop of `isJsonValueWithinLimits` of packages/archive-format/src/schemas.ts against the
-- bounds read off the tree.
use koharu_suite.Prelude.{
  ℕ, zero, suc, ◌+◌, ◌≤◌, ◌<◌, ◌≡◌, refl, sym, ap, ◌∙◌, subst, arith, Bool, true, false, ◌&&◌, ◌||◌,
  some, [], ◌∷◌, ltb, leb, inl, inr, Bool-cases, Option-cases, ltb→ge, ||-false,
}
use koharu_suite.Archive.Json.{
  Json, null, boolean, number, string, array, object, unsupported, JsonLimits, Stack, visit,
  within_loop, is_json_value_within_limits,
}
use koharu_suite.Archive.Json.Measures.{
  node_count, units, is_fine, is_within, stack_count, stack_units, stack_fine, accepted, one_node,
}
use koharu_suite.Archive.Json.Visits.{IsVisit, Visits, inner, node_count-inner, visit-Visits}

module _ (limits : JsonLimits) where
  refused_value :
      (fine rest : Bool) (nodes inside others total text later : ℕ)
      → (fine && leb (total + text) limits.max_total_string_code_units) ≡ false
      → accepted limits (fine && rest) (nodes + (inside + others)) (total + (text + later)) ≡ false
  refused_value fine rest nodes inside others total text later h = ground (arith, h)

  too_deep : (d : ℕ) (v : Json) → leb d limits.max_depth ≡ false → is_fine limits d v ≡ false
  too_deep d null h = h
  too_deep d (boolean b) h = h
  too_deep d (number n) h = rw h refl
  too_deep d (string s) h = rw h refl
  too_deep d (array vs) h = rw h refl
  too_deep d (object ms) h = rw h refl
  too_deep d unsupported h = refl

  abbrev accepted_stack : ℕ → ℕ → Stack → Bool
  accepted_stack nodes total stack =
      accepted limits (stack_fine limits stack) (nodes + stack_count limits stack)
        (total + stack_units limits stack)

  refused_early :
      (nodes total d : ℕ) (v : Json) (stack : Stack)
      → (ltb limits.max_nodes (nodes + 1) || ltb limits.max_depth d) ≡ true
      → accepted_stack nodes total ((d, v) ∷ stack) ≡ false
  refused_early nodes total d v stack h = elim (Bool-cases (leb d limits.max_depth)) [
    | inl within ↦ many (is_fine limits d v && stack_fine limits stack) _ (one_node limits v) within
    | inr below ↦ rw (too_deep d v below) refl
  ]
    where
      many :
          (fine : Bool) (text : ℕ)
          → 1 ≤ node_count v
          → leb d limits.max_depth ≡ true
          → accepted limits fine (nodes + (node_count v + stack_count limits stack)) text ≡ false
      many fine text one within = ground (arith, one, within, h)

  refused_stack :
      (nodes total d : ℕ) (v : Json) (stack : Stack)
      → (is_fine limits d v && leb (total + units v) limits.max_total_string_code_units) ≡ false
      → accepted_stack nodes total ((d, v) ∷ stack) ≡ false
  refused_stack nodes total d v stack h =
      refused_value (is_fine limits d v) (stack_fine limits stack) nodes (node_count v)
        (stack_count limits stack) total (units v) (stack_units limits stack) h

  left_stack :
      (nodes total d : ℕ) (v : Json) (stack : Stack) (total' : ℕ) (stack' : Stack)
      → IsVisit limits (is_fine limits d v) (inner limits v) (units v) total stack total' stack'
      → accepted_stack (nodes + 1) total' stack' ≡ accepted_stack nodes total ((d, v) ∷ stack)
  left_stack nodes total d v stack total' stack' h = λ i.
      accepted limits (h.fine_left i)
        (counted nodes (inner limits v) (node_count v) _ _ (node_count-inner limits v) h.count_left
          i)
        (h.units_left i)
    where
      counted :
          (nodes inside whole others left : ℕ)
          → whole ≡ 1 + inside
          → left ≡ inside + others
          → nodes + 1 + left ≡ nodes + (whole + others)
      counted nodes inside whole others left e h = omega (arith, e, h)

  within_loop-accepted :
      (fuel nodes total : ℕ) (stack : Stack)
      → nodes ≤ limits.max_nodes
      → total ≤ limits.max_total_string_code_units
      → limits.max_nodes + 1 < nodes + fuel
      → within_loop limits fuel nodes total stack ≡ some (accepted_stack nodes total stack)
  unfolding within_loop
  within_loop-accepted zero nodes total stack few small enough = absurd (omega (arith, few, enough))
  within_loop-accepted (suc fuel) nodes total [] few small enough =
      ap some (sym (ground (arith, few, small)))
  within_loop-accepted (suc fuel) nodes total ((d, v) ∷ stack) few small enough =
      elim (Bool-cases (ltb limits.max_nodes (nodes + 1) || ltb limits.max_depth d)) [
        | inl refused ↦ rw refused (ap some (sym (refused_early nodes total d v stack refused)))
        | inr passed ↦ rw passed (
            let (few', deep') = ||-false (ltb limits.max_nodes (nodes + 1)) _ passed in
            let seen = visit-Visits limits d total stack (ground (arith, deep')) small v in
            elim (Option-cases (visit limits d total v stack)) [
              | inl none' ↦ rw none' (
                  ap some (
                    sym (
                      refused_stack nodes total d v stack (
                        subst
                          (Visits limits (is_fine limits d v) (inner limits v) (units v) total
                            stack)
                          none' seen))))
              | inr ((total', stack'), found) ↦
                  let left =
                    subst
                      (Visits limits (is_fine limits d v) (inner limits v) (units v) total stack)
                      found seen in
                  rw found (
                    within_loop-accepted fuel (nodes + 1) total' stack' (ltb→ge _ _ few')
                      left.within (omega (arith, enough))
                    ∙ ap some (left_stack nodes total d v stack total' stack' left))
            ])
      ]

  -- With fuel for one value more than the limit, the loop ends, and it accepts a value exactly where
  -- each value in its tree is within the bounds on one value, and their number and the code units of
  -- their texts and keys are within the bounds on all.
  pub is_json_value_within_limits-is_within :
      (v : Json) → is_json_value_within_limits limits v ≡ some (is_within limits v)
  unfolding is_json_value_within_limits
  is_json_value_within_limits-is_within v =
      within_loop-accepted (limits.max_nodes + 2) 0 0 ((0, v) ∷ []) (omega arith) (omega arith)
        (omega arith)
      ∙ ap some (single (is_fine limits 0 v) (node_count v) (units v))
    where
      single :
          (fine : Bool) (nodes total : ℕ)
          → accepted limits (fine && true) (0 + (nodes + 0)) (0 + (total + 0))
            ≡ accepted limits fine nodes total
      single fine nodes total = ground arith

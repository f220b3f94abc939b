-- ===== src/Archive/Json/Visits.antt =====
-- What one value does to the stack of the loop of `isJsonValueWithinLimits`.
use koharu_suite.Prelude.{
  ℕ, ◌+◌, ◌≤◌, ◌≡◌, refl, sym, ap, ◌∙◌, subst, arith, Bool, true, false, not, ◌&&◌, ◌||◌, Option,
  none, some, ◌∷◌, ltb, leb, inl, inr, length, Bool-cases, ltb→ge, ||-false,
}
use koharu_suite.Prelude.Texts.{Text}
use koharu_suite.Prelude.Numbers.{is_finite}
use koharu_suite.Archive.Json.{
  Json, null, boolean, number, string, array, object, unsupported, Items, Members, no_member,
  member, JsonLimits, Stack, items_length, is_dense, members_length, push_items, push_members,
  key_refused, visit,
}
use koharu_suite.Archive.Json.Measures.{
  node_count, node_counts, member_counts, units, item_units, member_units, is_fine, are_fine,
  have_fine, stack_count, stack_units, stack_fine, push_items-count, push_items-units,
  push_items-fine, and_assoc,
}

module _ (limits : JsonLimits) where
  -- What a visit that refuses nothing leaves.
  pub record IsVisit (fine : Bool) (count text total : ℕ) (stack : Stack) (total' : ℕ)
      (stack' : Stack) : Type 0 where
    pub within : total' ≤ limits.max_total_string_code_units
    pub fine_left : stack_fine limits stack' ≡ (fine && stack_fine limits stack)
    pub count_left : stack_count limits stack' ≡ count + stack_count limits stack
    pub units_left : total' + stack_units limits stack' ≡ total + (text + stack_units limits stack)

  -- Either a refusal, which the bounds confirm, or such a visit.
  abbrev pub Visits : Bool → ℕ → ℕ → ℕ → Stack → Option (ℕ × Stack) → Type 0
  Visits fine count text total stack none =
      (fine && leb (total + text) limits.max_total_string_code_units) ≡ false
  Visits fine count text total stack (some (total', stack')) =
      IsVisit fine count text total stack total' stack'

  -- A key that passed, with its value left on the stack.
  module _ (d : ℕ) (k : Text) (v : Json) (ms : Members) (total : ℕ) (stack : Stack)
      (passed : key_refused limits k ≡ false) where
    key-Visits :
        (o : Option (ℕ × Stack))
        → Visits
            (have_fine limits d ms)
            (member_counts ms)
            (member_units ms)
            (total + length k)
            ((d, v) ∷ stack)
            o
        → Visits
            (have_fine limits d (member k v ms))
            (member_counts (member k v ms))
            (member_units (member k v ms))
            total
            stack
            o
    key-Visits none h = refused_key (have_fine limits d ms) (is_fine limits d v) h
      where
        refused_key :
            (hf fv : Bool)
            → (hf && leb (total + length k + member_units ms) limits.max_total_string_code_units)
              ≡ false
            → ((not (key_refused limits k) && hf && fv)
                && leb
                    (total + (length k + units v + member_units ms))
                    limits.max_total_string_code_units)
              ≡ false
        refused_key hf fv h = ground (arith, h)
    key-Visits (some (total', stack')) h = record {
      within = h.within;
      fine_left =
          h.fine_left
          ∙ and_assoc limits (have_fine limits d ms) (is_fine limits d v) (stack_fine limits stack)
          ∙ (λ i.
              (not (sym passed i) && have_fine limits d ms && is_fine limits d v)
              && stack_fine limits stack);
      count_left = omega (arith, h.count_left);
      units_left = omega (arith, h.units_left);
    }

  push_members-Visits :
      (d : ℕ) (ms : Members) (total : ℕ) (stack : Stack)
      → total ≤ limits.max_total_string_code_units
      → Visits
          (have_fine limits d ms)
          (member_counts ms)
          (member_units ms)
          total
          stack
          (push_members limits d total ms stack)
  push_members-Visits d no_member total stack h = record {
    within = h;
    fine_left = refl;
    count_left = omega arith;
    units_left = omega arith;
  }
  push_members-Visits d (member k v ms) total stack h =
      elim (Bool-cases
        (key_refused limits k || ltb limits.max_total_string_code_units (total + length k))) [
          | inl refused ↦
              rw refused (
                over_key (key_refused limits k) (have_fine limits d ms) (is_fine limits d v)
                  refused)
          | inr passed ↦
              let (key, fits) = ||-false (key_refused limits k) _ passed in
              rw passed (
                key-Visits d k v ms total stack key _
                  (push_members-Visits d ms (total + length k) ((d, v) ∷ stack) (ltb→ge _ _ fits)))
        ]
    where
      over_key :
          (kr hf fv : Bool)
          → (kr || ltb limits.max_total_string_code_units (total + length k)) ≡ true
          → ((not kr && hf && fv)
              && leb
                  (total + (length k + units v + member_units ms))
                  limits.max_total_string_code_units)
            ≡ false
      over_key kr hf fv h = ground (arith, h)

  abbrev pub inner : Json → ℕ
  inner null = 0
  inner (boolean b) = 0
  inner (number n) = 0
  inner (string s) = 0
  inner (array vs) = node_counts vs
  inner (object ms) = member_counts ms
  inner unsupported = 0

  pub node_count-inner : (v : Json) → node_count v ≡ 1 + inner v
  node_count-inner null = refl
  node_count-inner (boolean b) = refl
  node_count-inner (number n) = refl
  node_count-inner (string s) = refl
  node_count-inner (array vs) = refl
  node_count-inner (object ms) = refl
  node_count-inner unsupported = refl

  module _ (d total : ℕ) (stack : Stack) (deep : leb d limits.max_depth ≡ true)
      (h : total ≤ limits.max_total_string_code_units) where
    -- A value that pushes nothing.
    leaf-IsVisit :
        (fine : Bool) (text : ℕ)
        → fine ≡ true
        → total + text ≤ limits.max_total_string_code_units
        → IsVisit fine 0 text total stack (total + text) stack
    leaf-IsVisit fine text e fits = record {
      within = fits;
      fine_left = rw e refl;
      count_left = omega arith;
      units_left = omega arith;
    }

    unread-IsVisit : (fine : Bool) → fine ≡ true → IsVisit fine 0 0 total stack total stack
    unread-IsVisit fine e = record {
      within = h;
      fine_left = rw e refl;
      count_left = omega arith;
      units_left = omega arith;
    }

    items-IsVisit :
        (vs : Items) (fine : Bool)
        → fine ≡ are_fine limits (d + 1) vs
        → IsVisit fine
            (node_counts vs)
            (item_units vs)
            total
            stack
            total
            (push_items (d + 1) vs stack)
    items-IsVisit vs fine e = record {
      within = h;
      fine_left =
          push_items-fine limits (d + 1) vs stack ∙ ap (λ b. b && stack_fine limits stack) (sym e);
      count_left = push_items-count limits (d + 1) vs stack;
      units_left = ap (λ n. total + n) (push_items-units limits (d + 1) vs stack);
    }

    module _ (vs : Items) (af dense : Bool) where
      not_items :
          (ltb limits.max_array_items (items_length vs) || not dense) ≡ true
          → ((leb d limits.max_depth && leb (items_length vs) limits.max_array_items && dense && af)
              && leb (total + item_units vs) limits.max_total_string_code_units)
            ≡ false
      not_items h = ground (arith, h)

      fine_items :
          (ltb limits.max_array_items (items_length vs) || not dense) ≡ false
          → (leb d limits.max_depth && leb (items_length vs) limits.max_array_items && dense && af)
            ≡ af
      fine_items h = ground (arith, h, deep)

    module _ (ms : Members) (hf : Bool) where
      not_members :
          ltb limits.max_object_keys (members_length ms) ≡ true
          → ((leb d limits.max_depth && leb (members_length ms) limits.max_object_keys && hf)
              && leb (total + member_units ms) limits.max_total_string_code_units)
            ≡ false
      not_members h = ground (arith, h)

      fine_members :
          ltb limits.max_object_keys (members_length ms) ≡ false
          → (leb d limits.max_depth && leb (members_length ms) limits.max_object_keys && hf) ≡ hf
      fine_members h = ground (arith, h, deep)

    pub visit-Visits :
        (v : Json)
        → Visits (is_fine limits d v) (inner v) (units v) total stack (visit limits d total v stack)
    visit-Visits null = unread-IsVisit _ deep
    visit-Visits (boolean b) = unread-IsVisit _ deep
    visit-Visits (number n) = elim (Bool-cases (is_finite n)) [
      | inl finite ↦ rw finite (unread-IsVisit (leb d limits.max_depth && true) (rw deep refl))
      | inr other ↦ rw (other, deep) refl
    ]
    visit-Visits (string s) =
        elim (Bool-cases (
          ltb limits.max_string_code_units (length s)
          || ltb limits.max_total_string_code_units (total + length s))) [
            | inl refused ↦ rw refused (ground (arith, refused))
            | inr passed ↦
                rw passed (
                  leaf-IsVisit _ (length s) (ground (arith, passed, deep)) (ground (arith, passed)))
          ]
    visit-Visits (array vs) =
        elim (Bool-cases (ltb limits.max_array_items (items_length vs) || not (is_dense vs))) [
          | inl refused ↦
              rw refused (not_items vs (are_fine limits (d + 1) vs) (is_dense vs) refused)
          | inr passed ↦
              rw passed (
                items-IsVisit vs _
                  (fine_items vs (are_fine limits (d + 1) vs) (is_dense vs) passed))
        ]
    visit-Visits (object ms) = elim (Bool-cases (ltb limits.max_object_keys (members_length ms))) [
      | inl refused ↦ rw refused (not_members ms (have_fine limits (d + 1) ms) refused)
      | inr passed ↦ rw passed (
          subst
            (λ b.
              Visits b (member_counts ms) (member_units ms) total stack
                (push_members limits (d + 1) total ms stack))
            (sym (fine_members ms (have_fine limits (d + 1) ms) passed))
            (push_members-Visits (d + 1) ms total stack h))
    ]
    visit-Visits unsupported = refl

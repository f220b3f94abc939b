-- ===== src/Archive/Json/Measures.antt =====
-- The bounds on JSON values of packages/archive-format/src/schemas.ts, read off the tree.
use koharu_suite.Prelude.{
  ℕ, ◌+◌, ◌≤◌, ◌≡◌, refl, ◌∙◌, arith, Bool, true, false, not, ◌&&◌, [], ◌∷◌, leb, length,
}
use koharu_suite.Prelude.Numbers.{is_finite}
use koharu_suite.Archive.Json.{
  Json, null, boolean, number, string, array, object, unsupported, Items, no_item, item, gap,
  Members, no_member, member, JsonLimits, Stack, items_length, is_dense, members_length, push_items,
  key_refused,
}

abbrev mutual
  -- The values in a tree, itself included.
  pub node_count : Json → ℕ
  node_count null = 1
  node_count (boolean b) = 1
  node_count (number n) = 1
  node_count (string s) = 1
  node_count (array vs) = 1 + node_counts vs
  node_count (object ms) = 1 + member_counts ms
  node_count unsupported = 1

  pub node_counts : Items → ℕ
  node_counts no_item = 0
  node_counts (item v vs) = node_count v + node_counts vs
  node_counts (gap vs) = node_counts vs

  pub member_counts : Members → ℕ
  member_counts no_member = 0
  member_counts (member k v ms) = node_count v + member_counts ms

abbrev mutual
  -- The code units of its texts and keys.
  pub units : Json → ℕ
  units null = 0
  units (boolean b) = 0
  units (number n) = 0
  units (string s) = length s
  units (array vs) = item_units vs
  units (object ms) = member_units ms
  units unsupported = 0

  pub item_units : Items → ℕ
  item_units no_item = 0
  item_units (item v vs) = units v + item_units vs
  item_units (gap vs) = item_units vs

  pub member_units : Members → ℕ
  member_units no_member = 0
  member_units (member k v ms) = length k + units v + member_units ms

module _ (limits : JsonLimits) where
  abbrev mutual
    -- Whether each value of the tree is within the bounds on one value, at its depth.
    pub is_fine : ℕ → Json → Bool
    is_fine depth null = leb depth limits.max_depth
    is_fine depth (boolean b) = leb depth limits.max_depth
    is_fine depth (number n) = leb depth limits.max_depth && is_finite n
    is_fine depth (string s) =
        leb depth limits.max_depth && leb (length s) limits.max_string_code_units
    is_fine depth (array vs) =
        leb depth limits.max_depth
        && leb (items_length vs) limits.max_array_items
        && is_dense vs
        && are_fine (depth + 1) vs
    is_fine depth (object ms) =
        leb depth limits.max_depth
        && leb (members_length ms) limits.max_object_keys
        && have_fine (depth + 1) ms
    is_fine depth unsupported = false

    pub are_fine : ℕ → Items → Bool
    are_fine depth no_item = true
    are_fine depth (item v vs) = are_fine depth vs && is_fine depth v
    are_fine depth (gap vs) = are_fine depth vs

    pub have_fine : ℕ → Members → Bool
    have_fine depth no_member = true
    have_fine depth (member k v ms) =
        not (key_refused limits k) && have_fine depth ms && is_fine depth v

  -- A tree within the bounds, as they read: those on each value, and those on all of them.
  abbrev pub is_within : Json → Bool
  is_within v =
      is_fine 0 v
      && leb (node_count v) limits.max_nodes
      && leb (units v) limits.max_total_string_code_units

  abbrev pub stack_count : Stack → ℕ
  stack_count [] = 0
  stack_count ((d, v) ∷ stack) = node_count v + stack_count stack

  abbrev pub stack_units : Stack → ℕ
  stack_units [] = 0
  stack_units ((d, v) ∷ stack) = units v + stack_units stack

  abbrev pub stack_fine : Stack → Bool
  stack_fine [] = true
  stack_fine ((d, v) ∷ stack) = is_fine d v && stack_fine stack

  abbrev pub accepted : Bool → ℕ → ℕ → Bool
  accepted fine nodes total =
      fine && leb nodes limits.max_nodes && leb total limits.max_total_string_code_units

  pub one_node : (v : Json) → 1 ≤ node_count v
  one_node null = omega arith
  one_node (boolean b) = omega arith
  one_node (number n) = omega arith
  one_node (string s) = omega arith
  one_node (array vs) = omega arith
  one_node (object ms) = omega arith
  one_node unsupported = omega arith

  pub push_items-count :
      (d : ℕ) (vs : Items) (stack : Stack)
      → stack_count (push_items d vs stack) ≡ node_counts vs + stack_count stack
  push_items-count d no_item stack = omega arith
  push_items-count d (item v vs) stack = omega (arith, push_items-count d vs ((d, v) ∷ stack))
  push_items-count d (gap vs) stack = push_items-count d vs stack

  pub push_items-units :
      (d : ℕ) (vs : Items) (stack : Stack)
      → stack_units (push_items d vs stack) ≡ item_units vs + stack_units stack
  push_items-units d no_item stack = omega arith
  push_items-units d (item v vs) stack = omega (arith, push_items-units d vs ((d, v) ∷ stack))
  push_items-units d (gap vs) stack = push_items-units d vs stack

  pub and_assoc : (a b c : Bool) → (a && (b && c)) ≡ ((a && b) && c)
  and_assoc true b c = refl
  and_assoc false b c = refl

  pub push_items-fine :
      (d : ℕ) (vs : Items) (stack : Stack)
      → stack_fine (push_items d vs stack) ≡ (are_fine d vs && stack_fine stack)
  push_items-fine d no_item stack = refl
  push_items-fine d (item v vs) stack =
      push_items-fine d vs ((d, v) ∷ stack)
      ∙ and_assoc (are_fine d vs) (is_fine d v) (stack_fine stack)
  push_items-fine d (gap vs) stack = push_items-fine d vs stack

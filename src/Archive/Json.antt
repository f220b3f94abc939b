-- ===== src/Archive/Json.antt =====
-- packages/archive-format/src/canonical-json.ts, and the bounds on JSON values of
-- packages/archive-format/src/schemas.ts. A value is a tree: one that holds itself is not modelled.
-- How JSON.stringify writes a text or a number are arguments.
pub mod Measures
pub mod Visits
pub mod Loop
mod Tests
use koharu_suite.Prelude.{
  ℕ, zero, suc, ◌+◌, ◌*◌, Bool, true, false, not, ◌&&◌, ◌||◌, Option, none, some, List, [], ◌∷◌,
  ◌++◌, ltb, ◌==◌, if◌then◌else◌, Result, ok, err, ◌>>=◌, ◌>>◌, throw_if, length,
}
use koharu_suite.Prelude.Texts.{Text, text_lt}
use koharu_suite.Prelude.Numbers.{JsNumber, is_finite}

mutual
  -- `unsupported` stands for a function, undefined, a bigint, a symbol, an object that is not plain
  -- or that has symbol keys.
  pub data Json : Type 0 where
    null : Json
    boolean : Bool → Json
    number : JsNumber → Json
    string : Text → Json
    array : Items → Json
    object : Members → Json
    unsupported : Json

  -- The elements of an array; `gap` is an index without one.
  pub data Items : Type 0 where
    no_item : Items
    item : Json → Items → Items
    gap : Items → Items

  pub data Members : Type 0 where
    no_member : Members
    member : Text → Json → Members → Members

pub record JsonLimits : Type 0 where
  pub max_array_items : ℕ
  pub max_depth : ℕ
  pub max_nodes : ℕ
  pub max_object_keys : ℕ
  pub max_string_code_units : ℕ
  pub max_total_string_code_units : ℕ

abbrev pub bounded_json_limits : JsonLimits
bounded_json_limits = record {
  max_array_items = 4_096;
  max_depth = 32;
  max_nodes = 16_384;
  max_object_keys = 1_024;
  max_string_code_units = 1_048_576;
  max_total_string_code_units = 4_194_304;
}

abbrev pub archive_manifest_json_limits : JsonLimits
archive_manifest_json_limits = record bounded_json_limits {
  max_array_items = 100_000;
  max_nodes = 1_000_000;
  max_total_string_code_units = 32 * 1_024 * 1_024;
}

abbrev pub items_length : Items → ℕ
items_length no_item = 0
items_length (item v vs) = items_length vs + 1
items_length (gap vs) = items_length vs + 1

abbrev pub is_dense : Items → Bool
is_dense no_item = true
is_dense (item v vs) = is_dense vs
is_dense (gap vs) = false

abbrev pub members_length : Members → ℕ
members_length no_member = 0
members_length (member k v ms) = members_length ms + 1

-- The loop's stack. Its `exit` entries only take a finished object out of the ancestors, among which
-- a tree never finds itself.
abbrev pub Stack : Type 0
Stack = List (ℕ × Json)

abbrev pub push_items : ℕ → Items → Stack → Stack
push_items depth no_item stack = stack
push_items depth (item v vs) stack = push_items depth vs ((depth, v) ∷ stack)
push_items depth (gap vs) stack = push_items depth vs stack

module _ (limits : JsonLimits) where
  abbrev pub key_refused : Text → Bool
  key_refused key = (length key == 0) || ltb 128 (length key)

  -- The loop over the keys of an object.
  abbrev pub push_members : ℕ → ℕ → Members → Stack → Option (ℕ × Stack)
  push_members depth total no_member stack = some (total, stack)
  push_members depth total (member key v ms) stack =
      let rest = push_members depth (total + length key) ms ((depth, v) ∷ stack) in
      if key_refused key || ltb limits.max_total_string_code_units (total + length key)
      then none
      else rest

  -- One value: the total and the stack after it, or none where the value is refused.
  abbrev pub visit : ℕ → ℕ → Json → Stack → Option (ℕ × Stack)
  visit depth total null stack = some (total, stack)
  visit depth total (boolean b) stack = some (total, stack)
  visit depth total (number n) stack = if is_finite n then some (total, stack) else none
  visit depth total (string s) stack =
      if ltb limits.max_string_code_units (length s)
        || ltb limits.max_total_string_code_units (total + length s)
      then none
      else some (total + length s, stack)
  visit depth total (array vs) stack =
      if ltb limits.max_array_items (items_length vs) || not (is_dense vs)
      then none
      else some (total, push_items (depth + 1) vs stack)
  visit depth total (object ms) stack =
      if ltb limits.max_object_keys (members_length ms)
      then none
      else push_members (depth + 1) total ms stack
  visit depth total unsupported stack = none

  -- The loop of `isJsonValueWithinLimits`: none where the fuel is used up.
  unfoldable pub within_loop : ℕ → ℕ → ℕ → Stack → Option Bool
  within_loop zero nodes total stack = none
  within_loop (suc fuel) nodes total [] = some true
  within_loop (suc fuel) nodes total ((depth, v) ∷ stack) =
      if ltb limits.max_nodes (nodes + 1) || ltb limits.max_depth depth
      then some false
      else elim (visit depth total v stack) [
        | none ↦ some false
        | some (total', stack') ↦ within_loop fuel (nodes + 1) total' stack'
      ]

  -- `isJsonValueWithinLimits`, with more fuel than nodes allowed.
  unfoldable pub is_json_value_within_limits : Json → Option Bool
  is_json_value_within_limits v = within_loop (limits.max_nodes + 2) 0 0 ((0, v) ∷ [])

pub data CanonicalJsonError : Type 0 where
  non_finite_number sparse_array unsupported_value exceeds_contract : CanonicalJsonError

-- Entries put in the order of their keys, which are distinct.
abbrev pub insert_member : Text → Text → List (Text × Text) → List (Text × Text)
insert_member key t [] = (key, t) ∷ []
insert_member key t ((k, u) ∷ es) =
    let rest = insert_member key t es in
    if text_lt k key then (k, u) ∷ rest else (key, t) ∷ (k, u) ∷ es

-- `parts.join(',')`.
abbrev pub join_comma : List Text → Text
join_comma [] = []
join_comma (p ∷ []) = p
join_comma (p ∷ q ∷ ps) = p ++ b',' ∷ join_comma (q ∷ ps)

module _ (quote : Text → Text) (show_number : JsNumber → Text) where
  abbrev pub write_members : List (Text × Text) → List Text
  write_members [] = []
  write_members ((key, t) ∷ es) = (quote key ++ b':' ∷ t) ∷ write_members es

  abbrev mutual
    -- `serializeValue`. The entries of an object are serialized before they are put in order, which
    -- shows only in which of several errors is thrown.
    pub serialize_value : Json → Result CanonicalJsonError Text
    serialize_value null = ok (b'n' ∷ b'u' ∷ b'l' ∷ b'l' ∷ [])
    serialize_value (boolean true) = ok (b't' ∷ b'r' ∷ b'u' ∷ b'e' ∷ [])
    serialize_value (boolean false) = ok (b'f' ∷ b'a' ∷ b'l' ∷ b's' ∷ b'e' ∷ [])
    serialize_value (number n) = if is_finite n then ok (show_number n) else err non_finite_number
    serialize_value (string s) = ok (quote s)
    serialize_value (array vs) = do
      throw_if (not (is_dense vs)) sparse_array
      parts ← serialize_items vs
      ok (b'[' ∷ join_comma parts ++ b']' ∷ [])
    serialize_value (object ms) = do
      entries ← serialize_members ms
      ok (b'{' ∷ join_comma (write_members entries) ++ b'}' ∷ [])
    serialize_value unsupported = err unsupported_value

    pub serialize_items : Items → Result CanonicalJsonError (List Text)
    serialize_items no_item = ok []
    serialize_items (item v vs) = do
      part ← serialize_value v
      parts ← serialize_items vs
      ok (part ∷ parts)
    serialize_items (gap vs) = serialize_items vs

    pub serialize_members : Members → Result CanonicalJsonError (List (Text × Text))
    serialize_members no_member = ok []
    serialize_members (member key v ms) = do
      t ← serialize_value v
      entries ← serialize_members ms
      ok (insert_member key t entries)

  -- `serializeCanonicalJson`.
  unfoldable pub serialize_canonical_json : JsonLimits → Json → Result CanonicalJsonError Text
  serialize_canonical_json limits v = elim (is_json_value_within_limits limits v) [
    | none ↦ err exceeds_contract
    | some false ↦ err exceeds_contract
    | some true ↦ serialize_value v
  ]

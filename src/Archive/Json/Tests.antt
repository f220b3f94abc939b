-- ===== src/Archive/Json/Tests.antt =====
-- The bounds at a value, and the canonical text of one whose keys are out of order.
use koharu_suite.Prelude.{◌≡◌, refl, true, false, some, [], ◌∷◌, ◌++◌, ok, ◌>>=◌}
use koharu_suite.Prelude.Texts.{Text, codes}
use koharu_suite.Prelude.Numbers.{JsNumber}
use koharu_suite.Archive.Json.{
  Json, boolean, null, string, array, object, no_item, item, no_member, member, bounded_json_limits,
  within_loop, is_json_value_within_limits, serialize_canonical_json,
}
use koharu_suite.Archive.Json.Measures.{is_within}
use koharu_suite.Archive.Json.Loop.{is_json_value_within_limits-is_within}

running : Unit {0}
unfolding ◌>>=◌ within_loop is_json_value_within_limits serialize_canonical_json
running = tt

abbrev sample : Json
sample = object (
    member (codes "b") (array (item null (item (boolean true) no_item)))
      (member (codes "a") (string (codes "x")) no_member))

is_json_value_within_limits-is_within_example :
    is_json_value_within_limits bounded_json_limits sample
    ≡ some (is_within bounded_json_limits sample)
is_json_value_within_limits-is_within_example =
    is_json_value_within_limits-is_within bounded_json_limits sample

accepted_run : is_json_value_within_limits bounded_json_limits sample ≡ some true
unfolding running
accepted_run = refl

nested_run :
    is_json_value_within_limits (record bounded_json_limits { max_depth = 1 }) sample ≡ some false
unfolding running
nested_run = refl

abbrev quote : Text → Text
quote t = b'"' ∷ t ++ b'"' ∷ []

abbrev show_number : JsNumber → Text
show_number n = []

canonical_run :
    serialize_canonical_json quote show_number bounded_json_limits sample
    ≡ ok (codes "{\"a\":\"x\",\"b\":[null,true]}")
unfolding running
canonical_run = refl

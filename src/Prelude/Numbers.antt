-- ===== src/Prelude/Numbers.antt =====
-- JavaScript numbers, as far as the program's own tests tell them apart.
use Prim.Native.Nat.{ℕ, ◌+◌, ◌-◌, ◌^◌}
use mathlib.Core.Bool.{Bool, true, false}
use koharu_suite.Prelude.Tests.{leb, ltb}

-- `Number.MAX_SAFE_INTEGER`.
abbrev pub max_safe_integer : ℕ
max_safe_integer = 2 ^ 53 - 1

-- `whole n` is n, `minus n` is -(n + 1), `fraction neg n` a number strictly between n and n + 1
-- (between -(n + 1) and -n where `neg` holds); `not_finite` is NaN, an infinity, or `undefined`
-- where a property is present without a value.
pub data JsNumber : Type 0 where
  whole minus : ℕ → JsNumber
  fraction : Bool → ℕ → JsNumber
  not_finite : JsNumber

-- `Number.isSafeInteger`.
abbrev pub is_safe_integer : JsNumber → Bool
is_safe_integer (whole n) = leb n max_safe_integer
is_safe_integer (minus n) = leb (n + 1) max_safe_integer
is_safe_integer (fraction neg n) = false
is_safe_integer not_finite = false

-- `Number.isFinite`.
abbrev pub is_finite : JsNumber → Bool
is_finite not_finite = false
is_finite (whole n) = true
is_finite (minus n) = true
is_finite (fraction neg n) = true

-- `value < n` for n > 0; a comparison with a number that is not finite is read as false, and is
-- only made behind a test that excludes it.
abbrev pub below : JsNumber → ℕ → Bool
below (whole m) n = ltb m n
below (minus m) n = true
below (fraction true m) n = true
below (fraction false m) n = ltb m n
below not_finite n = false

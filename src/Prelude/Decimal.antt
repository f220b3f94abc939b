-- ===== src/Prelude/Decimal.antt =====
-- Numbers written in decimal, as template literals write them.
use koharu_suite.Prelude.Tests.{ltb, if◌then◌else◌}
use koharu_suite.Prelude.Texts.{Text}
use koharu_suite.Prelude.Int.{ℤ, pos, negsuc}
use Prim.Native.Nat.{ℕ, zero, suc, ◌+◌, ◌/◌, ◌%◌}
use mathlib.Core.List.{[], ◌∷◌, ◌++◌}

-- With more fuel than digits; `show` gives the number itself, which is enough.
unfoldable pub show_digits : ℕ → ℕ → Text
show_digits zero n = []
show_digits (suc fuel) n =
    let rest = show_digits fuel (n / 10) ++ (b'0' + n % 10) ∷ [] in
    if ltb n 10 then (b'0' + n) ∷ [] else rest

unfoldable pub show : ℕ → Text
unfolding show_digits
show n = show_digits (n + 1) n

unfoldable pub show_ℤ : ℤ → Text
unfolding show
show_ℤ (pos n) = show n
show_ℤ (negsuc n) = b'-' ∷ show (n + 1)

-- ===== src/Media/Commands/Shapes.antt =====
-- The properties that apps/server/src/media-cache/command-queue.ts may record of a storage operation,
-- as a table of keys and the shapes of their values.
use koharu_suite.Prelude.{
  ℕ, ◌≤◌, ◌≡◌, refl, ◌⊎◌, Bool, true, false, ◌||◌, List, [], ◌∷◌, arith, leb, leb→le, le→leb_true,
  ◌==◌, ==_iff, length, all, All, All-map, All-of_all, Bool-cases, &&-true, inl, inr,
}
use koharu_suite.Prelude.Texts.{Text, codes, is_lower, is_digit}
use koharu_suite.Prelude.Numbers.{whole, minus, fraction, not_finite}
use koharu_suite.Media.Commands.{ResultValue, truth, number, text, unsupported}
use koharu_suite.Media.Commands.Results.{
  StorageOperation, to_migrate, to_prune, to_restore, is_truth, is_count, is_text, is_decimal,
  is_backend_id,
}

pub data Shape : Type 0 where
  flag count bytes backend : Shape

-- The table of each operation.
abbrev pub shapes : StorageOperation → List (Text × Shape)
shapes to_migrate =
    (codes "alreadyApplied", flag)
    ∷ (codes "hasMore", flag)
    ∷ (codes "migratedBlobCount", count)
    ∷ (codes "migratedBytes", bytes)
    ∷ (codes "sourceBackendId", backend)
    ∷ (codes "targetBackendId", backend)
    ∷ []
shapes to_restore =
    (codes "alreadyApplied", flag)
    ∷ (codes "hasMore", flag)
    ∷ (codes "restoredBytes", bytes)
    ∷ (codes "restoredObjectCount", count)
    ∷ (codes "targetBackendId", backend)
    ∷ []
shapes to_prune =
    (codes "alreadyApplied", flag)
    ∷ (codes "hasMore", flag)
    ∷ (codes "prunedBlobCount", count)
    ∷ (codes "prunedBytes", bytes)
    ∷ (codes "readyBytes", bytes)
    ∷ (codes "targetBackendId", backend)
    ∷ []

abbrev pub IsDigit : ℕ → Type 0
IsDigit c = (48 ≤ c) × (c ≤ 57)

abbrev pub IsLower : ℕ → Type 0
IsLower c = (97 ≤ c) × (c ≤ 122)

-- The numeral of zero, or digits of which the first is not a zero.
abbrev pub IsDecimal : Text → Type 0
IsDecimal s =
    (s ≡ 48 ∷ []) ⊎ (c : ℕ) × (r : Text) × (s ≡ c ∷ r) × (49 ≤ c) × (c ≤ 57) × All IsDigit r

-- A lower-case letter, and up to 63 letters, digits, underscores and hyphens.
abbrev pub IsBackendId : Text → Type 0
IsBackendId s =
    (c : ℕ) × (r : Text) × (s ≡ c ∷ r)
    × IsLower c
    × (length r ≤ 63)
    × All (λ d. IsLower d ⊎ IsDigit d ⊎ (d ≡ 95) ⊎ (d ≡ 45)) r

abbrev pub HasShape : Shape → ResultValue → Type 0
HasShape flag v = (b : Bool) × (v ≡ truth b)
HasShape count v = (n : ℕ) × (v ≡ number (whole n)) × (n ≤ 9_007_199_254_740_991)
HasShape bytes v = (s : Text) × (v ≡ text s) × IsDecimal s
HasShape backend v = (s : Text) × (v ≡ text s) × IsBackendId s

-- A key stands in a table with a shape that a value has.
abbrev pub IsListed : List (Text × Shape) → Text → ResultValue → Type 0
IsListed [] key v = ⊥
IsListed ((k, shape) ∷ table) key v = (key ≡ k) × HasShape shape v ⊎ IsListed table key v

-- The test of a shape.
abbrev pub test : Shape → ResultValue → Bool
test flag v = is_truth v
test count v = is_count v
test bytes v = is_text is_decimal v
test backend v = is_text is_backend_id v

unit-shape :
    (c : ℕ)
    → (is_lower c || is_digit c || (c == b'_') || (c == b'-')) ≡ true
    → IsLower c ⊎ IsDigit c ⊎ (c ≡ 95) ⊎ (c ≡ 45)
unit-shape c h = ground arith

shape-unit :
    (c : ℕ)
    → IsLower c ⊎ IsDigit c ⊎ (c ≡ 95) ⊎ (c ≡ 45)
    → (is_lower c || is_digit c || (c == b'_') || (c == b'-')) ≡ true
shape-unit c h = ground arith

all_of_All : (p : ℕ → Bool) (s : Text) → All (λ c. p c ≡ true) s → all s p ≡ true
all_of_All p [] h = refl
all_of_All p (c ∷ s) (h, hs) = rw h (all_of_All p s hs)

no_more : (s : Text) → (length s == 0) ≡ true → s ≡ []
no_more [] h = refl
no_more (c ∷ s) h = absurd (ground (arith, h))

IsDecimal-of_test : (s : Text) → is_decimal s ≡ true → IsDecimal s
IsDecimal-of_test [] h = absurd (cc)
IsDecimal-of_test (c ∷ s) h = elim (Bool-cases (c == b'0')) [
  | inl zero' ↦ inl (cc ((==_iff c b'0').0 zero', no_more s (rw zero' at h)))
  | inr other ↦
      let (first, rest) = &&-true (is_digit c) (all s is_digit) (rw other at h) in
      inr (
        c,
        s,
        refl,
        ground (arith, first, other),
        ground (arith, first),
        All-map _ _ (λ d k. ground (arith, k)) s (All-of_all is_digit s rest),
      )
]

test_of_IsDecimal : (s : Text) → IsDecimal s → is_decimal s ≡ true
test_of_IsDecimal s (inl e) = rw e refl
test_of_IsDecimal s (inr (c, r, e, low, high, rest)) =
    let other : (c == b'0') ≡ false = ground (arith, low) in
    let first : is_digit c ≡ true = ground (arith, low, high) in
    rw (e, other, first) (all_of_All is_digit r (All-map _ _ (λ d k. ground (arith, k)) r rest))

IsBackendId-of_test : (s : Text) → is_backend_id s ≡ true → IsBackendId s
IsBackendId-of_test [] h = absurd (cc)
IsBackendId-of_test (c ∷ s) h =
    let (h1, rest) = &&-true _ _ h in
    let (first, short) = &&-true (is_lower c) (leb (length s) 63) h1 in
    (
      c,
      s,
      refl,
      ground (arith, first),
      leb→le _ _ short,
      All-map _ _ unit-shape s (All-of_all _ s rest),
    )

test_of_IsBackendId : (s : Text) → IsBackendId s → is_backend_id s ≡ true
test_of_IsBackendId s (c, r, e, low, short, rest) =
    let first : is_lower c ≡ true = ground (arith, low) in
    rw (e, first, le→leb_true (length r) 63 short) (all_of_All _ r (All-map _ _ shape-unit r rest))

pub HasShape-of_test : (shape : Shape) (v : ResultValue) → test shape v ≡ true → HasShape shape v
HasShape-of_test flag (truth b) h = (b, refl)
HasShape-of_test flag (number n) h = absurd (cc)
HasShape-of_test flag (text s) h = absurd (cc)
HasShape-of_test flag unsupported h = absurd (cc)
HasShape-of_test count (truth b) h = absurd (cc)
HasShape-of_test count (number (whole n)) h = (n, refl, leb→le _ _ h)
HasShape-of_test count (number (minus n)) h = absurd (cc)
HasShape-of_test count (number (fraction neg n)) h = absurd (cc)
HasShape-of_test count (number not_finite) h = absurd (cc)
HasShape-of_test count (text s) h = absurd (cc)
HasShape-of_test count unsupported h = absurd (cc)
HasShape-of_test bytes (truth b) h = absurd (cc)
HasShape-of_test bytes (number n) h = absurd (cc)
HasShape-of_test bytes (text s) h = (s, refl, IsDecimal-of_test s h)
HasShape-of_test bytes unsupported h = absurd (cc)
HasShape-of_test backend (truth b) h = absurd (cc)
HasShape-of_test backend (number n) h = absurd (cc)
HasShape-of_test backend (text s) h = (s, refl, IsBackendId-of_test s h)
HasShape-of_test backend unsupported h = absurd (cc)

pub test_of_HasShape : (shape : Shape) (v : ResultValue) → HasShape shape v → test shape v ≡ true
test_of_HasShape flag v (b, e) = rw e refl
test_of_HasShape count v (n, e, small) = rw e (le→leb_true n 9_007_199_254_740_991 small)
test_of_HasShape bytes v (s, e, d) = rw e (test_of_IsDecimal s d)
test_of_HasShape backend v (s, e, d) = rw e (test_of_IsBackendId s d)

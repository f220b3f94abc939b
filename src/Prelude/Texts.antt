-- ===== src/Prelude/Texts.antt =====
-- Texts as lists of UTF-16 code units, the units that `length`, `split` and `<` of a JavaScript
-- string work on.
use Prim.Native.Char.{code}
use Prim.Native.String.{String}
use Prim.Native.Nat.{ℕ, ◌+◌}
use mathlib.Core.Path.{◌≡◌, refl, sym}
use mathlib.Core.Logic.{◌↔◌, ◌≢◌, ◌⊎◌, inl, inr}
use mathlib.Core.Bool.{Bool, true, false, ◌&&◌, ◌||◌}
use mathlib.Core.List.{List, [], ◌∷◌, ◌++◌}
use native.Mathlib.Omega.{arith}
use koharu_suite.Prelude.Tests.{ltb, leb, ◌==◌, if◌then◌else◌, Bool-cases}
use koharu_suite.Prelude.Lists.{any, all, All, All-map, All-of_any}

abbrev pub Text : Type 0
Text = List ℕ

-- A literal's code units (all literals of the program are ASCII).
abbrev pub codes : String → Text
codes String.[] = []
codes (String.◌∷◌ c s) = code c ∷ codes s

abbrev pub text_eq : Text → Text → Bool
text_eq [] [] = true
text_eq [] (b ∷ t) = false
text_eq (a ∷ s) [] = false
text_eq (a ∷ s) (b ∷ t) = (a == b) && text_eq s t

pub text_eq_refl : (s : Text) → text_eq s s ≡ true
text_eq_refl [] = refl
text_eq_refl (a ∷ s) = ground (arith, text_eq_refl s)

pub eq_of_text_eq : (s t : Text) → text_eq s t ≡ true → s ≡ t
eq_of_text_eq [] [] h = refl
eq_of_text_eq [] (b ∷ t) h = cc
eq_of_text_eq (a ∷ s) [] h = cc
eq_of_text_eq (a ∷ s) (b ∷ t) h = ground (arith, eq_of_text_eq s t)

pub text_eq_iff : (s t : Text) → (text_eq s t ≡ true) ↔ (s ≡ t)
text_eq_iff s t = (eq_of_text_eq s t, λ e. rw (← e) (text_eq_refl s))

-- `Set.has` and `Array.includes` over texts.
abbrev pub has : List Text → Text → Bool
has xs t = any xs (text_eq t)

-- `includes` of one character.
abbrev pub includes_unit : Text → ℕ → Bool
includes_unit s c = any s (λ a. a == c)

abbrev pub ends_with_unit : Text → ℕ → Bool
ends_with_unit [] c = false
ends_with_unit (a ∷ []) c = a == c
ends_with_unit (a ∷ b ∷ s) c = ends_with_unit (b ∷ s) c

-- `left < right` on strings: lexicographic by code units.
abbrev pub text_lt : Text → Text → Bool
text_lt s [] = false
text_lt [] (b ∷ t) = true
text_lt (a ∷ s) (b ∷ t) = ltb a b || ((a == b) && text_lt s t)

abbrev pub is_upper : ℕ → Bool
is_upper c = leb b'A' c && leb c b'Z'

abbrev pub is_lower : ℕ → Bool
is_lower c = leb b'a' c && leb c b'z'

abbrev pub is_digit : ℕ → Bool
is_digit c = leb b'0' c && leb c b'9'

abbrev pub is_letter : ℕ → Bool
is_letter c = is_upper c || is_lower c

-- `\s`: the white space and line terminators of the language.
abbrev pub is_space : ℕ → Bool
is_space c =
    (leb 0x09 c && leb c 0x0d)
    || (c == 0x20)
    || (c == 0xa0)
    || (c == 0x1680)
    || (leb 0x2000 c && leb c 0x200a)
    || (c == 0x2028)
    || (c == 0x2029)
    || (c == 0x202f)
    || (c == 0x205f)
    || (c == 0x3000)
    || (c == 0xfeff)

abbrev trim_start : Text → Text
trim_start [] = []
trim_start (c ∷ s) = if is_space c then trim_start s else c ∷ s

abbrev trim_end : Text → Text
trim_end [] = []
trim_end (c ∷ s) = if all (c ∷ s) is_space then [] else c ∷ trim_end s

-- `s.trim()`.
unfoldable pub trim : Text → Text
trim s = trim_end (trim_start s)

trim_end-cons : (c : ℕ) (s : Text) → is_space c ≡ false → trim_end (c ∷ s) ≡ c ∷ trim_end s
trim_end-cons c s h = rw h

-- A trimmed text is empty, or starts with a unit that is no space.
pub trim-cases :
    (s : Text) → (trim s ≡ []) ⊎ ((c : ℕ) × (r : Text) × (trim s ≡ c ∷ r) × (is_space c ≡ false))
unfolding trim
trim-cases [] = inl refl
trim-cases (c ∷ s) = elim (Bool-cases (is_space c)) [
  | inl space ↦ rw space (trim-cases s)
  | inr other ↦ rw other (inr (c, trim_end s, trim_end-cons c s other, other))
]

-- `toLowerCase` of an ASCII unit.
abbrev pub to_lower : ℕ → ℕ
to_lower c = if is_upper c then c + 32 else c

-- A separator added in front of the first part that `split` gives.
abbrev pub cons_first : ℕ → List Text → List Text
cons_first c [] = (c ∷ []) ∷ []
cons_first c (p ∷ ps) = (c ∷ p) ∷ ps

-- `s.split(sep)` for a separator of one unit.
unfoldable pub split : ℕ → Text → List Text
split sep [] = [] ∷ []
split sep (c ∷ s) = let rest = split sep s in if c == sep then [] ∷ rest else cons_first c rest

-- `parts.join(sep)`.
unfoldable pub join : ℕ → List Text → Text
join sep [] = []
join sep (p ∷ []) = p
join sep (p ∷ q ∷ ps) = p ++ sep ∷ join sep (q ∷ ps)

pub split_some : (sep : ℕ) (s : Text) → split sep s ≢ []
unfolding split
split_some sep [] = cc
split_some sep (c ∷ s) = ground (arith, split_some sep s)

join-cons_first : (sep c : ℕ) (ps : List Text) → join sep (cons_first c ps) ≡ c ∷ join sep ps
unfolding join
join-cons_first sep c [] = refl
join-cons_first sep c (p ∷ []) = refl
join-cons_first sep c (p ∷ q ∷ ps) = refl

join-nil : (sep : ℕ) (ps : List Text) → ps ≢ [] → join sep ([] ∷ ps) ≡ sep ∷ join sep ps
unfolding join
join-nil sep [] h = absurd (h refl)
join-nil sep (p ∷ ps) h = refl

-- Splitting and joining again gives the text back.
pub join-split : (sep : ℕ) (s : Text) → join sep (split sep s) ≡ s
unfolding split
join-split sep [] = unfold join in refl
join-split sep (c ∷ s) = ground (
  arith,
  join-split sep s,
  join-nil sep (split sep s) (split_some sep s),
  join-cons_first sep c (split sep s),
)

-- No part holds the separator.
All-Lacks-cons_first :
    (sep c : ℕ) (ps : List Text)
    → (c == sep) ≡ false
    → All (λ p. All (λ u. u ≢ sep) p) ps
    → All (λ p. All (λ u. u ≢ sep) p) (cons_first c ps)
All-Lacks-cons_first sep c [] h k = ((λ e. ground arith, tt), tt)
All-Lacks-cons_first sep c (p ∷ ps) h (k, ks) = ((λ e. ground arith, k), ks)

pub split-Lacks : (sep : ℕ) (s : Text) → All (λ p. All (λ u. u ≢ sep) p) (split sep s)
unfolding split
split-Lacks sep [] = (tt, tt)
split-Lacks sep (c ∷ s) =
    ground (arith, split-Lacks sep s, All-Lacks-cons_first sep c (split sep s))

-- No text of the list is this one.
abbrev pub Fresh : Text → List Text → Type 0
Fresh k = All λ j. j ≢ k

abbrev pub Distinct : List Text → Type 0
Distinct [] = Unit {0}
Distinct (k ∷ ks) = Fresh k ks × Distinct ks

pub Fresh-of_has : (k : Text) (ks : List Text) → has ks k ≡ false → Fresh k ks
Fresh-of_has k ks h =
    All-map (λ j. text_eq k j ≡ false) (λ j. j ≢ k) (λ j n e. cc (n, (text_eq_iff k j).1 (sym e)))
      ks (All-of_any (text_eq k) ks h)

pub has-of_Fresh : (k : Text) (ks : List Text) → Fresh k ks → has ks k ≡ false
has-of_Fresh k [] h = refl
has-of_Fresh k (j ∷ ks) (n, h) = ground (arith, text_eq_iff k j, has-of_Fresh k ks h)

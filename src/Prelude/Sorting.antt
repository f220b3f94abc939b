-- ===== src/Prelude/Sorting.antt =====
-- `Array.prototype.sort`: a stable sort by a comparator, here by insertion.
use mathlib.Core.List.{Perm}
use mathlib.Core.List.Perm
use mathlib.Core.Path.{◌≡◌, refl, ap, ◌∙◌}
use mathlib.Core.Bool.{Bool, true, false, ◌||◌}
use mathlib.Core.Logic.{◌≢◌, ◌⊎◌, inl, inr}
use mathlib.Core.List.{List, [], ◌∷◌}
use native.Mathlib.Omega.{arith}
use koharu_suite.Prelude.Lists.{All, All-map, any}

swap_tests : (a b c : Bool) → (a || (b || c)) ≡ (b || (a || c))
swap_tests true true c = refl
swap_tests true false c = refl
swap_tests false b c = refl

-- What a comparator returns: a negative number, zero or a positive number.
pub data Sign : Type 0 where
  less same more : Sign

Sign-cases : (s : Sign) → (s ≡ more) ⊎ (s ≢ more)
Sign-cases more = inl refl
Sign-cases less = inr (cc)
Sign-cases same = inr (cc)

-- `a || b` on the results of two comparators.
abbrev pub or_else : Sign → Sign → Sign
or_else less s = less
or_else more s = more
or_else same s = s

module _ {ℓ} {A : Type ℓ} (compare : A → A → Sign) where
  -- Elements go in from the last to the first, so equal ones must go in front of what is there.
  unfoldable pub insert_before : A → List A → List A
  insert_before x [] = x ∷ []
  insert_before x (y ∷ ys) =
      let rest = y ∷ insert_before x ys in elim (compare x y) [ more ↦ rest | _ ↦ x ∷ y ∷ ys ]

  unfoldable pub sort : List A → List A
  sort [] = []
  sort (x ∷ xs) = insert_before x (sort xs)

  insert_before-perm : (x : A) (xs : List A) → Perm (insert_before x xs) (x ∷ xs)
  unfolding insert_before
  insert_before-perm x [] = Perm.refl _
  insert_before-perm x (y ∷ ys) = ground (
    arith,
    Perm.refl (x ∷ y ∷ ys),
    Perm.trans (Perm.cons y (insert_before-perm x ys)) (Perm.swap x y ys),
  )

  -- Sorting moves elements about.
  pub sort-perm : (xs : List A) → Perm (sort xs) xs
  unfolding sort
  sort-perm [] = Perm.refl []
  sort-perm (x ∷ xs) = Perm.trans (insert_before-perm x (sort xs)) (Perm.cons x (sort-perm xs))

  -- No element is greater than a later one.
  abbrev pub IsSorted : List A → Type ℓ
  IsSorted [] = Unit
  IsSorted (x ∷ xs) = All (λ y. compare x y ≢ more) xs × IsSorted xs

  pub All-insert_before {κ} :
      (P : A → Type κ) (x : A) (xs : List A) → P x → All P xs → All P (insert_before x xs)
  unfolding insert_before
  All-insert_before P x [] p h = (p, tt)
  All-insert_before P x (y ∷ ys) p (q, h) = ground (arith, All-insert_before P x ys p h)

  pub All-sort {κ} : (P : A → Type κ) (xs : List A) → All P xs → All P (sort xs)
  unfolding sort
  All-sort P [] h = tt
  All-sort P (x ∷ xs) (p, h) = All-insert_before P x (sort xs) p (All-sort P xs h)

-- The comparator of a total preorder.
pub record IsOrder {ℓ} {A : Type ℓ} (compare : A → A → Sign) : Type ℓ where
  pub total : (x y : A) → compare x y ≡ more → compare y x ≢ more
  pub transitive : (x y z : A) → compare x y ≢ more → compare y z ≢ more → compare x z ≢ more

module _ {ℓ} {A : Type ℓ} (compare : A → A → Sign) (order : IsOrder compare) where
  insert_before-IsSorted :
      (x : A) (xs : List A) → IsSorted compare xs → IsSorted compare (insert_before compare x xs)
  unfolding insert_before
  insert_before-IsSorted x [] h = (tt, tt)
  insert_before-IsSorted x (y ∷ ys) (here, rest) = elim (Sign-cases (compare x y)) [
    | inl greater ↦
        rw (greater, insert_before)
          (
            All-insert_before compare (λ z. compare y z ≢ more) x ys (order.total x y greater) here,
            insert_before-IsSorted x ys rest,
          )
    | inr notgreater ↦
        let above =
          All-map (λ z. compare y z ≢ more) (λ z. compare x z ≢ more)
            (λ z. order.transitive x y z notgreater) ys here in
        ground (arith, above, notgreater)
  ]

  -- Sorting by such a comparator sorts.
  pub sort-IsSorted : (xs : List A) → IsSorted compare (sort compare xs)
  unfolding sort
  sort-IsSorted [] = tt
  sort-IsSorted (x ∷ xs) = insert_before-IsSorted x (sort compare xs) (sort-IsSorted xs)

-- A test that some element passes does not see the sorting.
module _ {ℓ} {A : Type ℓ} (compare : A → A → Sign) (p : A → Bool) where
  any-insert_before : (x : A) (xs : List A) → any (insert_before compare x xs) p ≡ (p x || any xs p)
  unfolding insert_before
  any-insert_before x [] = refl
  any-insert_before x (y ∷ ys) = elim (Sign-cases (compare x y)) [
    | inl greater ↦
        rw (greater, insert_before)
          (ap (λ b. p y || b) (any-insert_before x ys) ∙ swap_tests (p y) (p x) (any ys p))
    | inr notgreater ↦ ground arith
  ]

  pub any-sort : (xs : List A) → any (sort compare xs) p ≡ any xs p
  unfolding sort
  any-sort [] = refl
  any-sort (x ∷ xs) = any-insert_before x (sort compare xs) ∙ ap (λ b. p x || b) (any-sort xs)

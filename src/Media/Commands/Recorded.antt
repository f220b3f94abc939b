-- ===== src/Media/Commands/Recorded.antt =====
-- That apps/server/src/media-cache/command-queue.ts tests the properties of a storage operation's result
-- as the tables of their shapes say.
use koharu_suite.Prelude.{
  or_true, ◌≡◌, refl, sym, ◌∙◌, subst, ◌↔◌, Bool, true, false, ◌||◌, List, [], ◌∷◌, map, All,
  Bool-cases, inl, inr,
}
use koharu_suite.Prelude.Texts.{Text, text_eq, text_eq_refl, eq_of_text_eq, has}
use koharu_suite.Media.Commands.{ResultValue}
use koharu_suite.Media.Commands.Results.{
  StorageOperation, to_migrate, to_prune, to_restore, is_truth, is_count, is_text, is_decimal,
  is_accepted, allowed_keys,
}
use koharu_suite.Media.Commands.Shapes.{
  Shape, shapes, IsListed, test, HasShape-of_test, test_of_HasShape,
}

-- The loop's test of a key is the test of its shape.
abbrev AreTested : List (Text × Shape) → Type 0
AreTested table = All (λ (k, shape). (v : ResultValue) → is_accepted k v ≡ test shape v) table

first_test : (b : Bool) → (b || false || false || false) ≡ b
first_test true = refl
first_test false = refl

second_test : (b : Bool) → (b || false || false) ≡ b
second_test true = refl
second_test false = refl

third_test : (b : Bool) → (b || false) ≡ b
third_test true = refl
third_test false = refl

shapes-AreTested : (operation : StorageOperation) → AreTested (shapes operation)
shapes-AreTested to_migrate = (
  (λ v. first_test (is_truth v)),
  (
    (λ v. first_test (is_truth v)),
    (
      (λ v. second_test (is_count v)),
      ((λ v. third_test (is_text is_decimal v)), ((λ v. refl), ((λ v. refl), tt))),
    ),
  ),
)
shapes-AreTested to_restore = (
  (λ v. first_test (is_truth v)),
  (
    (λ v. first_test (is_truth v)),
    (
      (λ v. third_test (is_text is_decimal v)),
      ((λ v. second_test (is_count v)), ((λ v. refl), tt)),
    ),
  ),
)
shapes-AreTested to_prune = (
  (λ v. first_test (is_truth v)),
  (
    (λ v. first_test (is_truth v)),
    (
      (λ v. second_test (is_count v)),
      (
        (λ v. third_test (is_text is_decimal v)),
        ((λ v. third_test (is_text is_decimal v)), ((λ v. refl), tt)),
      ),
    ),
  ),
)

keys-shapes :
    (operation : StorageOperation) → map (λ e. e.0) (shapes operation) ≡ allowed_keys operation
keys-shapes to_migrate = refl
keys-shapes to_restore = refl
keys-shapes to_prune = refl

module _ (key : Text) (v : ResultValue) where
  IsListed-of_test :
      (table : List (Text × Shape))
      → AreTested table
      → has (map (λ e. e.0) table) key ≡ true
      → is_accepted key v ≡ true
      → IsListed table key v
  IsListed-of_test [] t h a = absurd (cc)
  IsListed-of_test ((k, shape) ∷ table) (t, ts) h a = elim (Bool-cases (text_eq key k)) [
    | inl same ↦
        let e = eq_of_text_eq key k same in
        inl (e, HasShape-of_test shape v (sym (t v) ∙ subst (λ j. is_accepted j v ≡ true) e a))
    | inr other ↦ inr (IsListed-of_test table ts (rw other at h) a)
  ]

  test_of_IsListed :
      (table : List (Text × Shape))
      → AreTested table
      → IsListed table key v
      → (has (map (λ e. e.0) table) key ≡ true) × (is_accepted key v ≡ true)
  test_of_IsListed [] t h = absurd (h)
  test_of_IsListed ((k, shape) ∷ table) (t, ts) (inl (e, h)) = (
    subst (λ j. has (map (λ e. e.0) ((j, shape) ∷ table)) key ≡ true) e
        (rw (text_eq_refl key) refl),
    subst (λ j. is_accepted j v ≡ true) (sym e) (t v ∙ test_of_HasShape shape v h),
  )
  test_of_IsListed ((k, shape) ∷ table) (t, ts) (inr h) =
      let (found, accepted) = test_of_IsListed table ts h in
      (or_true (text_eq key k) found, accepted)

  -- The tests of the code on a property are those of the table.
  pub IsListed-iff :
      (operation : StorageOperation)
      → ((has (allowed_keys operation) key ≡ true) × (is_accepted key v ≡ true))
        ↔ (IsListed (shapes operation) key v)
  IsListed-iff operation = (
    λ h.
        IsListed-of_test (shapes operation) (shapes-AreTested operation)
          (subst (λ keys. has keys key ≡ true) (sym (keys-shapes operation)) h.0) h.1,
    λ h.
        subst (λ keys. (has keys key ≡ true) × (is_accepted key v ≡ true)) (keys-shapes operation)
          (test_of_IsListed (shapes operation) (shapes-AreTested operation) h),
  )

-- ===== src/Media/Commands/Sanitized.antt =====
-- The properties of the result that apps/server/src/media-cache/command-queue.ts records for a
-- storage operation.
use koharu_suite.Prelude.{
  ◌≡◌, refl, sym, ap, ◌∙◌, subst, Bool, true, false, Option, none, some, List, [], ◌∷◌,
  if◌then◌else◌, keep, Bool-cases, some-injective, inl, inr, ◌||◌, ◌↔◌,
}
use koharu_suite.Prelude.Texts.{Text, text_eq, text_eq_refl, eq_of_text_eq, has}
use koharu_suite.Media.Commands.Recorded.{IsListed-iff}
use koharu_suite.Media.Commands.Shapes.{shapes, IsListed}
use koharu_suite.Media.Commands.{ResultValue, Fields}
use koharu_suite.Media.Commands.Results.{
  StorageOperation, is_accepted, allowed_keys, field, with_field, pick_keys,
  sanitize_storage_operation_result,
}

-- A value that passes the test.
abbrev pub passed : (ResultValue → Bool) → Option ResultValue → Option ResultValue
passed p none = none
passed p (some v) = if p v then some v else none

-- An object has each of its properties once.
abbrev pub AreOnce : Fields → Type 0
AreOnce [] = Unit {0}
AreOnce ((k, v) ∷ fields) = (field k fields ≡ none) × AreOnce fields

module _ (p : Text → ResultValue → Bool) (key : Text) where
  field-keep_same :
      (v : ResultValue) (fields : Fields)
      → field key fields ≡ none
      → field key (keep (λ (k, w). p k w) fields) ≡ passed (p key) (field key fields)
      → field key (keep (λ (k, w). p k w) ((key, v) ∷ fields))
        ≡ passed (p key) (field key ((key, v) ∷ fields))
  field-keep_same v fields once rest = elim (Bool-cases (p key v)) [
    | inl yes' ↦ rw (yes', text_eq_refl key) (rw yes' refl)
    | inr no' ↦ rw (no', text_eq_refl key) (rw no' (rest ∙ ap (passed (p key)) once))
  ]

  field-keep :
      (fields : Fields)
      → AreOnce fields
      → field key (keep (λ (k, v). p k v) fields) ≡ passed (p key) (field key fields)
  field-keep [] h = refl
  field-keep ((k, v) ∷ fields) (once, h) = elim (Bool-cases (text_eq key k)) [
    | inl same ↦
        let e = eq_of_text_eq key k same in
        subst
          (λ j.
            field key (keep (λ (i, w). p i w) ((j, v) ∷ fields))
            ≡ passed (p key) (field key ((j, v) ∷ fields)))
          e
          (field-keep_same v fields (subst (λ j. field j fields ≡ none) (sym e) once)
            (field-keep fields h))
    | inr other ↦ elim (Bool-cases (p k v)) [
      | inl yes' ↦ rw (yes', other) (field-keep fields h)
      | inr no' ↦ rw (no', other) (field-keep fields h)
    ]
  ]

abbrev only_if : Bool → Option ResultValue → Option ResultValue
only_if b o = if b then o else none

only_if-none : (b : Bool) (o : Option ResultValue) → o ≡ none → only_if b o ≡ o
only_if-none true o h = refl
only_if-none false o h = sym h

module _ (key : Text) (fields : Fields) where
  with_field-only_if :
      (k : Text) (b : Bool) (o : Option ResultValue) (rest : Fields)
      → field k fields ≡ o
      → field key rest ≡ only_if b (field key fields)
      → field key (with_field k o rest) ≡ only_if (text_eq key k || b) (field key fields)
  with_field-only_if k b none rest e h = elim (Bool-cases (text_eq key k)) [
    | inl same ↦ rw same (
        h
        ∙ only_if-none b (field key fields)
            (subst (λ j. field j fields ≡ none) (sym (eq_of_text_eq key k same)) e))
    | inr other ↦ rw other h
  ]
  with_field-only_if k b (some v) rest e h = elim (Bool-cases (text_eq key k)) [
    | inl same ↦
        rw same (sym (subst (λ j. field j fields ≡ some v) (sym (eq_of_text_eq key k same)) e))
    | inr other ↦ rw other h
  ]

  field-pick_keys :
      (keys : List Text)
      → field key (pick_keys fields keys) ≡ only_if (has keys key) (field key fields)
  field-pick_keys [] = refl
  field-pick_keys (k ∷ keys) =
      with_field-only_if k (has keys key) (field k fields) (pick_keys fields keys) refl
        (field-pick_keys keys)

kept_iff :
    (b : Bool) (p : ResultValue → Bool) (o : Option ResultValue) (v : ResultValue)
    → (only_if b (passed p o) ≡ some v) ↔ ((o ≡ some v) × (b ≡ true) × (p v ≡ true))
kept_iff false p o v = (λ h. absurd (cc), λ h. absurd (cc (h.1)))
kept_iff true p none v = (λ h. absurd (cc), λ h. absurd (cc (h.0)))
kept_iff true p (some w) v = (
  λ h. elim (Bool-cases (p w)) [
    | inl yes' ↦
        let e = (rw yes' at h) in (e, refl, subst (λ x. p x ≡ true) (some-injective e) yes')
    | inr no' ↦ absurd (cc (rw no' at h))
  ],
  λ h. let same : w ≡ v = some-injective h.0 in rw (subst (λ x. p x ≡ true) (sym same) h.2) h.0,
)

field_sanitized :
    (operation : StorageOperation) (result : Fields) (key : Text)
    → AreOnce result
    → field key (sanitize_storage_operation_result operation result)
      ≡ only_if (has (allowed_keys operation) key) (passed (is_accepted key) (field key result))
unfolding sanitize_storage_operation_result
field_sanitized operation result key once =
    field-pick_keys key (keep (λ (k, v). is_accepted k v) result) (allowed_keys operation)
    ∙ ap (only_if (has (allowed_keys operation) key)) (field-keep is_accepted key result once)

-- What is recorded of a storage operation's result, an object with each property once, has a property
-- with a value exactly where the result has it, the operation's table lists the key, and the value has
-- the shape that the table names: a Boolean, a safe integer from zero on, a decimal numeral without
-- leading zeros, or a backend id of at most 64 characters.
pub field-sanitize_storage_operation_result :
    (operation : StorageOperation) (result : Fields) (key : Text) (v : ResultValue)
    → AreOnce result
    → (field key (sanitize_storage_operation_result operation result) ≡ some v)
      ↔ ((field key result ≡ some v) × IsListed (shapes operation) key v)
field-sanitize_storage_operation_result operation result key v once =
    let sanitized = field_sanitized operation result key once in
    let (sound, complete) =
      kept_iff (has (allowed_keys operation) key) (is_accepted key) (field key result) v in
    let (listed, tested) = IsListed-iff key v operation in
    (
      λ h.
          let (given, allowed, accepted) = sound (sym sanitized ∙ h) in
          (given, listed (allowed, accepted)),
      λ h. let (allowed, accepted) = tested h.1 in sanitized ∙ complete (h.0, allowed, accepted),
    )

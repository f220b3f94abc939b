-- ===== src/Media/Commands/Results.antt =====
-- apps/server/src/media-cache/command-queue.ts: what of a storage operation's result is kept.
use koharu_suite.Prelude.{
  Bool, true, false, ◌&&◌, ◌||◌, Option, none, some, List, [], ◌∷◌, leb, ◌==◌, if◌then◌else◌,
  length, all, keep,
}
use koharu_suite.Prelude.Texts.{Text, codes, text_eq, has, is_lower, is_digit}
use koharu_suite.Prelude.Numbers.{JsNumber, whole, minus, fraction, not_finite, max_safe_integer}
use koharu_suite.Media.Commands.{ResultValue, truth, number, text, unsupported, Fields}

-- `StorageCommandOperation`.
pub data StorageOperation : Type 0 where
  to_migrate to_prune to_restore : StorageOperation

abbrev pub boolean_keys : List Text
boolean_keys = codes "alreadyApplied" ∷ codes "hasMore" ∷ []

abbrev pub count_keys : List Text
count_keys = codes "migratedBlobCount" ∷ codes "prunedBlobCount" ∷ codes "restoredObjectCount" ∷ []

abbrev pub byte_keys : List Text
byte_keys =
    codes "migratedBytes" ∷ codes "prunedBytes" ∷ codes "readyBytes" ∷ codes "restoredBytes" ∷ []

abbrev pub backend_keys : List Text
backend_keys = codes "sourceBackendId" ∷ codes "targetBackendId" ∷ []

-- `isDecimalString` of a text.
abbrev pub is_decimal : Text → Bool
is_decimal [] = false
is_decimal (c ∷ s) = if c == b'0' then length s == 0 else is_digit c && all s is_digit

-- `/^[a-z][a-z0-9_-]{0,63}$/u`.
abbrev pub is_backend_id : Text → Bool
is_backend_id [] = false
is_backend_id (c ∷ s) =
    is_lower c
    && leb (length s) 63
    && all s (λ d. is_lower d || is_digit d || (d == b'_') || (d == b'-'))

-- The test of each kind of value: a boolean, a safe integer from zero, a decimal, an id.

abbrev pub is_truth : ResultValue → Bool
is_truth (truth b) = true
is_truth (number n) = false
is_truth (text s) = false
is_truth unsupported = false

abbrev is_whole : JsNumber → Bool
is_whole (whole n) = leb n max_safe_integer
is_whole (minus n) = false
is_whole (fraction neg n) = false
is_whole not_finite = false

abbrev pub is_count : ResultValue → Bool
is_count (truth b) = false
is_count (number n) = is_whole n
is_count (text s) = false
is_count unsupported = false

abbrev pub is_text : (Text → Bool) → ResultValue → Bool
is_text p (truth b) = false
is_text p (number n) = false
is_text p (text s) = p s
is_text p unsupported = false

-- Whether the loop of `sanitizeStorageOperationResult` keeps an entry.
abbrev pub is_accepted : Text → ResultValue → Bool
is_accepted key value =
    (has boolean_keys key && is_truth value)
    || (has count_keys key && is_count value)
    || (has byte_keys key && is_text is_decimal value)
    || (has backend_keys key && is_text is_backend_id value)

abbrev pub allowed_keys : StorageOperation → List Text
allowed_keys to_migrate =
    codes "alreadyApplied"
    ∷ codes "hasMore"
    ∷ codes "migratedBlobCount"
    ∷ codes "migratedBytes"
    ∷ codes "sourceBackendId"
    ∷ codes "targetBackendId"
    ∷ []
allowed_keys to_restore =
    codes "alreadyApplied"
    ∷ codes "hasMore"
    ∷ codes "restoredBytes"
    ∷ codes "restoredObjectCount"
    ∷ codes "targetBackendId"
    ∷ []
allowed_keys to_prune =
    codes "alreadyApplied"
    ∷ codes "hasMore"
    ∷ codes "prunedBlobCount"
    ∷ codes "prunedBytes"
    ∷ codes "readyBytes"
    ∷ codes "targetBackendId"
    ∷ []

-- `Object.hasOwn(result, key)` and `result[key]`.
abbrev pub field : Text → Fields → Option ResultValue
field key [] = none
field key ((k, v) ∷ fields) = if text_eq key k then some v else field key fields

abbrev pub with_field : Text → Option ResultValue → Fields → Fields
with_field key none fields = fields
with_field key (some v) fields = (key, v) ∷ fields

-- `pickKeys`.
abbrev pub pick_keys : Fields → List Text → Fields
pick_keys result [] = []
pick_keys result (key ∷ keys) = with_field key (field key result) (pick_keys result keys)

-- `sanitizeStorageOperationResult`, of the result's own properties.
unfoldable pub sanitize_storage_operation_result : StorageOperation → Fields → Fields
sanitize_storage_operation_result operation result =
    pick_keys (keep (λ (key, value). is_accepted key value) result) (allowed_keys operation)

-- ===== src/Media/Policy.antt =====
-- apps/server/src/media-cache/policy.ts: which originals of a post are cached, and how many bytes
-- are reserved for them.
pub mod Budget
pub mod Ordering
pub mod Selection
mod Tests
use koharu_suite.Prelude.{
  ℕ, ◌+◌, ◌*◌, Bool, true, false, not, ◌&&◌, ◌||◌, Option, none, some, List, [], ◌∷◌, map, ltb, leb,
  ◌==◌, if◌then◌else◌, Result, ok, err, ◌>>=◌, ◌>>◌, throw_if, length,
}
use koharu_suite.Prelude.Texts.{Text, has, trim}
use koharu_suite.Prelude.Numbers.{JsNumber, whole, minus, fraction, not_finite, is_safe_integer}
use koharu_suite.Prelude.Int.{ℤ, pos, negsuc}
use koharu_suite.Prelude.Sorting.{Sign, less, same, more, or_else, sort}
use koharu_suite.Archive.Limits.{mebibyte, to_ℕ}

-- `NormalizedMediaKind`.
pub data NormalizedMediaKind : Type 0 where
  animation audio document photo video voice : NormalizedMediaKind

abbrev pub photo_original_limit_bytes : ℕ
photo_original_limit_bytes = 10 * mebibyte

abbrev pub animation_or_video_original_limit_bytes : ℕ
animation_or_video_original_limit_bytes = 20 * mebibyte

abbrev pub post_original_limit_bytes : ℕ
post_original_limit_bytes = 50 * mebibyte

pub record OriginalMediaCandidate : Type 0 where
  pub declared_bytes : Option ℤ
  pub id : Text
  pub kind : NormalizedMediaKind
  pub position : JsNumber

pub data OriginalMediaItemDecision : Type 0 where
  eligible fallback skipped_kind_limit skipped_post_limit : OriginalMediaItemDecision

pub record OriginalMediaPlanItem : Type 0 where
  pub candidate : OriginalMediaCandidate
  pub open candidate use *
  pub decision : OriginalMediaItemDecision
  pub limit_bytes : Option ℕ

pub record OriginalMediaCachePlan : Type 0 where
  pub decision : OriginalMediaItemDecision
  pub items : List OriginalMediaPlanItem
  pub known_declared_bytes : ℕ
  pub reservation_bytes : ℕ

-- The four `TypeError`s of `assertCandidates`.
pub data PlanError : Type 0 where
  empty_id duplicate_id invalid_position negative_declared_bytes : PlanError

-- `originalLimit`.
unfoldable pub original_limit : NormalizedMediaKind → Option ℕ
original_limit photo = some photo_original_limit_bytes
original_limit animation = some animation_or_video_original_limit_bytes
original_limit video = some animation_or_video_original_limit_bytes
original_limit audio = none
original_limit document = none
original_limit voice = none

abbrev pub is_negative_bytes : Option ℤ → Bool
is_negative_bytes none = false
is_negative_bytes (some (pos n)) = false
is_negative_bytes (some (negsuc n)) = true

abbrev pub is_negative : JsNumber → Bool
is_negative (whole n) = false
is_negative (minus n) = true
is_negative (fraction neg n) = neg
is_negative not_finite = false

-- `assertCandidates`, with the ids met so far.
unfoldable pub assert_candidates :
    List Text → List OriginalMediaCandidate → Result PlanError (Unit {0})
assert_candidates ids [] = ok tt
assert_candidates ids (c ∷ cs) = do
  throw_if (length (trim c.id) == 0) empty_id
  throw_if (has ids c.id) duplicate_id
  throw_if (not (is_safe_integer c.position) || is_negative c.position) invalid_position
  throw_if (is_negative_bytes c.declared_bytes) negative_declared_bytes
  assert_candidates (c.id ∷ ids) cs

-- `declaredBytes !== null && declaredBytes > limit`.
abbrev pub exceeds : Option ℤ → ℕ → Bool
exceeds none limit = false
exceeds (some (pos n)) limit = ltb limit n
exceeds (some (negsuc n)) limit = false

abbrev pub decide_item : Option ℤ → Option ℕ → OriginalMediaItemDecision
decide_item declared none = fallback
decide_item declared (some limit) = if exceeds declared limit then skipped_kind_limit else eligible

-- The item of one candidate, before the limit of the post is looked at.
unfoldable pub plan_item : OriginalMediaCandidate → OriginalMediaPlanItem
plan_item c =
    let limit = original_limit c.kind in
    record { candidate = c; decision = decide_item c.declared_bytes limit; limit_bytes = limit }

abbrev pub is_eligible : OriginalMediaItemDecision → Bool
is_eligible eligible = true
is_eligible fallback = false
is_eligible skipped_kind_limit = false
is_eligible skipped_post_limit = false

-- A declared length after `assertCandidates`: it is not negative.
abbrev pub declared : Option ℤ → ℕ
declared none = 0
declared (some (pos n)) = n
declared (some (negsuc n)) = 0

abbrev pub limit_or_zero : Option ℕ → ℕ
limit_or_zero none = 0
limit_or_zero (some n) = n

-- The two `reduce` loops.
unfoldable pub add_known : ℕ → List OriginalMediaPlanItem → ℕ
add_known total [] = total
add_known total (i ∷ is) =
    add_known (if is_eligible i.decision then total + declared i.declared_bytes else total) is

unfoldable pub add_reserved : ℕ → List OriginalMediaPlanItem → ℕ
add_reserved total [] = total
add_reserved total (i ∷ is) =
    add_reserved (if is_eligible i.decision then total + limit_or_zero i.limit_bytes else total) is

unfoldable pub skip_item : OriginalMediaPlanItem → OriginalMediaPlanItem
skip_item i = if is_eligible i.decision then record i { decision = skipped_post_limit } else i

-- The plan over the sorted items.
unfoldable pub plan_items : List OriginalMediaPlanItem → OriginalMediaCachePlan
plan_items items =
    let known = add_known 0 items in
    let reserved = add_reserved 0 items in
    if ltb post_original_limit_bytes known
    then (record {
      decision = skipped_post_limit;
      items = map skip_item items;
      known_declared_bytes = known;
      reservation_bytes = 0;
    })
    else record {
      decision = eligible;
      items = items;
      known_declared_bytes = known;
      reservation_bytes =
          if ltb post_original_limit_bytes reserved then post_original_limit_bytes else reserved;
    }

-- `localeCompare` is the host's collation, a parameter.
module _ (locale_compare : Text → Text → Sign) where
  -- `left.position - right.position || left.id.localeCompare(right.id)`.
  unfoldable pub compare_items : OriginalMediaPlanItem → OriginalMediaPlanItem → Sign
  compare_items left right =
      or_else
        (if ltb (to_ℕ left.position) (to_ℕ right.position)
          then less
          else if ltb (to_ℕ right.position) (to_ℕ left.position)
          then more
          else same)
        (locale_compare left.id right.id)

  -- `planOriginalMediaCache`.
  unfoldable pub plan_original_media_cache :
      List OriginalMediaCandidate → Result PlanError OriginalMediaCachePlan
  plan_original_media_cache candidates = do
    assert_candidates [] candidates
    ok (plan_items (sort compare_items (map plan_item candidates)))

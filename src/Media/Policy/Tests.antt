-- ===== src/Media/Policy/Tests.antt =====
-- Plans for concrete posts, and the theorems at them.
use mathlib.Core.List.{Perm}
use koharu_suite.Prelude.{
  ℕ, ◌*◌, ◌+◌, ◌≡◌, refl, ◌↔◌, none, some, List, [], ◌∷◌, map, ok, err, ◌>>=◌, All,
}
use koharu_suite.Prelude.Texts.{Text, codes, trim}
use koharu_suite.Prelude.Numbers.{whole}
use koharu_suite.Prelude.Int.{pos}
use koharu_suite.Prelude.Sorting.{Sign, same, insert_before, sort, IsOrder}
use koharu_suite.Archive.Limits.{mebibyte}
use koharu_suite.Media.Policy.{
  NormalizedMediaKind, photo, video, audio, OriginalMediaCandidate, OriginalMediaCachePlan,
  OriginalMediaPlanItem, eligible, fallback, skipped_kind_limit, skipped_post_limit, duplicate_id,
  original_limit, assert_candidates, plan_item, add_known, add_reserved, skip_item, plan_items,
  compare_items, plan_original_media_cache,
}
use koharu_suite.Media.Policy.Budget.{IsWithinBudget, plan_original_media_cache-IsWithinBudget}
use koharu_suite.Media.Policy.Ordering.{AreInOrder}
use koharu_suite.Media.Policy.Selection.{
  IsValidCandidate, AreNew, plan_original_media_cache-items, plan_original_media_cache_iff,
}

running : Unit {0}
unfolding original_limit assert_candidates plan_item add_known add_reserved skip_item plan_items
    compare_items plan_original_media_cache insert_before sort trim ◌>>=◌
running = tt

-- A collation that tells no two texts apart.
abbrev blind : Text → Text → Sign
blind s t = same

blind-IsOrder : IsOrder blind
blind-IsOrder = record { total = λ x y h k. cc; transitive = λ x y z h k e. cc }

abbrev candidate : Text → NormalizedMediaKind → ℕ → ℕ → OriginalMediaCandidate
candidate id kind bytes position = record {
  declared_bytes = some (pos bytes);
  id = id;
  kind = kind;
  position = whole position;
}

abbrev post : List OriginalMediaCandidate
post =
    candidate (codes "b") video (3 * mebibyte) 1
    ∷ candidate (codes "a") photo (11 * mebibyte) 0
    ∷ candidate (codes "c") audio 5 2
    ∷ []

abbrev planned : OriginalMediaCachePlan
planned = record {
  decision = eligible;
  items =
      record {
        candidate = candidate (codes "a") photo (11 * mebibyte) 0;
        decision = skipped_kind_limit;
        limit_bytes = some (10 * mebibyte);
      }
      ∷ record {
        candidate = candidate (codes "b") video (3 * mebibyte) 1;
        decision = eligible;
        limit_bytes = some (20 * mebibyte);
      }
      ∷ record {
        candidate = candidate (codes "c") audio 5 2;
        decision = fallback;
        limit_bytes = none;
      }
      ∷ [];
  known_declared_bytes = 3 * mebibyte;
  reservation_bytes = 20 * mebibyte;
}

post-planned : plan_original_media_cache blind post ≡ ok planned
unfolding running
post-planned = refl

abbrev large : List OriginalMediaCandidate
large =
    candidate (codes "x") video (20 * mebibyte) 0
    ∷ candidate (codes "y") video (20 * mebibyte) 1
    ∷ candidate (codes "z") video (10 * mebibyte + 1) 2
    ∷ []

large_skipped :
    map (λ (i : OriginalMediaPlanItem). i.decision) (plan_items (map plan_item large)).items
    ≡ skipped_post_limit ∷ skipped_post_limit ∷ skipped_post_limit ∷ []
unfolding running
large_skipped = refl

duplicate_refused :
    plan_original_media_cache blind
      (candidate (codes "x") video 1 0 ∷ candidate (codes "x") photo 1 1 ∷ [])
    ≡ err duplicate_id
unfolding running
duplicate_refused = refl

plan_original_media_cache-IsWithinBudget_example : IsWithinBudget planned
plan_original_media_cache-IsWithinBudget_example =
    plan_original_media_cache-IsWithinBudget blind post planned post-planned

plan_original_media_cache-items_example :
    Perm (map (λ i. i.candidate) planned.items) post × AreInOrder blind planned.items
plan_original_media_cache-items_example =
    plan_original_media_cache-items blind blind-IsOrder post planned post-planned

plan_original_media_cache_iff_example :
    ((p : OriginalMediaCachePlan) × (plan_original_media_cache blind post ≡ ok p))
    ↔ (All IsValidCandidate post × AreNew [] post)
plan_original_media_cache_iff_example = plan_original_media_cache_iff blind post

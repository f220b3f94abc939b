-- ===== src/Media/Commands/Sound.antt =====
-- The constraints of the table on one row, under the updates of
-- apps/server/src/media-cache/command-queue.ts.
use koharu_suite.Prelude.{
  ℕ, ◌≡◌, Bool, true, Option, none, some, List, [], ◌∷◌, arith, All, Bool-cases, inl, inr,
}
use koharu_suite.Prelude.Texts.{Text}
use koharu_suite.Media.Commands.{Fields, CommandRow, is_pending, is_given}
use koharu_suite.Media.Commands.Checks.{is_sized, initiator_check, payload_checks, life_checks}
use koharu_suite.Media.Commands.Queue.{
  update_where, is_exhausted, exhaust, is_claimable, lease, is_held, renewed, completed, given_up,
}

-- No text of the payload is empty.
abbrev pub given_or_null : Option Text → Bool
given_or_null none = true
given_or_null (some t) = is_given (some t)

-- The table's constraints, and what the operations keep besides.
pub record IsSoundRow (r : CommandRow) : Type 0 where
  pub payload_checked : payload_checks r ≡ true
  pub initiator_checked : initiator_check r ≡ true
  pub object_given : given_or_null r.object_id ≡ true
  pub source_given : given_or_null r.source_backend_id ≡ true
  pub target_given : given_or_null r.target_backend_id ≡ true
  pub life_checked : life_checks r ≡ true
  pub unattempted : is_pending r.state ≡ true → r.attempt_count ≡ 0

abbrev pub AreSound : List CommandRow → Type 0
AreSound rows = All IsSoundRow rows

-- The life of a row after each of the updates.

exhaust-life :
    (now : ℕ) (r : CommandRow)
    → life_checks r ≡ true
    → is_exhausted now r ≡ true
    → life_checks (exhaust now r) ≡ true
exhaust-life now r h e = ground arith

lease-life :
    (now : ℕ) (owner : Text) (token : ℕ) (r : CommandRow)
    → life_checks r ≡ true
    → (is_pending r.state ≡ true → r.attempt_count ≡ 0)
    → is_claimable now r ≡ true
    → is_sized 255 owner ≡ true
    → life_checks (lease now owner token r) ≡ true
lease-life now owner token r h f e o = ground arith

module _ (id token now : ℕ) (r : CommandRow) (life : life_checks r ≡ true)
    (held : is_held id token r ≡ true) where
  renewed-life : life_checks (renewed now r) ≡ true
  renewed-life = ground arith

  completed-life : (result : Fields) → life_checks (completed now result r) ≡ true
  completed-life result = ground arith

  given_up-life : (code : Text) → life_checks (given_up now code r) ≡ true
  given_up-life code = ground arith

-- A row whose payload and attempts an update leaves alone, or that it leases.
module _ (id token now : ℕ) (r : CommandRow) (s : IsSoundRow r) where
  pub exhaust-IsSoundRow : is_exhausted now r ≡ true → IsSoundRow (exhaust now r)
  exhaust-IsSoundRow e = record {
    payload_checked = s.payload_checked;
    initiator_checked = s.initiator_checked;
    object_given = s.object_given;
    source_given = s.source_given;
    target_given = s.target_given;
    life_checked = exhaust-life now r s.life_checked e;
    unattempted = λ h. absurd (cc);
  }

  pub lease-IsSoundRow :
      (owner : Text)
      → is_sized 255 owner ≡ true
      → is_claimable now r ≡ true
      → IsSoundRow (lease now owner token r)
  lease-IsSoundRow owner o e = record {
    payload_checked = s.payload_checked;
    initiator_checked = s.initiator_checked;
    object_given = s.object_given;
    source_given = s.source_given;
    target_given = s.target_given;
    life_checked = lease-life now owner token r s.life_checked s.unattempted e o;
    unattempted = λ h. absurd (cc);
  }

  pub renewed-IsSoundRow : is_held id token r ≡ true → IsSoundRow (renewed now r)
  renewed-IsSoundRow held = record {
    payload_checked = s.payload_checked;
    initiator_checked = s.initiator_checked;
    object_given = s.object_given;
    source_given = s.source_given;
    target_given = s.target_given;
    life_checked = renewed-life id token now r s.life_checked held;
    unattempted = s.unattempted;
  }

  pub completed-IsSoundRow :
      (result : Fields) → is_held id token r ≡ true → IsSoundRow (completed now result r)
  completed-IsSoundRow result held = record {
    payload_checked = s.payload_checked;
    initiator_checked = s.initiator_checked;
    object_given = s.object_given;
    source_given = s.source_given;
    target_given = s.target_given;
    life_checked = completed-life id token now r s.life_checked held result;
    unattempted = λ h. absurd (cc);
  }

  pub given_up-IsSoundRow :
      (code : Text) → is_held id token r ≡ true → IsSoundRow (given_up now code r)
  given_up-IsSoundRow code held = record {
    payload_checked = s.payload_checked;
    initiator_checked = s.initiator_checked;
    object_given = s.object_given;
    source_given = s.source_given;
    target_given = s.target_given;
    life_checked = given_up-life id token now r s.life_checked held code;
    unattempted = λ h. absurd (cc);
  }

pub update_where-All {κ} :
    (P : CommandRow → Type κ) (p : CommandRow → Bool) (f : CommandRow → CommandRow)
    (rows : List CommandRow)
    → ((r : CommandRow) → P r → p r ≡ true → P (f r))
    → All P rows
    → All P (update_where p f rows)
update_where-All P p f [] step h = tt
update_where-All P p f (r ∷ rs) step (h, hs) = elim (Bool-cases (p r)) [
  | inl yes' ↦ rw yes' (step r h yes', update_where-All P p f rs step hs)
  | inr no' ↦ rw no' (h, update_where-All P p f rs step hs)
]

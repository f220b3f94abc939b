-- ===== src/Media/Commands/Entered.antt =====
-- The rows that `enqueue` of apps/server/src/media-cache/command-queue.ts enters, and the
-- constraints of the table.
use koharu_suite.Prelude.{
  ℕ, ◌≡◌, refl, subst, Bool, true, false, ◌||◌, Option, none, some, List, [], ◌∷◌, arith, ltb, ◌==◌,
  ok, length, All-append, Bool-cases, unchain, unthrow, ok-injective, inl, inr,
}
use koharu_suite.Prelude.Texts.{Text, trim}
use koharu_suite.Media.Commands.{
  Operation, evict, migrate, prune, reconcile, restore, InitiatorKind, local_operator,
  owner_session, worker, CommandRow,
}
use koharu_suite.Media.Commands.Payload.{
  RawId, absent, text, no_text, RawBytes, RawKind, local_kind, owner_kind, other_kind, Payload,
  payload, normalize_initiator_kind, normalize_optional_id, payload_of, normalize_command_payload,
  worker_misused, check_target,
}
use koharu_suite.Media.Commands.Checks.{target_check, is_sized}
use koharu_suite.Media.Commands.Sized.{initiator_sized}
use koharu_suite.Media.Commands.Queue.{CommandInput, new_row, enqueue}
use koharu_suite.Media.Commands.Sound.{given_or_null, IsSoundRow, AreSound}

not_empty-given :
    (t : Text) (n : ℕ)
    → ((length t == 0) || ltb n (length t)) ≡ false
    → given_or_null (some t) ≡ true
not_empty-given [] n h = absurd (cc)
not_empty-given (c ∷ t) n h = refl

normalized-given :
    (raw : RawId) (n : ℕ) (o : Option Text)
    → normalize_optional_id raw n ≡ ok o
    → given_or_null o ≡ true
unfolding normalize_optional_id
normalized-given absent n o h = subst (λ x. given_or_null x ≡ true) (ok-injective h) refl
normalized-given no_text n o h = absurd (cc)
normalized-given (text value) n o h =
    elim (Bool-cases ((length (trim value) == 0) || ltb n (length (trim value)))) [
      | inl bad ↦ absurd (cc (rw bad at h))
      | inr good ↦
          subst (λ x. given_or_null x ≡ true) (ok-injective (rw good at h))
            (not_empty-given (trim value) n good)
    ]

payload_of_sound :
    (operation : Operation) (object source target : Option Text) (bytes : RawBytes) (p : Payload)
    → payload_of operation object source target bytes ≡ ok p
    → target_check operation p.object_id p.source_backend_id p.target_backend_id p.target_bytes
      ≡ true
payload_of_sound evict object source target bytes p h = ground arith
payload_of_sound migrate object source target bytes p h = ground arith
payload_of_sound prune object source target bytes p h = ground arith
payload_of_sound reconcile object source target bytes p h = ground arith
payload_of_sound restore object source target bytes p h = ground arith

-- The three texts of a payload are given where they are there.
abbrev AreGiven : Payload → Type 0
AreGiven p =
    (given_or_null p.object_id ≡ true)
    × (given_or_null p.source_backend_id ≡ true)
    × (given_or_null p.target_backend_id ≡ true)

check_target-AreGiven :
    (b : Bool) (q p : Payload) → AreGiven q → check_target b q ≡ ok p → AreGiven p
check_target-AreGiven true q p g h = absurd (cc)
check_target-AreGiven false q p g h = subst AreGiven (ok-injective h) g

payload_of-AreGiven :
    (operation : Operation) (object source target : Option Text) (bytes : RawBytes) (p : Payload)
    → AreGiven (payload object source target none)
    → payload_of operation object source target bytes ≡ ok p
    → AreGiven p
payload_of-AreGiven evict object source target bytes p (o, s, t) h =
    check_target-AreGiven _ _ p (o, refl, refl) h
payload_of-AreGiven migrate object source target bytes p (o, s, t) h =
    check_target-AreGiven _ _ p (o, s, t) h
payload_of-AreGiven prune object source target bytes p (o, s, t) h =
    check_target-AreGiven _ _ p (refl, refl, t) h
payload_of-AreGiven reconcile object source target bytes p (o, s, t) h =
    check_target-AreGiven _ _ p (refl, refl, refl) h
payload_of-AreGiven restore object source target bytes p (o, s, t) h =
    check_target-AreGiven _ _ p (o, refl, t) h

pub new_row-IsSoundRow :
    (id now : ℕ) (operation : Operation) (kind : InitiatorKind) (initiator reason : Text)
    (p : Payload)
    → target_check operation p.object_id p.source_backend_id p.target_backend_id p.target_bytes
      ≡ true
    → worker_misused kind operation ≡ false
    → AreGiven p
    → is_sized 255 initiator ≡ true
    → is_sized 500 reason ≡ true
    → IsSoundRow (new_row id now operation kind initiator reason p)
new_row-IsSoundRow id now operation kind initiator reason p target kinds (o, s, t) long_id
      long_reason =
    record {
      payload_checked = rw (target, kinds) refl;
      initiator_checked = rw (long_id, long_reason) refl;
      object_given = o;
      source_given = s;
      target_given = t;
      life_checked = refl;
      unattempted = λ h. refl;
    }

not_worker :
    (raw : RawKind) (kind : InitiatorKind) (operation : Operation)
    → normalize_initiator_kind raw ≡ ok kind
    → worker_misused kind operation ≡ false
unfolding normalize_initiator_kind
not_worker raw local_operator operation h = refl
not_worker raw owner_session operation h = refl
not_worker absent worker operation h = absurd (cc)
not_worker local_kind worker operation h = absurd (cc)
not_worker owner_kind worker operation h = absurd (cc)
not_worker other_kind worker operation h = absurd (cc)

pub enqueue-AreSound :
    (id now : ℕ) (input : CommandInput) (rows after : List CommandRow)
    → AreSound rows
    → enqueue id now input rows ≡ ok after
    → AreSound after
unfolding enqueue normalize_command_payload
enqueue-AreSound id now input rows after s h = unchain _ _ h λ kind kinds h1.
    unthrow _ _ _ h1 λ texts h2. unchain _ _ h2 λ p normalized h3.
      let (who, why) = initiator_sized input.initiator_id input.reason texts in
      unchain _ _ normalized λ object o n1. unchain _ _ n1 λ source b n2.
        unchain _ _ n2 λ target t n3. subst AreSound (ok-injective h3) (
          All-append IsSoundRow rows _ s (
            new_row-IsSoundRow id now input.operation kind _ _ p
                (payload_of_sound input.operation object source target input.target_bytes p n3)
                (not_worker input.initiator_kind kind input.operation kinds)
                (payload_of-AreGiven input.operation object source target input.target_bytes p
                  (
                    normalized-given input.object_id 255 object o,
                    normalized-given input.source_backend_id 64 source b,
                    normalized-given input.target_backend_id 64 target t,
                  )
                  n3)
                who why,
            tt,
          ))

-- ===== src/Media/Commands/Claiming.antt =====
-- The tables that apps/server/src/media-cache/command-queue.ts can reach, and `claim` on them.
use koharu_suite.Prelude.{
  or_true, ℕ, ◌≡◌, refl, sym, ap, ◌∙◌, subst, Bool, true, false, not, ◌&&◌, ◌||◌, Option, none,
  some, List, [], ◌∷◌, arith, ltb, ◌==◌, ◌⊎◌, Result, ok, ◌>>=◌, length, any, keep, All, All-keep,
  Bool-cases, &&-true, not-true, ==_refl, some-injective, inl, inr, Option-cases,
}
use koharu_suite.Prelude.Texts.{Text, trim}
use koharu_suite.Prelude.Int.{ℤ}
use koharu_suite.Media.Commands.{
  Operation, evict, migrate, prune, reconcile, restore, CommandRow, ClaimedCommand, CommandError,
  is_given, is_null,
}
use koharu_suite.Media.Commands.Payload.{worker_misused, payload_refused, hydrate_claimed_command}
use koharu_suite.Media.Commands.Checks.{target_check}
use koharu_suite.Media.Commands.Queue.{
  is_earlier, update_where, is_claimable, first_row, lease, has_id, claim_candidate, claim, is_held,
}
use koharu_suite.Media.Commands.Sound.{given_or_null, IsSoundRow, AreSound}
use koharu_suite.Media.Commands.Inversion.{expired, candidates, first_row-All}
use koharu_suite.Media.Commands.Choosing.{
  IsOpen, IsChosen, candidates-expired, unlisted, none-IsOpen, first-IsChosen,
}
use koharu_suite.Media.Commands.History.{Steps}
use koharu_suite.Media.Commands.Kept.{exhausted-AreSound, IsSoundTable, Steps-IsSoundTable}
use koharu_suite.Media.Commands.History.{AnyToken}

empty-IsSoundTable : IsSoundTable []
empty-IsSoundTable = record { sound = tt; unique = tt }

-- In every table that operations of the queue can make of the empty one, each row meets the table's
-- CHECK constraints on targets, initiators, attempts, leases and ends; a pending row has no attempts,
-- no text of a payload is empty, and no two rows have the same id. It is given that a row is entered
-- under an id that the table does not hold, as the primary key enforces.
pub reachable-IsSoundTable : (rows : List CommandRow) → Steps AnyToken [] rows → IsSoundTable rows
reachable-IsSoundTable rows steps = Steps-IsSoundTable AnyToken [] rows steps empty-IsSoundTable

given-not_null : (o : Option Text) → given_or_null o ≡ true → is_given o ≡ not (is_null o)
given-not_null none h = refl
given-not_null (some t) h = h

-- The constraints on a payload are those that a claim tests.
module _ (object source target : Option Text) (bytes : Option ℤ) where
  refused-where_given :
      (o : Operation)
      → is_given object ≡ not (is_null object)
      → is_given source ≡ not (is_null source)
      → is_given target ≡ not (is_null target)
      → target_check o object source target bytes ≡ true
      → payload_refused o object source target bytes ≡ false
  refused-where_given evict a b c h = ground arith
  refused-where_given migrate a b c h = ground arith
  refused-where_given prune a b c h = ground arith
  refused-where_given reconcile a b c h = ground arith
  refused-where_given restore a b c h = ground arith

pub hydrates :
    (r : CommandRow) (token : ℕ)
    → IsSoundRow r
    → (c : ClaimedCommand) × (hydrate_claimed_command r token ≡ ok c)
      × (c.id ≡ r.id)
      × (c.token ≡ token)
unfolding hydrate_claimed_command ◌>>=◌
hydrates r token s =
    let (target, kind) =
      &&-true
        (target_check r.operation r.object_id r.source_backend_id r.target_backend_id
          r.target_bytes)
        (not (worker_misused r.initiator_kind r.operation)) s.payload_checked in
    let accepted =
      refused-where_given r.object_id r.source_backend_id r.target_backend_id r.target_bytes
        r.operation (given-not_null _ s.object_given) (given-not_null _ s.source_given)
        (given-not_null _ s.target_given) target in
    let kinds = not-true (worker_misused r.initiator_kind r.operation) kind in
    rw (kinds, accepted) (_, refl, refl, refl)

any-keep :
    (f p : CommandRow → Bool) (rows : List CommandRow)
    → any (keep f rows) p ≡ true
    → any rows p ≡ true
any-keep f p [] h = h
any-keep f p (r ∷ rows) h = elim (Bool-cases (p r)) [
  | inl yes' ↦ rw yes' refl
  | inr no' ↦ rw no' (
      any-keep f p rows (elim (Bool-cases (f r)) [
        | inl kept ↦ rw (kept, no') at h
        | inr dropped ↦ rw dropped at h
      ]))
]

first_row-any :
    (rows : List CommandRow) (r : CommandRow)
    → first_row rows ≡ some r
    → any rows (has_id r.id) ≡ true
unfolding first_row
first_row-any [] r e = absurd (cc)
first_row-any (q ∷ rows) r e =
    let first = λ (same : q ≡ r).
      subst (λ x. any (q ∷ rows) (has_id x.id) ≡ true) same (rw (==_refl q.id) refl) in
    elim (Option-cases (first_row rows)) [
      | inl none' ↦ first (some-injective (rw (none', first_row) at e))
      | inr (s, found) ↦ elim (Bool-cases (is_earlier s q)) [
        | inl lower ↦
            or_true (q.id == r.id)
              (first_row-any rows r (found ∙ (rw (found, lower, first_row) at e)))
        | inr higher ↦ first (some-injective (rw (found, higher, first_row) at e))
      ]
    ]

leased-held :
    (now : ℕ) (owner : Text) (token id : ℕ) (r : CommandRow)
    → (r.id == id) ≡ true
    → is_held id token (lease now owner token r) ≡ true
leased-held now owner token id r same = rw (same, ==_refl token) refl

any_leased :
    (now : ℕ) (owner : Text) (token id : ℕ) (rows : List CommandRow)
    → any rows (has_id id) ≡ true
    → any (update_where (has_id id) (lease now owner token) rows) (is_held id token) ≡ true
any_leased now owner token id [] h = h
any_leased now owner token id (r ∷ rows) h = elim (Bool-cases (r.id == id)) [
  | inl same ↦ rw same (
      ap (λ b. b || any (update_where (has_id id) (lease now owner token) rows) (is_held id token))
        (leased-held now owner token id r same))
  | inr other ↦
      rw other (or_true (is_held id token r) (any_leased now owner token id rows (rw other at h)))
]

-- A claim that returns a command: the row it chose of the table before, under a new token, held in
-- the table it leaves.
pub record IsLeased (locked : ℕ → Bool) (now token : ℕ) (rows : List CommandRow)
    (claimed : Result CommandError (Option ClaimedCommand × List CommandRow)) : Type 0 where
  pub command : ClaimedCommand
  pub after : List CommandRow
  pub returned : claimed ≡ ok (some command, after)
  pub row : CommandRow
  pub chosen : IsChosen locked now rows row
  pub same_id : command.id ≡ row.id
  pub same_token : command.token ≡ token
  pub held : any after (is_held command.id command.token) ≡ true

-- A claim that finds no open row, or that leases the first one to the owner.
abbrev pub IsClaimed :
    (ℕ → Bool)
    → ℕ
    → ℕ
    → List CommandRow
    → Result CommandError (Option ClaimedCommand × List CommandRow)
    → Type 0
IsClaimed locked now token rows claimed =
    All (λ q. ¬ (IsOpen locked now q)) rows × (claimed ≡ ok (none, expired now rows))
    ⊎ IsLeased locked now token rows claimed

selected-IsClaimed :
    (locked : ℕ → Bool) (now : ℕ) (owner : Text) (token : ℕ) (rows : List CommandRow)
    → AreSound (expired now rows)
    → (o : Option CommandRow) → first_row (candidates locked now (expired now rows)) ≡ o
    → IsClaimed locked now token rows (claim_candidate now owner token (expired now rows) o)
unfolding ◌>>=◌
selected-IsClaimed locked now owner token rows s none e =
    inl
      (none-IsOpen locked now rows (sym (candidates-expired locked now rows) ∙ unlisted _ e), refl)
selected-IsClaimed locked now owner token rows s (some r) e =
    let (c, hydrated, id, tok) =
      hydrates r token
        (first_row-All (λ q. IsSoundRow q × ((is_claimable now q && not (locked q.id)) ≡ true))
          (candidates locked now (expired now rows)) r
          (All-keep IsSoundRow (λ q. is_claimable now q && not (locked q.id)) (expired now rows) s)
          e).0 in
    inr (record {
      command = c;
      after = update_where (has_id r.id) (lease now owner token) (expired now rows);
      returned = rw hydrated refl;
      row = r;
      chosen =
          first-IsChosen locked now rows r
            (ap first_row (sym (candidates-expired locked now rows)) ∙ e);
      same_id = id;
      same_token = tok;
      held =
          rw (id, tok)
            (any_leased now owner token r.id (expired now rows)
              (any-keep _ (has_id r.id) (expired now rows) (first_row-any _ r e)));
    })

-- In every table that the queue can make of the empty one, a claim whose lease owner has from 1 to
-- 255 characters succeeds. Where no row that is not locked is pending, or running with a lapsed lease
-- and fewer than a hundred attempts, it returns nothing and only expires what is exhausted. Otherwise
-- it returns the command of such a row, with none created before it, or at the same time under a
-- lower id, and the command holds its lease in the table it leaves.
pub claim-IsClaimed :
    (locked : ℕ → Bool) (now : ℕ) (owner : Text) (token : ℕ) (rows : List CommandRow)
    → Steps AnyToken [] rows
    → ((length (trim owner) == 0) || ltb 255 (length (trim owner))) ≡ false
    → IsClaimed locked now token rows (claim locked now owner token rows)
unfolding claim ◌>>=◌
claim-IsClaimed locked now owner token rows steps named =
    rw (named, claim)
      (selected-IsClaimed locked now (trim owner) token rows
        (exhausted-AreSound now rows (reachable-IsSoundTable rows steps).sound) _ refl)

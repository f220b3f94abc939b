-- ===== src/Media/Commands/Inversion.antt =====
-- What the operations of apps/server/src/media-cache/command-queue.ts do to the rows where they succeed.
use koharu_suite.Prelude.{
  ℕ, ◌≡◌, refl, sym, ap, ◌∙◌, subst, Bool, true, false, not, ◌&&◌, ◌||◌, Option, none, some, List,
  [], ◌∷◌, ◌++◌, arith, ◌==◌, ||-false, some-injective, ◌⊎◌, ok, length, ltb, any, keep, All,
  Bool-cases, unchain, unthrow, ok-injective, inl, inr, Option-cases,
}
use koharu_suite.Prelude.Texts.{Text, text_eq, trim, codes}
use koharu_suite.Media.Commands.{InitiatorKind, CommandRow, ClaimedCommand}
use koharu_suite.Media.Commands.Payload.{Payload, hydrate_claimed_command}
use koharu_suite.Media.Commands.Queue.{
  CommandInput, recent_restore, active_restore, is_earlier, new_row, enqueue,
  enqueue_recache_on_access, recache_row, update_where, is_exhausted, exhaust, is_claimable,
  first_row, lease, has_id, claim_candidate, claim,
}

-- A row that was entered is pending, and stands behind the others.
pub enqueue-cases :
    (id now : ℕ) (input : CommandInput) (rows after : List CommandRow)
    → enqueue id now input rows ≡ ok after
    → (kind : InitiatorKind) × (p : Payload) × (after
        ≡ rows
          ++ new_row id now input.operation kind (trim input.initiator_id) (trim input.reason) p
            ∷ [])
unfolding enqueue
enqueue-cases id now input rows after h = unchain _ _ h λ kind kinds h1.
    unthrow _ _ _ h1 λ texts h2. unchain _ _ h2 λ p normalized h3. (kind, p, sym (ok-injective h3))

-- A restore on access changes nothing, or adds a pending row.
abbrev pub Recached : ℕ → ℕ → Text → List CommandRow → List CommandRow → Type 0
Recached id now object rows after =
    (after ≡ rows)
    ⊎ ((length object == 0) ≡ false) × (after ≡ rows ++ recache_row id now object ∷ [])

pub recache-cases :
    (eligible : Text → Text → Bool) (id now : ℕ) (object backend : Text) (rows : List CommandRow)
    → Recached id now
        (trim object)
        rows
        (enqueue_recache_on_access eligible id now object backend rows).1
unfolding enqueue_recache_on_access
recache-cases eligible id now object backend rows =
    elim (Bool-cases (
      (length (trim object) == 0)
      || (length (trim backend) == 0)
      || text_eq (trim backend) (codes "local"))) [
        | inl bad ↦ rw (bad, enqueue_recache_on_access) (inl refl)
        | inr good ↦
            elim (Bool-cases (
              not (
                eligible (trim object) (trim backend)
                && not (any rows (recent_restore now (trim object)))))) [
                  | inl not_eligible ↦ rw (good, not_eligible, enqueue_recache_on_access) (inl refl)
                  | inr is_eligible ↦ elim (Bool-cases (any rows (active_restore (trim object)))) [
                    | inl active ↦
                        rw (good, is_eligible, active, enqueue_recache_on_access) (inl refl)
                    | inr free ↦
                        rw (good, is_eligible, free, enqueue_recache_on_access)
                          (inr ((||-false _ _ (||-false _ _ good).0).0, refl))
                  ]
                ]
      ]

-- A claim expires what is exhausted, and leases the candidate if there is one.
abbrev pub expired : ℕ → List CommandRow → List CommandRow
expired now rows = update_where (is_exhausted now) (exhaust now) rows

abbrev pub candidates : (ℕ → Bool) → ℕ → List CommandRow → List CommandRow
candidates locked now rows = keep (λ r. is_claimable now r && not (locked r.id)) rows

pub record IsLeasing (locked : ℕ → Bool) (now : ℕ) (owner : Text) (token : ℕ)
    (current : List CommandRow) (command : Option ClaimedCommand) (after : List CommandRow)
    : Type 0 where
  pub row : CommandRow
  pub chosen : first_row (candidates locked now current) ≡ some row
  pub claimed : ClaimedCommand
  pub returned : command ≡ some claimed
  pub hydrated : hydrate_claimed_command row token ≡ ok claimed
  pub leased : after ≡ update_where (has_id row.id) (lease now owner token) current

candidate-cases :
    (locked : ℕ → Bool) (now : ℕ) (owner : Text) (token : ℕ) (current : List CommandRow)
    (o : Option CommandRow) (command : Option ClaimedCommand) (after : List CommandRow)
    → first_row (candidates locked now current) ≡ o
    → claim_candidate now owner token current o ≡ ok (command, after)
    → ((command ≡ none) × (after ≡ current))
      ⊎ IsLeasing locked now owner token current command after
candidate-cases locked now owner token current none command after e h =
    let s = ok-injective h in inl (ap (λ x. x.0) (sym s), ap (λ x. x.1) (sym s))
candidate-cases locked now owner token current (some r) command after e h =
    unchain _ _ h λ claimed hydrated h1.
      let s = ok-injective h1 in
      inr (record {
        row = r;
        chosen = e;
        claimed = claimed;
        returned = ap (λ x. x.0) (sym s);
        hydrated = hydrated;
        leased = ap (λ x. x.1) (sym s);
      })

pub claim-cases :
    (locked : ℕ → Bool) (now : ℕ) (owner : Text) (token : ℕ) (rows : List CommandRow)
    (command : Option ClaimedCommand) (after : List CommandRow)
    → claim locked now owner token rows ≡ ok (command, after)
    → ((command ≡ none) × (after ≡ expired now rows))
      ⊎ IsLeasing locked now (trim owner) token (expired now rows) command after
unfolding claim
claim-cases locked now owner token rows command after h = unthrow _ _ _ h λ named h1.
    candidate-cases locked now (trim owner) token (expired now rows) _ command after refl h1

-- A claim that succeeds has named its lease owner in bounds.
pub claim-named :
    (locked : ℕ → Bool) (now : ℕ) (owner : Text) (token : ℕ) (rows : List CommandRow)
    (command : Option ClaimedCommand) (after : List CommandRow)
    → claim locked now owner token rows ≡ ok (command, after)
    → ((length (trim owner) == 0) || ltb 255 (length (trim owner))) ≡ false
unfolding claim
claim-named locked now owner token rows command after h = unthrow _ _ _ h λ named h1. named

-- What holds of all rows holds of the first.
pub first_row-All {κ} :
    (P : CommandRow → Type κ) (rows : List CommandRow) (r : CommandRow)
    → All P rows
    → first_row rows ≡ some r
    → P r
unfolding first_row
first_row-All P [] r h e = absurd (cc)
first_row-All P (q ∷ rows) r (h, hs) e = elim (Option-cases (first_row rows)) [
  | inl none' ↦ subst P (some-injective (rw (none', first_row) at e)) h
  | inr (s, found) ↦ elim (Bool-cases (is_earlier s q)) [
    | inl lower ↦
        subst P (some-injective (rw (found, lower, first_row) at e))
          (first_row-All P rows s hs found)
    | inr higher ↦ subst P (some-injective (rw (found, higher, first_row) at e)) h
  ]
]

-- Every row has its own id.
abbrev pub AreUnique : List CommandRow → Type 0
AreUnique [] = Unit {0}
AreUnique (r ∷ rows) = (any rows (has_id r.id) ≡ false) × AreUnique rows

-- An update that keeps ids.
module _ (p : CommandRow → Bool) (f : CommandRow → CommandRow)
    (same : (r : CommandRow) → (f r).id ≡ r.id) where
  any-update_where :
      (id : ℕ) (rows : List CommandRow)
      → any (update_where p f rows) (has_id id) ≡ any rows (has_id id)
  any-update_where id [] = refl
  any-update_where id (r ∷ rows) = elim (Bool-cases (p r)) [
    | inl yes' ↦ rw yes' (λ i. (same r i == id) || any-update_where id rows i)
    | inr no' ↦ rw no' (ap (λ b. (r.id == id) || b) (any-update_where id rows))
  ]

  pub update_where-AreUnique :
      (rows : List CommandRow) → AreUnique rows → AreUnique (update_where p f rows)
  update_where-AreUnique [] h = tt
  update_where-AreUnique (r ∷ rows) (h, hs) = elim (Bool-cases (p r)) [
    | inl yes' ↦ rw yes' (
      any-update_where (f r).id rows ∙ ap (λ i. any rows (has_id i)) (same r) ∙ h,
      update_where-AreUnique rows hs,
    )
    | inr no' ↦ rw no' (any-update_where r.id rows ∙ h, update_where-AreUnique rows hs)
  ]

flipped : (a b : ℕ) → (a == b) ≡ false → (b == a) ≡ false
flipped a b h = ground arith

any-append_row :
    (id : ℕ) (rows : List CommandRow) (r : CommandRow)
    → any rows (has_id id) ≡ false
    → (r.id == id) ≡ false
    → any (rows ++ r ∷ []) (has_id id) ≡ false
any-append_row id [] r h e = ground arith
any-append_row id (q ∷ rows) r h e =
    let (first, rest) = ||-false (q.id == id) (any rows (has_id id)) h in
    rw first (any-append_row id rows r rest e)

pub append_row-AreUnique :
    (rows : List CommandRow) (r : CommandRow)
    → AreUnique rows
    → any rows (has_id r.id) ≡ false
    → AreUnique (rows ++ r ∷ [])
append_row-AreUnique [] r h fresh = (refl, tt)
append_row-AreUnique (q ∷ rows) r (h, hs) fresh =
    let (first, rest) = ||-false (q.id == r.id) (any rows (has_id r.id)) fresh in
    (any-append_row q.id rows r h (flipped q.id r.id first), append_row-AreUnique rows r hs rest)

-- The rows with the id of a given row are that row.
abbrev pub IsOnly : List CommandRow → CommandRow → Type 0
IsOnly rows r = All (λ q. has_id r.id q ≡ true → q ≡ r) rows

none_with :
    (rows : List CommandRow) (r : CommandRow) → any rows (has_id r.id) ≡ false → IsOnly rows r
none_with [] r h = tt
none_with (q ∷ rows) r h =
    let (first, rest) = ||-false (q.id == r.id) (any rows (has_id r.id)) h in
    (λ e. absurd (ground (arith, e, first)), none_with rows r rest)

also-IsOnly :
    (rest : List CommandRow) (q : CommandRow)
    → (rows : List CommandRow) → any rest (has_id q.id) ≡ false
    → All (IsOnly rows) rest
    → All (IsOnly (q ∷ rows)) rest
also-IsOnly [] q rows h k = tt
also-IsOnly (r ∷ rest) q rows h (k, ks) =
    let (first, others) = ||-false (r.id == q.id) (any rest (has_id q.id)) h in
    ((λ e. absurd (ground (arith, e, first)), k), also-IsOnly rest q rows others ks)

pub AreUnique-IsOnly : (rows : List CommandRow) → AreUnique rows → All (IsOnly rows) rows
AreUnique-IsOnly [] h = tt
AreUnique-IsOnly (q ∷ rows) (h, hs) =
    ((λ e. refl, none_with rows q h), also-IsOnly rows q rows h (AreUnique-IsOnly rows hs))

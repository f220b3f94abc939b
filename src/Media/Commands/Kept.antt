-- ===== src/Media/Commands/Kept.antt =====
-- The constraints of the table under each operation of
-- apps/server/src/media-cache/command-queue.ts.
use koharu_suite.Prelude.{
  ℕ, ◌≡◌, refl, sym, subst, Bool, true, false, not, ◌&&◌, Option, none, some, List, [], ◌∷◌, ◌==◌,
  ok, length, any, All, All-append, All-map, All-keep, All-both, Bool-cases, &&-true, unthrow,
  ok-injective, inl, inr,
}
use koharu_suite.Prelude.Texts.{Text, trim, codes}
use koharu_suite.Media.Commands.{restore, worker, CommandRow, ClaimedCommand}
use koharu_suite.Media.Commands.Payload.{payload}
use koharu_suite.Media.Commands.Checks.{is_sized}
use koharu_suite.Media.Commands.Sized.{is_sized-trim}
use koharu_suite.Media.Commands.Queue.{
  CommandInput, enqueue, enqueue_recache_on_access, update_where, is_exhausted, exhaust,
  is_claimable, first_row, lease, has_id, claim, is_held, update_held, renewed, renew, completed,
  succeed, given_up, fail,
}
use koharu_suite.Media.Commands.Sound.{
  given_or_null, IsSoundRow, AreSound, update_where-All, exhaust-IsSoundRow, lease-IsSoundRow,
  renewed-IsSoundRow, completed-IsSoundRow, given_up-IsSoundRow,
}
use koharu_suite.Media.Commands.Entered.{new_row-IsSoundRow, enqueue-AreSound}
use koharu_suite.Media.Commands.Inversion.{
  enqueue-cases, recache-cases, expired, candidates, claim-cases, claim-named, first_row-All,
  AreUnique, update_where-AreUnique, append_row-AreUnique, IsOnly, AreUnique-IsOnly,
}
use koharu_suite.Media.Commands.History.{
  Step, enqueues, recaches, claims, renews, succeeds, fails, Steps, here, next,
}

given-of_length : (t : Text) → (length t == 0) ≡ false → given_or_null (some t) ≡ true
given-of_length [] h = absurd (cc)
given-of_length (c ∷ t) h = refl

recache_id_sized : is_sized 255 (codes "media-recache-scheduler") ≡ true
unfolding is_sized
recache_id_sized = refl

recache_reason_sized :
    is_sized 500 (codes "Restore local hot copy after durable public read") ≡ true
unfolding is_sized
recache_reason_sized = refl

recache-AreSound :
    (eligible : Text → Text → Bool) (id now : ℕ) (object backend : Text) (rows : List CommandRow)
    → AreSound rows
    → AreSound (enqueue_recache_on_access eligible id now object backend rows).1
recache-AreSound eligible id now object backend rows s =
    elim (recache-cases eligible id now object backend rows) [
      | inl unchanged ↦ subst AreSound (sym unchanged) s
      | inr (named, added) ↦ subst AreSound (sym added) (
          All-append IsSoundRow rows _ s (
            new_row-IsSoundRow id now restore worker _ _
                (payload (some (trim object)) none (some (codes "local")) none) refl refl
                (given-of_length (trim object) named, refl, refl) recache_id_sized
                recache_reason_sized,
            tt,
          ))
    ]

pub exhausted-AreSound :
    (now : ℕ) (rows : List CommandRow)
    → AreSound rows
    → AreSound (update_where (is_exhausted now) (exhaust now) rows)
exhausted-AreSound now rows s =
    update_where-All IsSoundRow _ _ rows (λ r. exhaust-IsSoundRow 0 0 now r) s

module _ (c : ClaimedCommand) (f : CommandRow → CommandRow) where
  update_held-AreSound :
      (rows after : List CommandRow)
      → ((r : CommandRow) → IsSoundRow r → is_held c.id c.token r ≡ true → IsSoundRow (f r))
      → AreSound rows
      → update_held c f rows ≡ ok after
      → AreSound after
  update_held-AreSound rows after step s h = unthrow _ _ _ h λ held h1.
      subst AreSound (ok-injective h1)
        (update_where-All IsSoundRow (is_held c.id c.token) f rows step s)

-- An update of the rows of which a condition on the update's test is known.
update_where-All_where :
    (P C : CommandRow → Type 0) (p : CommandRow → Bool) (f : CommandRow → CommandRow)
    (rows : List CommandRow)
    → ((r : CommandRow) → P r → C r → P (f r))
    → All (λ r. P r × (p r ≡ true → C r)) rows
    → All P (update_where p f rows)
update_where-All_where P C p f [] step h = tt
update_where-All_where P C p f (r ∷ rows) step ((h, c), hs) = elim (Bool-cases (p r)) [
  | inl yes' ↦ rw yes' (step r h (c yes'), update_where-All_where P C p f rows step hs)
  | inr no' ↦ rw no' (h, update_where-All_where P C p f rows step hs)
]

-- The candidate is claimable, and the only row of its id.
pub chosen-claimable :
    (locked : ℕ → Bool) (now : ℕ) (current : List CommandRow) (r : CommandRow)
    → AreUnique current
    → first_row (candidates locked now current) ≡ some r
    → IsOnly current r × (is_claimable now r ≡ true)
chosen-claimable locked now current r unique chosen =
    let (only, test) =
      first_row-All (λ q. IsOnly current q × ((is_claimable now q && not (locked q.id)) ≡ true))
        (candidates locked now current) r
        (All-keep (IsOnly current) (λ q. is_claimable now q && not (locked q.id)) current
          (AreUnique-IsOnly current unique))
        chosen in
    (only, (&&-true (is_claimable now r) (not (locked r.id)) test).0)

leased-AreSound :
    (now : ℕ) (owner : Text) (token : ℕ) (current : List CommandRow) (r : CommandRow)
    → AreSound current
    → IsOnly current r
    → is_claimable now r ≡ true
    → is_sized 255 owner ≡ true
    → AreSound (update_where (has_id r.id) (lease now owner token) current)
leased-AreSound now owner token current r sound only claimable named =
    update_where-All_where IsSoundRow (λ q. is_claimable now q ≡ true) (has_id r.id)
      (lease now owner token) current (λ q h c. lease-IsSoundRow 0 token now q h owner named c)
      (All-both IsSoundRow _ current sound (
        All-map (λ q. has_id r.id q ≡ true → q ≡ r) _
          (λ q same e. subst (λ x. is_claimable now x ≡ true) (sym (same e)) claimable) current
          only))

pub expired-AreUnique :
    (now : ℕ) (rows : List CommandRow) → AreUnique rows → AreUnique (expired now rows)
expired-AreUnique now rows =
    update_where-AreUnique (is_exhausted now) (exhaust now) (λ r. refl) rows

-- The rows of a table as the queue leaves it.
pub record IsSoundTable (rows : List CommandRow) : Type 0 where
  pub sound : AreSound rows
  pub unique : AreUnique rows

claimed-IsSoundTable :
    (locked : ℕ → Bool) (now : ℕ) (owner : Text) (token : ℕ) (rows : List CommandRow)
    (command : Option ClaimedCommand) (after : List CommandRow)
    → IsSoundTable rows
    → claim locked now owner token rows ≡ ok (command, after)
    → IsSoundTable after
claimed-IsSoundTable locked now owner token rows command after t h =
    let unique = expired-AreUnique now rows t.unique in
    let sound = exhausted-AreSound now rows t.sound in
    elim (claim-cases locked now owner token rows command after h) [
      | inl (idle, same) ↦ subst IsSoundTable (sym same) (record { sound = sound; unique = unique })
      | inr l ↦
          let (only, claimable) =
            chosen-claimable locked now (expired now rows) l.row unique l.chosen in
          subst IsSoundTable (sym l.leased) (record {
            sound =
                leased-AreSound now (trim owner) token (expired now rows) l.row sound only claimable
                  (is_sized-trim 255 owner
                    (claim-named locked now owner token rows command after h));
            unique = update_where-AreUnique (has_id l.row.id) _ (λ r. refl) _ unique;
          })
    ]

held-IsSoundTable :
    (c : ClaimedCommand) (f : CommandRow → CommandRow) (rows after : List CommandRow)
    → ((r : CommandRow) → IsSoundRow r → is_held c.id c.token r ≡ true → IsSoundRow (f r))
    → ((r : CommandRow) → (f r).id ≡ r.id)
    → IsSoundTable rows
    → update_held c f rows ≡ ok after
    → IsSoundTable after
held-IsSoundTable c f rows after step same t h = unthrow _ _ _ h λ held h1. record {
  sound = update_held-AreSound c f rows after step t.sound h;
  unique =
      subst AreUnique (ok-injective h1)
        (update_where-AreUnique (is_held c.id c.token) f same rows t.unique);
}

entered-IsSoundTable :
    (id now : ℕ) (input : CommandInput) (rows after : List CommandRow)
    → any rows (has_id id) ≡ false
    → enqueue id now input rows ≡ ok after
    → IsSoundTable rows
    → IsSoundTable after
entered-IsSoundTable id now input rows after fresh h t =
    let (kind, p, e) = enqueue-cases id now input rows after h in
    record {
      sound = enqueue-AreSound id now input rows after t.sound h;
      unique = subst AreUnique (sym e) (append_row-AreUnique rows _ t.unique fresh);
    }

recached-IsSoundTable :
    (eligible : Text → Text → Bool) (id now : ℕ) (object backend : Text) (rows : List CommandRow)
    → any rows (has_id id) ≡ false
    → IsSoundTable rows
    → IsSoundTable (enqueue_recache_on_access eligible id now object backend rows).1
recached-IsSoundTable eligible id now object backend rows fresh t = record {
  sound = recache-AreSound eligible id now object backend rows t.sound;
  unique = elim (recache-cases eligible id now object backend rows) [
    | inl unchanged ↦ subst AreUnique (sym unchanged) t.unique
    | inr (named, added) ↦ subst AreUnique (sym added) (append_row-AreUnique rows _ t.unique fresh)
  ];
}

module _ (Drawn : ℕ → Type 0) where
  pub Step-IsSoundTable :
      (rows after : List CommandRow)
      → Step Drawn rows after
      → IsSoundTable rows
      → IsSoundTable after
  unfolding renew succeed fail
  Step-IsSoundTable rows last (enqueues id now input after fresh h) t =
      entered-IsSoundTable id now input rows after fresh h t
  Step-IsSoundTable rows last (recaches eligible id now object backend fresh) t =
      recached-IsSoundTable eligible id now object backend rows fresh t
  Step-IsSoundTable rows last (claims locked now owner token command after drawn h) t =
      claimed-IsSoundTable locked now owner token rows command after t h
  Step-IsSoundTable rows last (renews now c after h) t =
      held-IsSoundTable c (renewed now) rows after
        (λ r s held. renewed-IsSoundRow c.id c.token now r s held) (λ r. refl) t h
  Step-IsSoundTable rows last (succeeds now c result after h) t =
      held-IsSoundTable c (completed now result) rows after
        (λ r s held. completed-IsSoundRow c.id c.token now r s result held) (λ r. refl) t h
  Step-IsSoundTable rows last (fails now c code after h) t =
      held-IsSoundTable c (given_up now code) rows after
        (λ r s held. given_up-IsSoundRow c.id c.token now r s code held) (λ r. refl) t h

  pub Steps-IsSoundTable :
      (rows after : List CommandRow)
      → Steps Drawn rows after
      → IsSoundTable rows
      → IsSoundTable after
  Steps-IsSoundTable rows last here t = t
  Steps-IsSoundTable rows last (next steps step) t =
      Step-IsSoundTable _ last step (Steps-IsSoundTable rows _ steps t)

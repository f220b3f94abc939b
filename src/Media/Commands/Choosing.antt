-- ===== src/Media/Commands/Choosing.antt =====
-- Which row `claim` of apps/server/src/media-cache/command-queue.ts may take, in words of the table,
-- and which one it takes.
use mathlib.Core.List.{Mem}
use koharu_suite.Prelude.{
  ℕ, ◌≤◌, ◌<◌, ◌≡◌, refl, sym, ◌⊎◌, subst, Bool, true, false, not, ◌&&◌, ◌||◌, Option, none, some,
  List, [], ◌∷◌, arith, leb, ltb, ltb→lt, lt→ltb, leb→le, le→leb_true, if◌then◌else◌, keep, All,
  All-map, All-keep, All-of_keep, All-Mem, Bool-cases, Option-cases, some-injective, &&-true,
  not-true, inl, inr,
}
use koharu_suite.Media.Commands.{
  CommandState, failed, pending, running, succeeded, CommandRow, is_pending, is_running,
}
use koharu_suite.Media.Commands.Queue.{
  max_attempts, is_exhausted, lapsed, is_claimable, is_earlier, first_row,
}
use koharu_suite.Media.Commands.Inversion.{expired, candidates, first_row-All}

-- A row that no other transaction has locked, and that is pending, or running with a lapsed lease
-- and fewer than a hundred attempts.
pub record IsOpen (locked : ℕ → Bool) (now : ℕ) (r : CommandRow) : Type 0 where
  pub unlocked : locked r.id ≡ false
  pub waiting :
      (r.state ≡ pending)
      ⊎ (r.state ≡ running)
        × ((expires : ℕ) × (r.lease_expires_at ≡ some expires) × (expires ≤ now))
        × (r.attempt_count < 100)

-- A row was created before another, or at the same time with an id that is not greater.
abbrev pub IsNoLater : CommandRow → CommandRow → Type 0
IsNoLater r q = (r.created_at < q.created_at) ⊎ (r.created_at ≡ q.created_at) × (r.id ≤ q.id)

-- The row that a claim takes: it is in the table and open, and no open row comes before it.
pub record IsChosen (locked : ℕ → Bool) (now : ℕ) (rows : List CommandRow) (r : CommandRow)
    : Type 0 where
  pub listed : Mem r rows
  pub open_row : IsOpen locked now r
  pub least : All (λ q. IsOpen locked now q → IsNoLater r q) rows

waiting_of_test :
    (now : ℕ) (state : CommandState) (lease : Option ℕ) (attempts : ℕ)
    → (is_pending state || (is_running state && lapsed now lease && ltb attempts max_attempts))
      ≡ true
    → (state ≡ pending)
      ⊎ (state ≡ running)
        × ((expires : ℕ) × (lease ≡ some expires) × (expires ≤ now))
        × (attempts < 100)
waiting_of_test now pending lease attempts h = inl refl
waiting_of_test now running none attempts h = absurd (cc)
waiting_of_test now running (some e) attempts h =
    let (over, few) = &&-true (leb e now) (ltb attempts max_attempts) h in
    inr (refl, (e, refl, leb→le e now over), ltb→lt attempts max_attempts few)
waiting_of_test now failed lease attempts h = absurd (cc)
waiting_of_test now succeeded lease attempts h = absurd (cc)

module _ (locked : ℕ → Bool) (now : ℕ) (r : CommandRow) where
  IsOpen-of_test : (is_claimable now r && not (locked r.id)) ≡ true → IsOpen locked now r
  IsOpen-of_test h =
      let (claimable, free) = &&-true _ _ h in
      record {
        unlocked = not-true (locked r.id) free;
        waiting = waiting_of_test now r.state r.lease_expires_at r.attempt_count claimable;
      }

  test_of_IsOpen : IsOpen locked now r → (is_claimable now r && not (locked r.id)) ≡ true
  test_of_IsOpen o = elim o.waiting [
    | inl p ↦ rw (p, o.unlocked) refl
    | inr (s, (expires, e, lapsed'), few) ↦
        rw (s, e, o.unlocked, le→leb_true expires now lapsed', lt→ltb r.attempt_count 100 few) refl
  ]

-- What is exhausted was not claimable.
exhausted-not :
    (now : ℕ) (r : CommandRow) (free : Bool)
    → is_exhausted now r ≡ true
    → (is_claimable now r && free) ≡ false
exhausted-not now r free h = ground arith

pub candidates-expired :
    (locked : ℕ → Bool) (now : ℕ) (rows : List CommandRow)
    → candidates locked now (expired now rows) ≡ candidates locked now rows
candidates-expired locked now [] = refl
candidates-expired locked now (r ∷ rows) = elim (Bool-cases (is_exhausted now r)) [
  | inl yes' ↦
      rw (yes', exhausted-not now r (not (locked r.id)) yes') (candidates-expired locked now rows)
  | inr no' ↦ rw no' (
      subst
        (λ rest.
          keep (λ q. is_claimable now q && not (locked q.id)) (r ∷ expired now rows)
          ≡ (if is_claimable now r && not (locked r.id) then r ∷ rest else rest))
        (candidates-expired locked now rows) refl)
]

earlier-IsNoLater : (s q : CommandRow) → is_earlier s q ≡ true → IsNoLater s q
earlier-IsNoLater s q h = ground arith

not_earlier-IsNoLater : (s q : CommandRow) → is_earlier s q ≡ false → IsNoLater q s
not_earlier-IsNoLater s q h = ground arith

IsNoLater-trans : (r s q : CommandRow) → IsNoLater r s → IsNoLater s q → IsNoLater r q
IsNoLater-trans r s q h k = ground arith

pub unlisted : (rows : List CommandRow) → first_row rows ≡ none → rows ≡ []
unfolding first_row
unlisted [] h = refl
unlisted (r ∷ rows) h = elim (Option-cases (first_row rows)) [
  | inl none' ↦ absurd (cc (rw (none', first_row) at h))
  | inr (s, found) ↦ absurd (cc (rw (found, first_row) at h))
]

first_row-IsNoLater :
    (rows : List CommandRow) (r : CommandRow) → first_row rows ≡ some r → All (IsNoLater r) rows
unfolding first_row
first_row-IsNoLater [] r e = absurd (cc)
first_row-IsNoLater (q ∷ rows) r e = elim (Option-cases (first_row rows)) [
  | inl none' ↦
      subst (λ x. All (IsNoLater x) (q ∷ rows)) (some-injective (rw (none', first_row) at e))
        (inr (refl, omega arith), subst (All _) (sym (unlisted rows none')) tt)
  | inr (s, found) ↦
      let least = first_row-IsNoLater rows s found in
      elim (Bool-cases (is_earlier s q)) [
        | inl lower ↦
            subst (λ x. All (IsNoLater x) (q ∷ rows))
              (some-injective (rw (found, lower, first_row) at e))
              (earlier-IsNoLater s q lower, least)
        | inr higher ↦
            subst (λ x. All (IsNoLater x) (q ∷ rows))
              (some-injective (rw (found, higher, first_row) at e))
              (
                inr (refl, omega arith),
                All-map _ _ (λ v. IsNoLater-trans q s v (not_earlier-IsNoLater s q higher)) rows
                    least,
              )
      ]
]

-- Where no candidate is found, no row is open.
pub none-IsOpen :
    (locked : ℕ → Bool) (now : ℕ) (rows : List CommandRow)
    → candidates locked now rows ≡ []
    → All (λ q. ¬ (IsOpen locked now q)) rows
none-IsOpen locked now rows h =
    All-map _ _ (λ q no' o. absurd (cc (no' (test_of_IsOpen locked now q o)))) rows
      (All-of_keep (λ q. false ≡ true) (λ q. is_claimable now q && not (locked q.id)) rows
        (subst (All (λ q. false ≡ true)) (sym h) tt))

pub first-IsChosen :
    (locked : ℕ → Bool) (now : ℕ) (rows : List CommandRow) (r : CommandRow)
    → first_row (candidates locked now rows) ≡ some r
    → IsChosen locked now rows r
first-IsChosen locked now rows r e =
    let test = λ (q : CommandRow). is_claimable now q && not (locked q.id) in
    let (member, passed) =
      first_row-All (λ q. Mem q rows × (test q ≡ true)) (candidates locked now rows) r
        (All-keep (λ q. Mem q rows) test rows (All-Mem rows)) e in
    record {
      listed = member;
      open_row = IsOpen-of_test locked now r passed;
      least =
          All-map _ _ (λ q le o. le (test_of_IsOpen locked now q o)) rows
            (All-of_keep (IsNoLater r) test rows
              (first_row-IsNoLater (candidates locked now rows) r e));
    }

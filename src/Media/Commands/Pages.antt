-- ===== src/Media/Commands/Pages.antt =====
-- The loop of `reconcile` of apps/server/src/media-cache/command-queue.ts: its pages and its
-- cursors.
use koharu_suite.Prelude.{
  ℕ, zero, suc, ◌+◌, ◌≤◌, ◌<◌, ◌≡◌, refl, sym, ap, subst, Bool, true, false, Option, none, some,
  arith, inl, inr, Result, ok, err, length, Bool-cases, Result-cases, ltb→ge,
}
use koharu_suite.Prelude.Texts.{Text, Distinct, Fresh-of_has}
use koharu_suite.Media.Commands.{ClaimedCommand, is_null}
use koharu_suite.Media.Commands.Runs.{Thrown, Run, raise_if, ◌>>=◌, ◌>>◌}
use koharu_suite.Media.Commands.Processor.{
  Services, ReconcileState, ReconcilePage, given_cursor, is_seen, add_seen, first_state,
}
use koharu_suite.Media.Commands.Dispatch.{page_limit, next_state, reconcile_step, reconcile_pages}

-- Inversion of a run that gave a value.
pub unrun {κ} :
    {S A B : Type 0} {C : Type κ} (m : Run S A) (f : A → Run S B) (s : S) {b : B}
    → ((m >>= f) s).0 ≡ ok b
    → ((a : A) → (m s).0 ≡ ok a → (f a (m s).1).0 ≡ ok b → C)
    → C
unfolding ◌>>=◌
unrun m f s h k = elim (Result-cases (m s).0) [
  | inl (a, e) ↦ k a e (rw e at h)
  | inr (x, e) ↦ absurd (cc (rw e at h))
]

pub unraise {κ} :
    {S B : Type 0} {C : Type κ} (t : Bool) (x : Thrown) (k : Run S B) (s : S) {b : B}
    → ((raise_if t x >> k) s).0 ≡ ok b
    → (t ≡ false → (k s).0 ≡ ok b → C)
    → C
unfolding ◌>>=◌
unraise true x k s h g = absurd (cc)
unraise false x k s h g = g refl h

result-injective : {A : Type 0} {a b : A} → ◌≡◌ {A = Result Thrown A} (ok a) (ok b) → a ≡ b
result-injective h = cc

-- What a page adds to what the loop carries.
record IsNext (st next : ReconcileState) : Type 0 where
  pub within : next.pages ≤ page_limit
  pub counted : next.pages ≡ st.pages + 1
  pub page : ReconcilePage
  pub is_next : next ≡ next_state st page
  pub unseen : is_seen st.seen (given_cursor page.next_cursor) ≡ false

-- The states of the loop: the cursors seen are distinct, one for each page so far.
pub record IsPaged (st : ReconcileState) : Type 0 where
  pub limited : st.pages ≤ page_limit
  pub distinct : Distinct st.seen
  pub one_each : length st.seen ≡ st.pages

module _ {S : Type 0} (v : Services S) (c : ClaimedCommand) where
  step-IsNext :
      (st next : ReconcileState) (s : S) → (reconcile_step v c st s).0 ≡ ok next → IsNext st next
  unfolding reconcile_step
  step-IsNext st next s h = unraise _ _ _ s h λ within h1. unrun _ _ s h1 λ unit going h2.
      unrun _ _ _ h2 λ unit' renewed h3. unrun _ _ _ h3 λ kind external h4.
        unrun _ _ _ h4 λ page paged h5. unraise _ _ _ _ h5 λ unseen h6.
          let e = sym (result-injective h6) in
          record {
            within =
                subst (λ n. n.pages ≤ page_limit) (sym e) (ltb→ge page_limit (st.pages + 1) within);
            counted = ap (λ n. n.pages) e;
            page = page;
            is_next = e;
            unseen = unseen;
          }

-- The last state: its page named no further cursor.
pub record IsLast (st : ReconcileState) : Type 0 where
  pub limited : st.pages ≤ page_limit
  pub distinct : Distinct st.seen
  pub one_each : length st.seen + 1 ≡ st.pages

module _ (st : ReconcileState) (page : ReconcilePage) (paged : IsPaged st)
    (within : st.pages + 1 ≤ page_limit) where
  after-IsPaged :
      (o : Option Text)
      → o ≡ given_cursor page.next_cursor
      → is_seen st.seen o ≡ false
      → is_null o ≡ false
      → IsPaged (next_state st page)
  after-IsPaged none e unseen h = absurd (cc)
  after-IsPaged (some cursor) e unseen h = record {
    limited = within;
    distinct =
        subst (λ x. Distinct (add_seen x st.seen)) e
          (Fresh-of_has cursor st.seen unseen, paged.distinct);
    one_each =
        subst (λ x. length (add_seen x st.seen) ≡ st.pages + 1) e (omega (arith, paged.one_each));
  }

  after-IsLast :
      (o : Option Text)
      → o ≡ given_cursor page.next_cursor
      → is_null o ≡ true
      → IsLast (next_state st page)
  after-IsLast (some cursor) e h = absurd (cc)
  after-IsLast none e h = record {
    limited = within;
    distinct = subst (λ x. Distinct (add_seen x st.seen)) e paged.distinct;
    one_each =
        subst (λ x. length (add_seen x st.seen) + 1 ≡ st.pages + 1) e
          (ap (λ n. n + 1) paged.one_each);
  }

-- A run that throws, or that ends in a last state.
abbrev pub IsEnd : Result Thrown (Option ReconcileState) → Type 0
IsEnd (err e) = Unit
IsEnd (ok none) = ⊥
IsEnd (ok (some st)) = IsLast st

module _ {S : Type 0} (v : Services S) (c : ClaimedCommand) where
  reconcile_pages-IsEnd :
      (fuel : ℕ) (st : ReconcileState) (s : S)
      → IsPaged st
      → page_limit < st.pages + fuel
      → IsEnd (reconcile_pages v fuel c st s).0
  unfolding reconcile_pages ◌>>=◌
  reconcile_pages-IsEnd zero st s paged enough = absurd (ground (arith, paged.limited))
  reconcile_pages-IsEnd (suc fuel) st s paged enough =
      elim (Result-cases (reconcile_step v c st s).0) [
        | inr (e, h) ↦ rw h tt
        | inl (next, h) ↦
            let n = step-IsNext v c st next s h in
            let within = subst (λ k. k ≤ page_limit) n.counted n.within in
            let same = ap (λ x. x.cursor) n.is_next in
            rw h (elim (Bool-cases (is_null next.cursor)) [
              | inl last' ↦ rw last' (
                  subst IsLast (sym n.is_next)
                    (after-IsLast st n.page paged within next.cursor same last'))
              | inr more ↦ rw more (
                  reconcile_pages-IsEnd fuel next _
                    (subst IsPaged (sym n.is_next) (
                      after-IsPaged st n.page paged within next.cursor same
                        (subst (λ x. is_seen st.seen x ≡ false) (sym same) n.unseen) more))
                    (ground (arith, n.counted, enough)))
            ])
      ]

  -- Whatever pages the maintenance service answers with, and whatever it does to the state, the loop
  -- of `reconcile` ends for every fuel above 10,000: it throws, or it ends after at most 10,000 pages
  -- whose cursors were all different, one for each page but the last.
  pub reconcile_pages-ends :
      (fuel : ℕ) (s : S) → page_limit < fuel → IsEnd (reconcile_pages v fuel c first_state s).0
  reconcile_pages-ends fuel s enough =
      reconcile_pages-IsEnd fuel first_state s
        (record { limited = omega arith; distinct = tt; one_each = refl }) (ground arith)

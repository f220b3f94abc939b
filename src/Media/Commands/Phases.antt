-- ===== src/Media/Commands/Phases.antt =====
-- The life of a command of apps/server/src/media-cache/command-queue.ts, as an abstract
-- specification.
use koharu_suite.Prelude.{
  ℕ, ◌+◌, ◌<◌, ◌≡◌, refl, sym, ◌∙◌, subst, Bool, true, not, ◌||◌, List, [], ◌∷◌, ◌++◌, arith, All,
  Bool-cases, inl, inr,
}
use koharu_suite.Media.Commands.{
  CommandState, failed, pending, running, succeeded, CommandRow, is_running, is_pending,
}
use koharu_suite.Media.Commands.Queue.{update_where, is_exhausted, is_held}

-- A command waits, is tried at most a hundred times, and is then done or dropped.
pub data Phase : Type 0 where
  waiting : Phase
  leased : ℕ → Phase
  done : Phase
  dropped : Phase

pub data Reaches (p : Phase) : Phase → Type 0 where
  still : Reaches p p
  starts : Reaches p waiting → Reaches p (leased 1)
  restarts : (n : ℕ) → n < 100 → Reaches p (leased n) → Reaches p (leased (n + 1))
  completes : (n : ℕ) → Reaches p (leased n) → Reaches p done
  drops : (n : ℕ) → Reaches p (leased n) → Reaches p dropped

Reaches-trans : {p q r : Phase} → Reaches p q → Reaches q r → Reaches p r
Reaches-trans h still = h
Reaches-trans h (starts k) = starts (Reaches-trans h k)
Reaches-trans h (restarts n b k) = restarts n b (Reaches-trans h k)
Reaches-trans h (completes n k) = completes n (Reaches-trans h k)
Reaches-trans h (drops n k) = drops n (Reaches-trans h k)

abbrev pub phase_of : CommandState → ℕ → Phase
phase_of pending n = waiting
phase_of running n = leased n
phase_of succeeded n = done
phase_of failed n = dropped

abbrev pub phase : CommandRow → Phase
phase r = phase_of r.state r.attempt_count

abbrev pub is_over : CommandState → Bool
is_over s = not (is_pending s || is_running s)

-- A row after another: a finished row is the same in every column.
pub record Follows (r s : CommandRow) : Type 0 where
  pub reached : Reaches (phase r) (phase s)
  pub same_row : s.id ≡ r.id
  pub unchanged : is_over r.state ≡ true → s ≡ r

pub Follows-refl : (r : CommandRow) → Follows r r
Follows-refl r = record { reached = still; same_row = refl; unchanged = λ h. refl }

pub Follows-trans : (r s t : CommandRow) → Follows r s → Follows s t → Follows r t
Follows-trans r s t f g = record {
  reached = Reaches-trans f.reached g.reached;
  same_row = g.same_row ∙ f.same_row;
  unchanged =
      λ h. let e = f.unchanged h in g.unchanged (subst (λ x. is_over x.state ≡ true) (sym e) h) ∙ e;
}

-- The rows follow those before them in their places, and the new ones began as waiting.
abbrev pub Evolves : List CommandRow → List CommandRow → Type 0
Evolves [] [] = Unit
Evolves [] (s ∷ after) = Reaches waiting (phase s) × Evolves [] after
Evolves (r ∷ rows) [] = ⊥
Evolves (r ∷ rows) (s ∷ after) = Follows r s × Evolves rows after

pub Evolves-refl : (rows : List CommandRow) → Evolves rows rows
Evolves-refl [] = tt
Evolves-refl (r ∷ rows) = (Follows-refl r, Evolves-refl rows)

pub Evolves-trans :
    (rows between after : List CommandRow)
    → Evolves rows between
    → Evolves between after
    → Evolves rows after
Evolves-trans [] [] after f g = g
Evolves-trans [] (s ∷ between) [] f g = absurd g
Evolves-trans [] (s ∷ between) (t ∷ after) (f, fs) (g, gs) =
    (Reaches-trans f g.reached, Evolves-trans [] between after fs gs)
Evolves-trans (r ∷ rows) [] after f g = absurd f
Evolves-trans (r ∷ rows) (s ∷ between) [] f g = absurd g
Evolves-trans (r ∷ rows) (s ∷ between) (t ∷ after) (f, fs) (g, gs) =
    (Follows-trans r s t f g, Evolves-trans rows between after fs gs)

pub append_row-Evolves :
    (rows : List CommandRow) (r : CommandRow) → r.state ≡ pending → Evolves rows (rows ++ r ∷ [])
append_row-Evolves [] r h =
    (subst (λ s. Reaches waiting (phase_of s r.attempt_count)) (sym h) still, tt)
append_row-Evolves (q ∷ rows) r h = (Follows-refl q, append_row-Evolves rows r h)

pub update_where-Evolves :
    (p : CommandRow → Bool) (f : CommandRow → CommandRow) (rows : List CommandRow)
    → All (λ r. p r ≡ true → Follows r (f r)) rows
    → Evolves rows (update_where p f rows)
update_where-Evolves p f [] h = tt
update_where-Evolves p f (r ∷ rows) (h, hs) = elim (Bool-cases (p r)) [
  | inl yes' ↦ rw yes' (h yes', update_where-Evolves p f rows hs)
  | inr no' ↦ rw no' (Follows-refl r, update_where-Evolves p f rows hs)
]

-- Each update follows the row it changes.

pub is_running-state : (s : CommandState) → is_running s ≡ true → s ≡ running
is_running-state failed h = absurd (cc)
is_running-state pending h = absurd (cc)
is_running-state running h = refl
is_running-state succeeded h = absurd (cc)

pub held-running :
    (id token : ℕ) (r : CommandRow) → is_held id token r ≡ true → is_running r.state ≡ true
held-running id token r h = ground arith

pub exhausted-running :
    (now : ℕ) (r : CommandRow) → is_exhausted now r ≡ true → is_running r.state ≡ true
exhausted-running now r h = ground arith

module _ (r s : CommandRow) (same : s.id ≡ r.id) where
  pub running-Follows :
      is_running r.state ≡ true → Reaches (leased r.attempt_count) (phase s) → Follows r s
  running-Follows h reached = record {
    reached =
        subst (λ x. Reaches (phase_of x r.attempt_count) (phase s))
          (sym (is_running-state r.state h)) reached;
    same_row = same;
    unchanged = λ over. absurd (ground arith);
  }

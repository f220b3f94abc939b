-- ===== src/Media/Commands/Runs.antt =====
-- Code that runs on a state and may throw: the state reached goes on, whether it throws or not.
use koharu_suite.Prelude.{Bool, true, false, Result, ok, err}
use koharu_suite.Prelude.Texts.{Text}

-- A value that is thrown: whether it is a DOMException, whether it is an Error, and its name and
-- message.
pub record Thrown : Type 0 where
  pub is_dom_exception : Bool
  pub is_error : Bool
  pub name : Text
  pub message : Text

abbrev pub Run : Type 0 → Type 0 → Type 0
Run S A = S → Result Thrown A × S

abbrev pub done : {S A : Type 0} → A → Run S A
done a s = (ok a, s)

abbrev pub raise : {S A : Type 0} → Thrown → Run S A
raise e s = (err e, s)

abbrev pub go_on : {S A B : Type 0} → (A → Run S B) → Result Thrown A → S → Result Thrown B × S
go_on f (ok a) s = f a s
go_on f (err e) s = (err e, s)

infixl 5 ◌>>=◌ ◌>>◌
unfoldable pub ◌>>=◌ : {S A B : Type 0} → Run S A → (A → Run S B) → Run S B
(m >>= f) s = go_on f (m s).0 (m s).1

abbrev pub ◌>>◌ : {S B : Type 0} → Run S (Unit {0}) → Run S B → Run S B
m >> k = m >>= λ _. k

abbrev pub raise_if : {S : Type 0} → Bool → Thrown → Run S (Unit {0})
raise_if true e = raise e
raise_if false e = done tt

-- `try`: what was thrown as a value.
abbrev pub attempt : {S A : Type 0} → Run S A → Run S (Result Thrown A)
attempt m s = (ok (m s).0, (m s).1)

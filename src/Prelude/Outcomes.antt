-- ===== src/Prelude/Outcomes.antt =====
-- The result of a method that changes an object: the state is kept also when it raises.
use mathlib.Core.Option.{Option, none, some}
use mathlib.Core.Path.{◌≡◌, refl}
use mathlib.Core.Logic.{◌⊎◌, inl, inr}

pub data Outcome (E S A : Type 0) : Type 0 where
  done : S → A → Outcome E S A
  raised : S → E → Outcome E S A

module _ {E S A : Type 0} where
  -- The state that a call leaves, on every path.
  abbrev pub after : Outcome E S A → S
  after (done s a) = s
  after (raised s e) = s

  -- A check that raises first, or lets the rest run.
  abbrev pub unless_error : Option E → S → Outcome E S A → Outcome E S A
  unless_error none s rest = rest
  unless_error (some e) s rest = raised s e

  -- A call whose value and state go on to the rest.
  abbrev pub and_then : {B : Type 0} → Outcome E S A → (S → A → Outcome E S B) → Outcome E S B
  and_then (done s a) f = f s a
  and_then (raised s e) f = raised s e

pub Outcome-cases :
    {E S A : Type 0} (o : Outcome E S A)
    → ((s : S) × (a : A) × (o ≡ done s a)) ⊎ ((s : S) × (e : E) × (o ≡ raised s e))
Outcome-cases (done s a) = inl (s, a, refl)
Outcome-cases (raised s e) = inr (s, e, refl)

-- ===== src/Effect/Kept.antt =====
-- What holds of the state that a run reaches if it ends normally; of other ends nothing is said.
use fdcpp.Base.{Bool, true, false, if◌then◌else◌}
use fdcpp.Effect.{Error, Run, Cmd, ok, throw, fault, out_of_fuel, and_then, catch}
use fdcpp.Effect.Ends.{Ends, returns, throws}

abbrev pub Kept : {S A : Type 0} → (S → Type 0) → Run S A → Type 0
Kept K (ok a s) = K s
Kept K (throw e s) = Unit
Kept K fault = Unit
Kept K out_of_fuel = Unit

module _ {S : Type 0} (K : S → Type 0) where
  pub Kept-bind :
      {A B : Type 0} (r : Run S A) (k : A → Cmd S B)
      → Kept K r
      → ((a : A) (s : S) → K s → Kept K (k a s))
      → Kept K (and_then r k)
  Kept-bind (ok a s) k p next = next a s p
  Kept-bind (throw e s) k p next = tt
  Kept-bind fault k p next = tt
  Kept-bind out_of_fuel k p next = tt

  pub Kept-throw :
      {A : Type 0} (B : Type 0) (r : Run S A) (e : Error)
      → Kept K (and_then {B = B} r (λ _. throw e))
  Kept-throw B (ok a s) e = tt
  Kept-throw B (throw f s) e = tt
  Kept-throw B fault e = tt
  Kept-throw B out_of_fuel e = tt

  -- A run that ends, with both.
  pub Ends-Kept :
      {A : Type 0} {P : A → S → Type 0} {E : Error → S → Type 0} {r : Run S A}
      → Ends P E r
      → Kept K r
      → Ends (λ a s. P a s × K s) E r
  Ends-Kept (returns p) k = returns (p, k)
  Ends-Kept (throws p) k = throws p

-- What holds of the state that a run reaches, by an exception too.
abbrev pub Keeps : {S A : Type 0} → (S → Type 0) → Run S A → Type 0
Keeps K (ok a s) = K s
Keeps K (throw e s) = K s
Keeps K fault = Unit
Keeps K out_of_fuel = Unit

module _ {S : Type 0} (K : S → Type 0) where
  pub Keeps-bind :
      {A B : Type 0} (r : Run S A) (k : A → Cmd S B)
      → Keeps K r
      → ((a : A) (s : S) → K s → Keeps K (k a s))
      → Keeps K (and_then r k)
  Keeps-bind (ok a s) k p next = next a s p
  Keeps-bind (throw e s) k p next = p
  Keeps-bind fault k p next = tt
  Keeps-bind out_of_fuel k p next = tt

  -- A command behind a run whose results are known.
  pub Keeps-after :
      {A B : Type 0} {P : A → S → Type 0} {E : Error → S → Type 0} {r : Run S A} (k : A → Cmd S B)
      → Ends P E r
      → Keeps K r
      → ((a : A) (s : S) → P a s → K s → Keeps K (k a s))
      → Keeps K (and_then r k)
  Keeps-after k (returns p) h next = next _ _ p h
  Keeps-after k (throws p) h next = h

  pub Keeps-handle :
      {A : Type 0} (r : Run S A) (k : Error → Cmd S A)
      → Keeps K r
      → ((e : Error) (s : S) → K s → Keeps K (k e s))
      → Keeps K (catch r k)
  Keeps-handle (ok a s) k p next = p
  Keeps-handle (throw e s) k p next = next e s p
  Keeps-handle fault k p next = tt
  Keeps-handle out_of_fuel k p next = tt

  -- A guard whose failure is undefined behaviour.
  pub Keeps-guarded :
      {A : Type 0} (b : Bool) (r : Run S A) → Keeps K r → Keeps K (if b then r else fault)
  Keeps-guarded true r p = p
  Keeps-guarded false r p = tt

  pub Ends-Keeps :
      {A : Type 0} {P : A → S → Type 0} {E : Error → S → Type 0} {r : Run S A}
      → Ends P E r
      → Keeps K r
      → Ends (λ a s. P a s × K s) (λ e s. E e s × K s) r
  Ends-Keeps (returns p) k = returns (p, k)
  Ends-Keeps (throws p) k = throws (p, k)

-- ===== src/Effect/Quiet.antt =====
-- Runs that do not end by an exception.
use fdcpp.Base.{Bool, true, false, if◌then◌else◌}
use fdcpp.Effect.{Error, Run, Cmd, ok, throw, fault, out_of_fuel, and_then, catch}
use fdcpp.Effect.Ends.{Ends, returns, throws}

abbrev pub Quiet : {S A : Type 0} → Run S A → Type 0
Quiet (ok a s) = Unit
Quiet (throw e s) = ⊥
Quiet fault = Unit
Quiet out_of_fuel = Unit

-- Runs whose exceptions are of some kind.
abbrev pub Throws : {S A : Type 0} → (Error → Type 0) → Run S A → Type 0
Throws E (ok a s) = Unit
Throws E (throw e s) = E e
Throws E fault = Unit
Throws E out_of_fuel = Unit

module _ {S : Type 0} where
  Quiet-Throws : {A : Type 0} (E : Error → Type 0) (r : Run S A) → Quiet r → Throws E r
  Quiet-Throws E (ok a s) q = tt
  Quiet-Throws E (throw e s) q = absurd q
  Quiet-Throws E fault q = tt
  Quiet-Throws E out_of_fuel q = tt

  pub Ends-Throws :
      {A : Type 0} {P : A → S → Type 0} (E : Error → Type 0) {r : Run S A}
      → Ends P (λ e _. E e) r
      → Throws E r
  Ends-Throws E (returns p) = tt
  Ends-Throws E (throws p) = p

  -- A guard whose failure is undefined behaviour.
  pub Quiet-guarded :
      {A : Type 0} (b : Bool) (r : Run S A) → Quiet r → Quiet (if b then r else fault)
  Quiet-guarded true r q = q
  Quiet-guarded false r q = tt

  pub Quiet-bind :
      {A B : Type 0} (r : Run S A) (k : A → Cmd S B)
      → Quiet r
      → ((a : A) (s : S) → Quiet (k a s))
      → Quiet (and_then r k)
  Quiet-bind (ok a s) k q next = next a s
  Quiet-bind (throw e s) k q next = q
  Quiet-bind fault k q next = tt
  Quiet-bind out_of_fuel k q next = tt

  -- The same with what is known of the state between.
  pub Quiet-after :
      {A B : Type 0} {P : A → S → Type 0} {E : Error → S → Type 0} {r : Run S A} (k : A → Cmd S B)
      → Ends P E r
      → Quiet r
      → ((a : A) (s : S) → P a s → Quiet (k a s))
      → Quiet (and_then r k)
  Quiet-after k (returns p) q next = next _ _ p
  Quiet-after k (throws p) q next = q

  -- A handler that throws nothing for the errors that come.
  pub Quiet-handle :
      {A : Type 0} (E : Error → Type 0) (r : Run S A) (k : Error → Cmd S A)
      → Throws E r
      → ((e : Error) (s : S) → E e → Quiet (k e s))
      → Quiet (catch r k)
  Quiet-handle E (ok a s) k p next = tt
  Quiet-handle E (throw e s) k p next = next e s p
  Quiet-handle E fault k p next = tt
  Quiet-handle E out_of_fuel k p next = tt

  pub Throws-bind :
      {A B : Type 0} (E : Error → Type 0) (r : Run S A) (k : A → Cmd S B)
      → Throws E r
      → ((a : A) (s : S) → Quiet (k a s))
      → Throws E (and_then r k)
  Throws-bind E (ok a s) k p next = Quiet-Throws E (k a s) (next a s)
  Throws-bind E (throw e s) k p next = p
  Throws-bind E fault k p next = tt
  Throws-bind E out_of_fuel k p next = tt

  -- A run that ends, and not by an exception, returns.
  pub Ends-Quiet :
      {A : Type 0} {P : A → S → Type 0} {E : Error → S → Type 0} {r : Run S A}
      → Ends P E r
      → Quiet r
      → Ends P (λ _ _. ⊥) r
  Ends-Quiet (returns p) q = returns p
  Ends-Quiet (throws p) q = absurd q

  pub Quiet-Ends : {A : Type 0} {P : A → S → Type 0} {r : Run S A} → Ends P (λ _ _. ⊥) r → Quiet r
  Quiet-Ends (returns p) = tt
  Quiet-Ends (throws p) = p

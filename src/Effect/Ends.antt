-- ===== src/Effect/Ends.antt =====
-- What a run comes to: `Ends P E r` says that `r` ends, normally with `P` or by an exception with
-- `E`, and that it neither meets undefined behaviour nor runs out of fuel.
use fdcpp.Effect.{Error, Run, Cmd, ok, throw, and_then, catch, fault, out_of_fuel}

pub data Ends {S A : Type 0} (P : A → S → Type 0) (E : Error → S → Type 0) : Run S A → Type 0 where
  returns : {a : A} {s : S} → P a s → Ends P E (ok a s)
  throws : {e : Error} {s : S} → E e s → Ends P E (throw e s)

module _ {S A : Type 0} {P : A → S → Type 0} {E : Error → S → Type 0} where
  pub bind :
      {B : Type 0} {Q : B → S → Type 0} {F : Error → S → Type 0} {r : Run S A} {k : A → Cmd S B}
      → Ends P E r
      → ((a : A) (s : S) → P a s → Ends Q F (k a s))
      → ((e : Error) (s : S) → E e s → F e s)
      → Ends Q F (and_then r k)
  bind (returns p) next out = next _ _ p
  bind (throws p) next out = throws (out _ _ p)

  pub mono :
      {Q : A → S → Type 0} {F : Error → S → Type 0} {r : Run S A}
      → Ends P E r
      → ((a : A) (s : S) → P a s → Q a s)
      → ((e : Error) (s : S) → E e s → F e s)
      → Ends Q F r
  mono (returns p) f g = returns (f _ _ p)
  mono (throws p) f g = throws (g _ _ p)

  pub handle :
      {F : Error → S → Type 0} {r : Run S A} {k : Error → Cmd S A}
      → Ends P E r
      → ((e : Error) (s : S) → E e s → Ends P F (k e s))
      → Ends P F (catch r k)
  handle (returns p) next = returns p
  handle (throws p) next = next _ _ p

-- What a run with a known end has come to.
abbrev pub Post : {S A : Type 0} → (A → S → Type 0) → (Error → S → Type 0) → Run S A → Type 0
Post P E (ok a s) = P a s
Post P E (throw e s) = E e s
Post P E fault = ⊥
Post P E out_of_fuel = ⊥

pub post :
    {S A : Type 0} {P : A → S → Type 0} {E : Error → S → Type 0} {r : Run S A}
    → Ends P E r
    → Post P E r
post (returns p) = p
post (throws p) = p

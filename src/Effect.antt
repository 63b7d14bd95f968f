-- ===== src/Effect.antt =====
-- How the code runs: commands that read and write a state `S`, and end normally, by a C++ exception,
-- in undefined behaviour, or out of the fuel that bounds a loop of the model.
pub mod Ends
pub mod Kept
pub mod Quiet
use fdcpp.Base.{ℕ, List}

-- `std::system_error` with its code and text, and `std::runtime_error` with its text.
pub data Error : Type 0 where
  system_error : ℕ → List ℕ → Error
  runtime_error : List ℕ → Error

pub data Run (S : Type 0) (A : Type 0) : Type 0 where
  ok : A → S → Run S A
  throw : Error → S → Run S A
  fault : Run S A
  out_of_fuel : Run S A

abbrev pub Cmd : Type 0 → Type 0 → Type 0
Cmd S A = S → Run S A

abbrev pub pure : {S A : Type 0} → A → Cmd S A
pure = ok

module _ {S A B : Type 0} where
  abbrev pub and_then : Run S A → (A → Cmd S B) → Run S B
  and_then (ok a s) k = k a s
  and_then (throw e s) k = throw e s
  and_then fault k = fault
  and_then out_of_fuel k = out_of_fuel

  infixl 5 ◌>>=◌ ◌>>◌
  abbrev pub ◌>>=◌ : Cmd S A → (A → Cmd S B) → Cmd S B
  m >>= k = λ s. and_then (m s) k

  abbrev pub ◌>>◌ : Cmd S A → Cmd S B → Cmd S B
  m >> n = m >>= λ _. n

module _ {S A : Type 0} where
  -- `try { … } catch (e) { … }`
  abbrev pub catch : Run S A → (Error → Cmd S A) → Run S A
  catch (ok a s) k = ok a s
  catch (throw e s) k = k e s
  catch fault k = fault
  catch out_of_fuel k = out_of_fuel

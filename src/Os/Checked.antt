-- ===== src/Os/Checked.antt =====
-- What a checked call comes to, from what the call returned.
use fdcpp.Base.{ℕ, List, ℤ, pos, negsuc, pos_part, ◌≡◌, refl}
use fdcpp.Effect.{Error, system_error, pure, and_then}
use fdcpp.Effect.Ends.{Ends, returns, throws}
use fdcpp.Throw.{make_message, throw_system_error}
use fdcpp.Os.{Os, checked, checked_bytes}

module _ {W : Type 0} (os : Os W) (tag func : List ℕ) where
  -- A call that counts: its result is a number, or an exception with `errno` and the two names.
  pub counted-Ends :
      {P : ℕ → W → Type 0} {E : Error → W → Type 0} (r : ℤ × W)
      → ((n : ℕ) (w : W) → r ≡ (pos n, w) → P n w)
      → ((e : ℕ) (w : W)
          → r ≡ (negsuc e, w)
          → E (system_error (os.errno w) (make_message tag func)) w)
      → Ends P E (and_then (checked os tag func r) (λ n. pure (pos_part n)))
  unfolding throw_system_error
  counted-Ends (pos n, w) good bad = returns (good n w refl)
  counted-Ends (negsuc e, w) good bad = throws (bad e w refl)

  -- A call that counts and stores bytes.
  pub stored-Ends :
      {P : ℕ × List ℕ → W → Type 0} {E : Error → W → Type 0} (r : ℤ × List ℕ × W)
      → ((n : ℕ) (bytes : List ℕ) (w : W) → r ≡ (pos n, bytes, w) → P (n, bytes) w)
      → ((e : ℕ) (bytes : List ℕ) (w : W)
          → r ≡ (negsuc e, bytes, w)
          → E (system_error (os.errno w) (make_message tag func)) w)
      → Ends P E (and_then (checked_bytes os tag func r) (λ a. pure (pos_part a.0, a.1)))
  unfolding throw_system_error
  stored-Ends (pos n, bytes, w) good bad = returns (good n bytes w refl)
  stored-Ends (negsuc e, bytes, w) good bad = throws (bad e bytes w refl)

  -- A call of which only success counts.
  pub done-Ends :
      {P : Unit {0} → W → Type 0} {E : Error → W → Type 0} (r : ℤ × W)
      → ((n : ℕ) (w : W) → r ≡ (pos n, w) → P tt w)
      → ((e : ℕ) (w : W)
          → r ≡ (negsuc e, w)
          → E (system_error (os.errno w) (make_message tag func)) w)
      → Ends P E (and_then (checked os tag func r) (λ _. pure tt))
  unfolding throw_system_error
  done-Ends (pos n, w) good bad = returns (good n w refl)
  done-Ends (negsuc e, w) good bad = throws (bad e w refl)

  -- A call that stores a value of some type.
  pub filled-Ends :
      {B : Type 0} {P : ℤ × B → W → Type 0} {E : Error → W → Type 0} (r : ℤ × B × W)
      → ((n : ℕ) (b : B) (w : W) → r ≡ (pos n, b, w) → P (pos n, b) w)
      → ((e : ℕ) (b : B) (w : W)
          → r ≡ (negsuc e, b, w)
          → E (system_error (os.errno w) (make_message tag func)) w)
      → Ends P E (and_then (checked os tag func (r.0, r.2)) (λ k. pure (k, r.1)))
  unfolding throw_system_error
  filled-Ends (pos n, b, w) good bad = returns (good n b w refl)
  filled-Ends (negsuc e, b, w) good bad = throws (bad e b w refl)

  -- A call of which the bytes that it stored count.
  pub got-Ends :
      {P : List ℕ → W → Type 0} {E : Error → W → Type 0} (r : ℤ × List ℕ × W)
      → ((n : ℕ) (bytes : List ℕ) (w : W) → r ≡ (pos n, bytes, w) → P bytes w)
      → ((e : ℕ) (bytes : List ℕ) (w : W)
          → r ≡ (negsuc e, bytes, w)
          → E (system_error (os.errno w) (make_message tag func)) w)
      → Ends P E (and_then (checked_bytes os tag func r) (λ a. pure a.1))
  unfolding throw_system_error
  got-Ends (pos n, bytes, w) good bad = returns (good n bytes w refl)
  got-Ends (negsuc e, bytes, w) good bad = throws (bad e bytes w refl)

-- ===== src/Ownership.antt =====
-- Objects that hold descriptors, in the words of fds/base/descriptor.cpp, against the table of open
-- numbers that the system keeps: which object closes which number.
pub mod Steps
pub mod Closing
pub mod Spec
pub mod Table
pub mod Classes
mod Tests
use fdcpp.Base.{ℕ, ◌+◌, ◌≤◌, ◌≡◌, ℤ, pos, negsuc, List, [], ◌∷◌, ◌==◌, if◌then◌else◌}
use fdcpp.Os.{Os}
use fdcpp.Descriptor.{Descriptor}

-- Whether a number is the one that an object holds, as a count.
abbrev pub holds_number : ℕ → ℤ → ℕ
holds_number n (pos k) = if k == n then 1 else 0
holds_number n (negsuc k) = 0

abbrev pub holds : ℕ → Descriptor → ℕ
holds n d = holds_number n d.fd

-- How many of the objects hold it.
abbrev pub holders : ℕ → List Descriptor → ℕ
holders n [] = 0
holders n (d ∷ ds) = holds n d + holders n ds

-- A call that opens: it takes a number that is not open, or fails and changes nothing. `is_open w n` is
-- 1 for an open number and 0 for any other.
pub record Opens {W : Type 0} (is_open : W → ℕ → ℕ) (call : W → ℤ × W) : Type 0 where
  pub takes :
      (w : W) (n : ℕ) (w' : W)
      → call w ≡ (pos n, w')
      → (is_open w n ≡ 0) × ((m : ℕ) → is_open w' m ≡ holds_number m (pos n) + is_open w m)
  pub refuses :
      (w : W) (e : ℕ) (w' : W) → call w ≡ (negsuc e, w') → (m : ℕ) → is_open w' m ≡ is_open w m

-- A call that opens and closes nothing.
abbrev pub Leaves : {W A : Type 0} → (W → ℕ → ℕ) → W → A × W → Type 0
Leaves is_open w r = (m : ℕ) → is_open r.1 m ≡ is_open w m

-- close(2) and dup(2): on Linux the number is free after `close`, whatever it returns.
pub record CloseLaw {W : Type 0} (os : Os W) (is_open : W → ℕ → ℕ) : Type 0 where
  pub frees :
      (n : ℕ) (w : W) (m : ℕ)
      → is_open (os.close (pos n) w).1 m ≡ (if n == m then 0 else is_open w m)
  pub dups : (old : ℤ) → Opens is_open (os.dup old)

-- Every open number has one holder, and no object holds a number that is not open.
pub record Owned {W : Type 0} (is_open : W → ℕ → ℕ) (objs : List Descriptor) (w : W) : Type 0 where
  pub one : (n : ℕ) → holders n objs ≡ is_open w n
  pub few : (n : ℕ) → is_open w n ≤ 1

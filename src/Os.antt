-- ===== src/Os.antt =====
-- The system calls that the classes of fds/base and all others rest on. They are not part of the
-- repository: a value of `Os W` stands for a system whose state is `W`. A call returns what the C
-- function returns, with the bytes that it stored, and the new state.
pub mod Checked
use fdcpp.Base.{ℕ, List, ℤ, is_neg, if◌then◌else◌}
use fdcpp.Effect.{Run, ok}
use fdcpp.Throw.{throw_system_error}

pub record Os (W : Type 0) : Type 0 where
  pub errno : W → ℕ
  pub set_errno : ℕ → W → W
  pub close : ℤ → W → ℤ × W
  pub dup : ℤ → W → ℤ × W
  pub dup2 : ℤ → ℤ → W → ℤ × W
  pub fcntl : ℤ → ℕ → ℕ → W → ℤ × W
  pub read : ℤ → ℕ → W → ℤ × List ℕ × W
  pub write : ℤ → List ℕ → W → ℤ × W
  pub pread : ℤ → ℕ → ℕ → W → ℤ × List ℕ × W
  pub pwrite : ℤ → List ℕ → ℕ → W → ℤ × W

module _ {W : Type 0} (os : Os W) (tag func : List ℕ) where
  -- The check behind every call: `if (ret < 0) throw_system_error(tag, func)`, with `errno` for the
  -- code.
  abbrev pub checked : ℤ × W → Run W ℤ
  checked (ret, w) = if is_neg ret then throw_system_error tag func (os.errno w) w else ok ret w

  -- The same for a call that also stores bytes.
  abbrev pub checked_bytes : ℤ × List ℕ × W → Run W (ℤ × List ℕ)
  checked_bytes (ret, bytes, w) =
      if is_neg ret then throw_system_error tag func (os.errno w) w else ok (ret, bytes) w

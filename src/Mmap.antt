-- ===== src/Mmap.antt =====
-- src/easy/mmap.cpp. An address is a number, and that of a null pointer is 0.
pub mod Moves
mod Tests
use fdcpp.Base.{
  ℕ, ◌+◌, ◌-◌, ◌%◌, ◌^◌, ◌≡◌, ◌≢◌, refl, ap, ◌∙◌, sym, ℤ, List, ◌==◌, if◌then◌else◌, codes,
  Bool-cases, inl, inr, true, false, arith,
}
use fdcpp.Effect.{Cmd, Run, ok, pure, and_then, ◌>>=◌, ◌>>◌}
use fdcpp.Throw.{throw_system_error}

pub record Mmap : Type 0 where
  pub addr : ℕ
  pub size : ℕ

abbrev pub nullptr : ℕ
nullptr = 0

-- `(void *) -1`
abbrev pub map_failed : ℕ
map_failed = 2 ^ 64 - 1

pub record MmapOs (W : Type 0) : Type 0 where
  pub errno : W → ℕ
  pub mmap : ℕ → ℕ → ℕ → ℕ → ℤ → ℤ → W → ℕ × W
  pub munmap : ℕ → ℕ → W → ℤ × W

module _ {W : Type 0} (api : MmapOs W) where
  -- `mmap(addr, len, prot, flags, fd, off)`. No destructor runs for an object whose constructor throws.
  unfoldable pub create_at : ℕ → ℕ → ℕ → ℕ → ℤ → ℤ → Cmd W Mmap
  create_at addr len prot flags fd off w =
      let (a, w') = api.mmap addr len prot flags fd off w in
      if a == map_failed
      then throw_system_error (codes "mmap") (codes "mmap()") (api.errno w') w'
      else ok (record { addr = a; size = len }) w'

  unfoldable pub create : ℕ → ℕ → ℕ → ℤ → ℤ → Cmd W Mmap
  unfolding create_at
  create len prot flags fd off = create_at nullptr len prot flags fd off

  -- `~mmap()` does not look at what `munmap` returns.
  unfoldable pub destroy : Mmap → Cmd W (Unit {0})
  destroy m w =
      if m.addr == nullptr
      then ok tt w
      else (let (ret, w') = api.munmap m.addr m.size w in ok tt w')

-- `mmap(mmap &&other)`: the new object, and what is left of `other`.
unfoldable pub move_construct : Mmap → Mmap × Mmap
move_construct other =
    (record { addr = other.addr; size = other.size }, record other { addr = nullptr; size = 0 })

-- `operator=(mmap &&other)`: `*this` and `other` afterwards.
unfoldable pub move_assign : Mmap → Mmap → Mmap × Mmap
move_assign self other = (
  record self { addr = other.addr; size = other.size },
  record other { addr = self.addr; size = self.size },
)

-- `operator[]`, `operator+` and `operator char *` yield addresses, with no check of the bounds.
unfoldable pub at : Mmap → ℕ → ℕ
at m i = (m.addr + i) % 2 ^ 64

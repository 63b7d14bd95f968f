-- ===== src/Memfd.antt =====
-- src/fds/memfd.cpp. `struct stat` is the bytes that the call stores.
use fdcpp.Base.{ℕ, List, ℤ, codes}
use fdcpp.Effect.{pure, ◌>>=◌, Cmd}
use fdcpp.Os.{checked_bytes, Os}
use fdcpp.Descriptor.{Descriptor, move_construct}
use fdcpp.Handle.{opened, adopted, duplicated, duplicated_onto, done}
use fdcpp.Base.{◌^◌}
use fdcpp.Endian.{to_signed}

pub record MemfdOs (W : Type 0) : Type 0 where
  pub os : Os W
  pub memfd_create : List ℕ → ℕ → W → ℤ × W
  pub ftruncate : ℤ → ℤ → W → ℤ × W
  pub fstat : ℤ → W → ℤ × List ℕ × W

module _ {W : Type 0} (api : MemfdOs W) where
  abbrev tag : List ℕ
  tag = codes "memfd"

  unfoldable pub adopt : Descriptor → Cmd W (Descriptor × Descriptor)
  unfolding move_construct
  adopt other = adopted api.os tag (codes "memfd()") other

  unfoldable pub dup : Descriptor → Cmd W Descriptor
  dup self = duplicated api.os tag self

  unfoldable pub dup2 : Descriptor → Descriptor → Cmd W (Unit {0})
  dup2 self other = duplicated_onto api.os tag self other

  unfoldable pub create : List ℕ → ℕ → Cmd W Descriptor
  create name flags = opened api.os tag (codes "memfd()") (api.memfd_create name flags)

  -- `static_cast<off_t>(size)`
  unfoldable pub ftruncate : Descriptor → ℕ → Cmd W (Unit {0})
  unfolding to_signed
  ftruncate self size =
      done api.os tag (codes "ftruncate()") (api.ftruncate self.fd (to_signed (2 ^ 63) size))

  unfoldable pub fstat : Descriptor → Cmd W (List ℕ)
  fstat self =
      (λ w. checked_bytes api.os tag (codes "fstat()") (api.fstat self.fd w)) >>= λ r. pure r.1

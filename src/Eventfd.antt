-- ===== src/Eventfd.antt =====
-- src/fds/eventfd.cpp: a counter behind a descriptor. A number goes through its bytes in memory, in the
-- order of the host.
pub mod Counter
mod Tests
use fdcpp.Base.{ℕ, List, ℤ, codes}
use fdcpp.Effect.{Cmd, pure, ◌>>=◌}
use fdcpp.Os.{Os}
use fdcpp.Descriptor.{Descriptor, move_construct}
use fdcpp.Handle.{opened, adopted, duplicated, duplicated_onto}
use fdcpp.Endian.{Order, object_bytes, of_object}
use fdcpp.Transfer.{read_whole_io, write_loop}

pub record EventfdOs (W : Type 0) : Type 0 where
  pub os : Os W
  pub eventfd : ℕ → ℕ → W → ℤ × W

module _ {W : Type 0} (api : EventfdOs W) where
  abbrev tag : List ℕ
  tag = codes "eventfd"

  unfoldable pub adopt : Descriptor → Cmd W (Descriptor × Descriptor)
  unfolding move_construct
  adopt other = adopted api.os tag (codes "eventfd()") other

  unfoldable pub dup : Descriptor → Cmd W Descriptor
  dup self = duplicated api.os tag self

  unfoldable pub dup2 : Descriptor → Descriptor → Cmd W (Unit {0})
  dup2 self other = duplicated_onto api.os tag self other

  unfoldable pub create : ℕ → ℕ → Cmd W Descriptor
  create initval flags = opened api.os tag (codes "eventfd()") (api.eventfd initval flags)

  unfoldable pub read : Order → ℕ → Descriptor → Cmd W ℕ
  read o fuel self = read_whole_io api.os fuel 8 self >>= λ bytes. pure (of_object o bytes)

  unfoldable pub write : Order → ℕ → Descriptor → ℕ → Cmd W (Unit {0})
  write o fuel self val = write_loop api.os fuel self (object_bytes o 8 val) 0

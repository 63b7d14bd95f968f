-- ===== src/Signalfd.antt =====
-- src/fds/signalfd.cpp. A signal set is the list of its words; `signalfd_siginfo` is 128 bytes.
use fdcpp.Base.{ℕ, List, ℤ, codes}
use fdcpp.Effect.{Cmd}
use fdcpp.Os.{Os}
use fdcpp.Descriptor.{Descriptor, move_construct}
use fdcpp.Handle.{opened, adopted, duplicated, duplicated_onto, done}
use fdcpp.Base.{negsuc}
use fdcpp.Transfer.{read_whole_in}

pub record SignalfdOs (W : Type 0) : Type 0 where
  pub os : Os W
  pub signalfd : ℤ → List ℕ → ℕ → W → ℤ × W

module _ {W : Type 0} (api : SignalfdOs W) where
  abbrev tag : List ℕ
  tag = codes "signalfd"

  unfoldable pub adopt : Descriptor → Cmd W (Descriptor × Descriptor)
  unfolding move_construct
  adopt other = adopted api.os tag (codes "signalfd()") other

  unfoldable pub dup : Descriptor → Cmd W Descriptor
  dup self = duplicated api.os tag self

  unfoldable pub dup2 : Descriptor → Descriptor → Cmd W (Unit {0})
  dup2 self other = duplicated_onto api.os tag self other

  unfoldable pub create : List ℕ → ℕ → Cmd W Descriptor
  create mask flags = opened api.os tag (codes "signalfd()") (api.signalfd (negsuc 0) mask flags)

  unfoldable pub setmask : Descriptor → List ℕ → Cmd W (Unit {0})
  setmask self mask = done api.os tag (codes "set()") (api.signalfd self.fd mask 0)

  -- The bytes of the `signalfd_siginfo` that the caller gets.
  unfoldable pub read : ℕ → Descriptor → Cmd W (List ℕ)
  read fuel self = read_whole_in api.os fuel 128 self

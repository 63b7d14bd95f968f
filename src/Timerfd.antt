-- ===== src/Timerfd.antt =====
-- src/fds/timerfd.cpp. The calls of timerfd_create(2) are a parameter.
use fdcpp.Base.{ℕ, List, ℤ, is_neg, if◌then◌else◌, codes}
use fdcpp.Effect.{Run, Cmd, pure, and_then, ◌>>=◌}
use fdcpp.Throw.{throw_system_error}
use fdcpp.Os.{Os, checked}
use fdcpp.Endian.{Order, of_object}
use fdcpp.Transfer.{read_whole_in}
use fdcpp.Descriptor.{Descriptor, descriptor, move_construct}

pub record TimeSpec : Type 0 where
  pub tv_sec : ℤ
  pub tv_nsec : ℤ

pub record ItimerSpec : Type 0 where
  pub it_interval : TimeSpec
  pub it_value : TimeSpec

-- `timerfd_settime` takes flags and a setting, and returns the old one.
pub record TimerOs (W : Type 0) : Type 0 where
  pub os : Os W
  pub open os use *
  pub timerfd_create : ℕ → ℕ → W → ℤ × W
  pub timerfd_gettime : ℤ → W → ℤ × ItimerSpec × W
  pub timerfd_settime : ℤ → ℕ → ItimerSpec → W → ℤ × ItimerSpec × W

module _ {W : Type 0} (api : TimerOs W) where
  abbrev call : List ℕ → ℤ × W → Run W ℤ
  call func r = checked api.os (codes "timerfd") func r

  -- `timerfd(clockid_t clockid, int flags)`
  unfoldable pub create : ℕ → ℕ → Cmd W Descriptor
  create clockid flags =
      (λ w. call (codes "timerfd()") (api.timerfd_create clockid flags w)) >>= λ fd.
      pure (descriptor fd)

  -- `timerfd(descriptor &&other)`: the new object, and what is left of `other`.
  unfoldable pub adopt : Descriptor → Cmd W (Descriptor × Descriptor)
  unfolding move_construct
  adopt other =
      if is_neg (move_construct other).0.fd
      then throw_system_error (codes "timerfd") (codes "timerfd()") 9
      else pure (move_construct other)

  unfoldable pub dup : Descriptor → Cmd W Descriptor
  dup self = (λ w. call (codes "dup()") (api.dup self.fd w)) >>= λ fd. pure (descriptor fd)

  unfoldable pub dup2 : Descriptor → Descriptor → Cmd W (Unit {0})
  dup2 self other = (λ w. call (codes "dup2()") (api.dup2 other.fd self.fd w)) >>= λ _. pure tt

  unfoldable pub gettime : Descriptor → Cmd W ItimerSpec
  gettime self w =
      let (err, val, w') = api.timerfd_gettime self.fd w in
      and_then (call (codes "gettime()") (err, w')) λ _. pure val

  -- The result is what is stored through `old`, which a null pointer leaves out.
  unfoldable pub settime : Descriptor → ItimerSpec → ℕ → Cmd W ItimerSpec
  settime self spec flags w =
      let (err, old, w') = api.timerfd_settime self.fd flags spec w in
      and_then (call (codes "settime()") (err, w')) λ _. pure old

  -- The value goes through its bytes, in the order of the host.
  unfoldable pub read : Order → ℕ → Descriptor → Cmd W ℕ
  read o fuel self = read_whole_in api.os fuel 8 self >>= λ bytes. pure (of_object o bytes)

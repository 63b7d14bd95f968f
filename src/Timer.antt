-- ===== src/Timer.antt =====
-- src/easy/timer.cpp: a timer that can be paused. A method is a command on the object together with
-- the system.
pub mod Kernel
pub mod Control
pub mod Reach
pub mod Spec
mod Tests
use fdcpp.Base.{ℕ, zero, ℤ, pos, negsuc, Bool, true, false, ◌||◌, ◌&&◌, not, if◌then◌else◌}
use fdcpp.Effect.{Run, Cmd, pure, and_then, ok, throw, fault, out_of_fuel}
use fdcpp.Descriptor.{Descriptor, move_construct, move_assign}
use fdcpp.Endian.{Order}
use fdcpp.Timerfd.{TimeSpec, ItimerSpec, TimerOs}
use fdcpp.Timerfd

pub data Phase : Type 0 where
  started paused stopped : Phase

pub record Timer : Type 0 where
  pub timerfd : Descriptor
  pub spec : ItimerSpec
  pub remaining : ItimerSpec
  pub state : Phase

pub record State (W : Type 0) : Type 0 where
  pub self : Timer
  pub world : W

abbrev pub no_time : TimeSpec
no_time = record { tv_sec = pos 0; tv_nsec = pos 0 }

abbrev pub no_timer : ItimerSpec
no_timer = record { it_interval = no_time; it_value = no_time }

-- A number as a condition.
abbrev pub nonzero : ℤ → Bool
nonzero (pos zero) = false
nonzero _ = true

-- `tv_sec || tv_nsec`
abbrev pub some_time : TimeSpec → Bool
some_time t = nonzero t.tv_sec || nonzero t.tv_nsec

-- `timer()`, over the descriptor that `timerfd()` opened.
unfoldable pub construct : Descriptor → Timer
construct fd = record { timerfd = fd; spec = no_timer; remaining = no_timer; state = stopped }

-- `timer(timer &&other)`: the new object, and what is left of `other`.
unfoldable pub move_from : Timer → Timer × Timer
move_from other =
    let (fd, left) = move_construct other.timerfd in
    (
      record { timerfd = fd; spec = other.spec; remaining = other.remaining; state = other.state },
      record other { timerfd = left },
    )

-- `operator=(timer &&other)`: `*this` and `other` afterwards.
unfoldable pub assign_from : Timer → Timer → Timer × Timer
assign_from self other =
    let (fd, left) = move_assign self.timerfd other.timerfd in
    (
      record { timerfd = fd; spec = other.spec; remaining = other.remaining; state = other.state },
      record other { timerfd = left },
    )

-- Without a first delay the interval is the first delay.
unfoldable pub settime : ItimerSpec → Timer → Timer
settime ts t = record t {
  spec = record {
    it_interval = ts.it_interval;
    it_value = if some_time ts.it_value then ts.it_value else ts.it_interval;
  };
}

-- `timer(const struct itimerspec &ts)`
unfoldable pub construct_with : Descriptor → ItimerSpec → Timer
unfolding construct settime
construct_with fd ts = settime ts (construct fd)

-- `if (!_remaining.it_value.tv_sec && !_remaining.it_value.tv_nsec)`
unfoldable pub refill : ItimerSpec → ItimerSpec
refill r =
    if not (nonzero r.it_value.tv_sec) && not (nonzero r.it_value.tv_nsec)
    then record r { it_value = r.it_interval }
    else r

-- The object behind a `timerfd::settime`: `next` makes it of the old setting, and an exception leaves
-- `self`.
abbrev pub land :
    {W : Type 0} → Timer → (ItimerSpec → Timer) → Run W ItimerSpec → Run (State W) (Unit {0})
land self next (ok old w) = ok tt (record { self = next old; world = w })
land self next (throw e w) = throw e (record { self = self; world = w })
land self next fault = fault
land self next out_of_fuel = out_of_fuel

module _ {W : Type 0} (api : TimerOs W) where
  abbrev pub set_then : Timer → ItimerSpec → (ItimerSpec → Timer) → Cmd (State W) (Unit {0})
  set_then self spec next s = land self next (Timerfd.settime api self.timerfd spec 0 s.world)

  unfoldable pub start_in : Phase → Cmd (State W) (Unit {0})
  start_in started s = ok tt s
  start_in _ s = set_then s.self s.self.spec (λ _. record s.self { state = started }) s

  unfoldable pub start : Cmd (State W) (Unit {0})
  unfolding start_in
  start s = start_in s.self.state s

  unfoldable pub pause_in : Phase → Cmd (State W) (Unit {0})
  pause_in started s =
      set_then s.self no_timer (λ old. record s.self { remaining = old; state = paused }) s
  pause_in _ s = ok tt s

  unfoldable pub pause : Cmd (State W) (Unit {0})
  unfolding pause_in
  pause s = pause_in s.self.state s

  unfoldable pub resume_in : Phase → Cmd (State W) (Unit {0})
  resume_in paused s =
      let self = record s.self { remaining = refill s.self.remaining } in
      set_then self self.remaining (λ _. record self { state = started }) s
  resume_in _ s = ok tt s

  unfoldable pub resume : Cmd (State W) (Unit {0})
  unfolding resume_in
  resume s = resume_in s.self.state s

  unfoldable pub stop_in : Phase → Cmd (State W) (Unit {0})
  stop_in stopped s = ok tt s
  stop_in _ s = set_then s.self no_timer (λ _. record s.self { state = stopped }) s

  unfoldable pub stop : Cmd (State W) (Unit {0})
  unfolding stop_in
  stop s = stop_in s.self.state s

  -- How often the timer has expired since the last call.
  unfoldable pub timeouts : Order → ℕ → Timer → Cmd W ℕ
  unfolding Timerfd.read
  timeouts o fuel t = Timerfd.read api o fuel t.timerfd

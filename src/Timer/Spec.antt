-- ===== src/Timer/Spec.antt =====
-- A pausable timer without its descriptor: what each call of the class promises.
pub mod Refinement
pub mod Histories
use fdcpp.Base.{◌≡◌, ℤ, if◌then◌else◌}
use fdcpp.Timerfd.{ItimerSpec}
use fdcpp.Timer.{Phase, started, paused, stopped, Timer, State, no_timer, some_time}
use fdcpp.Timer.Reach.{Call, starts, pauses, resumes, stops, sets}

-- It is off, or runs with a time to the next expiry and an interval, or is halted with those it goes on
-- with.
pub data Mode : Type 0 where
  off : Mode
  runs : ItimerSpec → Mode
  halts : ItimerSpec → Mode

pub record Machine : Type 0 where
  pub mode : Mode
  pub setup : ItimerSpec

-- Without a time to the next expiry, the interval is that time.
abbrev pub complete : ItimerSpec → ItimerSpec
complete ts =
    if some_time ts.it_value
    then ts
    else record { it_interval = ts.it_interval; it_value = ts.it_interval }

-- The kernel's timer in each mode.
abbrev pub armed : Mode → ItimerSpec
armed off = no_timer
armed (runs left) = left
armed (halts left) = no_timer

abbrev pub started_from : ItimerSpec → Mode → Mode
started_from setup (runs left) = runs left
started_from setup off = runs setup
started_from setup (halts left) = runs setup

-- A timer that is halted on the instant of its last expiry goes on with its interval.
abbrev pub halted_from : Mode → Mode
halted_from (runs left) = halts (complete left)
halted_from off = off
halted_from (halts left) = halts left

abbrev pub resumed_from : Mode → Mode
resumed_from (halts left) = runs left
resumed_from off = off
resumed_from (runs left) = runs left

abbrev pub spec_call : Call → Machine → Machine
spec_call starts a = record a { mode = started_from a.setup a.mode }
spec_call pauses a = record a { mode = halted_from a.mode }
spec_call resumes a = record a { mode = resumed_from a.mode }
spec_call stops a = record a { mode = off }
spec_call (sets ts) a = record a { setup = complete ts }

-- What a timer and the kernel's setting of it stand for.
abbrev pub mode_of : Phase → ItimerSpec → ItimerSpec → Mode
mode_of started remaining left = runs left
mode_of paused remaining left = halts (complete remaining)
mode_of stopped remaining left = off

abbrev pub machine_of : Timer → ItimerSpec → Machine
machine_of t left = record { mode = mode_of t.state t.remaining left; setup = t.spec }

-- The object and the system stand for a machine, whose kernel's timer is as its mode says.
pub record Shows {W : Type 0} (fd : ℤ) (setting : W → ItimerSpec) (s : State W) (a : Machine)
    : Type 0 where
  pub same_fd : s.self.timerfd.fd ≡ fd
  pub machine : machine_of s.self (setting s.world) ≡ a
  pub kernel : setting s.world ≡ armed a.mode

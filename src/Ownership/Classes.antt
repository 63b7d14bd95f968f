-- ===== src/Ownership/Classes.antt =====
-- The constructors of the classes in fds/timerfd.cpp, eventfd.cpp, signalfd.cpp, inotify.cpp, memfd.cpp
-- and epoll.cpp, and what they leave open.
use fdcpp.Base.{ℕ, ◌+◌, ◌≡◌, ℤ, negsuc, List}
use fdcpp.Effect.{Run}
use fdcpp.Effect.Ends.{Ends}
use fdcpp.Os.{Os}
use fdcpp.Descriptor.{Descriptor}
use fdcpp.Ownership.{holds, Opens}
use fdcpp.Timerfd.{TimerOs}
use fdcpp.Timerfd
use fdcpp.Eventfd.{EventfdOs}
use fdcpp.Eventfd
use fdcpp.Signalfd.{SignalfdOs}
use fdcpp.Signalfd
use fdcpp.Inotify.{InotifyOs}
use fdcpp.Inotify
use fdcpp.Memfd.{MemfdOs}
use fdcpp.Memfd
use fdcpp.Epoll.{EpollOs}
use fdcpp.Epoll

module _ {W : Type 0} (is_open : W → ℕ → ℕ) where
  -- The one number that is open and was not before is that of the new object; after an exception there
  -- is none.
  abbrev pub OpensOne : W → Run W Descriptor → Type 0
  OpensOne w =
      Ends (λ d w'. (m : ℕ) → is_open w' m ≡ holds m d + is_open w m)
        (λ _ w'. (m : ℕ) → is_open w' m ≡ is_open w m)

  -- The new object holds what the other one held, which holds nothing any more; an exception says that
  -- it held nothing before. The system is not called.
  abbrev pub TakesOver : Descriptor → W → Run W (Descriptor × Descriptor) → Type 0
  TakesOver other w =
      Ends (λ r w'. ((m : ℕ) → (holds m r.0 ≡ holds m other) × (holds m r.1 ≡ 0)) × (w' ≡ w))
        (λ _ w'. ((m : ℕ) → holds m other ≡ 0) × (w' ≡ w))

-- What the constructors of a class come to, for any arguments of theirs.
abbrev pub Sound :
    {W : Type 0}
    → (W → ℕ → ℕ)
    → W
    → Run W Descriptor
    → Descriptor
    → Run W Descriptor
    → Run W (Descriptor × Descriptor)
    → Type 0
Sound is_open w created other copied taken =
    OpensOne is_open w created × OpensOne is_open w copied × TakesOver is_open other w taken

-- Each system call that makes a descriptor opens a number that was not open, or fails.
pub record ClassLaw {W : Type 0} (is_open : W → ℕ → ℕ) (timers : TimerOs W) (events : EventfdOs W)
    (signals : SignalfdOs W) (watches : InotifyOs W) (memory : MemfdOs W) (polls : EpollOs W)
    : Type 0 where
  pub timerfd_create : (clockid flags : ℕ) → Opens is_open (timers.timerfd_create clockid flags)
  pub eventfd : (initval flags : ℕ) → Opens is_open (events.eventfd initval flags)
  pub signalfd :
      (mask : List ℕ) (flags : ℕ) → Opens is_open (signals.signalfd (negsuc 0) mask flags)
  pub inotify_init1 : (flags : ℕ) → Opens is_open (watches.inotify_init1 flags)
  pub memfd_create : (name : List ℕ) (flags : ℕ) → Opens is_open (memory.memfd_create name flags)
  pub epoll_create1 : (flags : ℕ) → Opens is_open (polls.epoll_create1 flags)
  pub timer_dup : (fd : ℤ) → Opens is_open (timers.os.dup fd)
  pub event_dup : (fd : ℤ) → Opens is_open (events.os.dup fd)
  pub signal_dup : (fd : ℤ) → Opens is_open (signals.os.dup fd)
  pub watch_dup : (fd : ℤ) → Opens is_open (watches.os.dup fd)
  pub memory_dup : (fd : ℤ) → Opens is_open (memory.os.dup fd)
  pub poll_dup : (fd : ℤ) → Opens is_open (polls.os.dup fd)

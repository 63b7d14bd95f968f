-- ===== src/Ownership/Tests.antt =====
-- The theorems at a program that copies and moves an object.
use fdcpp.Base.{◌≡◌, refl, pos, negsuc, [], ◌∷◌, true, false, arith}
use fdcpp.Descriptor.{Descriptor, descriptor, move_construct, destroy}
use fdcpp.File
use fdcpp.File.{FileOs}
use fdcpp.Ownership.Table.{Table, is_open, os, law, dup_in}
use fdcpp.Timerfd.{TimerOs}
use fdcpp.Timerfd
use fdcpp.Timer.{no_time}
use fdcpp.Eventfd.{EventfdOs}
use fdcpp.Eventfd
use fdcpp.Signalfd.{SignalfdOs}
use fdcpp.Signalfd
use fdcpp.Inotify.{InotifyOs}
use fdcpp.Inotify
use fdcpp.Memfd.{MemfdOs}
use fdcpp.Memfd
use fdcpp.Epoll.{EpollOs}
use fdcpp.Epoll
use fdcpp.Ownership.{holds, Owned}
use fdcpp.Ownership.Steps.{World, Reach, here, next, born, moved}
use fdcpp.Ownership.Closing.{file_copy-shared}
use fdcpp.Ownership.Spec.{owners, Reach-Does}

abbrev one_open : Table
one_open = record { three = true; four = false }

abbrev both_open : Table
both_open = record { three = true; four = true }

abbrev three : Descriptor
three = descriptor (pos 3)

abbrev four : Descriptor
four = descriptor (pos 4)

abbrev gone : Descriptor
gone = descriptor (negsuc 0)

abbrev first_world : World Table
first_world = record { objs = three ∷ []; world = one_open }

first_world-Owned : Owned is_open (three ∷ []) one_open
first_world-Owned = record { one = λ n. ground arith; few = λ n. ground arith }

copied : Reach os is_open first_world (record { objs = four ∷ three ∷ []; world = both_open })
copied = next here (born [] [] (os.dup (pos 3)) four (law.dups (pos 3)) refl)

Reach-Does_example :
    Owned is_open (four ∷ gone ∷ three ∷ []) both_open
    × (owners (four ∷ gone ∷ three ∷ []) ≡ owners (four ∷ three ∷ []))
unfolding move_construct
Reach-Does_example = Reach-Does os law first_world-Owned copied (moved [] four (three ∷ []) refl)

abbrev files : FileOs Table
files = record {
  os = os;
  open_file = λ path flags w. (negsuc 0, w);
  open_mode = λ path flags mode w. (negsuc 0, w);
  lseek = λ fd offset whence w. (negsuc 0, w);
  fchmod = λ fd mode w. (pos 0, w);
  fchown = λ fd uid gid w. (pos 0, w);
  fstat = λ fd w. (pos 0, [], w);
  fsync = λ fd w. (pos 0, w);
  ftruncate = λ fd size w. (pos 0, w);
  fpathconf = λ fd name w. (negsuc 0, w);
  fdatasync = λ fd w. (pos 0, w);
  fstatvfs = λ fd w. (pos 0, [], w);
}

file_copy-shared_example :
    (three.fd ≡ three.fd)
    × (is_open (record { three = false; four = false }) 3 ≡ 0)
    × (holds 3 three ≡ 1)
unfolding File.dup destroy
file_copy-shared_example =
    file_copy-shared files law three three 3 one_open one_open
      (record { three = false; four = false }) refl refl refl

-- Each class over the table of two numbers.
abbrev timers : TimerOs Table
timers = record {
  os = os;
  timerfd_create = λ clockid flags w. dup_in w.four w;
  timerfd_gettime = λ fd w. (negsuc 0, record { it_interval = no_time; it_value = no_time }, w);
  timerfd_settime = λ fd flags spec w. (negsuc 0, spec, w);
}

abbrev events : EventfdOs Table
events = record { os = os; eventfd = λ initval flags w. dup_in w.four w }

abbrev signals : SignalfdOs Table
signals = record { os = os; signalfd = λ fd mask flags w. dup_in w.four w }

abbrev watches : InotifyOs Table
watches = record {
  os = os;
  inotify_init1 = λ flags w. dup_in w.four w;
  inotify_add_watch = λ fd path mask w. (negsuc 0, w);
  inotify_rm_watch = λ fd wd w. (negsuc 0, w);
}

abbrev memory : MemfdOs Table
memory = record {
  os = os;
  memfd_create = λ name flags w. dup_in w.four w;
  ftruncate = λ fd size w. (negsuc 0, w);
  fstat = λ fd w. (negsuc 0, [], w);
}

abbrev polls : EpollOs Table
polls = record {
  os = os;
  epoll_create1 = λ flags w. dup_in w.four w;
  epoll_ctl = λ fd op other ev w. (negsuc 0, w);
  epoll_wait = λ fd size timeout w. (negsuc 0, [], w);
  epoll_pwait = λ fd size timeout mask w. (negsuc 0, [], w);
}

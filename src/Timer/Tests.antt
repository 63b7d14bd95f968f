-- ===== src/Timer/Tests.antt =====
-- The theorems on a small system with one timer, and runs of the code.
use fdcpp.Base.{ap, sym, ℕ, ◌≡◌, refl, pos, negsuc, [], ◌∷◌}
use fdcpp.Effect.{ok}
use fdcpp.Effect.Ends.{Ends}
use fdcpp.Descriptor.{descriptor}
use fdcpp.Os.{Os}
use fdcpp.Timerfd.{ItimerSpec, TimeSpec, TimerOs}
use fdcpp.Timerfd
use fdcpp.Timer.{
  Phase, started, paused, stopped, Timer, State, no_timer, refill, pause, resume, stop,
}
use fdcpp.Timer.Kernel.{SetLaw}
use fdcpp.Timer.Spec.{runs, halts, Shows}
use fdcpp.Timer.Spec.Histories.{called, waited, step_events, events, Explained, Reach-refines}
use fdcpp.Timer.Spec.Refinement.{run-refines}
use fdcpp.Timer.Reach.{pauses, resumes, stops, run, done, passes, Reach, here, next}

-- The system is the setting of its timer.
abbrev os : Os ItimerSpec
os = record {
  errno = λ w. 9;
  set_errno = λ e w. w;
  close = λ fd w. (pos 0, w);
  dup = λ fd w. (pos 4, w);
  dup2 = λ old new w. (new, w);
  fcntl = λ fd cmd arg w. (pos 0, w);
  read = λ fd size w. (negsuc 0, [], w);
  write = λ fd bytes w. (negsuc 0, w);
  pread = λ fd size off w. (negsuc 0, [], w);
  pwrite = λ fd bytes off w. (negsuc 0, w);
}

abbrev api : TimerOs ItimerSpec
api = record {
  os = os;
  timerfd_create = λ clock flags w. (pos 3, w);
  timerfd_gettime = λ fd w. (pos 0, w, w);
  timerfd_settime = λ fd flags spec w. (pos 0, w, spec);
}

abbrev seconds : ℕ → TimeSpec
seconds n = record { tv_sec = pos n; tv_nsec = pos 0 }

abbrev every : ℕ → ℕ → ItimerSpec
every first rest = record { it_interval = seconds rest; it_value = seconds first }

law : SetLaw api (pos 3) (λ w. w)
law = record {
  sets = λ flags spec w n old w' e. (ap (λ r. r.2) (sym e), ap (λ r. r.1) (sym e));
  refuses = λ flags spec w e old w' h. cc;
}

-- A timer of 5 and then 2 seconds, in a phase, with one second left at its last pause.
abbrev timer : Phase → Timer
timer p = record {
  timerfd = descriptor (pos 3);
  spec = every 5 2;
  remaining = every 1 2;
  state = p;
}

abbrev at : Phase → ItimerSpec → State ItimerSpec
at p w = record { self = timer p; world = w }

-- A timer that was paused and stopped while its system waited.
history :
    Reach api
      (λ w. w)
      (at started (every 3 2))
      (record { self = record (timer stopped) { remaining = every 3 2 }; world = no_timer })
unfolding run pause stop Timerfd.settime
history = next (next (next here (passes refl (λ e. cc))) (done pauses refl)) (done stops refl)

Reach-refines_example :
    Explained api law
      (record { mode = runs (every 3 2); setup = every 5 2 })
      (called stops ∷ called pauses ∷ waited ∷ [])
      (record { self = record (timer stopped) { remaining = every 3 2 }; world = no_timer })
unfolding events step_events history
Reach-refines_example =
    Reach-refines api law (record { mode = runs (every 3 2); setup = every 5 2 }) history
      (record { same_fd = refl; machine = refl; kernel = refl })

-- A timer that was halted on the instant of an expiry.
abbrev expired : State ItimerSpec
expired = record { self = record (timer paused) { remaining = every 0 2 }; world = no_timer }

run-refines_example :
    Ends
      (λ _ t. Shows (pos 3) (λ w. w) t (record { mode = runs (every 2 2); setup = every 5 2 }))
      (λ _ t. Shows (pos 3) (λ w. w) t (record { mode = halts (every 2 2); setup = every 5 2 }))
      (run api resumes expired)
run-refines_example =
    run-refines api law resumes expired (record { mode = halts (every 2 2); setup = every 5 2 })
      (record { same_fd = refl; machine = refl; kernel = refl })

-- Runs of the code: a timer that has expired for good is resumed with its interval.
resuming :
    resume api (record { self = record (timer paused) { remaining = every 0 2 }; world = no_timer })
    ≡ ok tt (record { self = record (timer started) { remaining = every 2 2 }; world = every 2 2 })
unfolding resume refill Timerfd.settime
resuming = refl

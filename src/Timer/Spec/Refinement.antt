-- ===== src/Timer/Spec/Refinement.antt =====
-- That the class does what Spec says, whatever phase it is in.
use fdcpp.Base.{ℤ, ◌≡◌, refl, sym, ap, ap₂, ◌∙◌, subst, arith}
use fdcpp.Effect.{Run}
use fdcpp.Effect.Ends
use fdcpp.Effect.Ends.{Post, Ends, returns}
use fdcpp.Descriptor.{Descriptor}
use fdcpp.Timerfd.{ItimerSpec, TimerOs}
use fdcpp.Timer.{
  Phase, started, paused, stopped, Timer, State, settime, refill, start, start_in, pause, pause_in,
  resume, resume_in, stop, stop_in,
}
use fdcpp.Timer.Kernel.{SetLaw}
use fdcpp.Timer.Control.{Sets, start-Sets, pause-Sets, resume-Sets, stop-Sets}
use fdcpp.Timer.Reach.{Call, starts, pauses, resumes, stops, sets, run}
use fdcpp.Timer.Spec.{halts, runs, Machine, complete, armed, spec_call, machine_of, mode_of, Shows}

refill-complete : (r : ItimerSpec) → refill r ≡ complete r
unfolding refill
refill-complete r = ground arith

complete-complete : (r : ItimerSpec) → complete (complete r) ≡ complete r
complete-complete r = ground arith

settime-complete : (ts : ItimerSpec) (t : Timer) → (settime ts t).spec ≡ complete ts
unfolding settime
settime-complete ts t = ground arith

module _ {W : Type 0} (api : TimerOs W) {fd : ℤ} {setting : W → ItimerSpec}
    (law : SetLaw api fd setting) where
  -- A run that ends, as the machine `after` or, by an exception, as `before`.
  abbrev Turns : Machine → Machine → Run (State W) (Unit {0}) → Type 0
  Turns before after = Ends (λ _ t. Shows fd setting t after) (λ _ t. Shows fd setting t before)

  module _ (d : Descriptor) (same : d.fd ≡ fd) (setup remaining : ItimerSpec) (w : W) where
    abbrev object : Phase → Timer
    object p = record { timerfd = d; spec = setup; remaining = remaining; state = p }

    abbrev here : Phase → State W
    here p = record { self = object p; world = w }

    abbrev before : Phase → Machine
    before p = machine_of (object p) (setting w)

    -- The kernel's timer is as the phase says.
    abbrev InStep : Phase → Type 0
    InStep p = setting w ≡ armed (before p).mode

    law_here : SetLaw api d.fd setting
    law_here = subst (λ n. SetLaw api n setting) (sym same) law

    stays : (p : Phase) → InStep p → Shows fd setting (here p) (before p)
    stays p k = record { same_fd = same; machine = refl; kernel = k }

    Sets-Turns :
        (p : Phase) {r : Run (State W) (Unit {0})} {after : Machine} (self : Timer)
        (spec : ItimerSpec) (kept : Timer)
        → Sets setting (here p) self spec kept r
        → InStep p
        → (self.timerfd ≡ d) × (kept.timerfd ≡ d)
        → (machine_of self spec ≡ after) × (spec ≡ armed after.mode)
        → machine_of kept (setting w) ≡ before p
        → Turns (before p) after r
    Sets-Turns p self spec kept h k fds new old =
        Ends.mono h
          (λ _ t q. record {
            same_fd =
                ap {A = Timer} (λ x. x.timerfd.fd) q.0
                ∙ ap {A = Descriptor} (λ x. x.fd) fds.0
                ∙ same;
            machine = ap₂ machine_of q.0 q.1 ∙ new.0;
            kernel = q.1 ∙ new.1;
          })
          (λ _ t q. record {
            same_fd =
                ap {A = Timer} (λ x. x.timerfd.fd) q.0
                ∙ ap {A = Descriptor} (λ x. x.fd) fds.1
                ∙ same;
            machine = ap₂ machine_of q.0 q.1 ∙ old;
            kernel = q.1 ∙ k;
          })

    start-Turns :
        (p : Phase) → InStep p → Turns (before p) (spec_call starts (before p)) (start api (here p))
    unfolding start start_in
    start-Turns started k = returns (stays started k)
    start-Turns paused k =
        Sets-Turns paused _ _ _ (start-Sets api (here paused) law_here (λ h. cc)) k (refl, refl)
          (refl, refl) refl
    start-Turns stopped k =
        Sets-Turns stopped _ _ _ (start-Sets api (here stopped) law_here (λ h. cc)) k (refl, refl)
          (refl, refl) refl

    pause-Turns :
        (p : Phase) → InStep p → Turns (before p) (spec_call pauses (before p)) (pause api (here p))
    unfolding pause pause_in
    pause-Turns started k =
        Sets-Turns started _ _ _ (pause-Sets api (here started) law_here refl) k (refl, refl)
          (refl, refl) refl
    pause-Turns paused k = returns (stays paused k)
    pause-Turns stopped k = returns (stays stopped k)

    resume-Turns :
        (p : Phase)
        → InStep p
        → Turns (before p) (spec_call resumes (before p)) (resume api (here p))
    unfolding resume resume_in
    resume-Turns started k = returns (stays started k)
    resume-Turns paused k =
        Sets-Turns paused _ _ _ (resume-Sets api (here paused) law_here refl) k (refl, refl)
          (
            ap (λ r. record { mode = runs r; setup = setup }) (refill-complete remaining),
            refill-complete remaining,
          )
          (ap (λ r. record { mode = halts (complete r); setup = setup }) (refill-complete remaining)
            ∙ ap (λ r. record { mode = halts r; setup = setup }) (complete-complete remaining))
    resume-Turns stopped k = returns (stays stopped k)

    stop-Turns :
        (p : Phase) → InStep p → Turns (before p) (spec_call stops (before p)) (stop api (here p))
    unfolding stop stop_in
    stop-Turns started k =
        Sets-Turns started _ _ _ (stop-Sets api (here started) law_here (λ h. cc)) k (refl, refl)
          (refl, refl) refl
    stop-Turns paused k =
        Sets-Turns paused _ _ _ (stop-Sets api (here paused) law_here (λ h. cc)) k (refl, refl)
          (refl, refl) refl
    stop-Turns stopped k = returns (stays stopped k)

    run-Turns :
        (c : Call) (p : Phase)
        → InStep p
        → Turns (before p) (spec_call c (before p)) (run api c (here p))
    unfolding run settime
    run-Turns starts p k = start-Turns p k
    run-Turns pauses p k = pause-Turns p k
    run-Turns resumes p k = resume-Turns p k
    run-Turns stops p k = stop-Turns p k
    run-Turns (sets ts) p k = returns (record {
      same_fd = same;
      machine =
          ap (λ r. record { mode = mode_of p remaining (setting w); setup = r })
            (settime-complete ts (object p));
      kernel = k;
    })

  -- Any call, in any phase: an object that stands for a machine, and its kernel's timer, stand for what
  -- the specification makes of the machine if the call returns, and for the same machine if it throws.
  pub run-refines :
      (c : Call) (s : State W) (a : Machine)
      → Shows fd setting s a
      → Turns a (spec_call c a) (run api c s)
  run-refines c s a v =
      subst (λ m. Turns m (spec_call c m) (run api c s)) v.machine
        (run-Turns s.self.timerfd v.same_fd s.self.spec s.self.remaining s.world c s.self.state
          (v.kernel ∙ ap (λ m. armed m.mode) (sym v.machine)))

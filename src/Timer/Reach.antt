-- ===== src/Timer/Reach.antt =====
-- The timer's phases as a state machine: calls that return or throw, and time that passes.
use fdcpp.Base.{ℤ, ◌≡◌, ◌≢◌, refl, sym, ap, ◌∙◌, subst}
use fdcpp.Effect.{Run, Cmd, Error, ok, throw}
use fdcpp.Effect.Ends
use fdcpp.Effect.Ends.{Ends, returns, throws, Post, post}
use fdcpp.Descriptor.{Descriptor}
use fdcpp.Timerfd.{ItimerSpec, TimerOs}
use fdcpp.Timer.{
  some_time, Phase, started, paused, stopped, Timer, State, no_timer, settime, start_in, pause_in,
  resume_in, stop_in, start, pause, resume, stop,
}
use fdcpp.Timer.Kernel.{SetLaw, Disarmed}
use fdcpp.Timer.Control.{Sets, in_phase, refilled, start-Sets, pause-Sets, resume-Sets, stop-Sets}

pub data Call : Type 0 where
  starts pauses resumes stops : Call
  sets : ItimerSpec → Call

module _ {W : Type 0} (api : TimerOs W) where
  unfoldable pub run : Call → Cmd (State W) (Unit {0})
  run starts s = start api s
  run pauses s = pause api s
  run resumes s = resume api s
  run stops s = stop api s
  run (sets ts) s = ok tt (record s { self = settime ts s.self })

  -- A call that returns, one that throws, and a change of the system in which a timer that does not
  -- run stays as it is.
  pub data Step (setting : W → ItimerSpec) (s : State W) : State W → Type 0 where
    done : {t : State W} (c : Call) → run c s ≡ ok tt t → Step setting s t
    failed : {t : State W} (c : Call) (e : Error) → run c s ≡ throw e t → Step setting s t
    passes :
        {t : State W}
        → t.self ≡ s.self
        → (Disarmed (setting s.world) → setting t.world ≡ setting s.world)
        → Step setting s t

  pub data Reach (setting : W → ItimerSpec) (s : State W) : State W → Type 0 where
    here : Reach setting s s
    next : {t u : State W} → Reach setting s t → Step setting t u → Reach setting s u

-- A timer that is not started does not run.
pub record Inv {W : Type 0} (fd : ℤ) (setting : W → ItimerSpec) (s : State W) : Type 0 where
  pub same_fd : s.self.timerfd.fd ≡ fd
  pub at_rest : s.self.state ≢ started → setting s.world ≡ no_timer

module _ {W : Type 0} (api : TimerOs W) (fd : ℤ) {setting : W → ItimerSpec}
    (law : SetLaw api fd setting) where
  -- A run after which, however it ended, the invariant holds.
  abbrev Keeps : Run (State W) (Unit {0}) → Type 0
  Keeps = Ends (λ _ t. Inv fd setting t) (λ _ t. Inv fd setting t)

  module _ (s : State W) (v : Inv fd setting s) where
    law_here : SetLaw api s.self.timerfd.fd setting
    law_here = subst (λ n. SetLaw api n setting) (sym v.same_fd) law

    -- From what a call sets: `self` is started, or the timer is disarmed.
    Sets-Inv :
        {r : Run (State W) (Unit {0})} (self : Timer) (spec : ItimerSpec) (kept : Timer)
        → Sets setting s self spec kept r
        → self.timerfd ≡ s.self.timerfd
        → kept.timerfd ≡ s.self.timerfd
        → kept.state ≡ s.self.state
        → (self.state ≢ started → spec ≡ no_timer)
        → Keeps r
    Sets-Inv self spec kept h fd₁ fd₂ same rest =
        Ends.mono h
          (λ _ t p. record {
            same_fd =
                ap {A = Timer} (λ x. x.timerfd.fd) p.0
                ∙ ap {A = Descriptor} (λ d. d.fd) fd₁
                ∙ v.same_fd;
            at_rest = λ h. p.1 ∙ rest (λ e. h (ap {A = Timer} (λ x. x.state) p.0 ∙ e));
          })
          (λ _ t p. record {
            same_fd =
                ap {A = Timer} (λ x. x.timerfd.fd) p.0
                ∙ ap {A = Descriptor} (λ d. d.fd) fd₂
                ∙ v.same_fd;
            at_rest = λ h. p.1 ∙ v.at_rest (λ e. h (ap {A = Timer} (λ x. x.state) p.0 ∙ same ∙ e));
          })

    start-Inv : (p : Phase) → s.self.state ≡ p → Keeps (start api s)
    unfolding start start_in
    start-Inv started e = subst (λ p. Keeps (start_in api p s)) (sym e) (returns v)
    start-Inv paused e =
        Sets-Inv (in_phase started s.self) s.self.spec s.self (start-Sets api s law_here (λ h. cc))
          refl refl refl (λ h. absurd (h refl))
    start-Inv stopped e =
        Sets-Inv (in_phase started s.self) s.self.spec s.self (start-Sets api s law_here (λ h. cc))
          refl refl refl (λ h. absurd (h refl))

    pause-Inv : (p : Phase) → s.self.state ≡ p → Keeps (pause api s)
    unfolding pause pause_in
    pause-Inv started e =
        Sets-Inv _ no_timer s.self (pause-Sets api s law_here e) refl refl refl (λ _. refl)
    pause-Inv paused e = subst (λ p. Keeps (pause_in api p s)) (sym e) (returns v)
    pause-Inv stopped e = subst (λ p. Keeps (pause_in api p s)) (sym e) (returns v)

    resume-Inv : (p : Phase) → s.self.state ≡ p → Keeps (resume api s)
    unfolding resume resume_in
    resume-Inv started e = subst (λ p. Keeps (resume_in api p s)) (sym e) (returns v)
    resume-Inv paused e =
        Sets-Inv (in_phase started (refilled api s law_here)) _ (refilled api s law_here)
          (resume-Sets api s law_here e) refl refl refl (λ h. absurd (h refl))
    resume-Inv stopped e = subst (λ p. Keeps (resume_in api p s)) (sym e) (returns v)

    stop-Inv : (p : Phase) → s.self.state ≡ p → Keeps (stop api s)
    unfolding stop stop_in
    stop-Inv started e =
        Sets-Inv (in_phase stopped s.self) no_timer s.self (stop-Sets api s law_here (λ h. cc)) refl
          refl refl (λ _. refl)
    stop-Inv paused e =
        Sets-Inv (in_phase stopped s.self) no_timer s.self (stop-Sets api s law_here (λ h. cc)) refl
          refl refl (λ _. refl)
    stop-Inv stopped e = subst (λ p. Keeps (stop_in api p s)) (sym e) (returns v)

    run-Inv : (c : Call) → Keeps (run api c s)
    unfolding run settime
    run-Inv starts = start-Inv s.self.state refl
    run-Inv pauses = pause-Inv s.self.state refl
    run-Inv resumes = resume-Inv s.self.state refl
    run-Inv stops = stop-Inv s.self.state refl
    run-Inv (sets ts) = returns (record { same_fd = v.same_fd; at_rest = v.at_rest })

  Step-Inv : {s t : State W} → Step api setting s t → Inv fd setting s → Inv fd setting t
  Step-Inv {s} (done c e) v =
      subst (Post (λ _ t. Inv fd setting t) (λ _ t. Inv fd setting t)) e (post (run-Inv s v c))
  Step-Inv {s} (failed c err e) v =
      subst (Post (λ _ t. Inv fd setting t) (λ _ t. Inv fd setting t)) e (post (run-Inv s v c))
  Step-Inv {s} {t} (passes e still) v = record {
    same_fd = ap {A = Timer} (λ x. x.timerfd.fd) e ∙ v.same_fd;
    at_rest = λ h.
        let q = v.at_rest (λ k. h (ap {A = Timer} (λ x. x.state) e ∙ k)) in
        still (ap {A = ItimerSpec} (λ x. some_time x.it_value) q) ∙ q;
  }

  -- After any calls, some of which may have thrown, with any time between them, the kernel's timer
  -- runs only if the object is started.
  pub Reach-Inv : {s t : State W} → Reach api setting s t → Inv fd setting s → Inv fd setting t
  Reach-Inv here v = v
  Reach-Inv (next r st) v = Step-Inv st (Reach-Inv r v)

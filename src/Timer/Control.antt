-- ===== src/Timer/Control.antt =====
-- What the calls of a timer do to the kernel's timer, in every phase.
use fdcpp.Base.{◌≡◌, ◌≢◌, refl, sym, ap, subst, ◌⊎◌, inl, inr}
use fdcpp.Effect.{Run, Error, and_then}
use fdcpp.Effect.Ends
use fdcpp.Effect.Ends.{Ends, returns, throws}
use fdcpp.Timerfd.{ItimerSpec, TimerOs}
use fdcpp.Timer.{
  Phase, started, paused, stopped, Timer, State, no_timer, refill, start_in, pause_in, resume_in,
  stop_in, start, pause, resume, stop,
}
use fdcpp.Timer.Kernel.{SetLaw, set_then-Ends}

-- The object with another phase.
abbrev pub in_phase : Phase → Timer → Timer
in_phase p t = record t { state = p }

module _ {W : Type 0} (setting : W → ItimerSpec) where
  -- The object and the kernel's timer afterwards; after an exception, what both were.
  abbrev pub Sets : State W → Timer → ItimerSpec → Timer → Run (State W) (Unit {0}) → Type 0
  Sets s self spec kept =
      Ends (λ _ t. (t.self ≡ self) × (setting t.world ≡ spec))
        (λ _ t. (t.self ≡ kept) × (setting t.world ≡ setting s.world))

module _ {W : Type 0} (api : TimerOs W) {setting : W → ItimerSpec} (s : State W)
    (law : SetLaw api s.self.timerfd.fd setting) where
  start_in-Sets :
      (p : Phase)
      → p ≢ started
      → Sets setting s (in_phase started s.self) s.self.spec s.self (start_in api p s)
  unfolding start_in
  start_in-Sets started h = absurd (h refl)
  start_in-Sets _ h = set_then-Ends api s.self law s.self.spec (λ _. in_phase started s.self) s

  -- `start` arms a timer that is paused or stopped with the setting of `settime`, from its
  -- beginning.
  pub start-Sets :
      s.self.state ≢ started
      → Sets setting s (in_phase started s.self) s.self.spec s.self (start api s)
  unfolding start
  start-Sets h = start_in-Sets s.self.state h

  pause_in-Sets :
      (p : Phase)
      → p ≡ started
      → Sets setting s
          (record s.self { remaining = setting s.world; state = paused })
          no_timer
          s.self
          (pause_in api p s)
  unfolding pause_in
  pause_in-Sets started h =
      set_then-Ends api s.self law no_timer
        (λ old. record s.self { remaining = old; state = paused }) s
  pause_in-Sets paused h = cc
  pause_in-Sets stopped h = cc

  -- `pause` disarms a started timer and keeps what it had left.
  pub pause-Sets :
      s.self.state ≡ started
      → Sets setting s
          (record s.self { remaining = setting s.world; state = paused })
          no_timer
          s.self
          (pause api s)
  unfolding pause
  pause-Sets h = pause_in-Sets s.self.state h

  abbrev pub refilled : Timer
  refilled = record s.self { remaining = refill s.self.remaining }

  resume_in-Sets :
      (p : Phase)
      → p ≡ paused
      → Sets setting s
          (in_phase started refilled)
          (refill s.self.remaining)
          refilled
          (resume_in api p s)
  unfolding resume_in
  resume_in-Sets paused h =
      set_then-Ends api refilled law (refill s.self.remaining) (λ _. in_phase started refilled) s
  resume_in-Sets started h = cc
  resume_in-Sets stopped h = cc

  -- `resume` arms a paused timer with what it had left.
  pub resume-Sets :
      s.self.state ≡ paused
      → Sets setting s (in_phase started refilled) (refill s.self.remaining) refilled (resume api s)
  unfolding resume
  resume-Sets h = resume_in-Sets s.self.state h

  stop_in-Sets :
      (p : Phase)
      → p ≢ stopped
      → Sets setting s (in_phase stopped s.self) no_timer s.self (stop_in api p s)
  unfolding stop_in
  stop_in-Sets stopped h = absurd (h refl)
  stop_in-Sets _ h = set_then-Ends api s.self law no_timer (λ _. in_phase stopped s.self) s

  -- `stop` disarms a timer that is started or paused.
  pub stop-Sets :
      s.self.state ≢ stopped → Sets setting s (in_phase stopped s.self) no_timer s.self (stop api s)
  unfolding stop
  stop-Sets h = stop_in-Sets s.self.state h

-- A pause, any time, and a resume.
module _ {W : Type 0} (api : TimerOs W) {setting : W → ItimerSpec} (s : State W)
    (law : SetLaw api s.self.timerfd.fd setting) (wait : W → W) where
  abbrev pub pause_wait_resume : Run (State W) (Unit {0})
  pause_wait_resume = and_then (pause api s) (λ _ t. resume api (record t { world = wait t.world }))

  -- Whatever happens to the system while a started timer is paused, `resume` sets it to what it had
  -- left when `pause` was called, and the timer is started; after an exception it is started and
  -- nothing was done, or it is paused.
  pub resume-pause :
      s.self.state ≡ started
      → Ends
          (λ _ t.
            (setting t.world ≡ refill (setting s.world))
            × (t.self ≡ record s.self { remaining = refill (setting s.world); state = started }))
          (λ _ t.
            ((t.self ≡ s.self) × (setting t.world ≡ setting s.world)) ⊎ (t.self.state ≡ paused))
          pause_wait_resume
  resume-pause h =
      Ends.bind (pause-Sets api s law h)
        (λ _ t p.
          subst (λ b. Ends Resumed Failed (resume api (record { self = b; world = wait t.world })))
            (sym p.0)
            (Ends.mono (resume-Sets api (record { self = halted; world = wait t.world }) law refl)
              (λ _ u q. (q.1, q.0)) (λ _ u q. inr (ap {A = Timer} (λ x. x.state) q.0))))
        (λ _ t p. inl p)
    where
      halted : Timer
      halted = record s.self { remaining = setting s.world; state = paused }

      Resumed : Unit {0} → State W → Type 0
      Resumed _ t =
          (setting t.world ≡ refill (setting s.world))
          × (t.self ≡ record s.self { remaining = refill (setting s.world); state = started })

      Failed : Error → State W → Type 0
      Failed _ t =
          ((t.self ≡ s.self) × (setting t.world ≡ setting s.world)) ⊎ (t.self.state ≡ paused)

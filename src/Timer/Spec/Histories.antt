-- ===== src/Timer/Spec/Histories.antt =====
-- What a timer does over time is what the machine of Spec does.
use fdcpp.Base.{ℤ, ◌≡◌, refl, sym, ap, ap₂, ◌∙◌, subst, List, [], ◌∷◌, ◌++◌}
use fdcpp.Effect.Ends.{Post, post}
use fdcpp.Timerfd.{ItimerSpec, TimerOs}
use fdcpp.Timer.{Phase, started, paused, stopped, Timer, State, some_time, no_timer}
use fdcpp.Timer.Kernel.{SetLaw, Disarmed}
use fdcpp.Timer.Reach.{Call, Step, Reach, here, next, done, failed, passes}
use fdcpp.Timer.Spec.{Mode, off, runs, halts, Machine, spec_call, armed, machine_of, mode_of, Shows}
use fdcpp.Timer.Spec.Refinement.{run-refines}

-- What happens to a timer: a call that returns, and time that passes.
pub data Event : Type 0 where
  called : Call → Event
  waited : Event

module _ {W : Type 0} (api : TimerOs W) {setting : W → ItimerSpec} where
  -- A call that throws leaves no trace.
  unfoldable pub step_events : {s t : State W} → Step api setting s t → List Event
  step_events (done c e) = called c ∷ []
  step_events (failed c err e) = []
  step_events (passes same still) = waited ∷ []

  -- The events on the way to a state, the last one first.
  unfoldable pub events : {s t : State W} → Reach api setting s t → List Event
  unfolding step_events
  events here = []
  events (next r st) = step_events st ++ events r

-- The machines to which a list of events leads: each call does what the specification says of it, and
-- while time passes only a timer that runs, and is not disarmed, changes.
pub data History (a : Machine) : List Event → Machine → Type 0 where
  begins : History a [] a
  calls :
      {es : List Event} {b : Machine} (c : Call)
      → History a es b
      → History a (called c ∷ es) (spec_call c b)
  ticks :
      {es : List Event} {b : Machine} (old left : ItimerSpec)
      → b.mode ≡ runs old
      → (Disarmed old → left ≡ old)
      → History a es b
      → History a (waited ∷ es) (record b { mode = runs left })
  rests :
      {es : List Event} {b : Machine}
      → armed b.mode ≡ no_timer
      → History a es b
      → History a (waited ∷ es) b

still_runs :
    (p : Phase) (remaining x y old : ItimerSpec)
    → mode_of p remaining x ≡ runs old
    → mode_of p remaining y ≡ runs y
still_runs started remaining x y old e = refl
still_runs paused remaining x y old e = cc
still_runs stopped remaining x y old e = cc

module _ {W : Type 0} (api : TimerOs W) {fd : ℤ} {setting : W → ItimerSpec}
    (law : SetLaw api fd setting) where
  -- A history that ends at a machine that the object and its kernel's timer stand for.
  abbrev pub Explained : Machine → List Event → State W → Type 0
  Explained a es t = (b : Machine) × History a es b × Shows fd setting t b

  same_state :
      (s t : State W) (b : Machine)
      → Shows fd setting s b
      → t.self ≡ s.self
      → setting t.world ≡ setting s.world
      → Shows fd setting t b
  same_state s t b v same k = record {
    same_fd = ap {A = Timer} (λ x. x.timerfd.fd) same ∙ v.same_fd;
    machine = ap₂ machine_of same k ∙ v.machine;
    kernel = k ∙ v.kernel;
  }

  passes-Explained :
      (a : Machine) (es : List Event) (s t : State W) (b : Machine) (m : Mode)
      → b.mode ≡ m
      → History a es b
      → Shows fd setting s b
      → t.self ≡ s.self
      → (Disarmed (setting s.world) → setting t.world ≡ setting s.world)
      → Explained a (waited ∷ es) t
  passes-Explained a es s t b (runs old) e h v same still =
      let left = setting t.world in
      let mode = ap {A = Machine} (λ x. x.mode) v.machine ∙ e in
      let before : setting s.world ≡ old = v.kernel ∙ ap armed e in
      (
        record b { mode = runs left },
        ticks old left e (λ d. still (subst Disarmed (sym before) d) ∙ before) h,
        record {
          same_fd = ap {A = Timer} (λ x. x.timerfd.fd) same ∙ v.same_fd;
          machine =
              ap (λ x. machine_of x left) same
              ∙ ap₂ (λ x y. record { mode = x; setup = y })
                  (still_runs s.self.state s.self.remaining (setting s.world) left old mode)
                  (ap {A = Machine} (λ x. x.setup) v.machine);
          kernel = refl;
        },
      )
  passes-Explained a es s t b off e h v same still =
      let rest = v.kernel ∙ ap armed e in
      (
        b,
        rests (ap armed e) h,
        same_state s t b v same (still (ap {A = ItimerSpec} (λ x. some_time x.it_value) rest)),
      )
  passes-Explained a es s t b (halts left) e h v same still =
      let rest = v.kernel ∙ ap armed e in
      (
        b,
        rests (ap armed e) h,
        same_state s t b v same (still (ap {A = ItimerSpec} (λ x. some_time x.it_value) rest)),
      )

  Step-Explained :
      (a : Machine) (es : List Event) {s t : State W} (st : Step api setting s t)
      → Explained a es s
      → Explained a (step_events api st ++ es) t
  unfolding step_events
  Step-Explained a es {s} (done c e) (b, h, v) = (
    spec_call c b,
    calls c h,
    subst (Post (λ _ u. Shows fd setting u (spec_call c b)) (λ _ u. Shows fd setting u b)) e
        (post (run-refines api law c s b v)),
  )
  Step-Explained a es {s} (failed c err e) (b, h, v) = (
    b,
    h,
    subst (Post (λ _ u. Shows fd setting u (spec_call c b)) (λ _ u. Shows fd setting u b)) e
        (post (run-refines api law c s b v)),
  )
  Step-Explained a es {s} {t} (passes same still) (b, h, v) =
      passes-Explained a es s t b b.mode refl h v same still

  -- Whatever calls return or throw, and whatever time passes between them, the object and its kernel's
  -- timer stand for a machine to which the events on the way lead from the first one: just the calls that
  -- returned and the waiting, in their order, where only a timer that runs changes while time passes.
  pub Reach-refines :
      (a : Machine) {s t : State W} (r : Reach api setting s t)
      → Shows fd setting s a
      → Explained a (events api r) t
  unfolding events
  Reach-refines a here v = (a, begins, v)
  Reach-refines a (next r st) v = Step-Explained a (events api r) st (Reach-refines a r v)

-- ===== src/Timer/Kernel.antt =====
-- What timerfd_settime(2) promises of a timer, in the view of its setting: the time to the next
-- expiry and the interval.
use fdcpp.Base.{ap, ℕ, ℤ, pos, negsuc, ◌≡◌, false, refl}
use fdcpp.Effect.{Run}
use fdcpp.Effect.Ends.{Ends, returns, throws}
use fdcpp.Throw.{throw_system_error}
use fdcpp.Descriptor.{Descriptor}
use fdcpp.Timerfd.{ItimerSpec, TimerOs}
use fdcpp.Timerfd
use fdcpp.Timer.{Timer, State, some_time, land, set_then}

-- A success sets the timer and returns its old setting; a failure leaves it as it is.
pub record SetLaw {W : Type 0} (api : TimerOs W) (fd : ℤ) (setting : W → ItimerSpec) : Type 0 where
  pub sets :
      (flags : ℕ) (spec : ItimerSpec) (w : W) (n : ℕ) (old : ItimerSpec) (w' : W)
      → api.timerfd_settime fd flags spec w ≡ (pos n, old, w')
      → (setting w' ≡ spec) × (old ≡ setting w)
  pub refuses :
      (flags : ℕ) (spec : ItimerSpec) (w : W) (e : ℕ) (old : ItimerSpec) (w' : W)
      → api.timerfd_settime fd flags spec w ≡ (negsuc e, old, w')
      → setting w' ≡ setting w

-- A timer with no time to the next expiry does not run.
abbrev pub Disarmed : ItimerSpec → Type 0
Disarmed s = some_time s.it_value ≡ false

settime-Ends :
    {W : Type 0} (api : TimerOs W) {setting : W → ItimerSpec} (self : Descriptor)
    → SetLaw api self.fd setting
    → (spec : ItimerSpec) (w : W)
    → Ends
        (λ old w'. (setting w' ≡ spec) × (old ≡ setting w))
        (λ _ w'. setting w' ≡ setting w)
        (Timerfd.settime api self spec 0 w)
unfolding Timerfd.settime throw_system_error
settime-Ends {W} api {setting} self law spec w = go (api.timerfd_settime self.fd 0 spec w) refl
  where
    go :
        (r : ℤ × ItimerSpec × W)
        → api.timerfd_settime self.fd 0 spec w ≡ r
        → Ends
            (λ old w'. (setting w' ≡ spec) × (old ≡ setting w))
            (λ _ w'. setting w' ≡ setting w)
            (Timerfd.settime api self spec 0 w)
    go (pos n, old, w') e = rw (e, Timerfd.settime) (returns (law.sets 0 spec w n old w' e))
    go (negsuc n, old, w') e = rw (e, Timerfd.settime) (throws (law.refuses 0 spec w n old w' e))

land-Ends :
    {W : Type 0} (setting : W → ItimerSpec) (self : Timer) (next : ItimerSpec → Timer)
    (spec before : ItimerSpec) {r : Run W ItimerSpec}
    → Ends (λ old w'. (setting w' ≡ spec) × (old ≡ before)) (λ _ w'. setting w' ≡ before) r
    → Ends
        (λ _ t. (t.self ≡ next before) × (setting t.world ≡ spec))
        (λ _ t. (t.self ≡ self) × (setting t.world ≡ before))
        (land self next r)
land-Ends setting self next spec before (returns p) = returns (ap next p.1, p.0)
land-Ends setting self next spec before (throws p) = throws (refl, p)

module _ {W : Type 0} (api : TimerOs W) {setting : W → ItimerSpec} (self : Timer)
    (law : SetLaw api self.timerfd.fd setting) where
  -- The timer has the setting asked for, or an exception leaves it as it was.
  pub set_then-Ends :
      (spec : ItimerSpec) (next : ItimerSpec → Timer) (s : State W)
      → Ends
          (λ _ t. (t.self ≡ next (setting s.world)) × (setting t.world ≡ spec))
          (λ _ t. (t.self ≡ self) × (setting t.world ≡ setting s.world))
          (set_then api self spec next s)
  set_then-Ends spec next s =
      land-Ends setting self next spec (setting s.world)
        (settime-Ends api self.timerfd law spec s.world)

-- ===== src/Epoll/Interest.antt =====
-- The calls on an epoll object against the set of watched descriptors.
use native.Mathlib.Decide.{ℕ_discrete}
use fdcpp.Base.{
  ℕ, ◌^◌, ◌<◌, ◌≡◌, refl, ◌≢◌, sym, ap, ◌∙◌, subst, ℤ, pos, Option, none, some, take, length, ◌⊎◌,
  inl, inr, arith,
}
use fdcpp.Effect.{Run, Cmd, Error, ok, throw}
use fdcpp.Effect.Ends
use fdcpp.Effect.Ends.{Ends, returns, throws, Post, post}
use fdcpp.Os.Checked.{done-Ends, filled-Ends}
use fdcpp.Descriptor.{Descriptor}
use fdcpp.Endian.{Order, to_signed, of_object}
use fdcpp.Endian.Wire.{IsSigned}
use fdcpp.Epoll.{
  add_ptr, mod_ptr, u32_event, u64_event, ptr_event, mod_u64, add_u64, mod_u32, add_u32, EpollEvent,
  EpollOs, epoll_ctl_add, epoll_ctl_mod, epoll_ctl_del, int_event, data_fd, data_u32, data_u64, ctl,
  add_int, mod_int, del, wait,
}
use fdcpp.Epoll.Fields.{data_fd-int_event, fields_lem}
use fdcpp.Epoll.Kernel.{All, All-map, EpollLaw}

some_inj : {A : Type 0} {a b : A} → some a ≡ some b → b ≡ a
some_inj e = cc

pub ℤ_discrete : Discrete ℤ
ℤ_discrete = hlevel ℕ_discrete

-- A descriptor that is watched under its own number.
pub data Call : Type 0 where
  adds mods : ℤ → ℕ → Call
  dels : ℤ → Call

-- `int` of 32 bits.
abbrev pub IsInt : Call → Type 0
IsInt (adds fd mask) = IsSigned (2 ^ 31) fd
IsInt (mods fd mask) = IsSigned (2 ^ 31) fd
IsInt (dels fd) = Unit

module _ {W : Type 0} (api : EpollOs W) (o : Order) (self : Descriptor) where
  unfoldable pub run : Call → Cmd W (Unit {0})
  run (adds fd mask) = add_int api o self fd mask fd
  run (mods fd mask) = mod_int api o self fd mask fd
  run (dels fd) = del api self fd

  -- Calls that return or throw, and descriptors that leave the set when they are closed.
  pub data Reach (watched : W → ℤ → Option EpollEvent) (s : W) : W → Type 0 where
    here : Reach watched s s
    returned :
        {t u : W} (c : Call) → Reach watched s t → IsInt c → run c t ≡ ok tt u → Reach watched s u
    threw :
        {t u : W} (c : Call) (e : Error)
        → Reach watched s t
        → IsInt c
        → run c t ≡ throw e u
        → Reach watched s u
    closed :
        {t u : W}
        → Reach watched s t
        → ((k : ℤ) → (watched u k ≡ watched t k) ⊎ (watched u k ≡ none))
        → Reach watched s u

-- The event of every watched descriptor has its number in `data.fd`.
abbrev pub Tagged : {W : Type 0} → Order → (W → ℤ → Option EpollEvent) → W → Type 0
Tagged o watched w = (fd : ℤ) (ev : EpollEvent) → watched w fd ≡ some ev → data_fd o ev ≡ fd

module _ {W : Type 0} (api : EpollOs W) (o : Order) (self : Descriptor)
    {watched : W → ℤ → Option EpollEvent} (law : EpollLaw api self.fd watched) where
  -- A call that returns found the descriptor as `Before` says and left it as `After` says, and no other
  -- has changed; or it threw and nothing has.
  abbrev pub Ctl :
      (Option EpollEvent → Type 0)
      → (Option EpollEvent → Type 0)
      → ℤ
      → W
      → Run W (Unit {0})
      → Type 0
  Ctl Before After fd w =
      Ends
        (λ _ w'.
          Before (watched w fd)
          × After (watched w' fd)
          × ((k : ℤ) → k ≢ fd → watched w' k ≡ watched w k))
        (λ _ w'. (k : ℤ) → watched w' k ≡ watched w k)

  -- The descriptor is in the set with an event of which `Has` holds.
  abbrev pub In : (EpollEvent → Type 0) → Option EpollEvent → Type 0
  In Has new = (ev : EpollEvent) × (new ≡ some ev) × Has ev

  abbrev pub Absent : Option EpollEvent → Type 0
  Absent old = old ≡ none

  abbrev pub Present : Option EpollEvent → Type 0
  Present old = old ≢ none

  add-Ctl :
      (fd : ℤ) (ev : EpollEvent) (w : W)
      → Ctl Absent (λ new. new ≡ some ev) fd w (ctl api self epoll_ctl_add fd (some ev) w)
  unfolding ctl
  add-Ctl fd ev w =
      done-Ends api.os _ _ (api.epoll_ctl self.fd epoll_ctl_add fd (some ev) w)
        (λ n w' e. law.adds fd ev w n w' e)
        (λ n w' e. law.fails epoll_ctl_add fd (some ev) w n w' e)

  mod-Ctl :
      (fd : ℤ) (ev : EpollEvent) (w : W)
      → Ctl Present (λ new. new ≡ some ev) fd w (ctl api self epoll_ctl_mod fd (some ev) w)
  unfolding ctl
  mod-Ctl fd ev w =
      done-Ends api.os _ _ (api.epoll_ctl self.fd epoll_ctl_mod fd (some ev) w)
        (λ n w' e. law.mods fd ev w n w' e)
        (λ n w' e. law.fails epoll_ctl_mod fd (some ev) w n w' e)

  del-Ctl : (fd : ℤ) (w : W) → Ctl Present Absent fd w (ctl api self epoll_ctl_del fd none w)
  unfolding ctl
  del-Ctl fd w =
      done-Ends api.os _ _ (api.epoll_ctl self.fd epoll_ctl_del fd none w)
        (λ n w' e. law.removes fd none w n w' e)
        (λ n w' e. law.fails epoll_ctl_del fd none w n w' e)

  -- `add` and `mod` of one event.
  both-Ctl :
      (Has : EpollEvent → Type 0) (fd : ℤ) (ev : EpollEvent) (w : W)
      → Has ev
      → Ctl Absent (In Has) fd w (ctl api self epoll_ctl_add fd (some ev) w)
        × Ctl Present (In Has) fd w (ctl api self epoll_ctl_mod fd (some ev) w)
  both-Ctl Has fd ev w h = (
    Ends.mono (add-Ctl fd ev w) (λ _ _ p. (p.0, (ev, p.1, h), p.2)) (λ _ _ p. p),
    Ends.mono (mod-Ctl fd ev w) (λ _ _ p. (p.0, (ev, p.1, h), p.2)) (λ _ _ p. p),
  )

  -- For each type of data, a value that the type holds: `add` puts a descriptor that was not in the set
  -- into it, and `mod` changes one that was, with an event that has the mask and in which the member of
  -- the union for that type (`u64` for a pointer) reads as the value; `del` removes a descriptor that
  -- was in the set. No other descriptor changes, and nothing does if the call throws.
  pub calls-Ctl :
      (fd : ℤ) (mask : ℕ) (z : ℤ) (u v p : ℕ) (w : W)
      → IsSigned (2 ^ 31) z
      → u < 2 ^ 32
      → v < 2 ^ 64
      → p < 2 ^ 64
      → (Ctl Absent
            (In (λ ev. (ev.events ≡ mask) × (data_fd o ev ≡ z)))
            fd
            w
            (add_int api o self fd mask z w)
          × Ctl Present
              (In (λ ev. (ev.events ≡ mask) × (data_fd o ev ≡ z)))
              fd
              w
              (mod_int api o self fd mask z w))
        × (Ctl Absent
              (In (λ ev. (ev.events ≡ mask) × (data_u32 o ev ≡ u)))
              fd
              w
              (add_u32 api o self fd mask u w)
            × Ctl Present
                (In (λ ev. (ev.events ≡ mask) × (data_u32 o ev ≡ u)))
                fd
                w
                (mod_u32 api o self fd mask u w))
        × (Ctl Absent
              (In (λ ev. (ev.events ≡ mask) × (data_u64 o ev ≡ v)))
              fd
              w
              (add_u64 api o self fd mask v w)
            × Ctl Present
                (In (λ ev. (ev.events ≡ mask) × (data_u64 o ev ≡ v)))
                fd
                w
                (mod_u64 api o self fd mask v w))
        × (Ctl Absent
              (In (λ ev. (ev.events ≡ mask) × (data_u64 o ev ≡ p)))
              fd
              w
              (add_ptr api o self fd mask p w)
            × Ctl Present
                (In (λ ev. (ev.events ≡ mask) × (data_u64 o ev ≡ p)))
                fd
                w
                (mod_ptr api o self fd mask p w))
        × Ctl Present Absent fd w (del api self fd w)
  unfolding add_int mod_int add_u32 mod_u32 add_u64 mod_u64 add_ptr mod_ptr del int_event u32_event
      u64_event ptr_event
  calls-Ctl fd mask z u v p w hz hu hv hp =
      let f = fields_lem o mask z u v p hz hu hv hp in
      (
        both-Ctl (λ ev. (ev.events ≡ mask) × (data_fd o ev ≡ z)) fd (int_event o mask z) w
            (refl, f.0),
        both-Ctl (λ ev. (ev.events ≡ mask) × (data_u32 o ev ≡ u)) fd (u32_event o mask u) w
            (refl, f.1),
        both-Ctl (λ ev. (ev.events ≡ mask) × (data_u64 o ev ≡ v)) fd (u64_event o mask v) w
            (refl, f.2),
        both-Ctl (λ ev. (ev.events ≡ mask) × (data_u64 o ev ≡ p)) fd (ptr_event o mask p) w
            (refl, f.3),
        del-Ctl fd w,
      )

  abbrev Keeps : W → Run W (Unit {0}) → Type 0
  Keeps w = Ends (λ _ w'. Tagged o watched w') (λ _ w'. Tagged o watched w')

  unchanged-Tagged :
      (w w' : W) → ((k : ℤ) → watched w' k ≡ watched w k) → Tagged o watched w → Tagged o watched w'
  unchanged-Tagged w w' same v fd ev e = v fd ev (sym (same fd) ∙ e)

  -- One descriptor changes, to an event that is tagged or to none.
  changed-Tagged :
      (fd : ℤ) (new : Option EpollEvent) (w w' : W)
      → watched w' fd ≡ new
      → ((ev : EpollEvent) → new ≡ some ev → data_fd o ev ≡ fd)
      → ((k : ℤ) → k ≢ fd → watched w' k ≡ watched w k)
      → Tagged o watched w
      → Tagged o watched w'
  changed-Tagged fd new w w' now tagged same v k ev e = elim (ℤ_discrete k fd) [
    | yes p ↦ tagged ev (sym now ∙ subst (λ j. watched w' j ≡ some ev) p e) ∙ sym p
    | no p ↦ v k ev (sym (same k p) ∙ e)
  ]

  put-Tagged :
      (Before : Option EpollEvent → Type 0) (fd : ℤ) (mask : ℕ) (w : W) {r : Run W (Unit {0})}
      → Ctl Before (λ new. new ≡ some (int_event o mask fd)) fd w r
      → IsSigned (2 ^ 31) fd
      → Tagged o watched w
      → Keeps w r
  put-Tagged Before fd mask w put int v =
      Ends.mono put
        (λ _ w' p.
          changed-Tagged fd _ w w' p.1
            (λ ev e. ap (data_fd o) (some_inj e) ∙ data_fd-int_event o mask fd int) p.2 v)
        (λ _ w' p. unchanged-Tagged w w' p v)

  run-Tagged : (c : Call) (w : W) → IsInt c → Tagged o watched w → Keeps w (run api o self c w)
  unfolding run add_int mod_int del
  run-Tagged (adds fd mask) w h v =
      put-Tagged Absent fd mask w (add-Ctl fd (int_event o mask fd) w) h v
  run-Tagged (mods fd mask) w h v =
      put-Tagged Present fd mask w (mod-Ctl fd (int_event o mask fd) w) h v
  run-Tagged (dels fd) w h v =
      Ends.mono (del-Ctl fd w)
        (λ _ w' p. changed-Tagged fd none w w' p.1 (λ ev e. absurd (ground arith)) p.2 v)
        (λ _ w' p. unchanged-Tagged w w' p v)

  -- Such calls keep a set in which every event has its descriptor's number.
  pub Reach-Tagged :
      {s t : W} → Tagged o watched s → Reach api o self watched s t → Tagged o watched t
  Reach-Tagged v here = v
  Reach-Tagged v (returned {t = t} c r h e) =
      subst (Post (λ _ w'. Tagged o watched w') (λ _ w'. Tagged o watched w')) e
        (post (run-Tagged c t h (Reach-Tagged v r)))
  Reach-Tagged v (threw {t = t} c err r h e) =
      subst (Post (λ _ w'. Tagged o watched w') (λ _ w'. Tagged o watched w')) e
        (post (run-Tagged c t h (Reach-Tagged v r)))
  Reach-Tagged v (closed {t = t} {u = u} r less) =
      λ fd ev e. elim (less fd) [ inl same ↦ Reach-Tagged v r fd ev (sym same ∙ e) | inr gone ↦ cc ]

  -- An event with the memory of one that is watched under its number.
  watched_event :
      (t : W)
      → Tagged o watched t
      → (ev : EpollEvent)
      → (fd : ℤ) × (old : EpollEvent) × (watched t fd ≡ some old) × (ev.memory ≡ old.memory)
      → (old : EpollEvent) × (watched t (data_fd o ev) ≡ some old)
  unfolding data_fd
  watched_event t v ev (fd, old, found, same) =
      let number : data_fd o ev ≡ fd =
        ap (λ xs. to_signed (2 ^ 31) (of_object o (take 4 xs))) same ∙ v fd old found in
      (old, subst (λ k. watched t k ≡ some old) (sym number) found)

  -- If descriptors are watched under their own numbers only, then after any calls of `add`, `mod` and
  -- `del` `data.fd` of each event that `wait` returns is a descriptor that is watched, and there are as
  -- many events as it says.
  pub wait-Reach :
      (s t : W) (size timeout : ℤ)
      → Tagged o watched s
      → Reach api o self watched s t
      → Ends
          (λ r u.
            (r.0 ≡ pos (length r.1))
            × All (λ ev. (old : EpollEvent) × (watched t (data_fd o ev) ≡ some old)) r.1)
          (λ _ _. Unit)
          (wait api self size timeout t)
  unfolding wait
  wait-Reach s t size timeout v reach =
      filled-Ends api.os _ _ (api.epoll_wait self.fd size timeout t)
        (λ n events u e.
          let d = law.delivers size timeout t n events u e in
          (ap pos (sym d.0), All-map (watched_event t (Reach-Tagged v reach)) events d.1))
        (λ _ _ _ _. tt)

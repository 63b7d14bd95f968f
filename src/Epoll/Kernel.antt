-- ===== src/Epoll/Kernel.antt =====
-- What epoll_ctl(2) and epoll_wait(2) promise.
use fdcpp.Base.{ℕ, ◌≡◌, ◌≢◌, ℤ, pos, negsuc, List, [], ◌∷◌, Option, none, some, length}
use fdcpp.Epoll.{EpollEvent, EpollOs, epoll_ctl_add, epoll_ctl_mod, epoll_ctl_del}

abbrev pub All : {A : Type 0} → (A → Type 0) → List A → Type 0
All P [] = Unit
All P (x ∷ xs) = P x × All P xs

pub All-map :
    {A : Type 0} {P Q : A → Type 0} → ((a : A) → P a → Q a) → (xs : List A) → All P xs → All Q xs
All-map f [] h = tt
All-map f (x ∷ xs) h = (f x h.0, All-map f xs h.1)

-- epoll_ctl(2) and epoll_wait(2): `watched w fd` is the event that stands for `fd` in the set.
pub record EpollLaw {W : Type 0} (api : EpollOs W) (epfd : ℤ) (watched : W → ℤ → Option EpollEvent)
    : Type 0 where
  -- ADD puts the event of a descriptor that is not in the set (else EEXIST).
  pub adds :
      (fd : ℤ) (ev : EpollEvent) (w : W) (n : ℕ) (w' : W)
      → api.epoll_ctl epfd epoll_ctl_add fd (some ev) w ≡ (pos n, w')
      → (watched w fd ≡ none)
        × (watched w' fd ≡ some ev)
        × ((k : ℤ) → k ≢ fd → watched w' k ≡ watched w k)
  -- MOD changes the event of one that is (else ENOENT).
  pub mods :
      (fd : ℤ) (ev : EpollEvent) (w : W) (n : ℕ) (w' : W)
      → api.epoll_ctl epfd epoll_ctl_mod fd (some ev) w ≡ (pos n, w')
      → (watched w fd ≢ none)
        × (watched w' fd ≡ some ev)
        × ((k : ℤ) → k ≢ fd → watched w' k ≡ watched w k)
  -- So does DEL, which takes it away.
  pub removes :
      (fd : ℤ) (ev : Option EpollEvent) (w : W) (n : ℕ) (w' : W)
      → api.epoll_ctl epfd epoll_ctl_del fd ev w ≡ (pos n, w')
      → (watched w fd ≢ none)
        × (watched w' fd ≡ none)
        × ((k : ℤ) → k ≢ fd → watched w' k ≡ watched w k)
  pub fails :
      (op : ℕ) (fd : ℤ) (ev : Option EpollEvent) (w : W) (e : ℕ) (w' : W)
      → api.epoll_ctl epfd op fd ev w ≡ (negsuc e, w')
      → (k : ℤ) → watched w' k ≡ watched w k
  -- Every event that comes is that of a watched descriptor, but for its mask, and the set stays.
  pub delivers :
      (size timeout : ℤ) (w : W) (n : ℕ) (events : List EpollEvent) (w' : W)
      → api.epoll_wait epfd size timeout w ≡ (pos n, events, w')
      → (length events ≡ n)
        × All
            (λ ev.
              (fd : ℤ) × (old : EpollEvent) × (watched w fd ≡ some old) × (ev.memory ≡ old.memory))
            events
        × ((k : ℤ) → watched w' k ≡ watched w k)

-- ===== src/Epoll/Tests.antt =====
-- A system whose set is a function, of which descriptor 7 is always ready.
use fdcpp.Base.{
  ℕ, ◌≡◌, ◌≢◌, refl, sym, ap, subst, ◌∙◌, pos_part, ℤ, pos, negsuc, List, [], ◌∷◌, length, Option,
  none, some, ◌==◌, if◌then◌else◌, arith,
}
use fdcpp.Effect.{Run}
use fdcpp.Effect.Ends.{Ends}
use fdcpp.Os.{Os}
use fdcpp.Descriptor.{Descriptor, descriptor}
use fdcpp.Endian.{little}
use fdcpp.Epoll.{
  EpollEvent, EpollOs, epoll_ctl_add, epoll_ctl_mod, epoll_ctl_del, int_event, data_fd, data_u32,
  data_u64, add_int, mod_int, add_u32, mod_u32, add_u64, mod_u64, add_ptr, mod_ptr, del, wait,
}
use fdcpp.Epoll.Kernel.{EpollLaw, All}
use fdcpp.Epoll.Interest.{
  ℤ_discrete, here, returned, adds, run, Ctl, In, Absent, Present, calls-Ctl, wait-Reach,
}

record Watch : Type 0 where
  set : ℤ → Option EpollEvent

abbrev choose : {P : Type 0} → Dec P → Option EpollEvent → Option EpollEvent → Option EpollEvent
choose (yes _) a b = a
choose (no _) a b = b

choose_yes : {P : Type 0} (d : Dec P) (a b : Option EpollEvent) → P → choose d a b ≡ a
choose_yes (yes _) a b p = refl
choose_yes (no n) a b p = absurd (n p)

choose_no : {P : Type 0} (d : Dec P) (a b : Option EpollEvent) → ¬ P → choose d a b ≡ b
choose_no (yes p) a b n = absurd (n p)
choose_no (no _) a b n = refl

abbrev update : (ℤ → Option EpollEvent) → ℤ → Option EpollEvent → ℤ → Option EpollEvent
update f k v j = choose (ℤ_discrete j k) v (f j)

update_same : (f : ℤ → Option EpollEvent) (k : ℤ) (v : Option EpollEvent) → update f k v k ≡ v
update_same f k v = choose_yes (ℤ_discrete k k) v (f k) refl

update_other :
    (f : ℤ → Option EpollEvent) (k : ℤ) (v : Option EpollEvent) (j : ℤ)
    → j ≢ k
    → update f k v j ≡ f j
update_other f k v j h = choose_no (ℤ_discrete j k) v (f j) h

abbrev os : Os Watch
os = record {
  errno = λ w. 9;
  set_errno = λ e w. w;
  close = λ fd w. (pos 0, w);
  dup = λ fd w. (pos 4, w);
  dup2 = λ old new w. (new, w);
  fcntl = λ fd cmd arg w. (pos 0, w);
  read = λ fd size w. (negsuc 0, [], w);
  write = λ fd bytes w. (negsuc 0, w);
  pread = λ fd size off w. (negsuc 0, [], w);
  pwrite = λ fd bytes off w. (negsuc 0, w);
}

-- ADD is for a descriptor that is not in the set, MOD and DEL for one that is.
abbrev ctl_on : ℕ → Option EpollEvent → ℤ → Option EpollEvent → Watch → ℤ × Watch
ctl_on op none fd (some ev) w =
    if op == epoll_ctl_add
    then (pos 0, record { set = update w.set fd (some ev) })
    else (negsuc 0, w)
ctl_on op (some old) fd (some ev) w =
    if op == epoll_ctl_mod
    then (pos 0, record { set = update w.set fd (some ev) })
    else if op == epoll_ctl_del
    then (pos 0, record { set = update w.set fd none })
    else (negsuc 0, w)
ctl_on op (some old) fd none w =
    if op == epoll_ctl_del then (pos 0, record { set = update w.set fd none }) else (negsuc 0, w)
ctl_on op none fd none w = (negsuc 0, w)

abbrev ready : Option EpollEvent → List EpollEvent
ready none = []
ready (some ev) = ev ∷ []

abbrev api : EpollOs Watch
api = record {
  os = os;
  epoll_create1 = λ flags w. (pos 3, w);
  epoll_ctl = λ epfd op fd ev w. ctl_on op (w.set fd) fd ev w;
  epoll_wait =
      λ epfd size timeout w. (pos (length (ready (w.set (pos 7)))), ready (w.set (pos 7)), w);
  epoll_pwait = λ epfd size timeout mask w. (negsuc 0, [], w);
}

-- What a call that succeeds has done: the descriptor was in the set as `old`, and is there as `new`.
abbrev Changed : Option EpollEvent → ℤ → Watch → Watch → Type 0
Changed new fd w w' = (w'.set fd ≡ new) × ((k : ℤ) → k ≢ fd → w'.set k ≡ w.set k)

updated :
    (fd : ℤ) (new : Option EpollEvent) (w : Watch) (n : ℕ) (w' : Watch)
    → ◌≡◌ {A = ℤ × Watch} (pos 0, record { set = update w.set fd new }) (pos n, w')
    → Changed new fd w w'
updated fd new w n w' e = (
  ap (λ r. r.1.set fd) (sym e) ∙ update_same w.set fd new,
  λ k other. ap (λ r. r.1.set k) (sym e) ∙ update_other w.set fd new k other,
)

add_law :
    (old : Option EpollEvent) (fd : ℤ) (ev : EpollEvent) (w : Watch) (n : ℕ) (w' : Watch)
    → ctl_on epoll_ctl_add old fd (some ev) w ≡ (pos n, w')
    → (old ≡ none) × Changed (some ev) fd w w'
add_law none fd ev w n w' e = (refl, updated fd (some ev) w n w' e)
add_law (some old) fd ev w n w' e = absurd (ground arith)

mod_law :
    (old : Option EpollEvent) (fd : ℤ) (ev : EpollEvent) (w : Watch) (n : ℕ) (w' : Watch)
    → ctl_on epoll_ctl_mod old fd (some ev) w ≡ (pos n, w')
    → (old ≢ none) × Changed (some ev) fd w w'
mod_law none fd ev w n w' e = absurd (ground arith)
mod_law (some old) fd ev w n w' e = (λ h. absurd (ground arith), updated fd (some ev) w n w' e)

del_law :
    (old : Option EpollEvent) (fd : ℤ) (ev : Option EpollEvent) (w : Watch) (n : ℕ) (w' : Watch)
    → ctl_on epoll_ctl_del old fd ev w ≡ (pos n, w')
    → (old ≢ none) × Changed none fd w w'
del_law none fd none w n w' e = absurd (ground arith)
del_law none fd (some ev) w n w' e = absurd (ground arith)
del_law (some old) fd none w n w' e = (λ h. absurd (ground arith), updated fd none w n w' e)
del_law (some old) fd (some ev) w n w' e = (λ h. absurd (ground arith), updated fd none w n w' e)

fail_law :
    (op : ℕ) (old : Option EpollEvent) (fd : ℤ) (ev : Option EpollEvent) (w : Watch) (n : ℕ)
    (w' : Watch)
    → ctl_on op old fd ev w ≡ (negsuc n, w')
    → w ≡ w'
fail_law op none fd none w n w' e = ground arith
fail_law op none fd (some ev) w n w' e = ground arith
fail_law op (some old) fd none w n w' e = ground arith
fail_law op (some old) fd (some ev) w n w' e = ground arith

abbrev FromSet : Watch → EpollEvent → Type 0
FromSet w ev = (fd : ℤ) × (old : EpollEvent) × (w.set fd ≡ some old) × (ev.memory ≡ old.memory)

ready_watched : (w : Watch) (o : Option EpollEvent) → w.set (pos 7) ≡ o → All (FromSet w) (ready o)
ready_watched w none e = tt
ready_watched w (some ev) e = ((pos 7, ev, e, refl), tt)

law : EpollLaw api (pos 3) (λ w. w.set)
law = record {
  adds = λ fd ev w n w' e. let p = add_law (w.set fd) fd ev w n w' e in (p.0, p.1.0, p.1.1);
  mods = λ fd ev w n w' e. let p = mod_law (w.set fd) fd ev w n w' e in (p.0, p.1.0, p.1.1);
  removes = λ fd ev w n w' e. let p = del_law (w.set fd) fd ev w n w' e in (p.0, p.1.0, p.1.1);
  fails = λ op fd ev w n w' e k.
      ap (λ (u : Watch). u.set k) (sym (fail_law op (w.set fd) fd ev w n w' e));
  delivers = λ size timeout w n events w' e. (
    ap (λ r. length r.1) (sym e) ∙ ap (λ r. pos_part r.0) e,
    subst (All (FromSet w)) (ap (λ r. r.1) e) (ready_watched w (w.set (pos 7)) refl),
    λ k. ap (λ r. r.2.set k) (sym e),
  );
}

abbrev epfd : Descriptor
epfd = descriptor (pos 3)

abbrev nothing : Watch
nothing = record { set = λ k. none }

-- 7 is watched for input.
abbrev seven : Watch
seven = record { set = update (λ k. none) (pos 7) (some (int_event little 1 (pos 7))) }

abbrev Added : (EpollEvent → Type 0) → Run Watch (Unit {0}) → Type 0
Added Has =
    Ctl api little epfd law (Absent api little epfd law)
      (In api little epfd law (λ ev. (ev.events ≡ 1) × Has ev)) (pos 7) seven

abbrev Modified : (EpollEvent → Type 0) → Run Watch (Unit {0}) → Type 0
Modified Has =
    Ctl api little epfd law (Present api little epfd law)
      (In api little epfd law (λ ev. (ev.events ≡ 1) × Has ev)) (pos 7) seven

-- 7 is added, or changed where it is in the set already: by the first call of each pair or the second.
calls-Ctl_example :
    (Added (λ ev. data_fd little ev ≡ negsuc 4) (add_int api little epfd (pos 7) 1 (negsuc 4) seven)
      × Modified
          (λ ev. data_fd little ev ≡ negsuc 4)
          (mod_int api little epfd (pos 7) 1 (negsuc 4) seven))
    × (Added (λ ev. data_u32 little ev ≡ 9) (add_u32 api little epfd (pos 7) 1 9 seven)
        × Modified (λ ev. data_u32 little ev ≡ 9) (mod_u32 api little epfd (pos 7) 1 9 seven))
    × (Added (λ ev. data_u64 little ev ≡ 300) (add_u64 api little epfd (pos 7) 1 300 seven)
        × Modified (λ ev. data_u64 little ev ≡ 300) (mod_u64 api little epfd (pos 7) 1 300 seven))
    × (Added (λ ev. data_u64 little ev ≡ 70000) (add_ptr api little epfd (pos 7) 1 70000 seven)
        × Modified
            (λ ev. data_u64 little ev ≡ 70000)
            (mod_ptr api little epfd (pos 7) 1 70000 seven))
    × Ctl api little epfd law
        (Present api little epfd law)
        (Absent api little epfd law)
        (pos 7)
        seven
        (del api epfd (pos 7) seven)
calls-Ctl_example =
    calls-Ctl api little epfd law (pos 7) 1 (negsuc 4) 9 300 70000 seven (omega arith) (omega arith)
      (omega arith) (omega arith)

wait-Reach_example :
    Ends
      (λ r u.
        (r.0 ≡ pos (length r.1))
        × All (λ ev. (old : EpollEvent) × (seven.set (data_fd little ev) ≡ some old)) r.1)
      (λ _ _. Unit)
      (wait api epfd (pos 10) (negsuc 0) seven)
unfolding run add_int
wait-Reach_example =
    wait-Reach api little epfd law nothing seven (pos 10) (negsuc 0) (λ fd ev e. cc)
      (returned (adds (pos 7) 1) here (omega arith) refl)

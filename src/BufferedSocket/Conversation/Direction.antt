-- ===== src/BufferedSocket/Conversation/Direction.antt =====
-- The two directions of a talk, as one end sees them, and what a call at that end does to them.
use fdcpp.Base.{
  ℕ, ◌^◌, ◌<◌, ◌≡◌, refl, sym, ap, ap₂, ◌∙◌, subst, ℤ, List, [], ◌++◌, length, append-nil,
  append_assoc, take-append-drop,
}
use fdcpp.Effect.{Error, ok, throw}
use fdcpp.Effect.Ends
use fdcpp.Effect.Ends.{Post, post}
use fdcpp.Descriptor.{Descriptor}
use fdcpp.Socket.{SocketOs}
use fdcpp.BufferedSocket.{BufferedSocket, State, pending, unread}
use fdcpp.BufferedSocket.Invariant.{IsValid}
use fdcpp.BufferedSocket.Session.{Op, writes, reads, flushes}
use fdcpp.BufferedSocket.Spec.{Connection, Suits, Streams, spec_op, view, do_op}
use fdcpp.BufferedSocket.Spec.Refinement.{SameSocket, do_op-Meets, reads-Ends}
use fdcpp.BufferedSocket.Conversation.{nothing_yet, Log, written, logged, Carried}

spec_moves :
    (op : Op) (a : Streams)
    → ((spec_op op a).1.out ≡ a.out ++ written op)
      × (a.inp ≡ (spec_op op a).0 ++ (spec_op op a).1.inp)
spec_moves (writes bytes) a = (refl, refl)
spec_moves (reads dest) a = (sym (append-nil a.out), sym (take-append-drop (length dest) a.inp))
spec_moves flushes a = (sym (append-nil a.out), refl)

-- Behind what was to come, comes what is written.
more_to_come :
    (got front way way' wrote bytes : List ℕ)
    → got ++ (front ++ way) ≡ wrote
    → way' ≡ way ++ bytes
    → got ++ (front ++ way') ≡ wrote ++ bytes
more_to_come got front way way' wrote bytes h e =
    rw (e, ← append_assoc front way bytes, ← append_assoc got (front ++ way) bytes)
      (ap (λ xs. xs ++ bytes) h)

-- What is taken from the front has been read.
taken_off :
    (read got front way front' way' rest : List ℕ)
    → front ++ way ≡ got ++ (front' ++ way')
    → (read ++ got) ++ (front' ++ (way' ++ rest)) ≡ read ++ (front ++ (way ++ rest))
taken_off read got front way front' way' rest e =
    rw
      (
        append_assoc read got (front' ++ (way' ++ rest)),
        ← append_assoc front way rest,
        e,
        append_assoc got (front' ++ way') rest,
        append_assoc front' way' rest,
      )
      refl

untouched :
    (read front way front' way' rest : List ℕ)
    → front' ++ way' ≡ front ++ way
    → read ++ (front' ++ (way' ++ rest)) ≡ read ++ (front ++ (way ++ rest))
untouched read front way front' way' rest e =
    rw (← append_assoc front way rest, ← append_assoc front' way' rest, e) refl

pub nothing-Carried :
    (got : Log) (reader : BufferedSocket) (wire : List ℕ) (writer : BufferedSocket) (said : Log)
    → got ≡ nothing_yet
    → said ≡ nothing_yet
    → unread reader ≡ []
    → wire ≡ []
    → pending writer ≡ []
    → Carried got reader wire writer said
nothing-Carried got reader wire writer said g h u e p = rw (g, h, u, e, p) refl

module _ {W : Type 0} (fd : ℤ) (sent incoming : W → List ℕ) where
  -- The two directions, as one end sees them.
  pub record Good (s : State W) (mine : Log) (other : BufferedSocket) (theirs : Log) : Type 0 where
    pub valid : IsValid s.self
    pub same_fd : s.self.socket.fd ≡ fd
    pub there : Carried theirs other (sent s.world) s.self mine
    pub back : Carried mine s.self (incoming s.world) other theirs

  module _ (s t : State W) (mine : Log) (other : BufferedSocket) (theirs : Log)
      (g : Good s mine other theirs) (v : IsValid t.self)
      (same : t.self.socket ≡ s.self.socket) where
    moved-Good :
        (op : Op) (got : List ℕ)
        → got ≡ (spec_op op (view sent incoming s)).0
        → view sent incoming t ≡ (spec_op op (view sent incoming s)).1
        → Good t (logged op got mine) other theirs
    moved-Good op got e h =
        let p = spec_moves op (view sent incoming s) in
        let out = ap {A = Streams} (λ a. a.out) h ∙ p.0 in
        let inp = p.1 ∙ ap₂ ◌++◌ (sym e) (ap {A = Streams} (λ a. a.inp) (sym h)) in
        record {
          valid = v;
          same_fd = ap {A = Descriptor} (λ d. d.fd) same ∙ g.same_fd;
          there = more_to_come theirs.read (unread other) _ _ mine.wrote (written op) g.there out;
          back = taken_off mine.read got _ _ _ _ (pending other) inp ∙ g.back;
        }

    still-Good : view sent incoming t ≡ view sent incoming s → Good t mine other theirs
    still-Good h = record {
      valid = v;
      same_fd = ap {A = Descriptor} (λ d. d.fd) same ∙ g.same_fd;
      there =
          ap (λ way. theirs.read ++ (unread other ++ way)) (ap {A = Streams} (λ a. a.out) h)
          ∙ g.there;
      back = untouched mine.read _ _ _ _ (pending other) (ap {A = Streams} (λ a. a.inp) h) ∙ g.back;
    }

module _ {W : Type 0} (api : SocketOs W) {fd : ℤ} {sent incoming : W → List ℕ}
    (c : Connection api fd sent incoming) (s : State W) (mine : Log) (other : BufferedSocket)
    (theirs : Log) (g : Good fd sent incoming s mine other theirs) where
  connected : Connection api s.self.socket.fd sent incoming
  connected = subst (λ n. Connection api n sent incoming) (sym g.same_fd) c

  pub returned-Good :
      (t : State W) (op : Op) (got : List ℕ)
      → Suits s.self.out_capacity op
      → do_op api op s ≡ ok got t
      → Good fd sent incoming t (logged op got mine) other theirs
  returned-Good t op got h e =
      let p =
        subst
          (Post
            (λ got t.
              IsValid t.self
              × SameSocket api s connected g.valid t
              × (got ≡ (spec_op op (view sent incoming s)).0)
              × (view sent incoming t ≡ (spec_op op (view sent incoming s)).1))
            (λ _ _. Unit))
          e
          (post
            (Ends.mono (do_op-Meets api s connected g.valid op h) (λ _ _ q. q) (λ _ _ _. tt))) in
      moved-Good fd sent incoming s t mine other theirs g p.0 p.1.0 op got p.2 p.3

  pub threw-Good :
      (t : State W) (dest : List ℕ) (e : Error)
      → length dest < 2 ^ 63
      → do_op api (reads dest) s ≡ throw e t
      → Good fd sent incoming t mine other theirs
  threw-Good t dest e h eq =
      let p =
        subst
          (Post (λ _ _. Unit)
            (λ _ t.
              IsValid t.self
              × SameSocket api s connected g.valid t
              × (view sent incoming t ≡ view sent incoming s)))
          eq
          (post
            (Ends.mono (reads-Ends api s connected g.valid dest h) (λ _ _ _. tt) (λ _ _ q. q))) in
      still-Good fd sent incoming s t mine other theirs g p.0 p.1.0 p.2

-- ===== src/BufferedSocket/Spec/Refinement.antt =====
-- That the operations do to the two queues what Spec says, one at a time and in any sequence.
use fdcpp.Base.{
  suc, ℕ, ◌^◌, ◌<◌, ◌≡◌, refl, sym, ap, ap₂, ◌∙◌, subst, inl, List, [], ◌∷◌, ◌++◌, length, take,
  drop, append-nil, append_split, take-append-drop, length-take, length-append, arith,
}
use fdcpp.Effect.{Run}
use fdcpp.Effect.Ends
use fdcpp.Effect.Ends.{Ends, returns}
use fdcpp.Effect.Kept.{Keeps, Keeps-after, Ends-Keeps}
use fdcpp.Descriptor.{Descriptor}
use fdcpp.Socket.{SocketOs}
use fdcpp.BufferedSocket.{BufferedSocket, State, pending, unread, read_input_buffer, take_input}
use fdcpp.BufferedSocket.Invariant.{IsValid, pending-SameOutput}
use fdcpp.BufferedSocket.Appending.{flushed-IsValid}
use fdcpp.BufferedSocket.Writing.{write_output_buffer-Ends, flush-Ends}
use fdcpp.BufferedSocket.Receiving.{recv_if_possible-Ends}
use fdcpp.BufferedSocket.Draining.{input}
use fdcpp.BufferedSocket.Reading.{read_input_buffer-Ends}
use fdcpp.BufferedSocket.Session.{Op, writes, reads, flushes}
use fdcpp.BufferedSocket.Apart.{
  There, flush-Keeps, write_output_buffer-Keeps, recv_if_possible-Keeps, take_input-Keeps,
  unread-SameInput,
}
use fdcpp.BufferedSocket.Spec.{
  Streams, streams, spec_op, spec_run, Suits, AllSuit, do_op, do_each, view, Connection,
}

front_of :
    (n : ℕ) (xs ys zs : List ℕ)
    → zs ≡ xs ++ ys
    → length xs ≡ n
    → (xs ≡ take n zs) × (ys ≡ drop n zs)
front_of n xs ys zs e h =
    append_split xs (take n zs) (sym e ∙ sym (take-append-drop n zs))
      (omega (arith, length-take n zs, ap length e, length-append xs ys))

module _ {W : Type 0} (api : SocketOs W) {sent incoming : W → List ℕ} (s : State W)
    (c : Connection api s.self.socket.fd sent incoming) (v : IsValid s.self) where
  abbrev pub SameSocket : State W → Type 0
  SameSocket t = (t.self.socket ≡ s.self.socket) × (t.self.out_capacity ≡ s.self.out_capacity)

  abbrev pub Meets : List ℕ → Streams → Run (State W) (List ℕ) → Type 0
  Meets result after =
      Ends
        (λ got t. IsValid t.self × SameSocket t × (got ≡ result) × (view sent incoming t ≡ after))
        (λ _ t. IsValid t.self × (input incoming t ≡ input incoming s))

  abbrev InputStays : W → Type 0
  InputStays w = incoming w ≡ incoming s.world

  abbrev OutputStays : W → Type 0
  OutputStays w = sent w ≡ sent s.world

  sending :
      (bytes : List ℕ) (flags : ℕ) (w : W)
      → InputStays w
      → InputStays (api.send s.self.socket.fd bytes flags w).1
  sending bytes flags w k = c.apart.sending bytes flags w ∙ k

  unchanged :
      (t : State W)
      → t.self ≡ s.self
      → InputStays t.world
      → IsValid t.self × (input incoming t ≡ input incoming s)
  unchanged t e k = (subst IsValid (sym e) v, ap₂ (◌++◌) (ap {A = BufferedSocket} unread e) k)

  writes-Meets :
      (bytes : List ℕ)
      → length bytes < s.self.out_capacity
      → Meets [] (spec_op (writes bytes) (view sent incoming s)).1 (do_op api (writes bytes) s)
  unfolding do_op
  writes-Meets bytes h =
      Ends.bind
        (Ends-Keeps (There InputStays)
          (write_output_buffer-Ends api s c.sends v bytes (omega (arith, v.small)) (inl h))
          (write_output_buffer-Keeps api InputStays s sending refl bytes))
        (λ _ t p. returns (
          p.0.0,
          (p.0.1.socket, p.0.1.out_capacity),
          refl,
          ap₂ streams p.0.2 (ap₂ ◌++◌ (unread-SameInput v p.0.1) p.1),
        ))
        (λ _ t p. unchanged t p.0.0 p.1)

  flushes-Meets : Meets [] (view sent incoming s) (do_op api flushes s)
  unfolding do_op
  flushes-Meets =
      Ends.bind
        (Ends-Keeps (There InputStays) (flush-Ends api s c.sends v)
          (flush-Keeps api InputStays s sending refl))
        (λ _ t p. returns (
          subst IsValid (sym p.0.0) (flushed-IsValid v),
          (
            ap {A = BufferedSocket} (λ b. b.socket) p.0.0,
            ap {A = BufferedSocket} (λ b. b.out_capacity) p.0.0,
          ),
          refl,
          ap₂ streams (ap₂ ◌++◌ p.0.1 (ap {A = BufferedSocket} pending p.0.0) ∙ append-nil _)
              (ap₂ ◌++◌ (ap {A = BufferedSocket} unread p.0.0) p.1),
        ))
        (λ _ t p. unchanged t p.0.0 p.1)

  reading : (dest : List ℕ) → Keeps (There OutputStays) (read_input_buffer api dest s)
  unfolding read_input_buffer
  reading dest =
      Keeps-after (There OutputStays) (λ _. take_input api dest)
        (recv_if_possible-Ends api s c.receives v)
        (recv_if_possible-Keeps api OutputStays s
          (λ size flags. c.apart.receiving size flags s.world) refl)
        (λ _ t p k.
          let there : t.self.socket.fd ≡ s.self.socket.fd =
            ap {A = Descriptor} (λ d. d.fd) p.1.socket in
          take_input-Keeps api OutputStays t dest
            (λ size flags.
              subst (λ fd. OutputStays (api.recv fd size flags t.world).2) (sym there)
                (c.apart.receiving size flags t.world ∙ k))
            k)

  -- A read that throws has left both queues as they were.
  pub reads-Ends :
      (dest : List ℕ)
      → length dest < 2 ^ 63
      → Ends
          (λ got t.
            IsValid t.self
            × SameSocket t
            × (got ≡ (spec_op (reads dest) (view sent incoming s)).0)
            × (view sent incoming t ≡ (spec_op (reads dest) (view sent incoming s)).1))
          (λ _ t. IsValid t.self × SameSocket t × (view sent incoming t ≡ view sent incoming s))
          (do_op api (reads dest) s)
  unfolding do_op
  reads-Ends dest h =
      Ends.mono
        (Ends-Keeps (There OutputStays) (read_input_buffer-Ends api s c.receives v dest h c.waits)
          (reading dest))
        (λ got t p.
          let parts =
            front_of (length dest) got (input incoming t) (input incoming s) p.0.3 p.0.2 in
          (
            p.0.0,
            (p.0.1.socket, p.0.1.out_capacity),
            parts.0,
            ap₂ streams (ap₂ ◌++◌ p.1 (pending-SameOutput p.0.1)) parts.1,
          ))
        (λ _ t p. (
          p.0.0,
          (p.0.1.socket, p.0.1.out_capacity),
          ap₂ streams (ap₂ ◌++◌ p.1 (pending-SameOutput p.0.1)) p.0.2,
        ))

  reads-Meets :
      (dest : List ℕ)
      → length dest < 2 ^ 63
      → Meets
          (spec_op (reads dest) (view sent incoming s)).0
          (spec_op (reads dest) (view sent incoming s)).1
          (do_op api (reads dest) s)
  reads-Meets dest h =
      Ends.mono (reads-Ends dest h) (λ _ _ p. p) (λ _ t p. (p.0, ap {A = Streams} (λ a. a.inp) p.2))

  pub do_op-Meets :
      (op : Op)
      → Suits s.self.out_capacity op
      → Meets
          (spec_op op (view sent incoming s)).0
          (spec_op op (view sent incoming s)).1
          (do_op api op s)
  do_op-Meets (writes bytes) h = writes-Meets bytes h
  do_op-Meets (reads dest) h = reads-Meets dest h
  do_op-Meets flushes h = flushes-Meets

module _ {W : Type 0} (api : SocketOs W) (sent incoming : W → List ℕ) where
  abbrev Follows : List Op → Streams → Run (State W) (List (List ℕ)) → Type 0
  Follows ops a =
      Ends
        (λ got t.
          IsValid t.self × (got ≡ (spec_run ops a).0) × (view sent incoming t ≡ (spec_run ops a).1))
        (λ _ t.
          IsValid t.self
          × ((k : ℕ) × (k < length ops) × (input incoming t ≡ (spec_run (take k ops) a).1.inp)))

  -- Any sequence of writes, each smaller than the output buffer, reads and flushes, at a connected
  -- socket whose system keeps its promises: what the reads return, and what is sent or waits and what
  -- is left to be read afterwards, are what the two queues of bytes say. Where an operation throws, the
  -- object is valid, and what is left to be read is what the operations before it left.
  pub do_each-refines :
      (ops : List Op) (s : State W)
      → Connection api s.self.socket.fd sent incoming
      → IsValid s.self
      → AllSuit s.self.out_capacity ops
      → Follows ops (view sent incoming s) (do_each api ops s)
  unfolding do_each
  do_each-refines [] s c v h = returns (v, refl, refl)
  do_each-refines (op ∷ ops) s c v h =
      Ends.bind (do_op-Meets api s c v op h.0)
        (λ got t p.
          let c' = subst (λ d. Connection api d.fd sent incoming) (sym p.1.0) c in
          let h' = subst (λ n. AllSuit n ops) (sym p.1.1) h.1 in
          let after =
            subst (λ a. Follows ops a (do_each api ops t)) p.3 (do_each-refines ops t c' p.0 h') in
          Ends.bind after (λ rest u q. returns (q.0, ap₂ ◌∷◌ p.2 q.1, q.2))
            (λ _ _ q. (q.0, (suc q.1.0, omega (arith, q.1.1), q.1.2))))
        (λ _ t p. (p.0, (0, omega arith, p.1)))

-- ===== src/BufferedSocket/Message/Transfer.antt =====
-- Values of any types from one object to another, on hosts of any byte orders.
use fdcpp.Base.{
  ℕ, ◌<◌, ◌≡◌, refl, sym, ap, ◌∙◌, subst, inl, List, [], ◌∷◌, ◌++◌, arith, append-nil, append_assoc,
}
use fdcpp.Effect.{ok, and_then}
use fdcpp.Effect.Ends
use fdcpp.Effect.Ends.{Ends, returns, throws, Post, post}
use fdcpp.Descriptor.{Descriptor}
use fdcpp.Socket.{SocketOs}
use fdcpp.Socket.Stream.{SendLaw, RecvLaw, Waits}
use fdcpp.Endian.{Order}
use fdcpp.BufferedSocket.{State, pending, flush}
use fdcpp.BufferedSocket.Invariant.{IsValid, SameInput}
use fdcpp.BufferedSocket.Appending.{flushed-IsValid, SameInput-refl, SameInput-trans}
use fdcpp.BufferedSocket.Writing.{stream, flush-Ends}
use fdcpp.BufferedSocket.Draining.{input}
use fdcpp.BufferedSocket.Message.{
  Kind, char, width, wire, Field, AreValues, wires, values, write_values, read_values,
}
use fdcpp.BufferedSocket.Message.Codec.{write_value-Accepts, read_value-Yields}

-- No type is wider than eight bytes.
pub width_le : (k : Kind) → width k < 9
width_le char = omega arith
width_le k = omega arith

module _ {W : Type 0} (api : SocketOs W) (o : Order) {sent : W → List ℕ} where
  pub sends_too :
      (s t : State W)
      → SameInput s.self t.self
      → SendLaw api s.self.socket.fd sent
      → SendLaw api t.self.socket.fd sent
  sends_too s t same law = subst (λ (d : Descriptor). SendLaw api d.fd sent) (sym same.socket) law

  -- The values go behind what was accepted before, in their order.
  pub write_values-Ends :
      (fs : List Field) (s : State W)
      → SendLaw api s.self.socket.fd sent
      → IsValid s.self
      → AreValues fs
      → 8 < s.self.out_capacity
      → Ends
          (λ _ t.
            IsValid t.self × SameInput s.self t.self × (stream sent t ≡ stream sent s ++ wires fs))
          (λ _ t. IsValid t.self)
          (write_values api o fs s)
  unfolding write_values
  write_values-Ends [] s law v h room = returns (v, SameInput-refl s.self, sym (append-nil _))
  write_values-Ends (f ∷ fs) s law v h room =
      Ends.bind
        (write_value-Accepts api s law v o f.kind f.value h.0
          (inl (omega (arith, width_le f.kind))))
        (λ _ t p.
          Ends.mono
            (write_values-Ends fs t (sends_too s t p.1 law) p.0 h.1
              (omega (arith, p.1.out_capacity)))
            (λ _ u q. (
              q.0,
              SameInput-trans p.1 q.1,
              q.2
                  ∙ ap (λ xs. xs ++ wires fs) p.2
                  ∙ append_assoc (stream sent s) (wire f.kind f.value) (wires fs),
            ))
            (λ _ u q. q))
        (λ _ t p. subst IsValid (sym p) v)

  -- With a flush behind them they have all been sent.
  pub flush-write_values :
      (fs : List Field) (s : State W)
      → SendLaw api s.self.socket.fd sent
      → IsValid s.self
      → AreValues fs
      → 8 < s.self.out_capacity
      → Ends
          (λ _ t. IsValid t.self × (sent t.world ≡ sent s.world ++ (pending s.self ++ wires fs)))
          (λ _ t. IsValid t.self)
          (and_then (write_values api o fs s) (λ _. flush api))
  flush-write_values fs s law v h room =
      Ends.bind (write_values-Ends fs s law v h room)
        (λ _ t p.
          Ends.mono (flush-Ends api t (sends_too s t p.1 law) p.0)
            (λ _ u q. (
              subst IsValid (sym q.0) (flushed-IsValid p.0),
              q.1 ∙ p.2 ∙ append_assoc (sent s.world) (pending s.self) (wires fs),
            ))
            (λ _ u q. subst IsValid (sym q.0) p.0))
        (λ _ t p. p)

module _ {W : Type 0} (api : SocketOs W) (o : Order) {incoming : W → List ℕ} where
  -- Values that come next are read, each as the type of its variable, and taken off the stream.
  pub read_values-Ends :
      (fs : List Field) (rest : List ℕ) (s : State W)
      → RecvLaw api s.self.socket.fd incoming
      → Waits api s.self.socket.fd
      → IsValid s.self
      → AreValues fs
      → input incoming s ≡ wires fs ++ rest
      → Ends
          (λ got t. (got ≡ values fs) × (input incoming t ≡ rest) × IsValid t.self)
          (λ _ t. IsValid t.self)
          (read_values api o fs s)
  unfolding read_values
  read_values-Ends [] rest s law waits v h e = returns (refl, e, v)
  read_values-Ends (f ∷ fs) rest s law waits v h e =
      Ends.bind
        (read_value-Yields api s law waits v o f.kind f.old f.value (wires fs ++ rest) h.0
          (e ∙ append_assoc (wire f.kind f.value) (wires fs) rest))
        (λ got t p.
          let law' = subst (λ (d : Descriptor). RecvLaw api d.fd incoming) (sym p.3.socket) law in
          let waits' = subst (λ (d : Descriptor). Waits api d.fd) (sym p.3.socket) waits in
          Ends.bind (read_values-Ends fs rest t law' waits' p.2 h.1 p.1)
            (λ more u q. returns (
              ap (λ val. (f.kind, val) ∷ more) p.0 ∙ ap (λ vals. (f.kind, f.value) ∷ vals) q.0,
              q.1,
              q.2,
            ))
            (λ _ u q. q))
        (λ _ t p. p.1)

-- The two ends of one connection.
module _ {V W : Type 0} (out_api : SocketOs V) (in_api : SocketOs W) (out_order in_order : Order)
    {sent : V → List ℕ} {incoming : W → List ℕ} where
  -- What a valid object with nothing sent or pending, whose output buffer holds more than eight
  -- bytes, writes and flushes is what an object at the other end reads: values of any types, in
  -- their order, between hosts of any byte orders, if these calls returned, what arrives is what was
  -- sent, with anything behind it, and recv waits for all. A read that throws leaves a valid object.
  pub read_values-write_values :
      (fs : List Field) (s s' : State V) (r : State W) (rest : List ℕ)
      → SendLaw out_api s.self.socket.fd sent
      → IsValid s.self
      → AreValues fs
      → 8 < s.self.out_capacity
      → stream sent s ≡ []
      → and_then (write_values out_api out_order fs s) (λ _. flush out_api) ≡ ok tt s'
      → RecvLaw in_api r.self.socket.fd incoming
      → Waits in_api r.self.socket.fd
      → IsValid r.self
      → input incoming r ≡ sent s'.world ++ rest
      → Ends
          (λ got t. (got ≡ values fs) × (input incoming t ≡ rest) × IsValid t.self)
          (λ _ t. IsValid t.self)
          (read_values in_api in_order fs r)
  read_values-write_values fs s s' r rest law v h room nothing flushed recv_law waits rv arrives =
      let p =
        subst
          (Post
            (λ _ t. IsValid t.self × (sent t.world ≡ sent s.world ++ (pending s.self ++ wires fs)))
            (λ _ t. IsValid t.self))
          flushed (post (flush-write_values out_api out_order fs s law v h room)) in
      let all : sent s'.world ≡ wires fs =
        p.1
        ∙ sym (append_assoc (sent s.world) (pending s.self) (wires fs))
        ∙ ap (λ xs. xs ++ wires fs) nothing in
      read_values-Ends in_api in_order fs rest r recv_law waits rv h
        (arrives ∙ ap (λ xs. xs ++ rest) all)

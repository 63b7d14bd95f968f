-- ===== src/BufferedSocket/Taking.antt =====
-- Reads that the input buffer serves, with no need to wait for the peer.
use fdcpp.Base.{
  ap₂, ℕ, ◌+◌, ◌-◌, ◌≤◌, ◌<◌, ◌≡◌, refl, sym, ap, ◌∙◌, List, [], ◌++◌, length, take, drop, arith,
  append_assoc, lt→leb_false, length-take, length-drop, append-nil, length-append,
}
use fdcpp.Effect.Ends
use fdcpp.Effect.Ends.{Ends, returns, throws}
use fdcpp.Socket.{SocketOs}
use fdcpp.Socket.Stream.{RecvLaw}
use fdcpp.BufferedSocket.{
  BufferedSocket, State, block, unread, add_size, take_input, read_input_buffer,
}
use fdcpp.BufferedSocket.Invariant.{IsValid, IsValid-in_block, SameOutput, SameOutput-trans}
use fdcpp.BufferedSocket.Indices.{
  length-unread, advanced-IsValid, reindexed-SameOutput, split_unread,
}
use fdcpp.BufferedSocket.Receiving.{Received, recv_if_possible-Ends}
use fdcpp.BufferedSocket.Draining.{input}

module _ {W : Type 0} (incoming : W → List ℕ) where
  -- What holds when bytes were taken from the front of the unread ones, and some perhaps received
  -- behind them.
  abbrev pub Took : State W → List ℕ → State W → Type 0
  Took s got t =
      IsValid t.self
      × SameOutput s.self t.self
      × ((bytes : List ℕ) × (unread s.self ++ bytes ≡ got ++ unread t.self)
          × (incoming s.world ≡ bytes ++ incoming t.world))

  -- So the stream is the same, but for what was taken.
  pub input-Took :
      (s : State W) (got : List ℕ) (t : State W)
      → Took s got t
      → input incoming s ≡ got ++ input incoming t
  input-Took s got t p =
      ap (◌++◌ (unread s.self)) p.2.2
      ∙ sym (append_assoc (unread s.self) p.2.0 (incoming t.world))
      ∙ ap (λ xs. xs ++ incoming t.world) p.2.1
      ∙ append_assoc got (unread t.self) (incoming t.world)

  pub Took-trans :
      (s : State W) (got : List ℕ) (t : State W) (more : List ℕ) (u : State W)
      → Took s got t
      → Took t more u
      → Took s (got ++ more) u
  Took-trans s got t more u p q = (
    q.0,
    SameOutput-trans p.1 q.1,
    (
      p.2.0 ++ q.2.0,
      sym (append_assoc (unread s.self) p.2.0 q.2.0)
          ∙ ap (λ xs. xs ++ q.2.0) p.2.1
          ∙ append_assoc got (unread t.self) q.2.0
          ∙ ap (◌++◌ got) q.2.1
          ∙ sym (append_assoc got more (unread u.self)),
      p.2.2 ∙ ap (◌++◌ p.2.0) q.2.2 ∙ sym (append_assoc p.2.0 q.2.0 (incoming u.world)),
    ),
  )

  -- The read index moves on inside the buffer.
  pub advance :
      (s : State W) (n : ℕ)
      → IsValid s.self
      → n ≤ s.self.in_size - s.self.in_rd
      → Took s
          (take n (drop s.self.in_rd (block s.self)))
          (record s { self = record s.self { in_rd = add_size s.self.in_rd n } })
  advance s n v h =
      let no_wrap : add_size s.self.in_rd n ≡ s.self.in_rd + n = omega arith in
      (
        advanced-IsValid n v h,
        reindexed-SameOutput s.self _ _,
        ([], rw (no_wrap, append-nil) (split_unread s.self v n h), refl),
      )

  pub length-front :
      (s : State W) (n : ℕ)
      → IsValid s.self
      → n ≤ s.self.in_size - s.self.in_rd
      → length (take n (drop s.self.in_rd (block s.self))) ≡ n
  length-front s n v h = omega (
    arith,
    length-take n (drop s.self.in_rd (block s.self)),
    length-drop s.self.in_rd (block s.self),
  )

module _ {W : Type 0} (api : SocketOs W) (incoming : W → List ℕ) where
  -- A read of fewer bytes than are unread is served from the buffer.
  copied_input :
      (s : State W) (dest : List ℕ)
      → IsValid s.self
      → length dest < length (unread s.self)
      → Ends
          (λ got t. Took incoming s got t × (length got ≡ length dest))
          (λ _ _. ⊥)
          (take_input api dest s)
  unfolding take_input
  copied_input s dest v h =
      let inside : length dest < s.self.in_size - s.self.in_rd =
        omega (arith, length-unread s.self v) in
      rw
        (
          lt→leb_false s.self.in_size (add_size s.self.in_rd (length dest)) (omega arith),
          IsValid-in_block s.self.in_rd (length dest) v (omega arith),
        )
        (returns (
          advance incoming s (length dest) v (omega arith),
          length-front incoming s (length dest) v (omega arith),
        ))

  pub Received-Took :
      (s : State W) (law : RecvLaw api s.self.socket.fd incoming) (v : IsValid s.self) (t : State W)
      → Received api s law v t.self t.world
      → Took incoming s [] t
  Received-Took s law v t p = (p.0, p.1, (p.3.0, sym p.3.1, p.3.2))

  pub buffered_read :
      (s : State W) (dest : List ℕ)
      → RecvLaw api s.self.socket.fd incoming
      → IsValid s.self
      → length dest < length (unread s.self)
      → Ends
          (λ got t. Took incoming s got t × (length got ≡ length dest))
          (λ _ t. input incoming s ≡ input incoming t)
          (read_input_buffer api dest s)
  unfolding read_input_buffer
  buffered_read s dest law v h =
      Ends.bind (recv_if_possible-Ends api s law v)
        (λ _ t p.
          Ends.mono
            (copied_input t dest p.0
              (omega (arith, ap length p.3.1, length-append (unread s.self) p.3.0)))
            (λ got u q. (Took-trans incoming s [] t got u (Received-Took s law v t p) q.0, q.1))
            (λ _ _ q. absurd q))
        (λ _ t p. ap₂ ◌++◌ (ap {A = BufferedSocket} unread (sym p.0.0)) (sym p.0.1))

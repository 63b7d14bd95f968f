-- ===== src/BufferedSocket/Draining.antt =====
-- The part of `read_input_buffer` behind `recv_if_possible`, against the stream of bytes that the
-- peer sends.
use fdcpp.Base.{
  ==→eq, le→ltb_false, drop-all, ℕ, ◌+◌, ◌-◌, ◌^◌, ◌≤◌, ◌<◌, ◌≡◌, refl, sym, ap, ◌∙◌, subst, inl,
  inr, List, ◌++◌, length, take, drop, append_assoc, append-nil, Bool-cases, arith, length-drop,
  length-take, leb_false→lt, leb→le, leb, ◌==◌, drop-drop, length-append,
}
use fdcpp.Effect.Ends
use fdcpp.Effect.Ends.{Ends, returns, throws}
use fdcpp.Socket.{SocketOs}
use fdcpp.Socket.Stream.{RecvLaw, recv-Ends, Waits}
use fdcpp.BufferedSocket.{
  reset_input, State, block, unread, add_size, write_at, copy_size, recv_size, copied, drain_input,
  copy_input, take_input,
}
use fdcpp.BufferedSocket.Memory.{write_at_behind}
use fdcpp.BufferedSocket.Invariant.{IsValid, IsValid-in_block, SameOutput, SameOutput-refl}
use fdcpp.BufferedSocket.Writing.{within-Ends}
use fdcpp.BufferedSocket.Indices.{
  copy_size-eq, length-unread, copied-eq, split_unread, emptied, emptied-IsValid, advanced-IsValid,
  reindexed-SameOutput,
}

module _ {W : Type 0} (incoming : W → List ℕ) where
  -- What the object can still read of what the peer sends.
  abbrev pub input : State W → List ℕ
  input s = unread s.self ++ incoming s.world

module _ {W : Type 0} (api : SocketOs W) {incoming : W → List ℕ} (s : State W)
    (law : RecvLaw api s.self.socket.fd incoming) (v : IsValid s.self) (dest : List ℕ) where
  -- What holds when a read has put bytes of the stream to the front of the caller's buffer: what it
  -- did not reach there is as before, and it reaches all if the system waits for all.
  abbrev pub Got : List ℕ → State W → Type 0
  Got got t =
      IsValid t.self
      × SameOutput s.self t.self
      × ((bytes : List ℕ) × (input incoming s ≡ bytes ++ input incoming t)
          × (got ≡ bytes ++ drop (length bytes) dest)
          × (length bytes ≤ length dest)
          × (Waits api s.self.socket.fd → length bytes ≡ length dest))

  -- The object is as it was, and nothing of the stream is lost.
  abbrev pub Kept : State W → Type 0
  Kept t = IsValid t.self × SameOutput s.self t.self × (input incoming t ≡ input incoming s)

  pub whole :
      (bytes : List ℕ) → length bytes ≡ length dest → bytes ≡ bytes ++ drop (length bytes) dest
  whole bytes h = rw (drop-all (length bytes) dest (omega arith), append-nil)

  copy_input-Ends :
      length dest ≤ s.self.in_size - s.self.in_rd
      → Ends Got (λ _ _. ⊥) (copy_input api (length dest) s)
  unfolding copy_input
  copy_input-Ends h =
      let front = take (length dest) (drop s.self.in_rd (block s.self)) in
      let no_wrap : add_size s.self.in_rd (length dest) ≡ s.self.in_rd + length dest =
        omega arith in
      let full : length front ≡ length dest = omega (
        arith,
        length-take (length dest) (drop s.self.in_rd (block s.self)),
        length-drop s.self.in_rd (block s.self),
      ) in
      rw (IsValid-in_block s.self.in_rd (length dest) v (omega arith)) (
        returns (
          advanced-IsValid (length dest) v h,
          reindexed-SameOutput s.self _ _,
          (
            front,
            rw (no_wrap, split_unread s.self v (length dest) h, append_assoc),
            whole front full,
            omega arith,
            λ _. full,
          ),
        ))

  -- The caller's buffer after the second copy, behind the first.
  filled :
      (bytes : List ℕ)
      → write_at (copy_size s.self) bytes (copied s.self dest)
        ≡ (unread s.self ++ bytes) ++ drop (length (unread s.self ++ bytes)) dest
  filled bytes =
      let front = unread s.self in
      let after = drop (length front) dest in
      let regroup : front ++ (bytes ++ drop (length bytes) after)
          ≡ (front ++ bytes) ++ drop (length (front ++ bytes)) dest =
        rw
          (drop-drop (length bytes) (length front) dest, length-append front bytes, append_assoc) in
      rw (copied-eq s.self v dest, copy_size-eq s.self v)
        (write_at_behind bytes (s.self.in_size - s.self.in_rd) front after (length-unread s.self v)
          ∙ regroup)

  drained :
      (t : State W) (bytes : List ℕ)
      → t.self ≡ s.self
      → s.self.in_size - s.self.in_rd ≤ length dest
      → length bytes ≤ length dest - (s.self.in_size - s.self.in_rd)
      → (Waits api s.self.socket.fd → length bytes ≡ length dest - (s.self.in_size - s.self.in_rd))
      → incoming s.world ≡ bytes ++ incoming t.world
      → Got (write_at (copy_size s.self) bytes (copied s.self dest)) (reset_input api t)
  drained t bytes e h le full i =
      let count : length (unread s.self ++ bytes) ≡ s.self.in_size - s.self.in_rd + length bytes =
        omega (arith, length-append (unread s.self) bytes, length-unread s.self v) in
      subst
        (λ b.
          Got (write_at (copy_size s.self) bytes (copied s.self dest))
            (record { self = emptied b; world = t.world }))
        (sym e)
        (
          emptied-IsValid v,
          reindexed-SameOutput s.self 0 0,
          (
            unread s.self ++ bytes,
            ap (◌++◌ (unread s.self)) i
                ∙ sym (append_assoc (unread s.self) bytes (incoming t.world)),
            filled bytes,
            omega arith,
            λ w. omega (arith, full w),
          ),
        )

  pub kept : (t : State W) → (t.self ≡ s.self) × (incoming t.world ≡ incoming s.world) → Kept t
  kept t (e, h) =
      subst (λ b. Kept (record { self = b; world = t.world })) (sym e)
        (v, SameOutput-refl s.self, ap (◌++◌ (unread s.self)) h)

  drain_input-Ends :
      length dest < 2 ^ 63
      → s.self.in_size - s.self.in_rd ≤ length dest
      → Ends Got (λ _ t. Kept t) (drain_input api dest s)
  unfolding drain_input
  drain_input-Ends small h =
      let copy = copy_size-eq s.self v in
      let left : recv_size s.self dest ≡ length dest - (s.self.in_size - s.self.in_rd) =
        omega arith in
      rw
        (
          le→ltb_false (length dest) (copy_size s.self) (omega arith),
          IsValid-in_block s.self.in_rd (copy_size s.self) v (omega arith),
        )
        (elim (Bool-cases (recv_size s.self dest == 0)) [
          | inl e ↦ rw e (
              returns (
                emptied-IsValid v,
                reindexed-SameOutput s.self 0 0,
                (
                  unread s.self,
                  refl,
                  copied-eq s.self v dest,
                  omega (arith, length-unread s.self v),
                  λ _. omega (arith, length-unread s.self v, ==→eq _ _ e),
                ),
              ))
          | inr e ↦ rw e (
              Ends.bind
                (within-Ends s (recv-Ends api s.self.socket law (recv_size s.self dest) _ s.world))
                (λ r t p. returns (
                  drained t r.1 p.0 h (omega arith)
                    (λ w. omega (arith, w (recv_size s.self dest) s.world r.0 r.1 t.world p.1.3))
                    p.1.2))
                (λ _ t p. kept t p))
        ])

  -- Without the reception that goes before it.
  pub take_input-Ends : length dest < 2 ^ 63 → Ends Got (λ _ t. Kept t) (take_input api dest s)
  unfolding take_input
  take_input-Ends small =
      elim (Bool-cases (leb s.self.in_size (add_size s.self.in_rd (length dest)))) [
        | inl e ↦ rw e (drain_input-Ends small (omega (arith, leb→le _ _ e)))
        | inr e ↦ rw e (
            Ends.mono (copy_input-Ends (omega (arith, leb_false→lt _ _ e))) (λ _ _ p. p)
              (λ _ _ p. absurd p))
      ]

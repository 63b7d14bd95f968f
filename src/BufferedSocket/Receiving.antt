-- ===== src/BufferedSocket/Receiving.antt =====
-- `recv_if_possible` against the stream of bytes that the peer sends.
use fdcpp.Base.{
  true, inr, inl, ℕ, ◌+◌, ◌-◌, ◌≤◌, ◌≡◌, ◌≢◌, refl, sym, ◌∙◌, subst, List, [], ◌++◌, some, length,
  take, drop, append-nil, Bool-cases, arith, length-drop, leb, ◌==◌, ◌||◌,
}
use fdcpp.Effect.{Error, system_error, runtime_error}
use fdcpp.Effect.Ends
use fdcpp.Effect.Ends.{Ends, returns, throws}
use fdcpp.Socket.{SocketOs}
use fdcpp.Socket.Stream.{RecvLaw, recv-Ends}
use fdcpp.BufferedSocket.{
  in_block, ewouldblock, eagain, BufferedSocket, State, block, unread, add_size, sub_size, write_at,
  store_input, recv_failed, recv_if_possible,
}
use fdcpp.BufferedSocket.Memory.{length-write_at, drop-write_at, take-write_at, drop-write_at_of_le}
use fdcpp.BufferedSocket.Invariant.{IsValid-in_block, IsValid, SameOutput, SameOutput-refl}
use fdcpp.BufferedSocket.Writing.{within-Ends}

abbrev pub received : BufferedSocket → List ℕ → BufferedSocket
received b bytes = record b {
  buffer = some (write_at b.in_size bytes (block b));
  in_size = add_size b.in_size (length bytes);
}

module _ (b : BufferedSocket) (bytes : List ℕ) (v : IsValid b)
    (fits : b.in_size + length bytes ≤ b.in_capacity) where
  received-IsValid : IsValid (received b bytes)
  received-IsValid = record {
    owned = λ e. cc;
    room = length-write_at bytes b.in_size (block b) (omega arith) ∙ v.room;
    base = v.base;
    small = v.small;
    rd_le = omega arith;
    in_le = omega arith;
    out_le = v.out_le;
  }

  received-SameOutput : SameOutput b (received b bytes)
  received-SameOutput = record {
    socket = refl;
    in_capacity = refl;
    out_base = refl;
    out_size = refl;
    out_capacity = refl;
    output = drop-write_at_of_le bytes b.out_base b.in_size (block b) (omega arith) (omega arith);
  }

  -- The new bytes are unread, behind those that were.
  unread-received : unread (received b bytes) ≡ unread b ++ bytes
  unread-received =
      let at : b.in_rd + (b.in_size - b.in_rd) ≡ b.in_size = omega arith in
      let count : add_size b.in_size (length bytes) - b.in_rd ≡ b.in_size - b.in_rd + length bytes =
        omega arith in
      rw (count) (
        subst
          (λ i.
            take (b.in_size - b.in_rd + length bytes) (drop b.in_rd (write_at i bytes (block b)))
            ≡ unread b ++ bytes)
          at
          (rw (drop-write_at bytes b.in_rd (b.in_size - b.in_rd) (block b) (omega arith)) (
            take-write_at bytes (b.in_size - b.in_rd) (drop b.in_rd (block b))
              (omega (arith, length-drop b.in_rd (block b))))))

module _ {W : Type 0} (api : SocketOs W) {incoming : W → List ℕ} (s : State W)
    (law : RecvLaw api s.self.socket.fd incoming) (v : IsValid s.self) where
  -- What holds when some bytes, perhaps none, went from the stream to the unread ones.
  abbrev pub Received : BufferedSocket → W → Type 0
  Received b w =
      IsValid b
      × SameOutput s.self b
      × (b.in_rd ≡ s.self.in_rd)
      × ((bytes : List ℕ) × (unread b ≡ unread s.self ++ bytes)
          × (incoming s.world ≡ bytes ++ incoming w))

  -- What holds when nothing happened.
  abbrev pub Untouched : State W → Type 0
  Untouched t = (t.self ≡ s.self) × (incoming t.world ≡ incoming s.world)

  -- An exception that does not say that no data has come.
  abbrev pub IsFailure : Error → Type 0
  IsFailure (system_error code what) = (code ≢ eagain) × (code ≢ ewouldblock)
  IsFailure (runtime_error what) = Unit

  nothing : (t : State W) → Untouched t → Received t.self t.world
  nothing t (e, h) =
      subst (λ b. Received b t.world) (sym e)
        (v, SameOutput-refl s.self, refl, ([], sym (append-nil (unread s.self)), sym h))

  store_input-Ends :
      (t : State W) (bytes : List ℕ)
      → t.self ≡ s.self
      → length bytes ≤ sub_size s.self.in_capacity s.self.in_size
      → incoming s.world ≡ bytes ++ incoming t.world
      → Ends (λ _ u. Received u.self u.world) (λ _ _. ⊥) (store_input api (length bytes, bytes) t)
  store_input-Ends t bytes e h i =
      let fits : s.self.in_size + length bytes ≤ s.self.in_capacity = omega arith in
      let mine : in_block t.self.in_size (length bytes) t.self ≡ true =
        subst (λ b. in_block b.in_size (length bytes) b ≡ true) (sym e)
          (IsValid-in_block s.self.in_size (length bytes) v (omega arith)) in
      rw mine (
        returns (
          subst (λ b. Received (received b bytes) t.world) (sym e)
            (
              received-IsValid s.self bytes v fits,
              received-SameOutput s.self bytes v fits,
              refl,
              (bytes, unread-received s.self bytes v fits, i),
            )))

  recv_failed-Ends :
      (e : Error) (t : State W)
      → Untouched t
      → Ends
          (λ _ u. Received u.self u.world)
          (λ f u. Untouched u × IsFailure f)
          (recv_failed api e t)
  unfolding recv_failed
  recv_failed-Ends (system_error code what) t h =
      elim (Bool-cases (code == eagain || code == ewouldblock)) [
        | inl e ↦ rw e (returns (nothing t h))
        | inr e ↦ rw e (throws (h, (ground arith, ground arith)))
      ]
  recv_failed-Ends (runtime_error what) t h = throws (h, tt)

  -- A reception ends: bytes of the stream, perhaps none, are unread behind those that were, and the
  -- object is valid; or it throws, which is not that no data has come (EAGAIN or EWOULDBLOCK), and
  -- object and stream are as they were.
  pub recv_if_possible-Ends :
      Ends
        (λ _ t. Received t.self t.world)
        (λ e t. Untouched t × IsFailure e)
        (recv_if_possible api s)
  unfolding recv_if_possible
  recv_if_possible-Ends = elim (Bool-cases (leb s.self.in_capacity s.self.in_size)) [
    | inl e ↦ rw e (returns (nothing s (refl, refl)))
    | inr e ↦ rw e (
        Ends.handle
          (Ends.bind (within-Ends s (recv-Ends api s.self.socket law _ _ s.world))
            (λ r t p.
              Ends.mono
                (subst
                  (λ n.
                    Ends (λ _ u. Received u.self u.world) (λ _ _. ⊥) (store_input api (n, r.1) t))
                  p.1.1 (store_input-Ends t r.1 p.0 (omega arith) p.1.2))
                (λ _ u q. q) (λ _ _ q. absurd q))
            (λ _ t p. p))
          recv_failed-Ends)
  ]

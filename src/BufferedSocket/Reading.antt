-- ===== src/BufferedSocket/Reading.antt =====
-- `read_input_buffer` against the stream of bytes that the peer sends.
use fdcpp.Base.{
  ℕ, ◌^◌, ◌<◌, ◌≡◌, sym, ap, ◌∙◌, subst, List, ◌++◌, length, drop, append_assoc, length-append,
  arith,
}
use fdcpp.Effect.Ends
use fdcpp.Effect.Ends.{Ends, returns, throws}
use fdcpp.Socket.{SocketOs}
use fdcpp.Socket.Stream.{RecvLaw, Waits}
use fdcpp.BufferedSocket.{State, take_input, read_input_buffer}
use fdcpp.BufferedSocket.Invariant.{IsValid, SameOutput, SameOutput-trans}
use fdcpp.Descriptor.{Descriptor}
use fdcpp.BufferedSocket.Receiving.{Received, recv_if_possible-Ends}
use fdcpp.BufferedSocket.Draining.{whole, input, Got, Kept, kept, take_input-Ends}

module _ {W : Type 0} (api : SocketOs W) {incoming : W → List ℕ} (s : State W)
    (law : RecvLaw api s.self.socket.fd incoming) (v : IsValid s.self) (dest : List ℕ) where
  -- The bytes that a reception adds are in the stream before and after.
  pub input-Received :
      (t : State W) → Received api s law v t.self t.world → input incoming t ≡ input incoming s
  input-Received t p = rw (p.3.1, p.3.2, append_assoc)

  behind :
      (t : State W)
      → Received api s law v t.self t.world
      → length dest < 2 ^ 63
      → Ends (Got api s law v dest) (λ _ u. Kept api s law v dest u) (take_input api dest t)
  behind t p small =
      let there : t.self.socket.fd ≡ s.self.socket.fd =
        ap {A = Descriptor} (λ d. d.fd) p.1.socket in
      let law' = subst (λ fd. RecvLaw api fd incoming) (sym there) law in
      Ends.mono (take_input-Ends api t law' p.0 dest small)
        (λ got u q. (
          q.0,
          SameOutput-trans p.1 q.1,
          (
            q.2.0,
            sym (input-Received t p) ∙ q.2.1,
            q.2.2,
            q.2.3,
            λ w. q.2.4 (subst (Waits api) (sym there) w),
          ),
        ))
        (λ _ u q. (q.0, SameOutput-trans p.1 q.1, q.2 ∙ input-Received t p))

  -- What a read leaves, whether or not the system waits for all that is asked for.
  pub read_input_buffer-Got :
      length dest < 2 ^ 63
      → Ends (Got api s law v dest) (λ _ t. Kept api s law v dest t) (read_input_buffer api dest s)
  unfolding read_input_buffer
  read_input_buffer-Got small =
      Ends.bind (recv_if_possible-Ends api s law v) (λ _ t p. behind t p small)
        (λ _ t p. kept api s law v dest t p.0)

  -- A read that ends has the next bytes of the stream, as many as were asked for, and the object is
  -- valid, behind them in the stream, its output side untouched. A read that throws leaves the whole
  -- stream to be read.
  pub read_input_buffer-Ends :
      length dest < 2 ^ 63
      → Waits api s.self.socket.fd
      → Ends
          (λ got t.
            IsValid t.self
            × SameOutput s.self t.self
            × (length got ≡ length dest)
            × (input incoming s ≡ got ++ input incoming t))
          (λ _ t. IsValid t.self × SameOutput s.self t.self × (input incoming t ≡ input incoming s))
          (read_input_buffer api dest s)
  read_input_buffer-Ends small waits =
      Ends.mono (read_input_buffer-Got small)
        (λ got t p.
          let full = p.2.4 waits in
          let same : got ≡ p.2.0 = p.2.2 ∙ sym (whole api s law v dest p.2.0 full) in
          (p.0, p.1, ap length same ∙ full, p.2.1 ∙ ap (λ xs. xs ++ input incoming t) (sym same)))
        (λ _ _ p. p)

  -- A read of fewer than 2 ^ 63 bytes, and of more than the object has unread and the peer will ever send,
  -- that ends normally has bytes of the stream, fewer than were asked for, and behind them, up to the
  -- end of the caller's buffer, that buffer's old bytes; a read that throws loses nothing of the stream.
  pub short_read-stale :
      length dest < 2 ^ 63
      → length (input incoming s) < length dest
      → Ends
          (λ got t.
            (bytes : List ℕ) × (input incoming s ≡ bytes ++ input incoming t)
            × (length bytes < length dest)
            × (got ≡ bytes ++ drop (length bytes) dest))
          (λ _ t. input incoming t ≡ input incoming s)
          (read_input_buffer api dest s)
  short_read-stale small more =
      Ends.mono (read_input_buffer-Got small)
        (λ _ t p. (
          p.2.0,
          p.2.1,
          omega (arith, more, ap length p.2.1, length-append p.2.0 (input incoming t)),
          p.2.2,
        ))
        (λ _ _ p. p.2)

-- ===== src/BufferedSocket/Sequence.antt =====
-- Many writes and one flush against a single transmission of all the bytes.
use fdcpp.Base.{
  ℕ, ◌<◌, ◌≡◌, refl, sym, ap, ◌∙◌, subst, inl, ℤ, List, [], ◌∷◌, ◌++◌, length, append-nil,
  append_assoc, arith,
}
use fdcpp.Effect.{Cmd, pure, and_then, ◌>>◌}
use fdcpp.Effect.Ends
use fdcpp.Effect.Ends.{Ends, returns}
use fdcpp.Descriptor.{Descriptor}
use fdcpp.Socket.{SocketOs}
use fdcpp.Socket.Stream.{SendLaw}
use fdcpp.BufferedSocket.{BufferedSocket, State, pending, flush, write_output_buffer}
use fdcpp.BufferedSocket.Invariant.{IsValid}
use fdcpp.BufferedSocket.Appending.{flushed-IsValid}
use fdcpp.BufferedSocket.Writing.{stream, write_output_buffer-Ends, flush-Ends}

abbrev pub concat : List (List ℕ) → List ℕ
concat [] = []
concat (bytes ∷ rest) = bytes ++ concat rest

-- Every part is shorter than the output buffer.
abbrev pub Shorter : ℕ → List (List ℕ) → Type 0
Shorter n [] = Unit
Shorter n (bytes ∷ rest) = (length bytes < n) × Shorter n rest

module _ {W : Type 0} (api : SocketOs W) where
  unfoldable pub write_each : List (List ℕ) → Cmd (State W) (Unit {0})
  write_each [] = pure tt
  write_each (bytes ∷ rest) = write_output_buffer api bytes >> write_each rest

module _ {W : Type 0} (api : SocketOs W) (fd : ℤ) {sent : W → List ℕ}
    (law : SendLaw api fd sent) where
  -- What has been accepted by a valid object over the socket, with an output buffer of `n` bytes.
  abbrev Accepted : ℕ → List ℕ → State W → Type 0
  Accepted n bytes t =
      IsValid t.self × (t.self.socket.fd ≡ fd) × (t.self.out_capacity ≡ n) × (stream sent t ≡ bytes)

  abbrev Still : ℕ → State W → Type 0
  Still n t = IsValid t.self × (t.self.socket.fd ≡ fd) × (t.self.out_capacity ≡ n)

  write_each-Ends :
      (parts : List (List ℕ)) (s : State W)
      → IsValid s.self
      → s.self.socket.fd ≡ fd
      → Shorter s.self.out_capacity parts
      → Ends
          (λ _ t. Accepted s.self.out_capacity (stream sent s ++ concat parts) t)
          (λ _ t. Still s.self.out_capacity t)
          (write_each api parts s)
  unfolding write_each
  write_each-Ends [] s v same h = returns (v, same, refl, sym (append-nil _))
  write_each-Ends (bytes ∷ rest) s v same h =
      Ends.bind
        (write_output_buffer-Ends api s (subst (λ n. SendLaw api n sent) (sym same) law) v bytes
          (omega (arith, v.small, h.0)) (inl h.0))
        (λ _ t p.
          let there = ap {A = Descriptor} (λ d. d.fd) p.1.socket ∙ same in
          let fits = subst (λ n. Shorter n rest) (sym p.1.out_capacity) h.1 in
          Ends.mono (write_each-Ends rest t p.0 there fits)
            (λ _ u q. (
              q.0,
              q.1,
              q.2 ∙ p.1.out_capacity,
              q.3
                  ∙ ap (λ xs. xs ++ concat rest) p.2
                  ∙ append_assoc (stream sent s) bytes (concat rest),
            ))
            (λ _ u q. (q.0, q.1, q.2 ∙ p.1.out_capacity)))
        (λ _ t p.
          subst (λ b. IsValid b × (b.socket.fd ≡ fd) × (b.out_capacity ≡ s.self.out_capacity))
            (sym p.0) (v, same, refl))

  -- After writes that are each shorter than the output buffer, and a flush, the peer has been sent what
  -- was pending and then all the parts in their order, and nothing is pending. If a call throws, the
  -- object is valid.
  pub flush-write_each :
      (parts : List (List ℕ)) (s : State W)
      → IsValid s.self
      → s.self.socket.fd ≡ fd
      → Shorter s.self.out_capacity parts
      → Ends
          (λ _ t.
            IsValid t.self
            × (sent t.world ≡ sent s.world ++ (pending s.self ++ concat parts))
            × (pending t.self ≡ []))
          (λ _ t. IsValid t.self)
          (and_then (write_each api parts s) (λ _. flush api))
  flush-write_each parts s v same h =
      Ends.bind (write_each-Ends parts s v same h)
        (λ _ t p.
          Ends.mono (flush-Ends api t (subst (λ n. SendLaw api n sent) (sym p.1) law) p.0)
            (λ _ u q. (
              subst IsValid (sym q.0) (flushed-IsValid p.0),
              q.1 ∙ p.3 ∙ append_assoc (sent s.world) (pending s.self) (concat parts),
              ap {A = BufferedSocket} pending q.0,
            ))
            (λ _ u q. subst IsValid (sym q.0) p.0))
        (λ _ t p. p.0)

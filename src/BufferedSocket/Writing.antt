-- ===== src/BufferedSocket/Writing.antt =====
-- `write_output_buffer` and `flush` against the stream of bytes that the object has accepted: what
-- was sent, then what is pending.
use fdcpp.Base.{
  leb_false→lt, le→leb, lt→leb_false, leb→le, ℕ, zero, suc, ◌+◌, ◌^◌, ◌≤◌, ◌<◌, ◌≡◌, refl, sym, ap,
  ap₂, ◌∙◌, ◌⊎◌, inl, inr, subst, List, [], ◌∷◌, ◌++◌, Bool, length, take, drop, leb, append_assoc,
  append-nil, Bool-cases, arith, length-take,
}
use fdcpp.Effect.{Run, Error}
use fdcpp.Effect.Ends
use fdcpp.Effect.Ends.{Ends, returns, throws}
use fdcpp.Socket.{SocketOs}
use fdcpp.Socket.Stream.{SendLaw}
use fdcpp.BufferedSocket.{
  BufferedSocket, State, within, block, pending, add_size, flush, append_output,
  write_output_buffer,
}
use fdcpp.BufferedSocket.Invariant.{IsValid, IsValid-in_block, SameInput}
use fdcpp.BufferedSocket.Appending.{
  flushed, flushed-IsValid, SameInput-refl, flushed-SameInput, SameInput-trans, appended-IsValid,
  appended-SameInput, pending-appended,
}
use fdcpp.BufferedSocket.Output.{send_all-Ends}

-- A command of the socket inside the object: the object stays.
pub within-Ends :
    {W A : Type 0} {P : A → W → Type 0} {E : Error → W → Type 0} (s : State W) {r : Run W A}
    → Ends P E r
    → Ends
        (λ a t. (t.self ≡ s.self) × P a t.world)
        (λ e t. (t.self ≡ s.self) × E e t.world)
        (within s r)
within-Ends s (returns p) = returns (refl, p)
within-Ends s (throws p) = throws (refl, p)

-- A prefix of a list is one of a longer list.
prefix_of_append : (k : ℕ) (xs ys : List ℕ) → (j : ℕ) × (take k xs ≡ take j (xs ++ ys))
prefix_of_append zero xs ys = (0, refl)
prefix_of_append (suc k) [] ys = (0, refl)
prefix_of_append (suc k) (x ∷ xs) ys =
    let (j, e) = prefix_of_append k xs ys in (suc j, ap (◌∷◌ x) e)

length-pending : (b : BufferedSocket) → length (pending b) ≤ b.out_size
length-pending b = omega (arith, length-take b.out_size (drop b.out_base (block b)))

module _ {W : Type 0} (sent : W → List ℕ) where
  -- What the object has accepted for the peer.
  abbrev pub stream : State W → List ℕ
  stream s = sent s.world ++ pending s.self

module _ {W : Type 0} (api : SocketOs W) {sent : W → List ℕ} (s : State W)
    (law : SendLaw api s.self.socket.fd sent) (v : IsValid s.self) where
  -- `flush` sends what is pending and empties the buffer; if it throws, the object is as it was and
  -- some prefix of the pending bytes has been sent.
  pub flush-Ends :
      Ends
        (λ _ t. (t.self ≡ flushed s.self) × (sent t.world ≡ sent s.world ++ pending s.self))
        (λ _ t.
          (t.self ≡ s.self) × ((k : ℕ) × (sent t.world ≡ sent s.world ++ take k (pending s.self))))
        (flush api s)
  unfolding flush
  flush-Ends = rw (IsValid-in_block s.self.out_base s.self.out_size v (omega arith)) (
      Ends.bind
        (within-Ends s (
          send_all-Ends api s.self.socket law (pending s.self) s.world
            (omega (arith, length-pending s.self))))
        (λ _ t p. returns (ap {A = BufferedSocket} (λ b. flushed b) p.0, p.1)) (λ e t p. p))

  -- An object `t` that is `s` or what `flush` made of it takes the bytes into its buffer.
  append_output-Ends :
      (t : State W) (bytes : List ℕ)
      → (b : BufferedSocket) → t.self ≡ b
      → IsValid b
      → SameInput s.self b
      → b.out_size + length bytes < b.out_capacity
      → Ends
          (λ _ u.
            IsValid u.self
            × SameInput s.self u.self
            × (stream sent u ≡ (sent t.world ++ pending b) ++ bytes))
          (λ _ u. ⊥)
          (append_output api bytes t)
  unfolding append_output
  append_output-Ends t bytes b e vb same fits =
      subst
        (λ (c : State W).
          Ends
            (λ _ u.
              IsValid u.self
              × SameInput s.self u.self
              × (stream sent u ≡ (sent t.world ++ pending b) ++ bytes))
            (λ _ u. ⊥) (append_output api bytes c))
        (λ i. record { self = sym e i; world = t.world })
        (rw (IsValid-in_block (b.out_base + b.out_size) (length bytes) vb (omega arith)) (
          returns (
            appended-IsValid b bytes vb fits,
            SameInput-trans same (appended-SameInput b bytes vb fits),
            rw (pending-appended b bytes vb fits, append_assoc),
          )))

  -- A write as large as the buffer is sent at once, before what is pending.
  pub large_write-Ends :
      (bytes : List ℕ)
      → length bytes < 2 ^ 64
      → s.self.out_capacity ≤ length bytes
      → Ends
          (λ _ t. (t.self ≡ s.self) × (stream sent t ≡ sent s.world ++ bytes ++ pending s.self))
          (λ _ t. (t.self ≡ s.self) × ((k : ℕ) × (sent t.world ≡ sent s.world ++ take k bytes)))
          (write_output_buffer api bytes s)
  unfolding write_output_buffer
  large_write-Ends bytes small large = rw (le→leb _ _ large) (
      Ends.mono (within-Ends s (send_all-Ends api s.self.socket law bytes s.world small))
        (λ _ t p. (p.0, ap₂ ◌++◌ p.1 (ap {A = BufferedSocket} pending p.0))) (λ _ t p. p))

  -- A write that is smaller than the buffer goes behind what is pending, which is flushed first if
  -- the buffer would be full.
  small_write-Ends :
      (bytes : List ℕ)
      → length bytes < s.self.out_capacity
      → Ends
          (λ _ t.
            IsValid t.self × SameInput s.self t.self × (stream sent t ≡ stream sent s ++ bytes))
          (λ _ t.
            (t.self ≡ s.self)
            × ((k : ℕ) × (sent t.world ≡ sent s.world ++ take k (pending s.self ++ bytes))))
          (write_output_buffer api bytes s)
  unfolding write_output_buffer
  small_write-Ends bytes fits = rw (lt→leb_false _ _ fits) (elim (Bool-cases full) [
    | inl e ↦ rw e (
        Ends.bind flush-Ends
          (λ _ t p.
            Ends.mono
              (append_output-Ends t bytes (flushed s.self) p.0 (flushed-IsValid v)
                (flushed-SameInput s.self) (omega arith))
              (λ _ u q. (q.0, q.1, q.2 ∙ ap (λ xs. xs ++ bytes) (append-nil (sent t.world) ∙ p.1)))
              (λ _ u q. absurd q))
          (λ e t p.
            let (j, eq) = prefix_of_append p.1.0 (pending s.self) bytes in
            (p.0, (j, p.1.1 ∙ ap (◌++◌ (sent s.world)) eq))))
    | inr e ↦ rw e (
        Ends.mono
          (append_output-Ends s bytes s.self refl v (SameInput-refl s.self)
            (omega (arith, leb_false→lt _ _ e)))
          (λ _ u q. q) (λ _ u q. absurd q))
  ])
    where
      full : Bool
      full = leb s.self.out_capacity (add_size s.self.out_size (length bytes))

  -- Bytes that are fewer than the buffer holds, or that find it empty, go behind all that was
  -- accepted before; if the write throws, the object is as it was.
  pub write_output_buffer-Ends :
      (bytes : List ℕ)
      → length bytes < 2 ^ 64
      → (length bytes < s.self.out_capacity) ⊎ (s.self.out_size ≡ 0)
      → Ends
          (λ _ t.
            IsValid t.self × SameInput s.self t.self × (stream sent t ≡ stream sent s ++ bytes))
          (λ _ t.
            (t.self ≡ s.self)
            × ((k : ℕ) × (sent t.world ≡ sent s.world ++ take k (pending s.self ++ bytes))))
          (write_output_buffer api bytes s)
  write_output_buffer-Ends bytes small (inl fits) = small_write-Ends bytes fits
  write_output_buffer-Ends bytes small (inr empty) =
      elim (Bool-cases (leb s.self.out_capacity (length bytes))) [
        | inl large ↦
            Ends.mono (large_write-Ends bytes small (leb→le _ _ large))
              (λ _ t p. (
                subst IsValid (sym p.0) v,
                subst (SameInput s.self) (sym p.0) (SameInput-refl s.self),
                p.1 ∙ rw (none_pending, append-nil, append-nil),
              ))
              (λ _ t p. (p.0, (p.1.0, rw none_pending p.1.1)))
        | inr fits ↦ small_write-Ends bytes (leb_false→lt _ _ fits)
      ]
    where
      none_pending : pending s.self ≡ []
      none_pending = ap (λ k. take k (drop s.self.out_base (block s.self))) empty

  -- Bytes of any number are accepted or refused by a valid object, which is valid afterwards.
  pub write_any-Ends :
      (bytes : List ℕ)
      → length bytes < 2 ^ 64
      → Ends
          (λ _ t. IsValid t.self × (t.self.socket ≡ s.self.socket))
          (λ _ t. t.self ≡ s.self)
          (write_output_buffer api bytes s)
  write_any-Ends bytes small = elim (Bool-cases (leb s.self.out_capacity (length bytes))) [
    | inl large ↦
        Ends.mono (large_write-Ends bytes small (leb→le _ _ large))
          (λ _ t p. (subst IsValid (sym p.0) v, ap {A = BufferedSocket} (λ b. b.socket) p.0))
          (λ _ t p. p.0)
    | inr fits ↦
        Ends.mono (small_write-Ends bytes (leb_false→lt _ _ fits)) (λ _ t p. (p.0, p.1.socket))
          (λ _ t p. p.0)
  ]

-- ===== src/BufferedSocket/Codec.antt =====
-- What the operators have in common: a number goes out as its bytes, and comes back from them.
use fdcpp.Base.{append_split, ℕ, ◌^◌, ◌<◌, ◌≡◌, sym, ap, ◌∙◌, subst, ◌⊎◌, List, ◌++◌, length, arith}
use fdcpp.Effect.{Run, pure, and_then}
use fdcpp.Effect.Ends
use fdcpp.Effect.Ends.{Ends, returns, throws}
use fdcpp.Socket.{SocketOs}
use fdcpp.Socket.Stream.{SendLaw, RecvLaw, Waits}
use fdcpp.Endian.Wire.{big_endian, length-big_endian}
use fdcpp.BufferedSocket.{State, write_output_buffer, read_input_buffer}
use fdcpp.BufferedSocket.Invariant.{IsValid, SameInput, SameOutput}
use fdcpp.BufferedSocket.Writing.{stream, write_output_buffer-Ends}
use fdcpp.BufferedSocket.Draining.{input}
use fdcpp.BufferedSocket.Reading.{read_input_buffer-Ends}

module _ {W : Type 0} (api : SocketOs W) {sent : W → List ℕ} (s : State W)
    (law : SendLaw api s.self.socket.fd sent) (v : IsValid s.self) where
  -- The bytes went behind what was accepted before, and the object is valid; or the write threw and
  -- the object is as it was.
  abbrev pub Accepts : List ℕ → Run (State W) (Unit {0}) → Type 0
  Accepts bytes =
      Ends
        (λ _ t. IsValid t.self × SameInput s.self t.self × (stream sent t ≡ stream sent s ++ bytes))
        (λ _ t. t.self ≡ s.self)

  pub accepts :
      (n : ℕ) (bytes : List ℕ) (val : ℕ)
      → bytes ≡ big_endian n val
      → (n < s.self.out_capacity) ⊎ (s.self.out_size ≡ 0)
      → n < 2 ^ 64
      → Accepts (big_endian n val) (write_output_buffer api bytes s)
  accepts n bytes val e room small =
      let count : length bytes ≡ n = ap length e ∙ length-big_endian n val in
      rw (← e) (
        Ends.mono
          (write_output_buffer-Ends api s law v bytes (omega arith)
            (subst (λ k. (k < s.self.out_capacity) ⊎ (s.self.out_size ≡ 0)) (sym count) room))
          (λ _ _ p. p) (λ _ _ p. p.0))

module _ {W : Type 0} (api : SocketOs W) {incoming : W → List ℕ} (s : State W)
    (law : RecvLaw api s.self.socket.fd incoming) (waits : Waits api s.self.socket.fd)
    (v : IsValid s.self) where
  -- The value was taken from the stream, of which `rest` is left, and the object is valid; or the
  -- read threw and took nothing.
  abbrev pub Yields : {A : Type 0} → A → List ℕ → Run (State W) A → Type 0
  Yields val rest =
      Ends
        (λ got t.
          (got ≡ val) × (input incoming t ≡ rest) × IsValid t.self × SameOutput s.self t.self)
        (λ _ t. (input incoming t ≡ input incoming s) × IsValid t.self)

  pub yields :
      {A : Type 0} (n : ℕ) (dest : List ℕ) (decode : List ℕ → A) (val : ℕ) (rest : List ℕ)
      → length dest ≡ n
      → n < 2 ^ 63
      → input incoming s ≡ big_endian n val ++ rest
      → Yields
          (decode (big_endian n val))
          rest
          (and_then (read_input_buffer api dest s) (λ bytes. pure (decode bytes)))
  yields n dest decode val rest count small e =
      Ends.bind (read_input_buffer-Ends api s law v dest (omega arith) waits)
        (λ got t p.
          let split =
            append_split got (big_endian n val) (sym p.3 ∙ e)
              (p.2 ∙ count ∙ sym (length-big_endian n val)) in
          returns (ap decode split.0, split.1, p.0, p.1))
        (λ _ _ p. (p.2, p.0))

-- ===== src/BufferedSocket/Returning.antt =====
-- Where the socket answers every call, no operation throws.
use Prim.Native.Nat.{bit_or}
use fdcpp.Base.{
  ◌+◌, ltb_false→le, length-append, ◌^◌, ◌<◌, ◌≤◌, ℕ, zero, suc, ◌≡◌, ◌≢◌, sym, subst, ap, inl, inr,
  ℤ, negsuc, List, length, drop, ◌==◌, leb, ltb, Bool-cases, codes, arith,
}
use fdcpp.Effect.{Error, system_error, Run, ok, throw, fault, out_of_fuel}
use fdcpp.Effect.Ends.{Ends}
use fdcpp.Effect.Quiet.{
  Quiet, Quiet-guarded, Quiet-bind, Quiet-after, Quiet-handle, Quiet-Ends, Throws, Throws-bind,
  Ends-Throws,
}
use fdcpp.Throw.{make_message}
use fdcpp.Os.Checked.{counted-Ends, stored-Ends}
use fdcpp.Descriptor.{Descriptor}
use fdcpp.Socket.{SocketOs, msg_nosignal, msg_dontwait, msg_waitall}
use fdcpp.Socket
use fdcpp.Socket.Stream.{RecvLaw}
use fdcpp.BufferedSocket.Invariant.{IsValid}
use fdcpp.BufferedSocket.Indices.{copy_size-eq, length-unread}
use fdcpp.BufferedSocket.Draining.{input}
use fdcpp.BufferedSocket.Reading.{input-Received}
use fdcpp.BufferedSocket.Receiving.{recv_if_possible-Ends}
use fdcpp.BufferedSocket.{
  in_block, unread, State, within, add_size, sub_size, send_loop, send_all, pending, flush,
  append_output, write_output_buffer, store_input, recv_failed, recv_if_possible, copy_size,
  recv_size, drain_input, copy_input, take_input, read_input_buffer, eagain,
}

-- No call on the socket fails: a `send` is not refused, and a `recv` that waits for bytes that are to
-- come is not interrupted. One that must not wait may find nothing.
pub record Answers {W : Type 0} (api : SocketOs W) (fd : ℤ) (incoming : W → List ℕ) : Type 0 where
  pub sends :
      (bytes : List ℕ) (flags : ℕ) (w : W) (e : ℕ) (w' : W)
      → api.send fd bytes flags w ≢ (negsuc e, w')
  pub waits :
      (size : ℕ) (w : W) (e : ℕ) (bytes : List ℕ) (w' : W)
      → size ≤ length (incoming w)
      → api.recv fd size (bit_or msg_nosignal msg_waitall) w ≢ (negsuc e, bytes, w')
  pub polls :
      (size : ℕ) (w : W) (e : ℕ) (bytes : List ℕ) (w' : W)
      → api.recv fd size (bit_or msg_dontwait msg_nosignal) w ≡ (negsuc e, bytes, w')
      → api.os.errno w' ≡ eagain

Quiet-within : {W A : Type 0} (s : State W) (r : Run W A) → Quiet r → Quiet (within s r)
Quiet-within s (ok a w) q = tt
Quiet-within s (throw e w) q = q
Quiet-within s fault q = tt
Quiet-within s out_of_fuel q = tt

module _ {W : Type 0} (api : SocketOs W) where
  -- A failed poll is caught.
  recv_failed-Quiet :
      (what : List ℕ) (s : State W) → Quiet (recv_failed api (system_error eagain what) s)
  unfolding recv_failed
  recv_failed-Quiet what s = tt

  append_output-Quiet : (bytes : List ℕ) (t : State W) → Quiet (append_output api bytes t)
  unfolding append_output
  append_output-Quiet bytes t =
      elim (Bool-cases (in_block (t.self.out_base + t.self.out_size) (length bytes) t.self)) [
        | inl e ↦ rw e tt
        | inr e ↦ rw e tt
      ]

  store_input-Quiet : (r : ℕ × List ℕ) (t : State W) → Quiet (store_input api r t)
  store_input-Quiet r t = elim (Bool-cases (in_block t.self.in_size (length r.1) t.self)) [
    | inl e ↦ rw e tt
    | inr e ↦ rw e tt
  ]

-- The error of a poll that finds nothing.
abbrev FindsNone : Error → Type 0
FindsNone e = (what : List ℕ) × (e ≡ system_error eagain what)

Throws-within :
    {W A : Type 0} (E : Error → Type 0) (s : State W) (r : Run W A)
    → Throws E r
    → Throws E (within s r)
Throws-within E s (ok a w) p = tt
Throws-within E s (throw e w) p = p
Throws-within E s fault p = tt
Throws-within E s out_of_fuel p = tt

module _ {W : Type 0} (api : SocketOs W) {incoming : W → List ℕ} where
  send-Quiet :
      (sock : Descriptor) (bytes : List ℕ) (flags : ℕ) (w : W)
      → Answers api sock.fd incoming
      → Quiet (Socket.send api sock bytes flags w)
  unfolding Socket.send
  send-Quiet sock bytes flags w law = Quiet-Ends (
      counted-Ends api.os _ _ {P = λ _ _. Unit} {E = λ _ _. ⊥} (api.send sock.fd bytes flags w)
        (λ n w' e. tt) (λ e w' h. law.sends bytes flags w e w' h))

  send_loop-Quiet :
      (fuel : ℕ) (sock : Descriptor) (bytes : List ℕ) (n : ℕ) (w : W)
      → Answers api sock.fd incoming
      → Quiet (send_loop api fuel sock bytes n w)
  unfolding send_loop
  send_loop-Quiet zero sock bytes n w law = tt
  send_loop-Quiet (suc fuel) sock bytes n w law =
      Quiet-bind (Socket.send api sock (drop n bytes) msg_nosignal w) _
        (send-Quiet sock (drop n bytes) msg_nosignal w law)
        (λ m w'. elim (Bool-cases (add_size n m == length bytes)) [
          | inl e ↦ rw e tt
          | inr e ↦ rw e (send_loop-Quiet fuel sock bytes (add_size n m) w' law)
        ])

  send_all-Quiet :
      (sock : Descriptor) (bytes : List ℕ) (w : W)
      → Answers api sock.fd incoming
      → Quiet (send_all api sock bytes w)
  unfolding send_all
  send_all-Quiet sock bytes w law = send_loop-Quiet _ sock bytes 0 w law

  pub flush-Quiet : (s : State W) → Answers api s.self.socket.fd incoming → Quiet (flush api s)
  unfolding flush
  flush-Quiet s law = Quiet-guarded _ _ (
      Quiet-bind (within s (send_all api s.self.socket (pending s.self) s.world)) _
        (Quiet-within s _ (send_all-Quiet s.self.socket (pending s.self) s.world law)) (λ _ t. tt))

  pub write_output_buffer-Quiet :
      (s : State W) (bytes : List ℕ)
      → Answers api s.self.socket.fd incoming
      → Quiet (write_output_buffer api bytes s)
  unfolding write_output_buffer
  write_output_buffer-Quiet s bytes law =
      elim (Bool-cases (leb s.self.out_capacity (length bytes))) [
        | inl e ↦ rw e (Quiet-within s _ (send_all-Quiet s.self.socket bytes s.world law))
        | inr e ↦
            rw e
              (elim (Bool-cases
                (leb s.self.out_capacity (add_size s.self.out_size (length bytes)))) [
                  | inl full ↦ rw full (
                      Quiet-bind (flush api s) (λ _. append_output api bytes) (flush-Quiet s law)
                        (λ _ t. append_output-Quiet api bytes t))
                  | inr place ↦ rw place (append_output-Quiet api bytes s)
                ])
      ]

  -- The error of a poll that fails.
  polled :
      (s : State W)
      → Answers api s.self.socket.fd incoming
      → (size : ℕ)
      → Ends
          (λ _ _. Unit)
          (λ e _. FindsNone e)
          (Socket.recv api s.self.socket size (bit_or msg_dontwait msg_nosignal) s.world)
  unfolding Socket.recv
  polled s law size =
      stored-Ends api.os _ _
        (api.recv s.self.socket.fd size (bit_or msg_dontwait msg_nosignal) s.world)
        (λ n bytes w e. tt)
        (λ n bytes w e. (
          make_message (codes "socket") (codes "recv()"),
          ap (λ code. system_error code (make_message (codes "socket") (codes "recv()")))
              (law.polls size s.world n bytes w e),
        ))

  -- A `recv` that waits for bytes that come.
  asked :
      (s : State W)
      → Answers api s.self.socket.fd incoming
      → (size : ℕ) → size ≤ length (incoming s.world)
      → Quiet (Socket.recv api s.self.socket size (bit_or msg_nosignal msg_waitall) s.world)
  unfolding Socket.recv
  asked s law size h = Quiet-Ends (
      stored-Ends api.os _ _ {P = λ _ _. Unit} {E = λ _ _. ⊥}
        (api.recv s.self.socket.fd size (bit_or msg_nosignal msg_waitall) s.world)
        (λ n bytes w e. tt) (λ n bytes w e. law.waits size s.world n bytes w h e))

  recv_if_possible-Quiet :
      (s : State W) → Answers api s.self.socket.fd incoming → Quiet (recv_if_possible api s)
  unfolding recv_if_possible
  recv_if_possible-Quiet s law = elim (Bool-cases (leb s.self.in_capacity s.self.in_size)) [
    | inl e ↦ rw e tt
    | inr e ↦ rw e (
        Quiet-handle FindsNone _ (recv_failed api)
          (Throws-bind FindsNone _ (store_input api)
            (Throws-within FindsNone s _
              (Ends-Throws FindsNone (polled s law (sub_size s.self.in_capacity s.self.in_size))))
            (store_input-Quiet api))
          (λ err t p. rw p.1 (recv_failed-Quiet api p.0 t)))
  ]

  take_input-Quiet :
      (s : State W) (dest : List ℕ)
      → Answers api s.self.socket.fd incoming
      → IsValid s.self
      → length dest < 2 ^ 63
      → length dest ≤ length (input incoming s)
      → Quiet (take_input api dest s)
  unfolding take_input drain_input copy_input
  take_input-Quiet s dest law v small enough =
      elim (Bool-cases (leb s.self.in_size (add_size s.self.in_rd (length dest)))) [
        | inr e ↦ rw e (elim (Bool-cases (in_block s.self.in_rd (length dest) s.self)) [
          | inl h ↦ rw h tt
          | inr h ↦ rw h tt
        ])
        | inl e ↦ rw e (elim (Bool-cases (ltb (length dest) (copy_size s.self))) [
          | inl bad ↦ rw bad tt
          | inr fits ↦
              rw fits (elim (Bool-cases (in_block s.self.in_rd (copy_size s.self) s.self)) [
                | inr out ↦ rw out tt
                | inl own ↦ rw own (elim (Bool-cases (recv_size s.self dest == 0)) [
                  | inl all ↦ rw all tt
                  | inr more ↦ rw more (
                      Quiet-bind _ _
                        (Quiet-within s _ (
                          asked s law (recv_size s.self dest) (
                            omega (
                              arith,
                              ltb_false→le _ _ fits,
                              copy_size-eq s.self v,
                              length-unread s.self v,
                              length-append (unread s.self) (incoming s.world),
                            ))))
                        (λ r t. tt))
                ])
              ])
        ])
      ]

  pub read_input_buffer-Quiet :
      (s : State W) (dest : List ℕ)
      → Answers api s.self.socket.fd incoming
      → RecvLaw api s.self.socket.fd incoming
      → IsValid s.self
      → length dest < 2 ^ 63
      → length dest ≤ length (input incoming s)
      → Quiet (read_input_buffer api dest s)
  unfolding read_input_buffer
  read_input_buffer-Quiet s dest law recv_law v small enough =
      Quiet-after (λ _. take_input api dest) (recv_if_possible-Ends api s recv_law v)
        (recv_if_possible-Quiet s law)
        (λ _ t p.
          take_input-Quiet t dest
            (subst (λ (d : Descriptor). Answers api d.fd incoming) (sym p.1.socket) law) p.0 small
            (omega (arith, enough, ap length (input-Received api s recv_law v dest t p))))

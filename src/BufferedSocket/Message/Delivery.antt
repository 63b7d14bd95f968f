-- ===== src/BufferedSocket/Message/Delivery.antt =====
-- Over sockets that answer every call, values that are written arrive.
use fdcpp.Base.{
  ℕ, ◌<◌, ◌≡◌, sym, ap, ◌∙◌, subst, inl, List, [], ◌∷◌, ◌++◌, append_assoc, ◌≤◌, length,
  length-append, arith,
}
use fdcpp.Effect.{and_then, pure}
use fdcpp.Effect.Ends.{Ends}
use fdcpp.Effect.Quiet.{Quiet, Quiet-bind, Quiet-after, Ends-Quiet}
use fdcpp.Descriptor.{Descriptor}
use fdcpp.Socket.{SocketOs}
use fdcpp.Socket.Stream.{SendLaw, RecvLaw, Waits}
use fdcpp.Endian.{Order, object_bytes}
use fdcpp.Endian.Wire.{length-object_bytes, length-big_endian}
use fdcpp.BufferedSocket.{State, pending, flush, read_input_buffer}
use fdcpp.BufferedSocket.Invariant.{IsValid}
use fdcpp.BufferedSocket.Draining.{input}
use fdcpp.BufferedSocket.Returning.{
  Answers, flush-Quiet, write_output_buffer-Quiet, read_input_buffer-Quiet,
}
use fdcpp.BufferedSocket.Values.{
  write_char, write_u8, write_i8, write_u16, write_i16, write_u32, write_i32, write_u64, write_i64,
  write_float, write_double, read_char, read_u8, read_i8, read_u16, read_i16, read_u32, read_i32,
  read_u64, read_i64, read_float, read_double,
}
use fdcpp.BufferedSocket.Message.{
  Kind, char, u8, i8, u16, i16, u32, i32, u64, i64, float, double, Value, width, pattern_of, wire,
  Field, AreValues, wires, values, write_value, read_value, write_values, read_values,
}
use fdcpp.BufferedSocket.Message.Codec.{write_value-Accepts, read_value-Yields}
use fdcpp.BufferedSocket.Message.Transfer.{
  width_le, sends_too, write_values-Ends, flush-write_values, read_values-Ends,
}

module _ {W : Type 0} (api : SocketOs W) (o : Order) {incoming : W → List ℕ} where
  write_value-Quiet :
      (k : Kind) (val : Value k) (s : State W)
      → Answers api s.self.socket.fd incoming
      → Quiet (write_value api o k val s)
  unfolding write_value write_char write_u8 write_i8 write_u16 write_i16 write_u32 write_i32
      write_u64 write_i64 write_float write_double
  write_value-Quiet char val s law = write_output_buffer-Quiet api s _ law
  write_value-Quiet u8 val s law = write_output_buffer-Quiet api s _ law
  write_value-Quiet i8 val s law = write_output_buffer-Quiet api s _ law
  write_value-Quiet u16 val s law = write_output_buffer-Quiet api s _ law
  write_value-Quiet i16 val s law = write_output_buffer-Quiet api s _ law
  write_value-Quiet u32 val s law = write_output_buffer-Quiet api s _ law
  write_value-Quiet i32 val s law = write_output_buffer-Quiet api s _ law
  write_value-Quiet u64 val s law = write_output_buffer-Quiet api s _ law
  write_value-Quiet i64 val s law = write_output_buffer-Quiet api s _ law
  write_value-Quiet float val s law = write_output_buffer-Quiet api s _ law
  write_value-Quiet double val s law = write_output_buffer-Quiet api s _ law

  decoded :
      {A : Type 0} (s : State W) (n old : ℕ) (decode : List ℕ → A)
      → Answers api s.self.socket.fd incoming
      → RecvLaw api s.self.socket.fd incoming
      → IsValid s.self
      → n < 9
      → n ≤ length (input incoming s)
      → Quiet
          (and_then (read_input_buffer api (object_bytes o n old) s) (λ bytes. pure (decode bytes)))
  decoded s n old decode law recv_law v small enough =
      let count = length-object_bytes o n old in
      Quiet-bind (read_input_buffer api (object_bytes o n old) s) _
        (read_input_buffer-Quiet api s (object_bytes o n old) law recv_law v (omega (arith, count))
          (omega (arith, count)))
        (λ _ _. tt)

  read_value-Quiet :
      (k : Kind) (old : Value k) (s : State W)
      → Answers api s.self.socket.fd incoming
      → RecvLaw api s.self.socket.fd incoming
      → IsValid s.self
      → width k ≤ length (input incoming s)
      → Quiet (read_value api o k old s)
  unfolding read_value read_char read_u8 read_i8 read_u16 read_i16 read_u32 read_i32 read_u64
      read_i64 read_float read_double
  read_value-Quiet char old s law recv_law v h = decoded s 1 _ _ law recv_law v (omega arith) h
  read_value-Quiet u8 old s law recv_law v h = decoded s 1 _ _ law recv_law v (omega arith) h
  read_value-Quiet i8 old s law recv_law v h = decoded s 1 _ _ law recv_law v (omega arith) h
  read_value-Quiet u16 old s law recv_law v h = decoded s 2 _ _ law recv_law v (omega arith) h
  read_value-Quiet i16 old s law recv_law v h = decoded s 2 _ _ law recv_law v (omega arith) h
  read_value-Quiet u32 old s law recv_law v h = decoded s 4 _ _ law recv_law v (omega arith) h
  read_value-Quiet i32 old s law recv_law v h = decoded s 4 _ _ law recv_law v (omega arith) h
  read_value-Quiet u64 old s law recv_law v h = decoded s 8 _ _ law recv_law v (omega arith) h
  read_value-Quiet i64 old s law recv_law v h = decoded s 8 _ _ law recv_law v (omega arith) h
  read_value-Quiet float old s law recv_law v h = decoded s 4 _ _ law recv_law v (omega arith) h
  read_value-Quiet double old s law recv_law v h = decoded s 8 _ _ law recv_law v (omega arith) h

  Answers-move :
      (s t : State W)
      → t.self.socket ≡ s.self.socket
      → Answers api s.self.socket.fd incoming
      → Answers api t.self.socket.fd incoming
  Answers-move s t same law = subst (λ (d : Descriptor). Answers api d.fd incoming) (sym same) law

  write_values-Quiet :
      (fs : List Field) (s : State W) {sent : W → List ℕ}
      → Answers api s.self.socket.fd incoming
      → SendLaw api s.self.socket.fd sent
      → IsValid s.self
      → AreValues fs
      → 8 < s.self.out_capacity
      → Quiet (write_values api o fs s)
  unfolding write_values
  write_values-Quiet [] s law send_law v h room = tt
  write_values-Quiet (f ∷ fs) s law send_law v h room =
      Quiet-after _
        (write_value-Accepts api s send_law v o f.kind f.value h.0
          (inl (omega (arith, width_le f.kind))))
        (write_value-Quiet f.kind f.value s law)
        (λ _ t p.
          write_values-Quiet fs t (Answers-move s t p.1.socket law)
            (sends_too api o s t p.1 send_law) p.0 h.1 (omega (arith, p.1.out_capacity)))

  read_values-Quiet :
      (fs : List Field) (rest : List ℕ) (s : State W)
      → Answers api s.self.socket.fd incoming
      → RecvLaw api s.self.socket.fd incoming
      → Waits api s.self.socket.fd
      → IsValid s.self
      → AreValues fs
      → input incoming s ≡ wires fs ++ rest
      → Quiet (read_values api o fs s)
  unfolding read_values
  read_values-Quiet [] rest s law recv_law waits v h e = tt
  read_values-Quiet (f ∷ fs) rest s law recv_law waits v h e =
      Quiet-after _
        (read_value-Yields api s recv_law waits v o f.kind f.old f.value (wires fs ++ rest) h.0
          (e ∙ append_assoc (wire f.kind f.value) (wires fs) rest))
        (read_value-Quiet f.kind f.old s law recv_law v (
          omega (
            arith,
            ap length e,
            length-append (wires (f ∷ fs)) rest,
            length-append (wire f.kind f.value) (wires fs),
            length-big_endian (width f.kind) (pattern_of f.kind f.value),
          )))
        (λ got t p.
          Quiet-bind (read_values api o fs t) _
            (read_values-Quiet fs rest t (Answers-move s t p.3.socket law)
              (subst (λ (d : Descriptor). RecvLaw api d.fd incoming) (sym p.3.socket) recv_law)
              (subst (λ (d : Descriptor). Waits api d.fd) (sym p.3.socket) waits) p.2 h.1 p.1)
            (λ _ _. tt))

  -- Over a socket that answers every call, writing values and flushing returns.
  pub flush-write_values-returns :
      (fs : List Field) (s : State W) {sent : W → List ℕ}
      → Answers api s.self.socket.fd incoming
      → SendLaw api s.self.socket.fd sent
      → IsValid s.self
      → AreValues fs
      → 8 < s.self.out_capacity
      → Ends
          (λ _ t. IsValid t.self × (sent t.world ≡ sent s.world ++ (pending s.self ++ wires fs)))
          (λ _ _. ⊥)
          (and_then (write_values api o fs s) (λ _. flush api))
  flush-write_values-returns fs s law send_law v h room =
      Ends-Quiet (flush-write_values api o fs s send_law v h room) (
        Quiet-after _ (write_values-Ends api o fs s send_law v h room)
          (write_values-Quiet fs s law send_law v h room)
          (λ _ t p. flush-Quiet api t (Answers-move s t p.1.socket law)))

  -- And so does reading values that come next.
  pub read_values-returns :
      (fs : List Field) (rest : List ℕ) (s : State W)
      → Answers api s.self.socket.fd incoming
      → RecvLaw api s.self.socket.fd incoming
      → Waits api s.self.socket.fd
      → IsValid s.self
      → AreValues fs
      → input incoming s ≡ wires fs ++ rest
      → Ends
          (λ got t. (got ≡ values fs) × (input incoming t ≡ rest) × IsValid t.self)
          (λ _ _. ⊥)
          (read_values api o fs s)
  read_values-returns fs rest s law recv_law waits v h e =
      Ends-Quiet (read_values-Ends api o fs rest s recv_law waits v h e)
        (read_values-Quiet fs rest s law recv_law waits v h e)

-- ===== src/BufferedSocket/Message/Codec.antt =====
-- One value on its way: what `<<` appends for it, and what `>>` makes of that.
use fdcpp.Base.{ℕ, ◌^◌, ◌<◌, ◌≡◌, refl, sym, ap, ◌∙◌, subst, ◌⊎◌, List, [], ◌∷◌, ◌++◌, arith}
use fdcpp.Effect.{pure, and_then}
use fdcpp.Socket.{SocketOs}
use fdcpp.Socket.Stream.{SendLaw, RecvLaw, Waits}
use fdcpp.Endian.{Order, little, big, object_bytes, of_object, be_toh, to_unsigned, to_signed}
use fdcpp.Endian.Wire.{
  signed_through, big_endian, object_bytes-hto_be, be_toh-of_object, length-object_bytes,
  of_object-object_bytes, to_signed-to_unsigned, to_unsigned-lt,
}
use fdcpp.BufferedSocket.{State, read_input_buffer}
use fdcpp.BufferedSocket.Invariant.{IsValid}
use fdcpp.BufferedSocket.Draining.{input}
use fdcpp.BufferedSocket.Codec.{Accepts, accepts, Yields, yields}
use fdcpp.BufferedSocket.Values.{
  write_char, write_u8, write_i8, write_u16, write_i16, write_u32, write_i32, write_u64, write_i64,
  write_float, write_double, read_char, read_u8, read_i8, read_u16, read_i16, read_u32, read_i32,
  read_u64, read_i64, read_float, read_double,
}
use fdcpp.BufferedSocket.Message.{
  Kind, char, u8, i8, u16, i16, u32, i32, u64, i64, float, double, Value, IsValue, width, wire,
  write_value, read_value,
}

-- One byte is in order on every host.
object_bytes_one : (o : Order) (v : ℕ) → object_bytes o 1 v ≡ big_endian 1 v
unfolding object_bytes big_endian
object_bytes_one little v = refl
object_bytes_one big v = refl

byte_wire : (v : ℕ) → v < 256 → v ∷ [] ≡ big_endian 1 v
unfolding big_endian
byte_wire v h = ap (λ b. b ∷ []) (omega arith)

byte_back : (o : Order) (v : ℕ) → v < 256 → of_object o (big_endian 1 v) ≡ v
byte_back o v h =
    ap (of_object o) (sym (object_bytes_one o v)) ∙ of_object-object_bytes o 1 v (omega arith)

module _ {W : Type 0} (api : SocketOs W) {sent : W → List ℕ} (s : State W)
    (law : SendLaw api s.self.socket.fd sent) (v : IsValid s.self) where
  -- `<<` appends the bytes of the value, the highest first.
  pub write_value-Accepts :
      (o : Order) (k : Kind) (val : Value k)
      → IsValue k val
      → (width k < s.self.out_capacity) ⊎ (s.self.out_size ≡ 0)
      → Accepts api s law v (wire k val) (write_value api o k val s)
  unfolding write_value write_char write_u8 write_i8 write_u16 write_i16 write_u32 write_i32
      write_u64 write_i64 write_float write_double
  write_value-Accepts o char n h room = accepts api s law v 1 _ n (byte_wire n h) room (omega arith)
  write_value-Accepts o u8 n h room =
      accepts api s law v 1 _ n (object_bytes_one o n) room (omega arith)
  write_value-Accepts o i8 z h room =
      accepts api s law v 1 _ _ (object_bytes_one o _) room (omega arith)
  write_value-Accepts o u16 n h room =
      accepts api s law v 2 _ n (object_bytes-hto_be o 2 n) room (omega arith)
  write_value-Accepts o i16 z h room =
      accepts api s law v 2 _ _ (object_bytes-hto_be o 2 _) room (omega arith)
  write_value-Accepts o u32 n h room =
      accepts api s law v 4 _ n (object_bytes-hto_be o 4 n) room (omega arith)
  write_value-Accepts o i32 z h room =
      accepts api s law v 4 _ _ (object_bytes-hto_be o 4 _) room (omega arith)
  write_value-Accepts o u64 n h room =
      accepts api s law v 8 _ n (object_bytes-hto_be o 8 n) room (omega arith)
  write_value-Accepts o i64 z h room =
      accepts api s law v 8 _ _ (object_bytes-hto_be o 8 _) room (omega arith)
  write_value-Accepts o float n h room =
      accepts api s law v 4 _ n (object_bytes-hto_be o 4 n) room (omega arith)
  write_value-Accepts o double n h room =
      accepts api s law v 8 _ n (object_bytes-hto_be o 8 n) room (omega arith)

module _ {W : Type 0} (api : SocketOs W) {incoming : W → List ℕ} (s : State W)
    (law : RecvLaw api s.self.socket.fd incoming) (waits : Waits api s.self.socket.fd)
    (v : IsValid s.self) where
  -- The value that is decoded, under another name.
  Yields-pattern_of :
      {A : Type 0} (n : ℕ) (o : Order) (old : ℕ) (decode : List ℕ → A) (pattern : ℕ) (val : A)
      (rest : List ℕ)
      → n < 2 ^ 63
      → input incoming s ≡ big_endian n pattern ++ rest
      → decode (big_endian n pattern) ≡ val
      → Yields api s law waits v val rest
          (and_then (read_input_buffer api (object_bytes o n old) s) (λ bytes. pure (decode bytes)))
  Yields-pattern_of n o old decode pattern val rest small e same =
      subst
        (λ x. Yields api s law waits v x rest (
          and_then (read_input_buffer api (object_bytes o n old) s) (λ bytes. pure (decode bytes))))
        same
        (yields api s law waits v n (object_bytes o n old) decode pattern rest
          (length-object_bytes o n old) small e)

  -- `>>` takes a value from its bytes, on a host of any order, whatever the variable held.
  pub read_value-Yields :
      (o : Order) (k : Kind) (old val : Value k) (rest : List ℕ)
      → IsValue k val
      → input incoming s ≡ wire k val ++ rest
      → Yields api s law waits v val rest (read_value api o k old s)
  unfolding read_value read_char read_u8 read_i8 read_u16 read_i16 read_u32 read_i32 read_u64
      read_i64 read_float read_double
  read_value-Yields o char old val rest h e =
      Yields-pattern_of 1 o old (of_object o) val val rest (omega arith) e (byte_back o val h)
  read_value-Yields o u8 old val rest h e =
      Yields-pattern_of 1 o old (of_object o) val val rest (omega arith) e (byte_back o val h)
  read_value-Yields o i8 old val rest h e =
      let u = to_unsigned (2 ^ 7) val in
      Yields-pattern_of 1 o (to_unsigned (2 ^ 7) old)
        (λ bytes. to_signed (2 ^ 7) (of_object o bytes)) u val rest (omega arith) e
        (ap (to_signed (2 ^ 7)) (byte_back o u (to_unsigned-lt (2 ^ 7) val (omega arith)))
          ∙ to_signed-to_unsigned (2 ^ 7) val h)
  read_value-Yields o u16 old val rest h e =
      Yields-pattern_of 2 o old (λ bytes. be_toh o 2 (of_object o bytes)) val val rest (omega arith)
        e (be_toh-of_object o 2 val (omega arith))
  read_value-Yields o i16 old val rest h e =
      Yields-pattern_of 2 o (to_unsigned (2 ^ 15) old)
        (λ bytes.
          to_signed (2 ^ 15)
            (be_toh o 2 (to_unsigned (2 ^ 15) (to_signed (2 ^ 15) (of_object o bytes)))))
        (to_unsigned (2 ^ 15) val) val rest (omega arith) e
        (signed_through o 2 (2 ^ 15) val refl h (omega arith))
  read_value-Yields o u32 old val rest h e =
      Yields-pattern_of 4 o old (λ bytes. be_toh o 4 (of_object o bytes)) val val rest (omega arith)
        e (be_toh-of_object o 4 val (omega arith))
  read_value-Yields o i32 old val rest h e =
      Yields-pattern_of 4 o (to_unsigned (2 ^ 31) old)
        (λ bytes.
          to_signed (2 ^ 31)
            (be_toh o 4 (to_unsigned (2 ^ 31) (to_signed (2 ^ 31) (of_object o bytes)))))
        (to_unsigned (2 ^ 31) val) val rest (omega arith) e
        (signed_through o 4 (2 ^ 31) val refl h (omega arith))
  read_value-Yields o u64 old val rest h e =
      Yields-pattern_of 8 o old (λ bytes. be_toh o 8 (of_object o bytes)) val val rest (omega arith)
        e (be_toh-of_object o 8 val (omega arith))
  read_value-Yields o i64 old val rest h e =
      Yields-pattern_of 8 o (to_unsigned (2 ^ 63) old)
        (λ bytes.
          to_signed (2 ^ 63)
            (be_toh o 8 (to_unsigned (2 ^ 63) (to_signed (2 ^ 63) (of_object o bytes)))))
        (to_unsigned (2 ^ 63) val) val rest (omega arith) e
        (signed_through o 8 (2 ^ 63) val refl h (omega arith))
  read_value-Yields o float old val rest h e =
      Yields-pattern_of 4 o old (λ bytes. be_toh o 4 (of_object o bytes)) val val rest (omega arith)
        e (be_toh-of_object o 4 val (omega arith))
  read_value-Yields o double old val rest h e =
      Yields-pattern_of 8 o old (λ bytes. be_toh o 8 (of_object o bytes)) val val rest (omega arith)
        e (be_toh-of_object o 8 val (omega arith))

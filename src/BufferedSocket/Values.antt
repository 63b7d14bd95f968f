-- ===== src/BufferedSocket/Values.antt =====
-- The operators `<<` and `>>` of src/easy/buffered_socket.cpp, on a host of byte order `o`. A `char`
-- or an unsigned integer is a number, a signed one an integer; a `float` or `double` is its bit
-- pattern, which the source moves to an integer of the same size. `val` is the variable that a `>>`
-- fills, as it was before: its memory is the buffer that is read into.
use fdcpp.Base.{
  ℕ, suc, zero, ◌^◌, ℤ, List, [], ◌∷◌, ◌++◌, Option, none, some, drop, ◌==◌, if◌then◌else◌,
}
use fdcpp.Effect.{Cmd, pure, and_then, ok, fault, ◌>>=◌}
use fdcpp.Socket.{SocketOs}
use fdcpp.Endian.{Order, object_bytes, of_object, hto_be, be_toh, to_unsigned, to_signed}
use fdcpp.BufferedSocket.{
  State, block, add_size, write_output_buffer, read_input_buffer, recv_if_possible,
}

-- `strlen`: there is no result if no terminator comes, where the real one leaves the block.
unfoldable pub strlen : List ℕ → Option ℕ
strlen [] = none
strlen (c ∷ cs) =
    if c == 0 then some 0 else elim (strlen cs) [ none ↦ none | some n ↦ some (suc n) ]

module _ {W : Type 0} (api : SocketOs W) (o : Order) where
  unfoldable pub write_u8 : ℕ → Cmd (State W) (Unit {0})
  write_u8 val = write_output_buffer api (object_bytes o 1 val)

  unfoldable pub write_i8 : ℤ → Cmd (State W) (Unit {0})
  unfolding write_u8
  write_i8 val = write_u8 (to_unsigned (2 ^ 7) val)

  unfoldable pub write_u16 : ℕ → Cmd (State W) (Unit {0})
  write_u16 val = write_output_buffer api (object_bytes o 2 (hto_be o 2 val))

  unfoldable pub write_i16 : ℤ → Cmd (State W) (Unit {0})
  unfolding write_u16
  write_i16 val = write_u16 (to_unsigned (2 ^ 15) val)

  unfoldable pub write_u32 : ℕ → Cmd (State W) (Unit {0})
  write_u32 val = write_output_buffer api (object_bytes o 4 (hto_be o 4 val))

  unfoldable pub write_i32 : ℤ → Cmd (State W) (Unit {0})
  unfolding write_u32
  write_i32 val = write_u32 (to_unsigned (2 ^ 31) val)

  unfoldable pub write_u64 : ℕ → Cmd (State W) (Unit {0})
  write_u64 val = write_output_buffer api (object_bytes o 8 (hto_be o 8 val))

  unfoldable pub write_i64 : ℤ → Cmd (State W) (Unit {0})
  unfolding write_u64
  write_i64 val = write_u64 (to_unsigned (2 ^ 63) val)

  unfoldable pub write_float : ℕ → Cmd (State W) (Unit {0})
  unfolding write_u32
  write_float val = write_u32 val

  unfoldable pub write_double : ℕ → Cmd (State W) (Unit {0})
  unfolding write_u64
  write_double val = write_u64 val

  unfoldable pub read_char : ℕ → Cmd (State W) ℕ
  read_char val = read_input_buffer api (object_bytes o 1 val) >>= λ bytes. pure (of_object o bytes)

  unfoldable pub read_u8 : ℕ → Cmd (State W) ℕ
  read_u8 val = read_input_buffer api (object_bytes o 1 val) >>= λ bytes. pure (of_object o bytes)

  unfoldable pub read_i8 : ℤ → Cmd (State W) ℤ
  read_i8 val = read_input_buffer api (object_bytes o 1 (to_unsigned (2 ^ 7) val)) >>= λ bytes.
      pure (to_signed (2 ^ 7) (of_object o bytes))

  unfoldable pub read_u16 : ℕ → Cmd (State W) ℕ
  read_u16 val = read_input_buffer api (object_bytes o 2 val) >>= λ bytes.
      pure (be_toh o 2 (of_object o bytes))

  -- The integer read is converted to unsigned for `be16toh`, and its result back.
  unfoldable pub read_i16 : ℤ → Cmd (State W) ℤ
  read_i16 val = read_input_buffer api (object_bytes o 2 (to_unsigned (2 ^ 15) val)) >>= λ bytes.
      let got = to_signed (2 ^ 15) (of_object o bytes) in
      pure (to_signed (2 ^ 15) (be_toh o 2 (to_unsigned (2 ^ 15) got)))

  unfoldable pub read_u32 : ℕ → Cmd (State W) ℕ
  read_u32 val = read_input_buffer api (object_bytes o 4 val) >>= λ bytes.
      pure (be_toh o 4 (of_object o bytes))

  -- The integer read is converted to unsigned for `be32toh`, and its result back.
  unfoldable pub read_i32 : ℤ → Cmd (State W) ℤ
  read_i32 val = read_input_buffer api (object_bytes o 4 (to_unsigned (2 ^ 31) val)) >>= λ bytes.
      let got = to_signed (2 ^ 31) (of_object o bytes) in
      pure (to_signed (2 ^ 31) (be_toh o 4 (to_unsigned (2 ^ 31) got)))

  unfoldable pub read_u64 : ℕ → Cmd (State W) ℕ
  read_u64 val = read_input_buffer api (object_bytes o 8 val) >>= λ bytes.
      pure (be_toh o 8 (of_object o bytes))

  -- The integer read is converted to unsigned for `be64toh`, and its result back.
  unfoldable pub read_i64 : ℤ → Cmd (State W) ℤ
  read_i64 val = read_input_buffer api (object_bytes o 8 (to_unsigned (2 ^ 63) val)) >>= λ bytes.
      let got = to_signed (2 ^ 63) (of_object o bytes) in
      pure (to_signed (2 ^ 63) (be_toh o 8 (to_unsigned (2 ^ 63) got)))

  -- `ival` is the local variable, which is not initialised.
  unfoldable pub read_float : ℕ → Cmd (State W) ℕ
  unfolding read_u32
  read_float ival = read_u32 ival

  unfoldable pub read_double : ℕ → Cmd (State W) ℕ
  unfolding read_u64
  read_double ival = read_u64 ival

-- The operators on characters and texts, for which the byte order says nothing.
module _ {W : Type 0} (api : SocketOs W) where
  unfoldable pub write_char : ℕ → Cmd (State W) (Unit {0})
  write_char val = write_output_buffer api (val ∷ [])

  -- `val` is what stands before the terminator, which is sent too.
  unfoldable pub write_c_string : List ℕ → Cmd (State W) (Unit {0})
  write_c_string val = write_output_buffer api (val ++ (0 ∷ []))

  unfoldable pub write_string : List ℕ → Cmd (State W) (Unit {0})
  write_string val = write_output_buffer api (val ++ (0 ∷ []))

  -- `while (size--)`: one character at a time; `c` is the local variable before it is read.
  unfoldable pub read_chars : List ℕ → ℕ → List ℕ → Cmd (State W) (List ℕ)
  read_chars c zero val = pure val
  read_chars c (suc size) val = read_input_buffer api c >>= λ c'. read_chars c size (val ++ c')

  -- `++_in_rd`
  unfoldable pub skip_terminator : Cmd (State W) (Unit {0})
  skip_terminator s = ok tt (record s { self = record s.self { in_rd = add_size s.self.in_rd 1 } })

  -- The length is found in what the input buffer holds after one attempt to receive more; with no
  -- terminator in the block the search runs out of it.
  unfoldable pub read_string : ℕ → Cmd (State W) (List ℕ)
  unfolding read_chars skip_terminator
  read_string c s = and_then (recv_if_possible api s) λ _ t.
      elim (strlen (drop t.self.in_rd (block t.self))) [
        | none ↦ fault
        | some size ↦
            and_then (read_chars (c ∷ []) size [] t)
              λ val u. and_then (skip_terminator u) λ _. pure val
      ]

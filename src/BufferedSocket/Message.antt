-- ===== src/BufferedSocket/Message.antt =====
-- src/easy/buffered_socket.hpp: the operators `<<` and `>>` for the types of one size, over a sequence
-- of values. `Kind` names the overload; a `float` or `double` is its bit pattern.
pub mod Codec
pub mod Transfer
pub mod Delivery
mod Tests
use fdcpp.Base.{ℕ, ◌^◌, ◌<◌, ℤ, List, [], ◌∷◌, ◌++◌}
use fdcpp.Effect.{Cmd, pure, ◌>>=◌, ◌>>◌}
use fdcpp.Socket.{SocketOs}
use fdcpp.Endian.{Order, to_unsigned}
use fdcpp.Endian.Wire.{IsSigned, big_endian}
use fdcpp.BufferedSocket.{State}
use fdcpp.BufferedSocket.Values.{
  write_char, write_u8, write_i8, write_u16, write_i16, write_u32, write_i32, write_u64, write_i64,
  write_float, write_double, read_char, read_u8, read_i8, read_u16, read_i16, read_u32, read_i32,
  read_u64, read_i64, read_float, read_double,
}

pub data Kind : Type 0 where
  char u8 i8 u16 i16 u32 i32 u64 i64 float double : Kind

abbrev pub Value : Kind → Type 0
Value i8 = ℤ
Value i16 = ℤ
Value i32 = ℤ
Value i64 = ℤ
Value char = ℕ
Value u8 = ℕ
Value u16 = ℕ
Value u32 = ℕ
Value u64 = ℕ
Value float = ℕ
Value double = ℕ

-- The values that the type has.
abbrev pub IsValue : (k : Kind) → Value k → Type 0
IsValue i8 z = IsSigned (2 ^ 7) z
IsValue i16 z = IsSigned (2 ^ 15) z
IsValue i32 z = IsSigned (2 ^ 31) z
IsValue i64 z = IsSigned (2 ^ 63) z
IsValue char n = n < 2 ^ 8
IsValue u8 n = n < 2 ^ 8
IsValue u16 n = n < 2 ^ 16
IsValue u32 n = n < 2 ^ 32
IsValue u64 n = n < 2 ^ 64
IsValue float n = n < 2 ^ 32
IsValue double n = n < 2 ^ 64

abbrev pub width : Kind → ℕ
width char = 1
width u8 = 1
width i8 = 1
width u16 = 2
width i16 = 2
width u32 = 4
width i32 = 4
width u64 = 8
width i64 = 8
width float = 4
width double = 8

-- The number whose bytes stand for a value.
abbrev pub pattern_of : (k : Kind) → Value k → ℕ
pattern_of i8 z = to_unsigned (2 ^ 7) z
pattern_of i16 z = to_unsigned (2 ^ 15) z
pattern_of i32 z = to_unsigned (2 ^ 31) z
pattern_of i64 z = to_unsigned (2 ^ 63) z
pattern_of char n = n
pattern_of u8 n = n
pattern_of u16 n = n
pattern_of u32 n = n
pattern_of u64 n = n
pattern_of float n = n
pattern_of double n = n

-- What a value is on the wire: its bytes, the highest first.
abbrev pub wire : (k : Kind) → Value k → List ℕ
wire k val = big_endian (width k) (pattern_of k val)

-- A value to send, and what the receiver's variable for it holds before.
pub record Field : Type 0 where
  pub kind : Kind
  pub value : Value kind
  pub old : Value kind

abbrev pub AreValues : List Field → Type 0
AreValues [] = Unit
AreValues (f ∷ fs) = IsValue f.kind f.value × AreValues fs

abbrev pub wires : List Field → List ℕ
wires [] = []
wires (f ∷ fs) = wire f.kind f.value ++ wires fs

abbrev pub values : List Field → List ((k : Kind) × Value k)
values [] = []
values (f ∷ fs) = (f.kind, f.value) ∷ values fs

module _ {W : Type 0} (api : SocketOs W) (o : Order) where
  -- `operator<<`
  unfoldable pub write_value : (k : Kind) → Value k → Cmd (State W) (Unit {0})
  write_value char n = write_char api n
  write_value u8 n = write_u8 api o n
  write_value i8 z = write_i8 api o z
  write_value u16 n = write_u16 api o n
  write_value i16 z = write_i16 api o z
  write_value u32 n = write_u32 api o n
  write_value i32 z = write_i32 api o z
  write_value u64 n = write_u64 api o n
  write_value i64 z = write_i64 api o z
  write_value float n = write_float api o n
  write_value double n = write_double api o n

  -- `operator>>`, into a variable with some content.
  unfoldable pub read_value : (k : Kind) → Value k → Cmd (State W) (Value k)
  read_value char n = read_char api o n
  read_value u8 n = read_u8 api o n
  read_value i8 z = read_i8 api o z
  read_value u16 n = read_u16 api o n
  read_value i16 z = read_i16 api o z
  read_value u32 n = read_u32 api o n
  read_value i32 z = read_i32 api o z
  read_value u64 n = read_u64 api o n
  read_value i64 z = read_i64 api o z
  read_value float n = read_float api o n
  read_value double n = read_double api o n

  -- `out << a << b << …`
  unfoldable pub write_values : List Field → Cmd (State W) (Unit {0})
  unfolding write_value
  write_values [] = pure tt
  write_values (f ∷ fs) = write_value f.kind f.value >> write_values fs

  -- `in >> a >> b >> …`
  unfoldable pub read_values : List Field → Cmd (State W) (List ((k : Kind) × Value k))
  unfolding read_value
  read_values [] = pure []
  read_values (f ∷ fs) =
      read_value f.kind f.old >>= λ val. read_values fs >>= λ vals. pure ((f.kind, val) ∷ vals)

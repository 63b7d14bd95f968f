-- ===== src/Endian.antt =====
-- How a number lies in memory, and the conversions of <endian.h> that easy/buffered_socket.cpp calls,
-- for a host of either byte order. A signed integer is its value, an unsigned one is a number.
pub mod Wire
use fdcpp.Base.{
  ℕ, zero, suc, ◌+◌, ◌-◌, ◌*◌, ◌/◌, ◌%◌, ◌^◌, ℤ, pos, negsuc, List, [], ◌∷◌, reverse, ltb,
  if◌then◌else◌,
}

pub data Order : Type 0 where
  little big : Order

-- The `n` low bytes of a number, the lowest first.
unfoldable pub le_bytes : ℕ → ℕ → List ℕ
le_bytes zero v = []
le_bytes (suc n) v = (v % 256) ∷ le_bytes n (v / 256)

unfoldable pub of_le : List ℕ → ℕ
of_le [] = 0
of_le (b ∷ bytes) = b + 256 * of_le bytes

-- The bytes of an `n`-byte object, and the value of an object.
unfoldable pub object_bytes : Order → ℕ → ℕ → List ℕ
unfolding le_bytes
object_bytes little n v = le_bytes n v
object_bytes big n v = reverse (le_bytes n v)

unfoldable pub of_object : Order → List ℕ → ℕ
unfolding of_le
of_object little bytes = of_le bytes
of_object big bytes = of_le (reverse bytes)

-- `htobe16`, `htobe32` and `htobe64` at `n` of 2, 4 and 8; `be16toh` and its like do the same.
unfoldable pub hto_be : Order → ℕ → ℕ → ℕ
unfolding le_bytes of_le
hto_be little n v = of_le (reverse (le_bytes n v))
hto_be big n v = v

abbrev pub be_toh : Order → ℕ → ℕ → ℕ
be_toh = hto_be

-- `static_cast` between the signed and the unsigned type of `2 * half` values.
unfoldable pub to_unsigned : ℕ → ℤ → ℕ
to_unsigned half (pos n) = n % (2 * half)
to_unsigned half (negsuc n) = 2 * half - 1 - n % (2 * half)

unfoldable pub to_signed : ℕ → ℕ → ℤ
to_signed half u = if ltb u half then pos u else negsuc (2 * half - 1 - u)

-- ===== src/Epoll/Fields.antt =====
-- What is read of an event is what was written.
use fdcpp.Base.{
  ℕ, ◌^◌, ◌<◌, ◌≡◌, refl, ◌∙◌, ℤ, List, ◌++◌, take, drop, take-append_of_le, take-all, arith,
}
use fdcpp.Endian.{Order, object_bytes, to_unsigned}
use fdcpp.Endian.Wire.{
  IsSigned, length-object_bytes, of_object-object_bytes, to_signed-to_unsigned, to_unsigned-lt,
}
use fdcpp.Epoll.{int_event, u32_event, u64_event, ptr_event, data_fd, data_u32, data_u64}

module _ (o : Order) where
  first_four :
      (val : ℕ) (rest : List ℕ) → take 4 (object_bytes o 4 val ++ rest) ≡ object_bytes o 4 val
  first_four val rest =
      let four = length-object_bytes o 4 val in
      take-append_of_le 4 (object_bytes o 4 val) rest (omega (arith, four))
      ∙ take-all 4 (object_bytes o 4 val) (omega (arith, four))

  pub data_fd-int_event :
      (mask : ℕ) (val : ℤ) → IsSigned (2 ^ 31) val → data_fd o (int_event o mask val) ≡ val
  unfolding data_fd int_event
  data_fd-int_event mask val h =
      let u = to_unsigned (2 ^ 31) val in
      let small : u < 256 ^ 4 = omega (arith, to_unsigned-lt (2 ^ 31) val (omega arith)) in
      rw (first_four u (drop 4 (object_bytes o 8 0)), of_object-object_bytes o 4 u small)
        (to_signed-to_unsigned (2 ^ 31) val h)

  -- Each member of the union that `ctl` writes is read back, on hosts of both byte orders.
  pub fields_lem :
      (mask : ℕ) (z : ℤ) (u v p : ℕ)
      → IsSigned (2 ^ 31) z
      → u < 2 ^ 32
      → v < 2 ^ 64
      → p < 2 ^ 64
      → (data_fd o (int_event o mask z) ≡ z)
        × (data_u32 o (u32_event o mask u) ≡ u)
        × (data_u64 o (u64_event o mask v) ≡ v)
        × (data_u64 o (ptr_event o mask p) ≡ p)
  unfolding data_u32 data_u64 u32_event u64_event ptr_event
  fields_lem mask z u v p hz hu hv hp = (
    data_fd-int_event mask z hz,
    rw (first_four u (drop 4 (object_bytes o 8 0)), of_object-object_bytes o 4 u hu) refl,
    of_object-object_bytes o 8 v hv,
    of_object-object_bytes o 8 p hp,
  )

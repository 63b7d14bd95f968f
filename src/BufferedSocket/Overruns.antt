-- ===== src/BufferedSocket/Overruns.antt =====
-- Two ways to an object whose indices leave its block: a constructor whose sizes overflow, and an
-- assignment between objects of different sizes.
use fdcpp.Base.{ℕ, ◌+◌, ◌^◌, ◌≤◌, ◌<◌, ◌≡◌, false, refl, List, length, lt→leb_false, arith}
use fdcpp.Effect.{fault}
use fdcpp.Descriptor.{Descriptor}
use fdcpp.Socket.{SocketOs}
use fdcpp.BufferedSocket.{
  BufferedSocket, in_block, append_output, write_output_buffer, flush, add_size,
}
use fdcpp.BufferedSocket.Invariant.{IsValid}
use fdcpp.BufferedSocket.Objects.{construct, assign_from}

module _ {W : Type 0} (api : SocketOs W) (w : W) where
  -- Two sizes that a `size_t` holds and whose sum it does not: the constructor returns, with a block of
  -- the wrapped size, and the first write that the output buffer has place for leaves the block.
  pub write_output_buffer-construct :
      (new_char : ℕ → List ℕ) (sock : Descriptor) (input_size output_size : ℕ) (bytes : List ℕ)
      → ((n : ℕ) → length (new_char n) ≡ n)
      → input_size < 2 ^ 64
      → output_size < 2 ^ 64
      → 2 ^ 64 ≤ input_size + output_size
      → 0 < length bytes
      → length bytes < output_size
      → write_output_buffer api bytes
          (record { self = (construct new_char sock input_size output_size).0; world = w })
        ≡ fault
  unfolding write_output_buffer append_output construct
  write_output_buffer-construct new_char sock input_size output_size bytes sized in_fits out_fits
        wraps some_bytes room =
      let memory = sized (add_size input_size output_size) in
      let leaves : in_block (input_size + 0) (length bytes)
            (construct new_char sock input_size output_size).0
          ≡ false =
        ground (arith, memory) in
      rw
        (
          lt→leb_false _ _ room,
          lt→leb_false output_size (add_size 0 (length bytes)) (omega arith),
          leaves,
        )
        refl

  -- After an assignment from an object with more bytes pending than the output buffer of the other one,
  -- which was valid, holds: the object that was assigned from has the other's block and its own count,
  -- and a flush of it reads past the end of the block.
  pub flush-assign_from :
      (self other : BufferedSocket)
      → IsValid self
      → self.out_capacity < other.out_size
      → flush api (record { self = (assign_from self other).1; world = w }) ≡ fault
  unfolding flush assign_from
  flush-assign_from self other v more =
      let leaves : in_block self.out_base other.out_size (assign_from self other).1 ≡ false =
        ground (arith, v.room) in
      rw leaves refl

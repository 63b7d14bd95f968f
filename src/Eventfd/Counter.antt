-- ===== src/Eventfd/Counter.antt =====
-- `read` and `write` against the counter that the system keeps.
use fdcpp.Base.{ℕ, ◌+◌, ◌^◌, ◌<◌, ◌≡◌, ℤ, pos, negsuc, List}
use fdcpp.Effect.Ends
use fdcpp.Effect.Ends.{Ends, throws}
use fdcpp.Os.{Os}
use fdcpp.Descriptor.{Descriptor}
use fdcpp.Endian.{Order, object_bytes}
use fdcpp.Eventfd

-- eventfd(2) without EFD_SEMAPHORE: a read of eight bytes takes the whole counter, a write adds to it; a
-- call that fails changes nothing.
pub record EventLaw {W : Type 0} (os : Os W) (o : Order) (fd : ℤ) (count : W → ℕ) : Type 0 where
  pub reads :
      (w : W) (n : ℕ) (bytes : List ℕ) (w' : W)
      → os.read fd 8 w ≡ (pos n, bytes, w')
      → (n ≡ 8) × (bytes ≡ object_bytes o 8 (count w)) × (count w < 2 ^ 64) × (count w' ≡ 0)
  pub keeps :
      (w : W) (e : ℕ) (bytes : List ℕ) (w' : W)
      → os.read fd 8 w ≡ (negsuc e, bytes, w')
      → count w' ≡ count w
  pub writes :
      (val : ℕ) (w : W) (n : ℕ) (w' : W)
      → val < 2 ^ 64
      → os.write fd (object_bytes o 8 val) w ≡ (pos n, w')
      → (n ≡ 8) × (count w' ≡ count w + val)
  pub refuses :
      (val : ℕ) (w : W) (e : ℕ) (w' : W)
      → os.write fd (object_bytes o 8 val) w ≡ (negsuc e, w')
      → count w' ≡ count w

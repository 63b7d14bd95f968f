-- ===== src/Transfer.antt =====
-- The loops that read or write a whole object: `timerfd::read`, `eventfd::read`, `eventfd::write` and
-- `signalfd::read`. `n` is how much has gone so far.
pub mod Whole
mod Tests
use fdcpp.Base.{ℕ, zero, suc, List, [], ◌++◌, length, drop, ◌==◌, if◌then◌else◌, add_size, sub_size}
use fdcpp.Effect.{Run, Cmd, pure, and_then, out_of_fuel, ◌>>=◌}
use fdcpp.Os.{Os}
use fdcpp.Descriptor.{Descriptor, read_in, read_io, write_io}

-- `do { n += read((char *) &val + n, sizeof(val) - n); } while (n != sizeof(val));` with the `read`
-- of the base class; `got` is what stands in the first `n` bytes of the object.
unfoldable pub read_loop :
    {W : Type 0} → (ℕ → Cmd W (ℕ × List ℕ)) → ℕ → ℕ → ℕ → List ℕ → Cmd W (List ℕ)
read_loop reads zero size n got = λ _. out_of_fuel
read_loop reads (suc fuel) size n got = reads (sub_size size n) >>= λ r.
    let rest = read_loop reads fuel size (add_size n r.0) (got ++ r.1) in
    if add_size n r.0 == size then pure (got ++ r.1) else rest

module _ {W : Type 0} (os : Os W) where
  -- With `idescriptor::read` and with `iodescriptor::read`.
  unfoldable pub read_whole_in : ℕ → ℕ → Descriptor → Cmd W (List ℕ)
  unfolding read_loop
  read_whole_in fuel size d = read_loop (read_in os d) fuel size 0 []

  unfoldable pub read_whole_io : ℕ → ℕ → Descriptor → Cmd W (List ℕ)
  unfolding read_loop
  read_whole_io fuel size d = read_loop (read_io os d) fuel size 0 []

  unfoldable pub write_loop : ℕ → Descriptor → List ℕ → ℕ → Cmd W (Unit {0})
  write_loop zero d bytes n = λ _. out_of_fuel
  write_loop (suc fuel) d bytes n = write_io os d (drop n bytes) >>= λ m.
      let rest = write_loop fuel d bytes (add_size n m) in
      if add_size n m == length bytes then pure tt else rest

-- ===== src/BufferedSocket.antt =====
-- src/easy/buffered_socket.cpp. The buffers are one block of memory: `_buffer_in` points at its
-- start and `_buffer_out` at `out_base` in it. A method that may throw half way keeps the state that
-- it has reached, so methods are commands on the object together with the system.
pub mod Memory
pub mod Invariant
pub mod Output
pub mod Appending
pub mod Writing
pub mod Receiving
pub mod Values
pub mod Indices
pub mod Draining
pub mod Reading
pub mod Codec
pub mod Taking
pub mod Strings
pub mod Underrun
pub mod Objects
pub mod Overruns
pub mod Sequence
pub mod Retries
pub mod Session
pub mod Apart
pub mod Spec
pub mod Returning
pub mod Message
pub mod Conversation
mod Fixtures
mod Tests
mod Runs
pub use fdcpp.Base.{add_size, sub_size}
use fdcpp.Base.{
  ℕ, zero, suc, ◌+◌, ◌-◌, ◌%◌, ◌^◌, List, [], ◌∷◌, ◌++◌, Option, none, some, Bool, true, false,
  length, take, drop, leb, ◌==◌, if◌then◌else◌,
}
use Prim.Native.Nat.{bit_or}
use fdcpp.Base.{ltb, ◌||◌}
use fdcpp.Effect.{
  Error, system_error, runtime_error, catch, Run, Cmd, pure, and_then, ok, throw, fault,
  out_of_fuel, ◌>>=◌, ◌>>◌,
}
use fdcpp.Descriptor.{Descriptor}
use fdcpp.Socket.{SocketOs, msg_nosignal, msg_dontwait, msg_waitall}
use fdcpp.Socket

-- `memmove(block + i, bytes, …)`, for a write inside the block.
abbrev pub write_at : ℕ → List ℕ → List ℕ → List ℕ
write_at i bytes block = take i block ++ (bytes ++ drop (i + length bytes) block)

pub record BufferedSocket : Type 0 where
  pub socket : Descriptor
  pub buffer : Option (List ℕ)
  pub in_rd : ℕ
  pub in_size : ℕ
  pub in_capacity : ℕ
  pub out_base : ℕ
  pub out_size : ℕ
  pub out_capacity : ℕ

-- The memory at `_buffer_in`; there is none at a null pointer.
abbrev pub block_of : Option (List ℕ) → List ℕ
block_of none = []
block_of (some block) = block

abbrev pub block : BufferedSocket → List ℕ
block b = block_of b.buffer

-- The bytes written and not yet sent, and those received and not yet read.
abbrev pub pending : BufferedSocket → List ℕ
pending b = take b.out_size (drop b.out_base (block b))

abbrev pub unread : BufferedSocket → List ℕ
unread b = take (b.in_size - b.in_rd) (drop b.in_rd (block b))

pub record State (W : Type 0) : Type 0 where
  pub self : BufferedSocket
  pub world : W

-- A command of the socket, run by the object that holds it.
abbrev pub within : {W A : Type 0} → State W → Run W A → Run (State W) A
within s (ok a w) = ok a (record s { world = w })
within s (throw e w) = throw e (record s { world = w })
within s fault = fault
within s out_of_fuel = out_of_fuel

-- An access to the `n` bytes from `i` on lies in the block.
abbrev pub in_block : ℕ → ℕ → BufferedSocket → Bool
in_block i n b = n == 0 || leb (i + n) (length (block b))

-- What follows such an access, which outside the block is undefined behaviour.
abbrev pub accessing : {W A : Type 0} → ℕ → ℕ → State W → Run (State W) A → Run (State W) A
accessing i n s r = if in_block i n s.self then r else fault

-- The local variables of `read_input_buffer`, and the caller's buffer after the first copy.
abbrev pub copy_size : BufferedSocket → ℕ
copy_size b = sub_size b.in_size b.in_rd

abbrev pub recv_size : BufferedSocket → List ℕ → ℕ
recv_size b dest = sub_size (length dest) (copy_size b)

abbrev pub copied : BufferedSocket → List ℕ → List ℕ
copied b dest = write_at 0 (take (copy_size b) (drop b.in_rd (block b))) dest

abbrev pub eagain : ℕ
eagain = 11

abbrev pub ewouldblock : ℕ
ewouldblock = 11

module _ {W : Type 0} (api : SocketOs W) where
  -- The loop of `send_all`, from `n` bytes on.
  unfoldable pub send_loop : ℕ → Descriptor → List ℕ → ℕ → Cmd W (Unit {0})
  send_loop zero sock bytes n = λ _. out_of_fuel
  send_loop (suc fuel) sock bytes n = Socket.send api sock (drop n bytes) msg_nosignal >>= λ m.
      let rest = send_loop fuel sock bytes (add_size n m) in
      if add_size n m == length bytes then pure tt else rest

  -- A round that sends nothing ends the loop only if there was nothing to send.
  unfoldable pub send_all : Descriptor → List ℕ → Cmd W (Unit {0})
  unfolding send_loop
  send_all sock bytes = send_loop (length bytes + 1) sock bytes 0

  unfoldable pub flush : Cmd (State W) (Unit {0})
  flush s = accessing s.self.out_base s.self.out_size s (
      and_then (within s (send_all s.self.socket (pending s.self) s.world))
        λ _ t. ok tt (record t { self = record t.self { out_size = 0 } }))

  -- `memmove(_buffer_out + _out_size, buffer, size); _out_size += size;`
  unfoldable pub append_output : List ℕ → Cmd (State W) (Unit {0})
  append_output bytes s = accessing (self.out_base + self.out_size) (length bytes) s (
      ok tt (record s {
        self = record self {
          buffer = some (write_at (self.out_base + self.out_size) bytes (block self));
          out_size = add_size self.out_size (length bytes);
        };
      }))
    where
      open s use {self}

  -- What does not fit the whole buffer is sent at once; else the buffer is flushed first if it would
  -- be full.
  unfoldable pub write_output_buffer : List ℕ → Cmd (State W) (Unit {0})
  write_output_buffer bytes s =
      if leb s.self.out_capacity (length bytes)
      then within s (send_all s.self.socket bytes s.world)
      else if leb s.self.out_capacity (add_size s.self.out_size (length bytes))
      then and_then (flush s) (λ _. append_output bytes)
      else append_output bytes s

  -- What `recv` stored at `_buffer_in + _in_size`, counted into `_in_size`.
  abbrev pub store_input : ℕ × List ℕ → Cmd (State W) (Unit {0})
  store_input (n, bytes) s = accessing self.in_size (length bytes) s (
      ok tt (record s {
        self = record self {
          buffer = some (write_at self.in_size bytes (block self));
          in_size = add_size self.in_size n;
        };
      }))
    where
      open s use {self}

  -- `catch (std::system_error &e)`: no data is no error.
  unfoldable pub recv_failed : Error → Cmd (State W) (Unit {0})
  recv_failed (system_error code what) s =
      if code == eagain || code == ewouldblock then ok tt s else throw (system_error code what) s
  recv_failed (runtime_error what) s = throw (runtime_error what) s

  unfoldable pub recv_if_possible : Cmd (State W) (Unit {0})
  unfolding recv_failed
  recv_if_possible s =
      if leb s.self.in_capacity s.self.in_size
      then ok tt s
      else catch
          (and_then
            (within s (
              Socket.recv api s.self.socket (sub_size s.self.in_capacity s.self.in_size)
                (bit_or msg_dontwait msg_nosignal) s.world))
            store_input)
          recv_failed

  -- `_in_rd = 0; _in_size = 0;`
  abbrev pub reset_input : State W → State W
  reset_input s = record s { self = record s.self { in_rd = 0; in_size = 0 } }

  -- The branch of `read_input_buffer` that uses up the input buffer: `dest` is the caller's buffer,
  -- as it was before. A copy that does not fit it is undefined behaviour.
  unfoldable pub drain_input : List ℕ → Cmd (State W) (List ℕ)
  drain_input dest s =
      if ltb (length dest) (copy_size s.self)
      then fault
      else accessing s.self.in_rd (copy_size s.self) s (
          if recv_size s.self dest == 0
          then ok (copied s.self dest) (reset_input s)
          else and_then
              (within s (
                Socket.recv api s.self.socket (recv_size s.self dest)
                  (bit_or msg_nosignal msg_waitall) s.world))
              λ r t. ok (write_at (copy_size s.self) r.1 (copied s.self dest)) (reset_input t))

  -- `memmove(buffer, _buffer_in + _in_rd, size); _in_rd += size;`
  unfoldable pub copy_input : ℕ → Cmd (State W) (List ℕ)
  copy_input size s = accessing s.self.in_rd size s (
      ok (take size (drop s.self.in_rd (block s.self)))
        (record s { self = record s.self { in_rd = add_size s.self.in_rd size } }))

  unfoldable pub take_input : List ℕ → Cmd (State W) (List ℕ)
  unfolding drain_input copy_input
  take_input dest s =
      if leb s.self.in_size (add_size s.self.in_rd (length dest))
      then drain_input dest s
      else copy_input (length dest) s

  -- The result is the caller's buffer afterwards.
  unfoldable pub read_input_buffer : List ℕ → Cmd (State W) (List ℕ)
  unfolding take_input
  read_input_buffer dest s = and_then (recv_if_possible s) (λ _. take_input dest)

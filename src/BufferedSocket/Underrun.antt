-- ===== src/BufferedSocket/Underrun.antt =====
-- `operator>>(std::string &)` when no text has arrived yet: it does not wait, but looks at what an
-- earlier text left in the memory.
use fdcpp.Base.{ℕ, ◌-◌, ◌<◌, ◌≡◌, refl, negsuc, List, [], ◌∷◌, drop, arith, lt→leb_false}
use fdcpp.Effect.{and_then}
use fdcpp.Effect.Ends.{Ends, returns}
use fdcpp.Socket.{SocketOs, msg_nosignal, msg_dontwait}
use fdcpp.Socket
use fdcpp.Throw.{throw_system_error}
use Prim.Native.Nat.{bit_or}
use fdcpp.BufferedSocket.{ok, State, block, sub_size, recv_if_possible, eagain}
use fdcpp.BufferedSocket.Invariant.{IsValid}
use fdcpp.BufferedSocket.Values.{strlen, read_string}

module _ {W : Type 0} (api : SocketOs W) where
  -- A call that finds no data changes the system only.
  no_data :
      (s : State W) (e : ℕ) (bytes : List ℕ) (w : W)
      → IsValid s.self
      → s.self.in_size < s.self.in_capacity
      → api.recv s.self.socket.fd
          (s.self.in_capacity - s.self.in_size)
          (bit_or msg_dontwait msg_nosignal)
          s.world
        ≡ (negsuc e, bytes, w)
      → api.errno w ≡ eagain
      → recv_if_possible api s ≡ ok tt (record s { world = w })
  unfolding recv_if_possible Socket.recv throw_system_error
  no_data s e bytes w v room failed code =
      let size : sub_size s.self.in_capacity s.self.in_size ≡ s.self.in_capacity - s.self.in_size =
        omega arith in
      rw (lt→leb_false s.self.in_capacity s.self.in_size room, size, failed, code)

  -- With nothing unread, no data at the socket and a zero byte at the read index, left there by an
  -- earlier text, the read yields an empty text at once and moves the read index past the end of the
  -- received bytes.
  pub read_string-underrun :
      (c : ℕ) (s : State W) (e : ℕ) (bytes stale : List ℕ) (w : W)
      → IsValid s.self
      → s.self.in_rd ≡ s.self.in_size
      → s.self.in_size < s.self.in_capacity
      → drop s.self.in_rd (block s.self) ≡ 0 ∷ stale
      → api.recv s.self.socket.fd
          (s.self.in_capacity - s.self.in_size)
          (bit_or msg_dontwait msg_nosignal)
          s.world
        ≡ (negsuc e, bytes, w)
      → api.errno w ≡ eagain
      → Ends
          (λ got t. (got ≡ []) × (t.self.in_size < t.self.in_rd))
          (λ _ _. ⊥)
          (read_string api c s)
  unfolding read_string strlen
  read_string-underrun c s e bytes stale w v drained room zero_byte failed code =
      rw (no_data s e bytes w v room failed code, and_then, zero_byte) (returns (refl, omega arith))

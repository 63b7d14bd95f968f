-- ===== src/BufferedSocket/Fixtures.antt =====
-- Small objects over `Loopback`, for the tests.
use fdcpp.Base.{◌≤◌, length, negsuc, ◌≡◌, ◌≢◌, ℕ, refl, pos, List, [], ◌∷◌, ◌++◌, some, arith}
use fdcpp.Descriptor.{descriptor}
use Prim.Native.Nat.{bit_or}
use fdcpp.Socket.{msg_nosignal, msg_dontwait, msg_waitall}
use fdcpp.Loopback.{Net, send, recv}
use fdcpp.BufferedSocket.{BufferedSocket, State, eagain}
use fdcpp.BufferedSocket.Invariant.{IsValid}

-- An input buffer of 4 bytes that holds "hi" with its terminator, and an output buffer of 12 bytes
-- of which 2 wait.
abbrev pub busy : BufferedSocket
busy = record {
  socket = descriptor (pos 5);
  buffer = some (104 ∷ 105 ∷ 0 ∷ 0 ∷ 1 ∷ 2 ∷ 0 ∷ 0 ∷ 0 ∷ 0 ∷ 0 ∷ 0 ∷ 0 ∷ 0 ∷ 0 ∷ 0 ∷ []);
  in_rd = 0;
  in_size = 3;
  in_capacity = 4;
  out_base = 4;
  out_size = 2;
  out_capacity = 12;
}

-- The same with nothing unread: a zero byte is left where the read index stands.
abbrev pub drained : BufferedSocket
drained = record busy { in_rd = 2; in_size = 2 }

abbrev pub net : List ℕ → Net
net bytes = record { sent = []; arrived = bytes; error = 0 }

abbrev pub at : BufferedSocket → List ℕ → State Net
at b bytes = record { self = b; world = net bytes }

abbrev pub peer : Net → List ℕ
peer w = w.sent

abbrev pub coming : Net → List ℕ
coming w = w.arrived

pub busy-IsValid : IsValid busy
busy-IsValid = record {
  owned = λ e. cc;
  room = refl;
  base = refl;
  small = omega arith;
  rd_le = omega arith;
  in_le = omega arith;
  out_le = omega arith;
}

pub drained-IsValid : IsValid drained
drained-IsValid = record {
  owned = λ e. cc;
  room = refl;
  base = refl;
  small = omega arith;
  rd_le = omega arith;
  in_le = omega arith;
  out_le = omega arith;
}

abbrev pub five : List ℕ
five = 10 ∷ 11 ∷ 12 ∷ 13 ∷ 14 ∷ []

abbrev pub twelve : List ℕ
twelve = five ++ five ++ (15 ∷ 16 ∷ [])

-- No call on the socket of `Loopback` fails, but for a poll that finds nothing.
pub sends_always : (bytes : List ℕ) (w : Net) (e : ℕ) (w' : Net) → send bytes w ≢ (negsuc e, w')
unfolding send
sends_always bytes w e w' h = ground arith

pub waits_for :
    (size : ℕ) (w : Net) (e : ℕ) (got : List ℕ) (w' : Net)
    → size ≤ length w.arrived
    → recv size (bit_or msg_nosignal msg_waitall) w ≢ (negsuc e, got, w')
unfolding recv
waits_for size w e got w' h k = ground arith

pub finds_none :
    (size : ℕ) (w : Net) (e : ℕ) (got : List ℕ) (w' : Net)
    → recv size (bit_or msg_dontwait msg_nosignal) w ≡ (negsuc e, got, w')
    → w'.error ≡ eagain
unfolding recv
finds_none size w e got w' h = ground arith

-- ===== src/BufferedSocket/Spec.antt =====
-- The object as two queues of bytes, one for each direction: what a program that reads, writes and
-- flushes may rely on.
pub mod Refinement
pub mod Tests
use fdcpp.Base.{
  ℕ, ◌^◌, ◌<◌, ◌≡◌, refl, sym, ap, ap₂, ◌∙◌, subst, inl, ℤ, List, [], ◌∷◌, ◌++◌, length, take, drop,
  append-nil, append_split, take-append-drop, length-take, length-append, arith,
}
use fdcpp.Effect.{Run, Cmd, pure, and_then, ◌>>=◌, ◌>>◌}
use fdcpp.Effect.Ends
use fdcpp.Effect.Ends.{Ends, returns}
use fdcpp.Effect.Kept.{Keeps, Keeps-after, Ends-Keeps}
use fdcpp.Descriptor.{Descriptor}
use fdcpp.Socket.{SocketOs}
use fdcpp.Socket.Stream.{SendLaw, RecvLaw, Waits}
use fdcpp.BufferedSocket.{
  BufferedSocket, State, pending, unread, flush, write_output_buffer, read_input_buffer,
  recv_if_possible, take_input,
}
use fdcpp.BufferedSocket.Invariant.{IsValid, SameInput, SameOutput, pending-SameOutput}
use fdcpp.BufferedSocket.Appending.{flushed, flushed-IsValid}
use fdcpp.BufferedSocket.Writing.{stream, write_output_buffer-Ends, flush-Ends}
use fdcpp.BufferedSocket.Receiving.{recv_if_possible-Ends}
use fdcpp.BufferedSocket.Draining.{input}
use fdcpp.BufferedSocket.Reading.{read_input_buffer-Ends}
use fdcpp.BufferedSocket.Session.{Op, writes, reads, flushes}
use fdcpp.BufferedSocket.Apart.{
  Apart, There, flush-Keeps, write_output_buffer-Keeps, recv_if_possible-Keeps, take_input-Keeps,
  unread-SameInput,
}

-- What has been accepted for the peer, and what is to be read.
pub record Streams : Type 0 where
  pub out : List ℕ
  pub inp : List ℕ

abbrev pub streams : List ℕ → List ℕ → Streams
streams out inp = record { out = out; inp = inp }

-- What each operation promises: its result, and the queues afterwards.
abbrev pub spec_op : Op → Streams → List ℕ × Streams
spec_op (writes bytes) a = ([], streams (a.out ++ bytes) a.inp)
spec_op (reads dest) a = (take (length dest) a.inp, streams a.out (drop (length dest) a.inp))
spec_op flushes a = ([], a)

abbrev pub spec_run : List Op → Streams → List (List ℕ) × Streams
spec_run [] a = ([], a)
spec_run (op ∷ ops) a =
    ((spec_op op a).0 ∷ (spec_run ops (spec_op op a).1).0, (spec_run ops (spec_op op a).1).1)

-- What is written is smaller than the output buffer, and no object in memory is of 2 ^ 63 bytes.
abbrev pub Suits : ℕ → Op → Type 0
Suits n (writes bytes) = length bytes < n
Suits n (reads dest) = length dest < 2 ^ 63
Suits n flushes = Unit

abbrev pub AllSuit : ℕ → List Op → Type 0
AllSuit n [] = Unit
AllSuit n (op ∷ ops) = Suits n op × AllSuit n ops

module _ {W : Type 0} (api : SocketOs W) where
  -- An operation with what it reads.
  unfoldable pub do_op : Op → Cmd (State W) (List ℕ)
  do_op (writes bytes) = write_output_buffer api bytes >> pure []
  do_op (reads dest) = read_input_buffer api dest
  do_op flushes = flush api >> pure []

  unfoldable pub do_each : List Op → Cmd (State W) (List (List ℕ))
  unfolding do_op
  do_each [] = pure []
  do_each (op ∷ ops) = do_op op >>= λ got. do_each ops >>= λ rest. pure (got ∷ rest)

module _ {W : Type 0} (sent incoming : W → List ℕ) where
  abbrev pub view : State W → Streams
  view s = streams (stream sent s) (input incoming s)

-- What the system promises of the socket.
pub record Connection {W : Type 0} (api : SocketOs W) (fd : ℤ) (sent incoming : W → List ℕ)
    : Type 0 where
  pub sends : SendLaw api fd sent
  pub receives : RecvLaw api fd incoming
  pub waits : Waits api fd
  pub apart : Apart api fd sent incoming

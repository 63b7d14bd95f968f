-- ===== src/BufferedSocket/Message/Tests.antt =====
-- Three values over `Loopback`: from an object on a little-endian host to one on a big-endian host.
use fdcpp.Base.{ℕ, ◌≡◌, refl, pos, negsuc, List, [], ◌∷◌, ◌++◌, some, arith}
use fdcpp.Effect.Ends.{Ends}
use fdcpp.Descriptor.{descriptor}
use fdcpp.Socket
use fdcpp.Socket.{msg_nosignal, msg_dontwait, msg_waitall}
use fdcpp.Endian.{little, big, object_bytes, hto_be, to_unsigned}
use fdcpp.Loopback.{Net, api, send, send_law, recv_law, waits}
use fdcpp.BufferedSocket.{
  BufferedSocket, State, write_output_buffer, append_output, send_all, flush,
}
use fdcpp.BufferedSocket.Values.{write_u16, write_i32, write_char}
use fdcpp.BufferedSocket.Invariant.{IsValid}
use fdcpp.BufferedSocket.Draining.{input}
use fdcpp.BufferedSocket.Fixtures.{drained, drained-IsValid, at, coming}
use fdcpp.BufferedSocket.Message.{char, u16, i32, Field, write_values, read_values}
use fdcpp.BufferedSocket.Message.Transfer.{read_values-write_values}

abbrev number : Field
number = record { kind = u16; value = 513; old = 0 }

abbrev below_zero : Field
below_zero = record { kind = i32; value = negsuc 1; old = pos 7 }

abbrev letter : Field
letter = record { kind = char; value = 65; old = 255 }

abbrev fields : List Field
fields = number ∷ below_zero ∷ letter ∷ []

-- What they are on the wire.
abbrev bytes : List ℕ
bytes = 2 ∷ 1 ∷ 255 ∷ 255 ∷ 255 ∷ 254 ∷ 65 ∷ []

-- An object with nothing in its buffers, and what it is after the values were sent.
abbrev empty : BufferedSocket
empty = record {
  socket = descriptor (pos 5);
  buffer = some (0 ∷ 0 ∷ 0 ∷ 0 ∷ 0 ∷ 0 ∷ 0 ∷ 0 ∷ 0 ∷ 0 ∷ 0 ∷ 0 ∷ 0 ∷ 0 ∷ []);
  in_rd = 0;
  in_size = 0;
  in_capacity = 4;
  out_base = 4;
  out_size = 0;
  out_capacity = 10;
}

empty-IsValid : IsValid empty
empty-IsValid = record {
  owned = λ e. cc;
  room = refl;
  base = refl;
  small = omega arith;
  rd_le = omega arith;
  in_le = omega arith;
  out_le = omega arith;
}

abbrev emptied : State Net
emptied = record {
  self = record empty {
    buffer = some (0 ∷ 0 ∷ 0 ∷ 0 ∷ 2 ∷ 1 ∷ 255 ∷ 255 ∷ 255 ∷ 254 ∷ 65 ∷ 0 ∷ 0 ∷ 0 ∷ []);
  };
  world = record { sent = bytes; arrived = []; error = 0 };
}

read_values-write_values_example :
    Ends
      (λ got t.
        (got ≡ (u16, 513) ∷ (i32, negsuc 1) ∷ (char, 65) ∷ [])
        × (input coming t ≡ 77 ∷ [])
        × IsValid t.self)
      (λ _ t. IsValid t.self)
      (read_values api big fields (at drained (bytes ++ (77 ∷ []))))
unfolding write_values flush write_u16 write_i32 write_char write_output_buffer append_output
    send_all Socket.send send object_bytes hto_be to_unsigned
read_values-write_values_example =
    read_values-write_values api api little big fields (at empty []) emptied
      (at drained (bytes ++ (77 ∷ []))) (77 ∷ []) send_law empty-IsValid (omega arith) (omega arith)
      refl refl recv_law waits drained-IsValid refl

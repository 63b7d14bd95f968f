-- ===== src/BufferedSocket/Runs.antt =====
-- The theorems on objects and on sequences of calls, at a small object over `Loopback`.
use fdcpp.Base.{Option, some, zero, suc, ℕ, ◌≡◌, refl, pos, List, [], ◌∷◌, ◌++◌, length, arith}
use fdcpp.Effect.{and_then, fault}
use fdcpp.Effect.Ends.{Ends}
use fdcpp.Descriptor.{Descriptor, descriptor}
use fdcpp.Loopback.{Net, api, send_law, recv_law}
use fdcpp.BufferedSocket.{BufferedSocket, append_output, State, pending, flush, write_output_buffer}
use fdcpp.BufferedSocket.Invariant.{IsValid}
use fdcpp.BufferedSocket.Fixtures.{busy, net, at, peer, busy-IsValid, five}
use fdcpp.BufferedSocket.Objects.{construct, assign_from, destruct, Frees}
use fdcpp.BufferedSocket.Overruns.{write_output_buffer-construct, flush-assign_from}
use fdcpp.BufferedSocket.Sequence.{write_each, flush-write_each}
use fdcpp.BufferedSocket.Session.{
  here, returned, writes, reads, run_op, Reach-safe, constructed-safe,
}

abbrev zeros : ℕ → List ℕ
zeros zero = []
zeros (suc n) = 0 ∷ zeros n

length-zeros : (n : ℕ) → length (zeros n) ≡ n
length-zeros zero = refl
length-zeros (suc n) = omega (arith, length-zeros n)

-- Both objects are destroyed, in either order.
abbrev EachFrees : Option (List ℕ) → Option (List ℕ) → Descriptor → Descriptor → Type 0
EachFrees a b d e =
    Frees api.os a b (destruct api.os d a) (destruct api.os e b) (net [])
    × Frees api.os b a (destruct api.os e b) (destruct api.os d a) (net [])

flush-write_each_example :
    Ends
      (λ _ t.
        IsValid t.self × (peer t.world ≡ 1 ∷ 2 ∷ (five ++ five ++ five)) × (pending t.self ≡ []))
      (λ _ t. IsValid t.self)
      (and_then (write_each api (five ∷ five ∷ five ∷ []) (at busy [])) (λ _. flush api))
flush-write_each_example =
    flush-write_each api (pos 5) send_law (five ∷ five ∷ five ∷ []) (at busy []) busy-IsValid refl
      (omega arith)

-- `busy` with five bytes behind the two that wait.
abbrev wrote : State Net
wrote = record {
  self = record busy {
    buffer = some (104 ∷ 105 ∷ 0 ∷ 0 ∷ 1 ∷ 2 ∷ 10 ∷ 11 ∷ 12 ∷ 13 ∷ 14 ∷ 0 ∷ 0 ∷ 0 ∷ 0 ∷ 0 ∷ []);
    out_size = 7;
  };
  world = net five;
}

-- After a write of five bytes that found place.
Reach-safe_example :
    Ends
      (λ _ u. IsValid u.self × (u.self.socket.fd ≡ pos 5))
      (λ _ u. IsValid u.self × (u.self.socket.fd ≡ pos 5))
      (run_op api (reads (9 ∷ 9 ∷ [])) wrote)
unfolding run_op write_output_buffer append_output
Reach-safe_example =
    Reach-safe api (pos 5) send_law recv_law (at busy five) wrote busy-IsValid refl
      (returned (writes five) here (omega arith) refl) (reads (9 ∷ 9 ∷ [])) (omega arith)

-- A new object with buffers of 4 and 12 bytes, after the same write.
abbrev made : State Net
made = record {
  self = record {
    socket = descriptor (pos 5);
    buffer = some (0 ∷ 0 ∷ 0 ∷ 0 ∷ 10 ∷ 11 ∷ 12 ∷ 13 ∷ 14 ∷ 0 ∷ 0 ∷ 0 ∷ 0 ∷ 0 ∷ 0 ∷ 0 ∷ []);
    in_rd = 0;
    in_size = 0;
    in_capacity = 4;
    out_base = 4;
    out_size = 5;
    out_capacity = 12;
  };
  world = net five;
}

constructed-safe_example :
    Ends (λ _ u. IsValid u.self) (λ _ u. IsValid u.self) (run_op api (reads (9 ∷ 9 ∷ [])) made)
unfolding run_op write_output_buffer append_output construct
constructed-safe_example =
    constructed-safe api (pos 5) send_law recv_law zeros (descriptor (pos 5)) 4 12 (net five) made
      length-zeros (omega arith) refl (returned (writes five) here (omega arith) refl)
      (reads (9 ∷ 9 ∷ [])) (omega arith)

write_output_buffer-construct_example :
    write_output_buffer api (7 ∷ []) (record {
      self = (construct zeros (descriptor (pos 5)) 0xFFFFFFFFFFFFFFFC 8).0;
      world = net [];
    })
    ≡ fault
write_output_buffer-construct_example =
    write_output_buffer-construct api (net []) zeros (descriptor (pos 5)) 0xFFFFFFFFFFFFFFFC 8
      (7 ∷ []) length-zeros (omega arith) (omega arith) (omega arith) (omega arith) (omega arith)

-- An object with place for one byte in each direction.
abbrev tiny : BufferedSocket
tiny = record {
  socket = descriptor (pos 6);
  buffer = some (0 ∷ 0 ∷ []);
  in_rd = 0;
  in_size = 0;
  in_capacity = 1;
  out_base = 1;
  out_size = 0;
  out_capacity = 1;
}

tiny-IsValid : IsValid tiny
tiny-IsValid = record {
  owned = λ e. cc;
  room = refl;
  base = refl;
  small = omega arith;
  rd_le = omega arith;
  in_le = omega arith;
  out_le = omega arith;
}

flush-assign_from_example :
    flush api (record { self = (assign_from tiny busy).1; world = net [] }) ≡ fault
flush-assign_from_example = flush-assign_from api (net []) tiny busy tiny-IsValid (omega arith)

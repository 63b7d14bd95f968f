-- ===== src/BufferedSocket/Conversation/Tests.antt =====
-- Short talks over a pair of connected sockets.
use fdcpp.Base.{ℕ, ◌≡◌, refl, pos, negsuc, List, [], ◌∷◌, some, arith, ◌++◌}
use fdcpp.Throw.{throw_system_error}
use fdcpp.Descriptor.{descriptor}
use fdcpp.Socket
use fdcpp.Socket.{SocketOs, msg_nosignal, msg_waitall}
use fdcpp.Loopback.{Net, send, recv}
use fdcpp.BufferedSocket.{
  recv_failed, take_input, recv_if_possible, read_input_buffer, BufferedSocket, write_output_buffer,
  append_output, send_all, flush,
}
use fdcpp.BufferedSocket.Invariant.{IsValid}
use fdcpp.BufferedSocket.Session.{flushes, writes, reads}
use fdcpp.BufferedSocket.Spec.{do_op}
use fdcpp.Effect.Ends.{Ends}
use fdcpp.BufferedSocket.Conversation.Delivered.{Reach-delivers}
use fdcpp.BufferedSocket.Fixtures.{peer}
use fdcpp.BufferedSocket.Conversation.{
  at_left, at_right, nothing_yet, Talk, Reach, here, left_returned, left_threw, right_returned,
  Carried,
}
use fdcpp.Effect.{and_then}
use fdcpp.Endian.{little, big}
use fdcpp.BufferedSocket.Draining.{input}
use fdcpp.BufferedSocket.Message.{char, u16, i32, Field, write_values, read_values}
use fdcpp.BufferedSocket.Conversation.Typed.{Reach-read_values}
use fdcpp.BufferedSocket.Conversation.Pair.{
  api, pair_send, pair_recv, left_end, right_end, left_end-Answers, right_end-Answers,
}
use fdcpp.BufferedSocket.Conversation.Lossless.{Opened, Reach-lossless}

abbrev new : ℕ → BufferedSocket
new fd = record {
  socket = descriptor (pos fd);
  buffer = some (0 ∷ 0 ∷ 0 ∷ 0 ∷ 0 ∷ 0 ∷ 0 ∷ 0 ∷ []);
  in_rd = 0;
  in_size = 0;
  in_capacity = 4;
  out_base = 4;
  out_size = 0;
  out_capacity = 4;
}

new-IsValid : (fd : ℕ) → IsValid (new fd)
new-IsValid fd = record {
  owned = λ e. cc;
  room = refl;
  base = refl;
  small = omega arith;
  rd_le = omega arith;
  in_le = omega arith;
  out_le = omega arith;
}

abbrev start : Talk Net
start = record {
  left = new 5;
  right = new 6;
  left_log = nothing_yet;
  right_log = nothing_yet;
  world = record { sent = []; arrived = []; error = 0 };
}

start-Opened : Opened api left_end right_end start
start-Opened = record {
  left_valid = new-IsValid 5;
  right_valid = new-IsValid 6;
  left_fd = refl;
  right_fd = refl;
  no_logs = (refl, refl);
  no_output = (refl, refl);
  no_input = (refl, refl);
  no_wires = (refl, refl);
}

-- The left end writes three bytes and then two, which makes it send the three; it reads, which throws,
-- as nothing has come; and the right end reads one byte, and writes one.
abbrev end : Talk Net
end = record {
  left = record (new 5) { buffer = some (0 ∷ 0 ∷ 0 ∷ 0 ∷ 4 ∷ 5 ∷ 3 ∷ 0 ∷ []); out_size = 2 };
  right = record (new 6) {
    buffer = some (1 ∷ 2 ∷ 3 ∷ 0 ∷ 9 ∷ 0 ∷ 0 ∷ 0 ∷ []);
    in_rd = 1;
    in_size = 3;
    out_size = 1;
  };
  left_log = record { wrote = 1 ∷ 2 ∷ 3 ∷ 4 ∷ 5 ∷ []; read = [] };
  right_log = record { wrote = 9 ∷ []; read = 1 ∷ [] };
  world = record { sent = []; arrived = []; error = 4 };
}

talk : Reach api start end
unfolding do_op write_output_buffer append_output send_all flush Socket.send Socket.recv send recv
    pair_send pair_recv read_input_buffer recv_if_possible take_input recv_failed throw_system_error
talk =
    right_returned (writes (9 ∷ [])) []
      (right_returned (reads (0 ∷ [])) (1 ∷ [])
        (left_threw (0 ∷ []) _
          (left_returned (writes (4 ∷ 5 ∷ [])) []
            (left_returned (writes (1 ∷ 2 ∷ 3 ∷ [])) [] here (omega arith) refl) (omega arith) refl)
          (omega arith) refl)
        (omega arith) refl)
      (omega arith) refl

Reach-lossless_example :
    (IsValid end.left × IsValid end.right)
    × Carried end.right_log end.right [] end.left end.left_log
    × Carried end.left_log end.left [] end.right end.right_log
Reach-lossless_example = Reach-lossless api left_end right_end start end start-Opened talk

Reach-delivers_example :
    Ends
      (λ _ t.
        Ends
          (λ got _. (1 ∷ []) ++ got ≡ 1 ∷ 2 ∷ 3 ∷ 4 ∷ 5 ∷ [])
          (λ _ _. ⊥)
          (read_input_buffer api
            (0 ∷ 0 ∷ 0 ∷ 0 ∷ [])
            (record { self = end.right; world = t.world })))
      (λ _ _. ⊥)
      (flush api (at_left end))
    × Ends
        (λ _ t.
          Ends
            (λ got _. [] ++ got ≡ 9 ∷ [])
            (λ _ _. ⊥)
            (read_input_buffer api (0 ∷ []) (record { self = end.left; world = t.world })))
        (λ _ _. ⊥)
        (flush api (at_right end))
Reach-delivers_example =
    Reach-delivers api left_end right_end left_end-Answers right_end-Answers start end
      (0 ∷ 0 ∷ 0 ∷ 0 ∷ []) (0 ∷ []) start-Opened talk (omega arith) (omega arith) refl refl

-- Objects with more place for output.
abbrev roomy : ℕ → BufferedSocket
roomy fd = record (new fd) {
  buffer = some (0 ∷ 0 ∷ 0 ∷ 0 ∷ 0 ∷ 0 ∷ 0 ∷ 0 ∷ 0 ∷ 0 ∷ 0 ∷ 0 ∷ 0 ∷ 0 ∷ []);
  out_capacity = 10;
}

roomy-IsValid : (fd : ℕ) → IsValid (roomy fd)
roomy-IsValid fd = record {
  owned = λ e. cc;
  room = refl;
  base = refl;
  small = omega arith;
  rd_le = omega arith;
  in_le = omega arith;
  out_le = omega arith;
}

abbrev first : Talk Net
first = record start { left = roomy 5; right = roomy 6 }

first-Opened : Opened api left_end right_end first
first-Opened = record {
  left_valid = roomy-IsValid 5;
  right_valid = roomy-IsValid 6;
  left_fd = refl;
  right_fd = refl;
  no_logs = (refl, refl);
  no_output = (refl, refl);
  no_input = (refl, refl);
  no_wires = (refl, refl);
}

-- One byte has gone to the right and was read there.
abbrev later : Talk Net
later = record {
  left = record (roomy 5) {
    buffer = some (0 ∷ 0 ∷ 0 ∷ 0 ∷ 7 ∷ 0 ∷ 0 ∷ 0 ∷ 0 ∷ 0 ∷ 0 ∷ 0 ∷ 0 ∷ 0 ∷ []);
  };
  right = record (roomy 6) {
    buffer = some (7 ∷ 0 ∷ 0 ∷ 0 ∷ 0 ∷ 0 ∷ 0 ∷ 0 ∷ 0 ∷ 0 ∷ 0 ∷ 0 ∷ 0 ∷ 0 ∷ []);
  };
  left_log = record { wrote = 7 ∷ []; read = [] };
  right_log = record { wrote = []; read = 7 ∷ [] };
  world = record { sent = []; arrived = []; error = 0 };
}

one_byte : Reach api first later
unfolding do_op write_output_buffer append_output send_all flush Socket.send Socket.recv send recv
    pair_send pair_recv read_input_buffer recv_if_possible take_input recv_failed throw_system_error
one_byte =
    right_returned (reads (0 ∷ [])) (7 ∷ [])
      (left_returned flushes [] (left_returned (writes (7 ∷ [])) [] here (omega arith) refl) tt
        refl)
      (omega arith) refl

abbrev fields : List Field
fields =
    record { kind = u16; value = 513; old = 0 }
    ∷ record { kind = i32; value = negsuc 1; old = pos 7 }
    ∷ record { kind = char; value = 65; old = 255 }
    ∷ []

Reach-read_values_example :
    Ends
      (λ _ t.
        Ends
          (λ got u. (got ≡ (u16, 513) ∷ (i32, negsuc 1) ∷ (char, 65) ∷ []) × (input peer u ≡ []))
          (λ _ _. ⊥)
          (read_values api big fields (record { self = later.right; world = t.world })))
      (λ _ _. ⊥)
      (and_then (write_values api little fields (at_left later)) (λ _. flush api))
Reach-read_values_example =
    Reach-read_values api little big left_end right_end left_end-Answers right_end-Answers first
      later fields first-Opened one_byte refl (omega arith) (omega arith)

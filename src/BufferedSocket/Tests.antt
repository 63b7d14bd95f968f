-- ===== src/BufferedSocket/Tests.antt =====
-- The theorems on a small object over `Loopback`, and runs of the code.
use fdcpp.Base.{
  ℕ, ◌<◌, ◌≡◌, refl, inl, pos, List, [], ◌∷◌, ◌++◌, some, length, take, drop, length-take,
  take-append-drop, arith,
}
use fdcpp.Effect.{ok}
use fdcpp.Effect.Ends.{Ends}
use fdcpp.Descriptor.{descriptor}
use fdcpp.Socket.{SocketOs}
use fdcpp.Socket.Stream.{RecvLaw}
use fdcpp.Socket
use fdcpp.Loopback.{Net, api, send, recv, send_law, recv_law, waits}
use fdcpp.BufferedSocket.{send_all, write_output_buffer, read_input_buffer, recv_if_possible}
use fdcpp.BufferedSocket.Fixtures.{
  busy, drained, net, at, peer, coming, busy-IsValid, drained-IsValid, five, twelve,
}
use fdcpp.BufferedSocket.Invariant.{IsValid, SameInput, SameOutput}
use fdcpp.BufferedSocket.Output.{send_all-Ends}
use fdcpp.BufferedSocket.Writing.{stream, large_write-Ends, write_output_buffer-Ends}
use fdcpp.BufferedSocket.Receiving.{Received, Untouched, IsFailure, recv_if_possible-Ends}
use fdcpp.BufferedSocket.Draining.{input}
use fdcpp.BufferedSocket.Reading.{read_input_buffer-Ends, short_read-stale}
use fdcpp.BufferedSocket.Values.{read_string, strlen}
use fdcpp.BufferedSocket.Strings.{read_string-Ends}
use fdcpp.BufferedSocket.Underrun.{read_string-underrun}

send_all-Ends_example :
    Ends
      (λ _ w. peer w ≡ five)
      (λ _ w. (k : ℕ) × (peer w ≡ take k five))
      (send_all api (descriptor (pos 5)) five (net []))
send_all-Ends_example = send_all-Ends api (descriptor (pos 5)) send_law five (net []) (omega arith)

large_write-Ends_example :
    Ends
      (λ _ t. (t.self ≡ busy) × (stream peer t ≡ twelve ++ (1 ∷ 2 ∷ [])))
      (λ _ t. (t.self ≡ busy) × ((k : ℕ) × (peer t.world ≡ take k twelve)))
      (write_output_buffer api twelve (at busy []))
large_write-Ends_example =
    large_write-Ends api (at busy []) send_law busy-IsValid twelve (omega arith) (omega arith)

write_output_buffer-Ends_example :
    Ends
      (λ _ t. IsValid t.self × SameInput busy t.self × (stream peer t ≡ 1 ∷ 2 ∷ five))
      (λ _ t. (t.self ≡ busy) × ((k : ℕ) × (peer t.world ≡ take k (1 ∷ 2 ∷ five))))
      (write_output_buffer api five (at busy []))
write_output_buffer-Ends_example =
    write_output_buffer-Ends api (at busy []) send_law busy-IsValid five (omega arith)
      (inl (omega arith))

recv_if_possible-Ends_example :
    Ends
      (λ _ t. Received api (at busy five) recv_law busy-IsValid t.self t.world)
      (λ e t.
        Untouched api (at busy five) recv_law busy-IsValid t
        × IsFailure api (at busy five) recv_law busy-IsValid e)
      (recv_if_possible api (at busy five))
recv_if_possible-Ends_example = recv_if_possible-Ends api (at busy five) recv_law busy-IsValid

read_input_buffer-Ends_example :
    Ends
      (λ got t.
        IsValid t.self
        × SameOutput busy t.self
        × (length got ≡ 6)
        × (104 ∷ 105 ∷ 0 ∷ five ≡ got ++ input coming t))
      (λ _ t. IsValid t.self × SameOutput busy t.self × (input coming t ≡ 104 ∷ 105 ∷ 0 ∷ five))
      (read_input_buffer api (9 ∷ 9 ∷ 9 ∷ 9 ∷ 9 ∷ 9 ∷ []) (at busy five))
read_input_buffer-Ends_example =
    read_input_buffer-Ends api (at busy five) recv_law busy-IsValid (9 ∷ 9 ∷ 9 ∷ 9 ∷ 9 ∷ 9 ∷ [])
      (omega arith) waits

-- The peer has closed the connection: a call has what there is left, also with MSG_WAITALL.
abbrev closed_api : SocketOs Net
closed_api = record api {
  recv = λ fd size flags w. (
    pos (length (take size w.arrived)),
    take size w.arrived,
    record w { arrived = drop size w.arrived },
  );
}

closed_law : RecvLaw closed_api (pos 5) (λ w. w.arrived)
closed_law = record {
  delivers = λ size flags w n bytes w' e.
      ground (arith, length-take size w.arrived, take-append-drop size w.arrived);
  fails = λ size flags w e bytes w' h. absurd (ground arith);
}

abbrev nines : List ℕ
nines = 9 ∷ 9 ∷ 9 ∷ 9 ∷ 9 ∷ 9 ∷ 9 ∷ 9 ∷ 9 ∷ 9 ∷ []

short_read-stale_example :
    Ends
      (λ got t.
        (bytes : List ℕ) × (104 ∷ 105 ∷ 0 ∷ five ≡ bytes ++ input coming t)
        × (length bytes < 10)
        × (got ≡ bytes ++ drop (length bytes) nines))
      (λ _ t. input coming t ≡ 104 ∷ 105 ∷ 0 ∷ five)
      (read_input_buffer closed_api nines (at busy five))
short_read-stale_example =
    short_read-stale closed_api (at busy five) closed_law busy-IsValid nines (omega arith)
      (omega arith)

-- The run: two of the old bytes are left.
stale_read :
    read_input_buffer closed_api nines (at busy five)
    ≡ ok (104 ∷ 105 ∷ 0 ∷ 10 ∷ 11 ∷ 12 ∷ 13 ∷ 14 ∷ 9 ∷ 9 ∷ []) (record {
      self = record busy {
        buffer = some (104 ∷ 105 ∷ 0 ∷ 10 ∷ 1 ∷ 2 ∷ 0 ∷ 0 ∷ 0 ∷ 0 ∷ 0 ∷ 0 ∷ 0 ∷ 0 ∷ 0 ∷ 0 ∷ []);
        in_rd = 0;
        in_size = 0;
      };
      world = net [];
    })
unfolding recv_if_possible read_input_buffer Socket.recv
stale_read = refl

read_string-Ends_example :
    Ends
      (λ got t.
        (got ≡ 104 ∷ 105 ∷ [])
        × IsValid t.self
        × SameOutput busy t.self
        × (104 ∷ 105 ∷ 0 ∷ five ≡ (104 ∷ 105 ∷ 0 ∷ []) ++ input coming t))
      (λ _ t. (k : ℕ) × (104 ∷ 105 ∷ 0 ∷ five ≡ take k (104 ∷ 105 ∷ []) ++ input coming t))
      (read_string api 9 (at busy five))
read_string-Ends_example =
    read_string-Ends api coming 9 (104 ∷ 105 ∷ []) [] (at busy five) recv_law busy-IsValid
      (omega arith) refl

read_string-underrun_example :
    Ends
      (λ got t. (got ≡ []) × (t.self.in_size < t.self.in_rd))
      (λ _ _. ⊥)
      (read_string api 9 (at drained []))
unfolding recv
read_string-underrun_example =
    read_string-underrun api 9 (at drained []) 0 [] _ (record (net []) { error = 11 })
      drained-IsValid refl (omega arith) refl refl refl

-- Runs of the code: twelve bytes overtake the two that wait.
overtaking :
    write_output_buffer api twelve (at busy [])
    ≡ ok tt (record { self = busy; world = record { sent = twelve; arrived = []; error = 0 } })
unfolding write_output_buffer send_all Socket.send send
overtaking = refl

reading :
    read_string api 9 (at busy five)
    ≡ ok (104 ∷ 105 ∷ []) (record {
      self = record busy {
        buffer = some (104 ∷ 105 ∷ 0 ∷ 10 ∷ 1 ∷ 2 ∷ 0 ∷ 0 ∷ 0 ∷ 0 ∷ 0 ∷ 0 ∷ 0 ∷ 0 ∷ 0 ∷ 0 ∷ []);
        in_rd = 3;
        in_size = 4;
      };
      world = net (11 ∷ 12 ∷ 13 ∷ 14 ∷ []);
    })
unfolding read_string recv_if_possible read_input_buffer Socket.recv recv strlen
reading = refl

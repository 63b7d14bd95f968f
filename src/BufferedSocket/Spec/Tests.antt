-- ===== src/BufferedSocket/Spec/Tests.antt =====
-- A sequence of operations over `Loopback`, at an object with bytes in both its buffers.
use fdcpp.Base.{◌<◌, take, ℕ, ◌≡◌, refl, pos, List, [], ◌∷◌, arith}
use fdcpp.Effect.Ends.{Ends}
use fdcpp.Loopback.{Net, api, send, recv, send_law, recv_law, waits}
use fdcpp.BufferedSocket.Invariant.{IsValid}
use fdcpp.BufferedSocket.Session.{Op, writes, reads, flushes}
use fdcpp.BufferedSocket.Fixtures.{busy, busy-IsValid, at, peer, coming, five}
use fdcpp.BufferedSocket.Draining.{input}
use fdcpp.BufferedSocket.Spec.{Connection, streams, spec_run, view, do_each}
use fdcpp.BufferedSocket.Spec.Refinement.{do_each-refines}

leaves_incoming : (bytes : List ℕ) (w : Net) → coming (send bytes w).1 ≡ coming w
unfolding send
leaves_incoming bytes w = refl

leaves_sent : (size flags : ℕ) (w : Net) → peer (recv size flags w).2 ≡ peer w
unfolding recv
leaves_sent size flags w = ground arith

connection : Connection api (pos 5) peer coming
connection = record {
  sends = send_law;
  receives = recv_law;
  waits = waits;
  apart = record {
    sending = λ bytes flags w. leaves_incoming bytes w;
    receiving = λ size flags w. leaves_sent size flags w;
  };
}

abbrev calls : List Op
calls = writes five ∷ reads (9 ∷ 9 ∷ []) ∷ reads (9 ∷ 9 ∷ 9 ∷ 9 ∷ []) ∷ flushes ∷ []

do_each-refines_example :
    Ends
      (λ got t.
        IsValid t.self
        × (got ≡ [] ∷ (104 ∷ 105 ∷ []) ∷ (0 ∷ 10 ∷ 11 ∷ 12 ∷ []) ∷ [] ∷ [])
        × (view peer coming t ≡ streams (1 ∷ 2 ∷ five) (13 ∷ 14 ∷ [])))
      (λ _ t.
        IsValid t.self
        × ((k : ℕ) × (k < 4)
            × (input coming t
                ≡ (spec_run (take k calls) (streams (1 ∷ 2 ∷ []) (104 ∷ 105 ∷ 0 ∷ five))).1.inp)))
      (do_each api calls (at busy five))
do_each-refines_example =
    do_each-refines api peer coming calls (at busy five) connection busy-IsValid
      (omega arith, (omega arith, (omega arith, (tt, tt))))

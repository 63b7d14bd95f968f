-- ===== src/BufferedSocket/Conversation/Pair.antt =====
-- A pair of connected sockets: `Loopback`, with the other end as a second descriptor.
use fdcpp.Base.{false, ℕ, refl, ap, ℤ, pos, negsuc, List, Bool, ◌==◌, if◌then◌else◌, arith}
use fdcpp.Socket.{SocketOs}
use fdcpp.Socket.Stream.{SendLaw, RecvLaw, Waits}
use fdcpp.Loopback
use fdcpp.Loopback.{Net, send, recv, send_law, recv_law, waits}
use fdcpp.BufferedSocket.Spec.{Connection}
use fdcpp.BufferedSocket.Returning.{Answers}
use fdcpp.BufferedSocket.Fixtures.{sends_always, waits_for, finds_none, peer, coming}

-- The connection from its other end.
abbrev pub turned : Net → Net
turned w = record w { sent = w.arrived; arrived = w.sent }

abbrev pub is_left : ℤ → Bool
is_left (pos n) = n == 5
is_left (negsuc n) = false

unfoldable pub pair_send : ℤ → List ℕ → Net → ℤ × Net
pair_send fd bytes w =
    if is_left fd
    then send bytes w
    else ((send bytes (turned w)).0, turned (send bytes (turned w)).1)

unfoldable pub pair_recv : ℤ → ℕ → ℕ → Net → ℤ × List ℕ × Net
pair_recv fd size flags w = if is_left fd then recv size flags w else (
  (recv size flags (turned w)).0,
  (recv size flags (turned w)).1,
  turned (recv size flags (turned w)).2,
)

abbrev pub api : SocketOs Net
api = record Loopback.api {
  recv = λ fd size flags w. pair_recv fd size flags w;
  send = λ fd bytes flags w. pair_send fd bytes w;
}

left_sends : SendLaw api (pos 5) peer
unfolding pair_send
left_sends = record {
  accepts = λ bytes flags w n w' e. send_law.accepts bytes flags w n w' e;
  refuses = λ bytes flags w e w' h. send_law.refuses bytes flags w e w' h;
}

left_receives : RecvLaw api (pos 5) coming
unfolding pair_recv
left_receives = record {
  delivers = λ size flags w n bytes w' e. recv_law.delivers size flags w n bytes w' e;
  fails = λ size flags w e bytes w' h. recv_law.fails size flags w e bytes w' h;
}

left_waits : Waits api (pos 5)
unfolding pair_recv
left_waits size w n bytes w' e = waits size w n bytes w' e

pub left_end : Connection api (pos 5) peer coming
unfolding pair_send pair_recv send recv
left_end = record {
  sends = left_sends;
  receives = left_receives;
  waits = λ size w n bytes w' e. left_waits size w n bytes w' e;
  apart = record { sending = λ bytes flags w. refl; receiving = λ size flags w. ground arith };
}

right_sends : SendLaw api (pos 6) coming
unfolding pair_send
right_sends = record {
  accepts = λ bytes flags w n w' e.
      send_law.accepts bytes flags (turned w) n (turned w') (ap (λ r. (r.0, turned r.1)) e);
  refuses = λ bytes flags w e w' h.
      send_law.refuses bytes flags (turned w) e (turned w') (ap (λ r. (r.0, turned r.1)) h);
}

right_receives : RecvLaw api (pos 6) peer
unfolding pair_recv
right_receives = record {
  delivers = λ size flags w n bytes w' e.
      recv_law.delivers size flags (turned w) n bytes (turned w')
        (ap (λ r. (r.0, r.1, turned r.2)) e);
  fails = λ size flags w e bytes w' h.
      recv_law.fails size flags (turned w) e bytes (turned w') (ap (λ r. (r.0, r.1, turned r.2)) h);
}

right_waits : Waits api (pos 6)
unfolding pair_recv
right_waits size w n bytes w' e =
    waits size (turned w) n bytes (turned w') (ap (λ r. (r.0, r.1, turned r.2)) e)

pub right_end : Connection api (pos 6) coming peer
unfolding pair_send pair_recv send recv
right_end = record {
  sends = right_sends;
  receives = right_receives;
  waits = λ size w n bytes w' e. right_waits size w n bytes w' e;
  apart = record { sending = λ bytes flags w. refl; receiving = λ size flags w. ground arith };
}

pub left_end-Answers : Answers api (pos 5) coming
unfolding pair_send pair_recv
left_end-Answers = record {
  sends = λ bytes flags w e w' h. sends_always bytes w e w' h;
  waits = λ size w e got w' h k. waits_for size w e got w' h k;
  polls = λ size w e got w' h. finds_none size w e got w' h;
}

pub right_end-Answers : Answers api (pos 6) peer
unfolding pair_send pair_recv
right_end-Answers = record {
  sends = λ bytes flags w e w' h.
      sends_always bytes (turned w) e (turned w') (ap (λ r. (r.0, turned r.1)) h);
  waits = λ size w e got w' h k.
      waits_for size (turned w) e got (turned w') h (ap (λ r. (r.0, r.1, turned r.2)) k);
  polls = λ size w e got w' h.
      finds_none size (turned w) e got (turned w') (ap (λ r. (r.0, r.1, turned r.2)) h);
}

-- ===== src/BufferedSocket/Conversation/Lossless.antt =====
-- That nothing is lost between two objects that talk.
use fdcpp.Base.{ℕ, ◌≡◌, ℤ, List, []}
use fdcpp.Socket.{SocketOs}
use fdcpp.BufferedSocket.{State, pending, unread}
use fdcpp.BufferedSocket.Invariant.{IsValid}
use fdcpp.BufferedSocket.Spec.{Connection}
use fdcpp.BufferedSocket.Conversation.{
  nothing_yet, Log, Talk, at_left, at_right, left_moves, right_moves, Reach, here, left_returned,
  left_threw, right_returned, right_threw, Carried,
}
use fdcpp.BufferedSocket.Conversation.Direction.{Good, returned-Good, threw-Good, nothing-Carried}

module _ {W : Type 0} (api : SocketOs W) {fd fd' : ℤ} {to_right to_left : W → List ℕ}
    (left : Connection api fd to_right to_left) (right : Connection api fd' to_left to_right) where
  -- Both objects are valid, each is at its end, and nothing is lost in either direction.
  pub record Inv (c : Talk W) : Type 0 where
    pub left_good : Good fd to_right to_left (at_left c) c.left_log c.right c.right_log
    pub right_good : Good fd' to_left to_right (at_right c) c.right_log c.left c.left_log

  left_moves-Inv :
      (c : Talk W) (t : State W) (log : Log)
      → Inv c
      → Good fd to_right to_left t log c.right c.right_log
      → Inv (left_moves c t log)
  left_moves-Inv c t log v g = record {
    left_good = g;
    right_good = record {
      valid = v.right_good.valid;
      same_fd = v.right_good.same_fd;
      there = g.back;
      back = g.there;
    };
  }

  right_moves-Inv :
      (c : Talk W) (t : State W) (log : Log)
      → Inv c
      → Good fd' to_left to_right t log c.left c.left_log
      → Inv (right_moves c t log)
  right_moves-Inv c t log v g = record {
    left_good = record {
      valid = v.left_good.valid;
      same_fd = v.left_good.same_fd;
      there = g.back;
      back = g.there;
    };
    right_good = g;
  }

  Reach-Inv : {c d : Talk W} → Inv c → Reach api c d → Inv d
  Reach-Inv v here = v
  Reach-Inv v (left_returned {d} {t} op got r h e) =
      let w = Reach-Inv v r in
      left_moves-Inv d t _ w (returned-Good api left _ _ _ _ w.left_good t op got h e)
  Reach-Inv v (left_threw {d} {t} dest e r h eq) =
      let w = Reach-Inv v r in
      left_moves-Inv d t _ w (threw-Good api left _ _ _ _ w.left_good t dest e h eq)
  Reach-Inv v (right_returned {d} {t} op got r h e) =
      let w = Reach-Inv v r in
      right_moves-Inv d t _ w (returned-Good api right _ _ _ _ w.right_good t op got h e)
  Reach-Inv v (right_threw {d} {t} dest e r h eq) =
      let w = Reach-Inv v r in
      right_moves-Inv d t _ w (threw-Good api right _ _ _ _ w.right_good t dest e h eq)

  -- Two objects that are valid and new: nothing has been written, and nothing is on its way.
  pub record Opened (c : Talk W) : Type 0 where
    pub left_valid : IsValid c.left
    pub right_valid : IsValid c.right
    pub left_fd : c.left.socket.fd ≡ fd
    pub right_fd : c.right.socket.fd ≡ fd'
    pub no_logs : (c.left_log ≡ nothing_yet) × (c.right_log ≡ nothing_yet)
    pub no_output : (pending c.left ≡ []) × (pending c.right ≡ [])
    pub no_input : (unread c.left ≡ []) × (unread c.right ≡ [])
    pub no_wires : (to_left c.world ≡ []) × (to_right c.world ≡ [])

  Opened-Inv : (c : Talk W) → Opened c → Inv c
  Opened-Inv c o =
      let none_right =
        nothing-Carried c.right_log c.right (to_right c.world) c.left c.left_log o.no_logs.1
          o.no_logs.0 o.no_input.1 o.no_wires.1 o.no_output.0 in
      let none_left =
        nothing-Carried c.left_log c.left (to_left c.world) c.right c.right_log o.no_logs.0
          o.no_logs.1 o.no_input.0 o.no_wires.0 o.no_output.1 in
      record {
        left_good = record {
          valid = o.left_valid;
          same_fd = o.left_fd;
          there = none_right;
          back = none_left;
        };
        right_good = record {
          valid = o.right_valid;
          same_fd = o.right_fd;
          there = none_left;
          back = none_right;
        };
      }

  pub Opened-Reach : (c d : Talk W) → Opened c → Reach api c d → Inv d
  Opened-Reach c d o r = Reach-Inv (Opened-Inv c o) r

  -- Two new objects at the ends of one connection, whose system keeps its promises at both: after any
  -- calls at either end that returned, with each write smaller than its output buffer, and reads that
  -- threw, in any order, one at a time, both objects are valid, and in either direction what was read,
  -- then what is unread, then what is on its way, then what is pending is what was written. So no byte
  -- is lost, doubled, made up or moved.
  pub Reach-lossless :
      (c d : Talk W)
      → Opened c
      → Reach api c d
      → (IsValid d.left × IsValid d.right)
        × Carried d.right_log d.right (to_right d.world) d.left d.left_log
        × Carried d.left_log d.left (to_left d.world) d.right d.right_log
  Reach-lossless c d o r =
      let v = Opened-Reach c d o r in
      ((v.left_good.valid, v.right_good.valid), v.left_good.there, v.left_good.back)

-- ===== src/BufferedSocket/Conversation.antt =====
-- Two `buffered_socket` objects, one at either end of a connection, and a program that uses them in
-- turns. What is on its way from one end to the other belongs to the system.

pub mod Direction
pub mod Lossless
pub mod Delivered
pub mod Typed
mod Pair
mod Tests
use fdcpp.Base.{ℕ, ◌^◌, ◌<◌, ◌≡◌, List, [], ◌++◌, length}
use fdcpp.Effect.{Error, ok, throw}
use fdcpp.Socket.{SocketOs}
use fdcpp.BufferedSocket.{BufferedSocket, State, pending, unread}
use fdcpp.BufferedSocket.Session.{Op, writes, reads, flushes}
use fdcpp.BufferedSocket.Spec.{Suits, do_op}

-- What a program has written to an object and what it has read from it.
pub record Log : Type 0 where
  pub wrote : List ℕ
  pub read : List ℕ

abbrev pub nothing_yet : Log
nothing_yet = record { wrote = []; read = [] }

abbrev pub written : Op → List ℕ
written (writes bytes) = bytes
written (reads dest) = []
written flushes = []

abbrev pub logged : Op → List ℕ → Log → Log
logged op got l = record { wrote = l.wrote ++ written op; read = l.read ++ got }

-- The two objects, what was done with each, and the system.
pub record Talk (W : Type 0) : Type 0 where
  pub left : BufferedSocket
  pub right : BufferedSocket
  pub left_log : Log
  pub right_log : Log
  pub world : W

module _ {W : Type 0} where
  abbrev pub at_left : Talk W → State W
  at_left c = record { self = c.left; world = c.world }

  abbrev pub at_right : Talk W → State W
  at_right c = record { self = c.right; world = c.world }

  abbrev pub left_moves : Talk W → State W → Log → Talk W
  left_moves c t log = record c { left = t.self; left_log = log; world = t.world }

  abbrev pub right_moves : Talk W → State W → Log → Talk W
  right_moves c t log = record c { right = t.self; right_log = log; world = t.world }

module _ {W : Type 0} (api : SocketOs W) where
  -- What comes of calls at either end, in any order: any call that returns, or a read that throws.
  pub data Reach (c : Talk W) : Talk W → Type 0 where
    here : Reach c c
    left_returned :
        {d : Talk W} {t : State W} (op : Op) (got : List ℕ)
        → Reach c d
        → Suits d.left.out_capacity op
        → do_op api op (at_left d) ≡ ok got t
        → Reach c (left_moves d t (logged op got d.left_log))
    left_threw :
        {d : Talk W} {t : State W} (dest : List ℕ) (e : Error)
        → Reach c d
        → length dest < 2 ^ 63
        → do_op api (reads dest) (at_left d) ≡ throw e t
        → Reach c (left_moves d t d.left_log)
    right_returned :
        {d : Talk W} {t : State W} (op : Op) (got : List ℕ)
        → Reach c d
        → Suits d.right.out_capacity op
        → do_op api op (at_right d) ≡ ok got t
        → Reach c (right_moves d t (logged op got d.right_log))
    right_threw :
        {d : Talk W} {t : State W} (dest : List ℕ) (e : Error)
        → Reach c d
        → length dest < 2 ^ 63
        → do_op api (reads dest) (at_right d) ≡ throw e t
        → Reach c (right_moves d t d.right_log)

-- What one end has read, what is on its way to it, and what the other end wrote.
abbrev pub Carried : Log → BufferedSocket → List ℕ → BufferedSocket → Log → Type 0
Carried got reader wire writer said =
    got.read ++ (unread reader ++ (wire ++ pending writer)) ≡ said.wrote

-- ===== src/BufferedSocket/Conversation/Typed.antt =====
-- Values of any types in a talk.
use fdcpp.Base.{
  refl, ℕ, ◌<◌, ◌≡◌, sym, ap, ◌∙◌, subst, ℤ, List, [], ◌++◌, length, append-nil, append_assoc,
}
use fdcpp.Effect.{and_then}
use fdcpp.Effect.Ends
use fdcpp.Effect.Ends.{Ends}
use fdcpp.Socket.{SocketOs}
use fdcpp.Endian.{Order}
use fdcpp.BufferedSocket.{pending, unread, flush}
use fdcpp.BufferedSocket.Draining.{input}
use fdcpp.BufferedSocket.Returning.{Answers}
use fdcpp.BufferedSocket.Spec.{Connection}
use fdcpp.BufferedSocket.Message.{Field, AreValues, wires, values, write_values, read_values}
use fdcpp.BufferedSocket.Message.Delivery.{flush-write_values-returns, read_values-returns}
use fdcpp.BufferedSocket.Conversation.{Talk, at_left, Reach}
use fdcpp.BufferedSocket.Conversation.Lossless.{Opened, Opened-Reach}
use fdcpp.BufferedSocket.Conversation.Delivered.{nothing_left}

-- Where as much was read as was written, nothing is between.
between :
    (read front wire pend wrote more : List ℕ)
    → read ++ (front ++ (wire ++ pend)) ≡ wrote
    → length read ≡ length wrote
    → front ++ (wire ++ (pend ++ more)) ≡ more
between read front wire pend wrote more e same =
    let gone = nothing_left (front ++ (wire ++ pend)) read (same ∙ ap length (sym e)) in
    rw (← append_assoc wire pend more, ← append_assoc front (wire ++ pend) more, gone) refl

module _ {W : Type 0} (api : SocketOs W) (left_order right_order : Order) {fd fd' : ℤ}
    {to_right to_left : W → List ℕ} (left : Connection api fd to_right to_left)
    (right : Connection api fd' to_left to_right) (left_answers : Answers api fd to_left)
    (right_answers : Answers api fd' to_right) where
  -- Two new objects at the ends of one connection, between hosts of any byte orders, whose system keeps
  -- its promises at both ends and answers every call: after any calls at either end that returned, with
  -- each write smaller than its output buffer, and reads that threw, in any order, one at a time, if
  -- the output buffer of the left end holds more than eight bytes and the right end has read as much
  -- as the left one wrote, then writing values of any types at the left and flushing returns, and
  -- reading values of the same types at the right then returns those values, with nothing left to
  -- read.
  pub Reach-read_values :
      (c d : Talk W) (fs : List Field)
      → Opened api left right c
      → Reach api c d
      → length d.right_log.read ≡ length d.left_log.wrote
      → AreValues fs
      → 8 < d.left.out_capacity
      → Ends
          (λ _ t.
            Ends
              (λ got u. (got ≡ values fs) × (input to_right u ≡ []))
              (λ _ _. ⊥)
              (read_values api right_order fs (record { self = d.right; world = t.world })))
          (λ _ _. ⊥)
          (and_then (write_values api left_order fs (at_left d)) (λ _. flush api))
  Reach-read_values c d fs o r all_read h room =
      let v = Opened-Reach api left right c d o r in
      let there = subst (λ n. Connection api n to_right to_left) (sym v.left_good.same_fd) left in
      let far = subst (λ n. Connection api n to_left to_right) (sym v.right_good.same_fd) right in
      let answers = subst (λ n. Answers api n to_left) (sym v.left_good.same_fd) left_answers in
      let far_answers =
        subst (λ n. Answers api n to_right) (sym v.right_good.same_fd) right_answers in
      Ends.mono
        (flush-write_values-returns api left_order fs (at_left d) answers there.sends
          v.left_good.valid h room)
        (λ _ t p.
          let comes : unread d.right ++ to_right t.world ≡ wires fs ++ [] =
            ap (λ wire. unread d.right ++ wire) p.1
            ∙ between d.right_log.read (unread d.right) (to_right d.world) (pending d.left)
                d.left_log.wrote (wires fs) v.left_good.there all_read
            ∙ sym (append-nil (wires fs)) in
          Ends.mono
            (read_values-returns api right_order fs [] (record { self = d.right; world = t.world })
              far_answers far.receives far.waits v.right_good.valid h comes)
            (λ got u q. (q.0, q.1)) (λ _ _ q. q))
        (λ _ _ p. p)

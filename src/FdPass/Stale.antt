-- ===== src/FdPass/Stale.antt =====
-- What the receiving function makes of a message that says it has more descriptors than it brings.
use fdcpp.Base.{
  ℕ, zero, suc, ◌-◌, ◌≤◌, ◌<◌, ◌≡◌, refl, ap, ◌∙◌, ℤ, pos, List, [], ◌∷◌, ◌++◌, length,
  length-append, length-take, length-drop, true, ◌==◌, take, drop, map, arith, min,
}
use fdcpp.Effect.{ok}
use fdcpp.Descriptor.{Descriptor, descriptor}
use fdcpp.Socket.{SocketOs, MsgHdr, msg_nosignal}
use fdcpp.Socket
use fdcpp.FdPass.{fresh_msg, recv, recv_loop}
use fdcpp.FdPass.Lists.{length-map}
use fdcpp.FdPass.Rounds.{take_batch_lem}

take-append :
    (xs ys : List ℤ) (n : ℕ) → length xs ≤ n → take n (xs ++ ys) ≡ xs ++ take (n - length xs) ys
take-append [] ys n h = ap (λ k. take k ys) (omega arith)
take-append (x ∷ xs) ys zero h = absurd (omega arith)
take-append (x ∷ xs) ys (suc n) h =
    ap (◌∷◌ x) (take-append xs ys n (omega arith) ∙ ap (λ k. xs ++ take k ys) (omega arith))

module _ {W : Type 0} (api : SocketOs W) (sock : Descriptor) where
  -- Into a buffer of at least as many numbers as the message says, ten in the code: behind one message
  -- that says it is of one to ten descriptors and brings fewer, in a control message, `recv` returns as
  -- many as it says all the same: the ones that came, and objects that own the numbers that were in the
  -- buffer before.
  pub short_message-stale :
      (fuel : ℕ) (buffer fds : List ℤ) (w : W) (n : ℕ) (msg' : MsgHdr) (w' : W)
      → api.recvmsg sock.fd (fresh_msg 0 buffer) msg_nosignal w ≡ (pos n, msg', w')
      → length fds < msg'.iov
      → msg'.iov ≤ 10
      → msg'.iov ≤ length buffer
      → 16 ≤ msg'.controllen
      → msg'.data_fds ≡ fds ++ drop (length fds) buffer
      → recv api (suc fuel) buffer sock w
        ≡ ok (map descriptor (fds ++ take (msg'.iov - length fds) (drop (length fds) buffer))) w'
  unfolding recv recv_loop Socket.recvmsg
  short_message-stale fuel buffer fds w n msg' w' came short small room space brought =
      let old = take (msg'.iov - length fds) (drop (length fds) buffer) in
      let got : map descriptor (take (min (msg'.iov - 0) 10) msg'.data_fds)
          ≡ map descriptor (fds ++ old) =
        ap (map descriptor) (
          ap (λ k. take k msg'.data_fds) (omega arith)
          ∙ ap (take msg'.iov) brought
          ∙ take-append fds (drop (length fds) buffer) msg'.iov (omega arith)) in
      let full : length (map descriptor (fds ++ old)) ≡ msg'.iov = omega (
        arith,
        length-map descriptor (fds ++ old),
        length-append fds old,
        length-take (msg'.iov - length fds) (drop (length fds) buffer),
        length-drop (length fds) buffer,
      ) in
      let stops : (length (map descriptor (fds ++ old)) == msg'.iov) ≡ true =
        ground (arith, full) in
      rw (came, take_batch_lem api msg' [] w' (omega arith) (omega arith) space, got, stops) refl

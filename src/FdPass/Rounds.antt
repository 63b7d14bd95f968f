-- ===== src/FdPass/Rounds.antt =====
-- One round of the receiving function: the call, the vector that is closed when it throws, and the
-- numbers that it brings.
use fdcpp.Base.{
  is_neg, negsuc, sub_size, ◌^◌, ℕ, ◌-◌, ◌≤◌, ◌<◌, ◌≡◌, refl, inl, inr, ℤ, pos, List, [], ◌∷◌, ◌++◌,
  length, take, min, map, Bool-cases, arith,
}
use fdcpp.Effect.{Run, ok}
use fdcpp.Effect.Ends.{Ends, returns, throws}
use fdcpp.Throw.{throw_system_error}
use fdcpp.Descriptor.{Descriptor, descriptor, destroy}
use fdcpp.Socket.{SocketOs, MsgHdr, msg_nosignal}
use fdcpp.Socket
use fdcpp.FdPass.{close_all, closing, take_batch}

module _ {W : Type 0} (api : SocketOs W) where
  -- Closing always returns.
  pub close_all_ok : (ds : List Descriptor) (w : W) → (w' : W) × (close_all api ds w ≡ ok tt w')
  unfolding close_all destroy
  close_all_ok [] w = (w, refl)
  close_all_ok (d ∷ ds) w = elim (Bool-cases (is_neg d.fd)) [
    | inl owns ↦ let r = close_all_ok ds w in (r.0, rw owns r.1)
    | inr owns ↦ let r = close_all_ok ds (api.close d.fd w).1 in (r.0, rw owns r.1)
  ]

  -- What holds once the vector is closed behind an exception.
  pub closing-Ends :
      {A : Type 0} {P : A → W → Type 0} {F E : W → Type 0} (v : List Descriptor) {r : Run W A}
      → Ends P (λ _ w. F w) r
      → ((w w' : W) → F w → close_all api v w ≡ ok tt w' → E w')
      → Ends P (λ _ w. E w) (closing api v r)
  closing-Ends v (returns p) after = returns p
  closing-Ends v (throws {s = w} p) after =
      let gone = close_all_ok v w in rw gone.1 (throws (after w gone.0 p gone.1))

  -- The numbers of one message join the vector.
  pub take_batch_lem :
      (msg : MsgHdr) (v : List Descriptor) (w : W)
      → length v < msg.iov
      → msg.iov < 2 ^ 63
      → 16 ≤ msg.controllen
      → take_batch api msg v w
        ≡ ok (v ++ map descriptor (take (min (msg.iov - length v) 10) msg.data_fds)) w
  unfolding take_batch
  take_batch_lem msg v w h long space =
      let diff : sub_size msg.iov (length v) ≡ msg.iov - length v = omega arith in
      rw diff (ground arith)

module _ {W : Type 0} (api : SocketOs W) (sock : Descriptor) where
  abbrev pub Came : MsgHdr → W → MsgHdr → W → Type 0
  Came msg w msg' w' = (n : ℕ) × (api.recvmsg sock.fd msg msg_nosignal w ≡ (pos n, msg', w'))

  abbrev pub Refused : MsgHdr → W → W → Type 0
  Refused msg w w' =
      (n : ℕ) × (msg' : MsgHdr) × (api.recvmsg sock.fd msg msg_nosignal w ≡ (negsuc n, msg', w'))

  pub recvmsg-Ends :
      (msg : MsgHdr) (w : W)
      → Ends
          (λ r w'. Came msg w r.1 w')
          (λ _ w'. Refused msg w w')
          (Socket.recvmsg api sock msg msg_nosignal w)
  unfolding Socket.recvmsg throw_system_error
  recvmsg-Ends msg w = go (api.recvmsg sock.fd msg msg_nosignal w) refl
    where
      go :
          (r : ℤ × MsgHdr × W)
          → api.recvmsg sock.fd msg msg_nosignal w ≡ r
          → Ends
              (λ r w'. Came msg w r.1 w')
              (λ _ w'. Refused msg w w')
              (Socket.recvmsg api sock msg msg_nosignal w)
      go (pos n, msg', w') e = rw (e, Socket.recvmsg) (returns (n, refl))
      go (negsuc n, msg', w') e = rw (e, Socket.recvmsg) (throws (n, msg', refl))

-- ===== src/Socket/Stream.antt =====
-- What `send` and `recv` promise of a connected stream socket `fd`, in the words of send(2) and
-- recv(2). The calls belong to the system, so the promises are the hypotheses of theorems on them.
use Prim.Native.Nat.{bit_or}
use fdcpp.Base.{ℕ, ◌≤◌, ◌≡◌, ◌≢◌, ℤ, pos, negsuc, List, [], ◌++◌, length, take}
use fdcpp.Effect.Ends.{Ends}
use fdcpp.Descriptor.{Descriptor}
use fdcpp.Os.Checked.{counted-Ends, stored-Ends}
use fdcpp.Socket.{SocketOs, msg_nosignal, msg_waitall}
use fdcpp.Socket

-- `sent w` is what the peer has been sent. A call accepts some of the bytes, at least one if there
-- are any, in order; a call that fails sends nothing.
pub record SendLaw {W : Type 0} (api : SocketOs W) (fd : ℤ) (sent : W → List ℕ) : Type 0 where
  pub accepts :
      (bytes : List ℕ) (flags : ℕ) (w : W) (n : ℕ) (w' : W)
      → api.send fd bytes flags w ≡ (pos n, w')
      → (n ≤ length bytes) × (sent w' ≡ sent w ++ take n bytes) × (bytes ≢ [] → n ≢ 0)
  pub refuses :
      (bytes : List ℕ) (flags : ℕ) (w : W) (e : ℕ) (w' : W)
      → api.send fd bytes flags w ≡ (negsuc e, w')
      → sent w' ≡ sent w

-- `incoming w` is what the peer has sent, or will send, and this end has not received yet. A call
-- takes some of it from the front; a call that fails takes nothing.
pub record RecvLaw {W : Type 0} (api : SocketOs W) (fd : ℤ) (incoming : W → List ℕ) : Type 0 where
  pub delivers :
      (size flags : ℕ) (w : W) (n : ℕ) (bytes : List ℕ) (w' : W)
      → api.recv fd size flags w ≡ (pos n, bytes, w')
      → (n ≤ size) × (length bytes ≡ n) × (incoming w ≡ bytes ++ incoming w')
  pub fails :
      (size flags : ℕ) (w : W) (e : ℕ) (bytes : List ℕ) (w' : W)
      → api.recv fd size flags w ≡ (negsuc e, bytes, w')
      → incoming w' ≡ incoming w

-- With MSG_WAITALL a call that succeeds has all that was asked for: no signal and no end of the
-- stream cut it short.
abbrev pub Waits : {W : Type 0} → SocketOs W → ℤ → Type 0
Waits {W} api fd =
    (size : ℕ) (w : W) (n : ℕ) (bytes : List ℕ) (w' : W)
    → api.recv fd size (bit_or msg_nosignal msg_waitall) w ≡ (pos n, bytes, w')
    → n ≡ size

module _ {W : Type 0} (api : SocketOs W) (sock : Descriptor) where
  pub send-Ends :
      {sent : W → List ℕ}
      → SendLaw api sock.fd sent
      → (bytes : List ℕ) (flags : ℕ) (w : W)
      → Ends
          (λ n w'. (n ≤ length bytes) × (sent w' ≡ sent w ++ take n bytes) × (bytes ≢ [] → n ≢ 0))
          (λ e w'. sent w' ≡ sent w)
          (Socket.send api sock bytes flags w)
  unfolding Socket.send
  send-Ends law bytes flags w =
      counted-Ends api.os _ _ (api.send sock.fd bytes flags w) (law.accepts bytes flags w)
        (law.refuses bytes flags w)

  pub recv-Ends :
      {incoming : W → List ℕ}
      → RecvLaw api sock.fd incoming
      → (size flags : ℕ) (w : W)
      → Ends
          (λ r w'.
            (r.0 ≤ size)
            × (length r.1 ≡ r.0)
            × (incoming w ≡ r.1 ++ incoming w')
            × (api.recv sock.fd size flags w ≡ (pos r.0, r.1, w')))
          (λ e w'. incoming w' ≡ incoming w)
          (Socket.recv api sock size flags w)
  unfolding Socket.recv
  recv-Ends law size flags w =
      stored-Ends api.os _ _ (api.recv sock.fd size flags w)
        (λ n bytes w' e. let p = law.delivers size flags w n bytes w' e in (p.0, p.1, p.2, e))
        (law.fails size flags w)

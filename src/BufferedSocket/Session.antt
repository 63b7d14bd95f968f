-- ===== src/BufferedSocket/Session.antt =====
-- Any sequence of reads, writes and flushes on one object, with exceptions that the caller catches.
-- Texts are not among the reads: Underrun says what the object may be after one.
use fdcpp.Base.{◌+◌, arith, ℕ, ◌^◌, ◌<◌, ◌≡◌, sym, ap, ◌∙◌, subst, ℤ, List, length}
use fdcpp.Effect.{Run, Cmd, Error, ok, throw, pure, ◌>>=◌}
use fdcpp.Effect.Ends
use fdcpp.Effect.Ends.{Ends, returns, throws, Post, post}
use fdcpp.Descriptor.{Descriptor}
use fdcpp.Socket.{SocketOs}
use fdcpp.Socket.Stream.{SendLaw, RecvLaw}
use fdcpp.BufferedSocket.{BufferedSocket, State, flush, write_output_buffer, read_input_buffer}
use fdcpp.BufferedSocket.Objects.{construct, construct-IsValid}
use fdcpp.BufferedSocket.Invariant.{IsValid}
use fdcpp.BufferedSocket.Appending.{flushed-IsValid}
use fdcpp.BufferedSocket.Writing.{write_any-Ends, flush-Ends}
use fdcpp.BufferedSocket.Reading.{read_input_buffer-Got}

-- `write_output_buffer`, `read_input_buffer` into a buffer with some content, and `flush`.
pub data Op : Type 0 where
  writes : List ℕ → Op
  reads : List ℕ → Op
  flushes : Op

module _ {W : Type 0} (api : SocketOs W) where
  unfoldable pub run_op : Op → Cmd (State W) (Unit {0})
  run_op (writes bytes) = write_output_buffer api bytes
  run_op (reads dest) = read_input_buffer api dest >>= λ _. pure tt
  run_op flushes = flush api

  -- No object in memory is of 2 ^ 63 bytes or more, and neither is a caller's buffer.
  abbrev pub Fits : Op → Type 0
  Fits (writes bytes) = length bytes < 2 ^ 63
  Fits (reads dest) = length dest < 2 ^ 63
  Fits flushes = Unit

  -- The states after some calls, each of which returned or threw.
  pub data Reach (s : State W) : State W → Type 0 where
    here : Reach s s
    returned : {t u : State W} (op : Op) → Reach s t → Fits op → run_op op t ≡ ok tt u → Reach s u
    threw :
        {t u : State W} (op : Op) (e : Error)
        → Reach s t
        → Fits op
        → run_op op t ≡ throw e u
        → Reach s u

-- A valid object over one socket.
pub record Inv (fd : ℤ) (b : BufferedSocket) : Type 0 where
  pub valid : IsValid b
  pub same_fd : b.socket.fd ≡ fd

pub Inv-subst : {fd : ℤ} {b c : BufferedSocket} → c ≡ b → Inv fd b → Inv fd c
Inv-subst {fd} e v = subst (Inv fd) (sym e) v

module _ {W : Type 0} (api : SocketOs W) (fd : ℤ) {sent incoming : W → List ℕ}
    (send_law : SendLaw api fd sent) (recv_law : RecvLaw api fd incoming) where
  abbrev Keeps : {A : Type 0} → Run (State W) A → Type 0
  Keeps = Ends (λ _ t. Inv fd t.self) (λ _ t. Inv fd t.self)

  module _ (s : State W) (v : Inv fd s.self) where
    sends_here : SendLaw api s.self.socket.fd sent
    sends_here = subst (λ n. SendLaw api n sent) (sym v.same_fd) send_law

    recvs_here : RecvLaw api s.self.socket.fd incoming
    recvs_here = subst (λ n. RecvLaw api n incoming) (sym v.same_fd) recv_law

    same_socket : (b : BufferedSocket) → b.socket ≡ s.self.socket → b.socket.fd ≡ fd
    same_socket b e = ap {A = Descriptor} (λ d. d.fd) e ∙ v.same_fd

    -- Each operation on a valid object ends, and leaves a valid one, also if it throws.
    run_op-Inv : (op : Op) → Fits api op → Keeps (run_op api op s)
    unfolding run_op
    run_op-Inv (writes bytes) h =
        Ends.mono (write_any-Ends api s sends_here v.valid bytes (omega arith))
          (λ _ t p. record { valid = p.0; same_fd = same_socket t.self p.1 })
          (λ _ t p. Inv-subst p v)
    run_op-Inv (reads dest) h =
        Ends.bind (read_input_buffer-Got api s recvs_here v.valid dest h)
          (λ _ t p. returns (record { valid = p.0; same_fd = same_socket t.self p.1.socket }))
          (λ _ t p. record { valid = p.0; same_fd = same_socket t.self p.1.socket })
    run_op-Inv flushes h =
        Ends.mono (flush-Ends api s sends_here v.valid)
          (λ _ t p. Inv-subst p.0 (record { valid = flushed-IsValid v.valid; same_fd = v.same_fd }))
          (λ _ t p. Inv-subst p.0 v)

  pub Reach-Inv : {s t : State W} → Inv fd s.self → Reach api s t → Inv fd t.self
  Reach-Inv v here = v
  Reach-Inv v (returned {t = t} op r h e) =
      subst (Post (λ _ t. Inv fd t.self) (λ _ t. Inv fd t.self)) e
        (post (run_op-Inv t (Reach-Inv v r) op h))
  Reach-Inv v (threw {t = t} op e r h eq) =
      subst (Post (λ _ t. Inv fd t.self) (λ _ t. Inv fd t.self)) eq
        (post (run_op-Inv t (Reach-Inv v r) op h))

  -- In every state that reads into a buffer, writes and flushes, returned or thrown, can reach from
  -- a valid object, the next of these calls ends, without undefined behaviour, and leaves a valid
  -- object over the same socket. Reads of texts are not among them, and no argument is of 2 ^ 63
  -- bytes or more.
  pub Reach-safe :
      (s t : State W)
      → IsValid s.self
      → s.self.socket.fd ≡ fd
      → Reach api s t
      → (op : Op) → Fits api op
      → Ends
          (λ _ u. IsValid u.self × (u.self.socket.fd ≡ fd))
          (λ _ u. IsValid u.self × (u.self.socket.fd ≡ fd))
          (run_op api op t)
  Reach-safe s t v same r op h =
      Ends.mono (run_op-Inv t (Reach-Inv (record { valid = v; same_fd = same }) r) op h)
        (λ _ u p. (p.valid, p.same_fd)) (λ _ u p. (p.valid, p.same_fd))

  -- An object that was made over the socket, with buffers of fewer than 2 ^ 63 bytes together, stays
  -- inside its block: after any reads into a buffer, writes and flushes, returned or thrown, the
  -- next of these calls ends without undefined behaviour and leaves a valid object. Reads of texts
  -- are not among them, and no argument is of 2 ^ 63 bytes or more.
  pub constructed-safe :
      (new_char : ℕ → List ℕ) (sock : Descriptor) (input_size output_size : ℕ) (w : W) (t : State W)
      → ((n : ℕ) → length (new_char n) ≡ n)
      → input_size + output_size < 2 ^ 63
      → sock.fd ≡ fd
      → Reach api
          (record { self = (construct new_char sock input_size output_size).0; world = w })
          t
      → (op : Op) → Fits api op
      → Ends (λ _ u. IsValid u.self) (λ _ u. IsValid u.self) (run_op api op t)
  unfolding construct
  constructed-safe new_char sock input_size output_size w t sized small same r op h =
      Ends.mono
        (Reach-safe _ t (construct-IsValid new_char sock input_size output_size sized small) same r
          op h)
        (λ _ u p. p.0) (λ _ u p. p.0)

-- ===== src/FdPass/Passing.antt =====
-- Descriptors that one end sends and the other receives.
use fdcpp.Base.{
  ℕ, ◌^◌, ◌≤◌, ◌<◌, ◌≡◌, ap, ◌∙◌, sym, ℤ, List, [], ◌++◌, length, map, Option, some, append-nil,
}
use fdcpp.Effect.{and_then}
use fdcpp.Effect.Ends
use fdcpp.Effect.Ends.{Ends}
use fdcpp.Descriptor.{Descriptor}
use fdcpp.Socket.{SocketOs}
use fdcpp.FdPass.{send, recv}
use fdcpp.FdPass.Kernel.{Packet, SendMsgLaw, RecvMsgLaw, packets}
use fdcpp.FdPass.Sending.{send-Ends}
use fdcpp.FdPass.Receiving.{recv-Ends}

module _ {W : Type 0} (api : SocketOs W) (out into : Descriptor) {F : Type 0}
    {table_out table_into : W → ℤ → Option F} {queue : W → List (Packet F)}
    (send_law : SendMsgLaw api out.fd table_out queue)
    (recv_law : RecvMsgLaw api into.fd table_into queue) where
  -- Any number of descriptors, at least one and fewer than 2 ^ 63, sent over a socket on which nothing waits: the receiver
  -- has a descriptor for each of the files, in the same order, and nothing is left on the socket, or a
  -- call threw. `recv` needs no more rounds than there are files.
  pub recv-send :
      (fuel : ℕ) (buffer buffer' fds : List ℤ) (files : List F) (w : W)
      → map (table_out w) fds ≡ map some files
      → queue w ≡ []
      → 0 < length files
      → length files ≤ fuel
      → length files < 2 ^ 63
      → Ends
          (λ v w'.
            (map (λ (d : Descriptor). table_into w' d.fd) v ≡ map some files) × (queue w' ≡ []))
          (λ _ _. Unit)
          (and_then (send api buffer out fds w) (λ _. recv api fuel buffer' into))
  recv-send fuel buffer buffer' fds files w same empty some_left enough long =
      Ends.bind (send-Ends api out send_law buffer fds files w same)
        (λ _ w' p.
          recv-Ends api into recv_law fuel buffer' files [] w'
            (p
              ∙ ap (λ q. q ++ packets (length files) (length files) files) empty
              ∙ sym (append-nil _))
            some_left enough long)
        (λ _ _ _. tt)

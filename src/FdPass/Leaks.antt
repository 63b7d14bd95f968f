-- ===== src/FdPass/Leaks.antt =====
-- The numbers that the receiving function leaves open.
use fdcpp.Base.{
  subst, ◌^◌, ℕ, ◌+◌, ◌*◌, ◌≤◌, ◌<◌, ◌≡◌, sym, ap, ◌∙◌, ℤ, pos, negsuc, List, [], ◌∷◌, ◌++◌, length,
  take, map, arith, Option, some,
}
use fdcpp.Effect.{and_then, ok}
use fdcpp.Effect.Ends
use fdcpp.Effect.Ends.{Ends}
use fdcpp.Descriptor.{Descriptor, descriptor}
use fdcpp.Socket.{SocketOs, MsgHdr, msg_nosignal}
use fdcpp.Ownership.{holders, CloseLaw}
use fdcpp.Ownership.Steps.{destroy-frees, holders-append}
use fdcpp.Ownership.Closing.{destroy_ok}
use fdcpp.FdPass.{close_all, recv}
use fdcpp.FdPass.Receiving.{Round, recv-Round}
use fdcpp.FdPass.Kernel.{Packet, RecvMsgLaw, packets}

-- recvmsg(2) opens the numbers that a message brings, which were not open, and no other; a failure
-- opens none.
pub record RecvOpens {W : Type 0} (api : SocketOs W) (fd : ℤ) (is_open : W → ℕ → ℕ) {F : Type 0}
    (queue : W → List (Packet F)) : Type 0 where
  pub opens :
      (msg : MsgHdr) (flags : ℕ) (w : W) (n : ℕ) (msg' : MsgHdr) (w' : W) (p : Packet F)
      (ps : List (Packet F))
      → api.recvmsg fd msg flags w ≡ (pos n, msg', w')
      → queue w ≡ p ∷ ps
      → 16 + length p.files * 4 ≤ msg.controllen
      → (m : ℕ)
      → (is_open w' m
          ≡ holders m (map descriptor (take (length p.files) msg'.data_fds)) + is_open w m)
        × (is_open w' m ≤ 1)
  pub refuses :
      (msg : MsgHdr) (flags : ℕ) (w : W) (e : ℕ) (msg' : MsgHdr) (w' : W)
      → api.recvmsg fd msg flags w ≡ (negsuc e, msg', w')
      → (m : ℕ) → is_open w' m ≡ is_open w m

module _ {W : Type 0} (api : SocketOs W) {is_open : W → ℕ → ℕ} (closes : CloseLaw api.os is_open)
    (before : W) where
  -- Besides what was open before, only the numbers of the vector are open.
  pub record Holding (v : List Descriptor) (w : W) : Type 0 where
    pub held : (m : ℕ) → is_open w m ≡ holders m v + is_open before m
    pub few : (m : ℕ) → is_open w m ≤ 1

  close_all-Same :
      (v : List Descriptor) (w w' : W)
      → Holding v w
      → close_all api v w ≡ ok tt w'
      → (m : ℕ) → is_open w' m ≡ is_open before m
  unfolding close_all
  close_all-Same [] w w' h e =
      let same : w ≡ w' = cc in λ m. ap (λ u. is_open u m) (sym same) ∙ omega (arith, h.held m)
  close_all-Same (d ∷ ds) w w' h e =
      let gone = destroy_ok api.os closes d w in
      let freed = destroy-frees api.os closes d w gone.0 gone.1 in
      close_all-Same ds gone.0 w'
        (record {
          held = λ m. ground (arith, freed m, h.held m, h.few m);
          few = λ m. ground (arith, freed m, h.few m);
        })
        (subst (λ r. and_then r (λ _. close_all api ds) ≡ ok tt w') gone.1 e)

module _ {W : Type 0} (api : SocketOs W) (sock : Descriptor) {F : Type 0} {table : W → ℤ → Option F}
    {queue : W → List (Packet F)} {is_open : W → ℕ → ℕ} (law : RecvMsgLaw api sock.fd table queue)
    (opens : RecvOpens api sock.fd is_open queue) (closes : CloseLaw api.os is_open) where
  Holding-Round :
      (before : W)
      → Round api sock law
          (Holding api closes before)
          (λ w'. (m : ℕ) → is_open w' m ≡ is_open before m)
  Holding-Round before = record {
    grows = λ msg v w msg' w' p ps h came waits fits.
        let now = opens.opens msg msg_nosignal w came.0 msg' w' p ps came.1 waits fits in
        record {
          held = λ m. omega (
            arith,
            (now m).0,
            h.held m,
            holders-append m v (map descriptor (take (length p.files) msg'.data_fds)),
          );
          few = λ m. (now m).1;
        };
    fails = λ msg v w t w' h no closed.
        close_all-Same api closes before v t w'
          (record {
            held = λ m. opens.refuses msg msg_nosignal w no.0 no.1 t no.2 m ∙ h.held m;
            few = λ m. omega (arith, opens.refuses msg msg_nosignal w no.0 no.1 t no.2 m, h.few m);
          })
          closed;
  }

  -- If the messages for some files wait, fewer than 2 ^ 63, and no number counts as open twice, `recv`
  -- takes them and no other message, or throws. Then the numbers that are open and were not before are those of its
  -- descriptors, which stand for these files; if it throws, at whichever message, all that had come is
  -- closed, and what is open is what was open before.
  pub recv-NoLeak :
      (fuel : ℕ) (buffer : List ℤ) (files : List F) (rest : List (Packet F)) (w : W)
      → queue w ≡ packets (length files) (length files) files ++ rest
      → 0 < length files
      → length files ≤ fuel
      → length files < 2 ^ 63
      → ((m : ℕ) → is_open w m ≤ 1)
      → Ends
          (λ v w'.
            (map (λ (d : Descriptor). table w' d.fd) v ≡ map some files)
            × (queue w' ≡ rest)
            × ((m : ℕ) → is_open w' m ≡ holders m v + is_open w m))
          (λ _ w'. (m : ℕ) → is_open w' m ≡ is_open w m)
          (recv api fuel buffer sock w)
  recv-NoLeak fuel buffer files rest w waits some_left enough long few =
      Ends.mono
        (recv-Round api sock law (Holding-Round w) fuel buffer files rest w waits some_left enough
          long (record { held = λ m. omega arith; few = few }))
        (λ v w' p. (p.0.0, p.0.1, p.1.held)) (λ _ _ p. p)

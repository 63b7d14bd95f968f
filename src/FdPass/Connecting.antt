-- ===== src/FdPass/Connecting.antt =====
-- The object's first `send` connects it, and every `send` puts its messages.
use fdcpp.Base.{
  ℕ, zero, suc, ◌<◌, ◌≡◌, refl, sym, ap, ◌∙◌, subst, ℤ, pos, negsuc, List, [], ◌∷◌, ◌++◌, length,
  take, drop, min, map, Option, some, Bool, true, false, lt→ltb, append-nil, length-drop, ◌≤◌,
  arith,
}
use fdcpp.Effect.{Run, Error}
use fdcpp.Effect.Ends
use fdcpp.Effect.Ends.{Ends, returns, throws}
use fdcpp.Os.Checked.{done-Ends, counted-Ends}
use fdcpp.Descriptor.{Descriptor}
use fdcpp.Socket.{SocketOs, MsgHdr, SockAddr, sockaddr_un, size_of, msg_nosignal}
use fdcpp.Socket
use fdcpp.EasySocket.{af_unix}
use fdcpp.FdPass.{send, send_batches, batch_msg}
use fdcpp.FdPass.Kernel.{Packet, SendMsgLaw, packets}
use fdcpp.FdPass.Sending.{send-Ends}
use fdcpp.FdPass.Object.{Object, State, within, connect_in, send_from}

-- connect(2): a success connects, and no call here moves messages or changes the table of files.
pub record ConnectLaw {W : Type 0} (api : SocketOs W) (fd : ℤ) {F : Type 0}
    (connected : W → Option (List ℕ)) (table : W → ℤ → Option F) (queue : W → List (Packet F))
    : Type 0 where
  pub connects :
      (path : List ℕ) (w : W) (n : ℕ) (w' : W)
      → api.connect fd (sockaddr_un af_unix path) 110 w ≡ (pos n, w')
      → (connected w' ≡ some path) × (table w' ≡ table w) × (queue w' ≡ queue w)
  pub refuses :
      (path : List ℕ) (w : W) (e : ℕ) (w' : W)
      → api.connect fd (sockaddr_un af_unix path) 110 w ≡ (negsuc e, w')
      → (connected w' ≡ connected w) × (queue w' ≡ queue w)
  pub sending :
      (msg : MsgHdr) (flags : ℕ) (w : W) → connected (api.sendmsg fd msg flags w).1 ≡ connected w

-- Two accounts of one run.
both :
    {S A : Type 0} {P Q : A → S → Type 0} {E F : Error → S → Type 0} {r : Run S A}
    → Ends P E r
    → Ends Q F r
    → Ends (λ a s. P a s × Q a s) (λ e s. E e s × F e s) r
both (returns p) (returns q) = returns (p, q)
both (throws p) (throws q) = throws (p, q)

pub within-Ends :
    {W A : Type 0} {P : A → W → Type 0} {E : Error → W → Type 0} (s : State W) {r : Run W A}
    → Ends P E r
    → Ends
        (λ a t. (t.self ≡ s.self) × P a t.world)
        (λ e t. (t.self ≡ s.self) × E e t.world)
        (within s r)
within-Ends s (returns p) = returns (refl, p)
within-Ends s (throws p) = throws (refl, p)

-- What every `sendmsg` keeps is kept by `send`.
module _ {W : Type 0} (api : SocketOs W) (sock : Descriptor) (K : W → Type 0)
    (keep : (msg : MsgHdr) (w : W) → K w → K (api.sendmsg sock.fd msg msg_nosignal w).1) where
  sendmsg-keeps :
      (msg : MsgHdr) (w : W)
      → K w
      → Ends (λ _ w'. K w') (λ _ w'. K w') (Socket.sendmsg api sock msg msg_nosignal w)
  unfolding Socket.sendmsg
  sendmsg-keeps msg w k =
      counted-Ends api.os _ _ (api.sendmsg sock.fd msg msg_nosignal w)
        (λ n w' e. subst K (ap (λ r. r.1) e) (keep msg w k))
        (λ n w' e. subst K (ap (λ r. r.1) e) (keep msg w k))

  send_batches-keeps :
      (fuel : ℕ) (msg : MsgHdr) (fds : List ℤ) (w : W)
      → length fds ≤ fuel
      → K w
      → Ends (λ _ w'. K w') (λ _ w'. K w') (send_batches api fuel sock msg fds w)
  unfolding send_batches
  send_batches-keeps fuel msg [] w h k = returns k
  send_batches-keeps zero msg (fd ∷ fds) w h k = absurd (omega arith)
  send_batches-keeps (suc fuel) msg (fd ∷ fds) w h k =
      Ends.bind (sendmsg-keeps (batch_msg msg (fd ∷ fds)) w k)
        (λ _ w' k'.
          send_batches-keeps fuel (batch_msg msg (fd ∷ fds))
            (drop (min (length (fd ∷ fds)) 10) (fd ∷ fds)) w'
            (omega (arith, length-drop (min (length (fd ∷ fds)) 10) (fd ∷ fds))) k')
        (λ _ w' k'. k')

  send-keeps :
      (buffer fds : List ℤ) (w : W)
      → K w
      → Ends (λ _ w'. K w') (λ _ w'. K w') (send api buffer sock fds w)
  unfolding send
  send-keeps buffer fds w k = send_batches-keeps (length fds) _ fds w (omega arith) k

-- An object that says it is ready is connected to its path.
abbrev pub Inv : {W : Type 0} → (W → Option (List ℕ)) → State W → Type 0
Inv connected s = s.self.ready ≡ true → connected s.world ≡ some s.self.path

module _ {W : Type 0} (api : SocketOs W) (unlink : List ℕ → W → ℤ × W) {F : Type 0}
    {connected : W → Option (List ℕ)} {table : W → ℤ → Option F} {queue : W → List (Packet F)}
    (s : State W) (law : ConnectLaw api s.self.socket.fd connected table queue)
    (send_law : SendMsgLaw api s.self.socket.fd table queue) (v : Inv connected s)
    (short : length s.self.path < 108) where
  abbrev pub readied : Object
  readied = record s.self { ready = true }

  -- The object is connected and nothing else has changed; or it is as it was.
  abbrev Connected : State W → Type 0
  Connected t =
      (t.self ≡ readied)
      × (connected t.world ≡ some s.self.path)
      × (table t.world ≡ table s.world)
      × (queue t.world ≡ queue s.world)

  connect-Ends :
      (w : W)
      → Ends
          (λ _ w'. (connected w' ≡ some s.self.path) × (table w' ≡ table w) × (queue w' ≡ queue w))
          (λ _ w'. (connected w' ≡ connected w) × (queue w' ≡ queue w))
          (Socket.connect api s.self.socket (sockaddr_un af_unix s.self.path) w)
  unfolding Socket.connect
  connect-Ends w =
      done-Ends api.os _ _ (api.connect s.self.socket.fd (sockaddr_un af_unix s.self.path) 110 w)
        (law.connects s.self.path w) (law.refuses s.self.path w)

  connect_in-Ends :
      (b : Bool)
      → s.self.ready ≡ b
      → Ends
          (λ _ t. Connected t)
          (λ _ t.
            (t.self ≡ s.self)
            × (connected t.world ≡ connected s.world)
            × (queue t.world ≡ queue s.world))
          (connect_in api unlink b s)
  unfolding connect_in
  connect_in-Ends true e = returns (ap (λ b. record s.self { ready = b }) e, v e, refl, refl)
  connect_in-Ends false e = rw (lt→ltb _ _ short) (
      Ends.bind (within-Ends s (connect-Ends s.world))
        (λ _ t p.
          returns (ap {A = Object} (λ b. record b { ready = true }) p.0, p.1.0, p.1.1, p.1.2))
        (λ _ t p. (p.0, p.1.0, p.1.1)))

  -- For a path of fewer than 108 bytes, over a system that passes the files of a control message of
  -- SCM_RIGHTS, a `send` of an object that, if it says it is ready, is connected to that path, the
  -- first or a later one, leaves it ready and connected to its path, with the messages for all the
  -- files behind those that waited; one that throws leaves an object that is connected if it says it
  -- is ready, after some of the messages.
  pub send_from-Ends :
      (buffer fds : List ℤ) (files : List F)
      → map (table s.world) fds ≡ map some files
      → Ends
          (λ _ t.
            (t.self ≡ readied)
            × (connected t.world ≡ some s.self.path)
            × (queue t.world ≡ queue s.world ++ packets (length files) (length files) files))
          (λ _ t.
            Inv connected t
            × ((k : ℕ) × (queue t.world
                  ≡ queue s.world ++ take k (packets (length files) (length files) files))))
          (send_from api unlink buffer fds s)
  unfolding send_from
  send_from-Ends buffer fds files same =
      Ends.bind (connect_in-Ends s.self.ready refl)
        (λ _ t p.
          let send_here =
            subst (λ (b : Object). SendMsgLaw api b.socket.fd table queue) (sym p.0) send_law in
          let law_here =
            subst (λ (b : Object). ConnectLaw api b.socket.fd connected table queue) (sym p.0)
              law in
          let files_here = ap (λ f. map f fds) p.2 ∙ same in
          Ends.mono
            (within-Ends t (
              both (send-Ends api t.self.socket send_here buffer fds files t.world files_here) (
                send-keeps api t.self.socket (λ w. connected w ≡ some s.self.path)
                  (λ msg w k. law_here.sending msg msg_nosignal w ∙ k) buffer fds t.world p.1)))
            (λ _ u q. (
              q.0 ∙ p.0,
              q.1.1,
              q.1.0 ∙ ap (λ x. x ++ packets (length files) (length files) files) p.3,
            ))
            (λ _ u q. (
              λ _. q.1.1 ∙ ap (λ (b : Object). some b.path) (sym p.0 ∙ sym q.0),
              (
                q.1.0.0,
                q.1.0.1
                    ∙ ap (λ x. x ++ take q.1.0.0 (packets (length files) (length files) files)) p.3,
              ),
            )))
        (λ _ t p. (
          λ r.
              p.1
              ∙ v (ap {A = Object} (λ b. b.ready) (sym p.0) ∙ r)
              ∙ ap {A = Object} (λ b. some b.path) (sym p.0),
          (0, p.2 ∙ sym (append-nil (queue s.world))),
        ))

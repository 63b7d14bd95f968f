-- ===== src/FdPass/Binding.antt =====
-- The object's first `recv` binds it, and every `recv` takes the messages for some files.
use fdcpp.Base.{ℕ, ◌<◌, ◌≡◌, ℤ, pos, negsuc, List, length, Option, some, true}
use fdcpp.Effect.Ends
use fdcpp.Effect.Ends.{Ends, throws}
use fdcpp.Effect.Kept.{Kept}
use fdcpp.Descriptor.{Descriptor}
use fdcpp.Socket.{SocketOs, MsgHdr, sockaddr_un}
use fdcpp.Socket
use fdcpp.EasySocket.{af_unix}
use fdcpp.FdPass.Kernel.{Packet, RecvMsgLaw}
use fdcpp.FdPass.Object.{Object, State}

-- bind(2), unlink(2) and recvmsg(2): `bound` is the address of the socket. The name that unlink removes
-- is not that address, and neither call moves messages or changes the table of files.
pub record BindLaw {W : Type 0} (api : SocketOs W) (unlink : List ℕ → W → ℤ × W) (fd : ℤ)
    {F : Type 0} (bound : W → Option (List ℕ)) (table : W → ℤ → Option F)
    (queue : W → List (Packet F)) : Type 0 where
  pub unlinks :
      (path : List ℕ) (w : W)
      → (bound (unlink path w).1 ≡ bound w)
        × (table (unlink path w).1 ≡ table w)
        × (queue (unlink path w).1 ≡ queue w)
  pub binds :
      (path : List ℕ) (w : W) (n : ℕ) (w' : W)
      → api.bind fd (sockaddr_un af_unix path) 110 w ≡ (pos n, w')
      → (bound w' ≡ some path) × (table w' ≡ table w) × (queue w' ≡ queue w)
  pub refuses :
      (path : List ℕ) (w : W) (e : ℕ) (w' : W)
      → api.bind fd (sockaddr_un af_unix path) 110 w ≡ (negsuc e, w')
      → (bound w' ≡ bound w) × (queue w' ≡ queue w)
  pub receiving :
      (msg : MsgHdr) (flags : ℕ) (w : W) → bound (api.recvmsg fd msg flags w).2 ≡ bound w

-- An object that says it is ready is bound to its path.
abbrev pub Inv : {W : Type 0} → (W → Option (List ℕ)) → State W → Type 0
Inv bound s = s.self.ready ≡ true → bound s.world ≡ some s.self.path

module _ {W : Type 0} (api : SocketOs W) (unlink : List ℕ → W → ℤ × W) {F : Type 0}
    {bound : W → Option (List ℕ)} {table : W → ℤ → Option F} {queue : W → List (Packet F)}
    (s : State W) (law : BindLaw api unlink s.self.socket.fd bound table queue)
    (recv_law : RecvMsgLaw api s.self.socket.fd table queue) (v : Inv bound s)
    (short : length s.self.path < 108) where
  abbrev readied : Object
  readied = record s.self { ready = true }

  abbrev Bound : State W → Type 0
  Bound t =
      (t.self ≡ readied) × (bound t.world ≡ some s.self.path) × (queue t.world ≡ queue s.world)

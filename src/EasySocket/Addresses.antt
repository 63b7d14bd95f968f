-- ===== src/EasySocket/Addresses.antt =====
-- Where the sockets of tcp_socket and udp_socket lead: on hosts of both byte orders, to the address and
-- the port that the caller has as numbers.
use fdcpp.Base.{ℕ, ◌≡◌, refl, ap₂, subst, inl, inr, Bool-cases, ℤ, pos, negsuc, List, is_neg, ap}
use fdcpp.Effect.{Run, Cmd, pure, ok, throw, fault, out_of_fuel, and_then}
use fdcpp.Effect.Ends
use fdcpp.Effect.Ends.{Ends, returns, throws}
use fdcpp.Throw.{throw_system_error}
use fdcpp.Os.{checked}
use fdcpp.Os.Checked.{done-Ends}
use fdcpp.Descriptor.{Descriptor, descriptor, destroy}
use fdcpp.Endian.{Order, object_bytes}
use fdcpp.Endian.Wire.{big_endian, object_bytes-hto_be}
use fdcpp.Socket.{SocketOs, SockAddr, sockaddr_un, sockaddr_in, sockaddr_in6, size_of}
use fdcpp.Socket
use fdcpp.EasySocket
use fdcpp.EasySocket.{
  serve, af_inet, af_inet6, sock_stream, sock_dgram, close_on_throw, holding, tcp_client,
  tcp_client6, tcp_client6_at, tcp_server, tcp_server6, tcp_server6_at, udp_server, udp_server6,
  udp_server6_at,
}

-- An address as the system has it: ports and addresses are bytes, the highest first (ip(7), ipv6(7)).
pub data Address : Type 0 where
  unix : (path : List ℕ) → Address
  inet : (addr port : List ℕ) → Address
  inet6 : (addr port : List ℕ) (flowinfo scope_id : ℕ) → Address

-- The system reads the memory of the object.
abbrev pub seen : Order → SockAddr → Address
seen o (sockaddr_un family path) = unix path
seen o (sockaddr_in family addr port) = inet (object_bytes o 4 addr) (object_bytes o 2 port)
seen o (sockaddr_in6 family addr port flowinfo scope_id) =
    inet6 addr (object_bytes o 2 port) flowinfo scope_id

-- What a number is to the system.
pub data Status : Type 0 where
  unused : Status
  made : (domain type : ℕ) → Status
  connected : (domain type : ℕ) (peer : Address) → Status
  bound : (domain type : ℕ) (name : Address) → Status
  listening : (domain type : ℕ) (name : Address) (backlog : ℤ) → Status

-- socket(2), connect(2), bind(2) and listen(2): what they do where they succeed. That one fails means
-- that the system refuses a call.
pub record AddressLaw {W : Type 0} (api : SocketOs W) (o : Order) (status : W → ℕ → Status)
    (Refuses : Type 0) : Type 0 where
  pub makes :
      (domain type : ℕ) (w : W) (k : ℕ) (w' : W)
      → api.socket domain type 0 w ≡ (pos k, w')
      → status w' k ≡ made domain type
  pub connects :
      (k domain type : ℕ) (saddr : SockAddr) (w : W) (n : ℕ) (w' : W)
      → status w k ≡ made domain type
      → api.connect (pos k) saddr (size_of saddr) w ≡ (pos n, w')
      → status w' k ≡ connected domain type (seen o saddr)
  pub binds :
      (k domain type : ℕ) (saddr : SockAddr) (w : W) (n : ℕ) (w' : W)
      → status w k ≡ made domain type
      → api.bind (pos k) saddr (size_of saddr) w ≡ (pos n, w')
      → status w' k ≡ bound domain type (seen o saddr)
  pub listens :
      (k domain type : ℕ) (name : Address) (backlog : ℤ) (w : W) (n : ℕ) (w' : W)
      → status w k ≡ bound domain type name
      → api.listen (pos k) backlog w ≡ (pos n, w')
      → status w' k ≡ listening domain type name backlog
  pub no_socket :
      (domain type : ℕ) (w : W) (e : ℕ) (w' : W)
      → api.socket domain type 0 w ≡ (negsuc e, w')
      → Refuses
  pub no_connection :
      (k domain type : ℕ) (saddr : SockAddr) (w : W) (e : ℕ) (w' : W)
      → status w k ≡ made domain type
      → api.connect (pos k) saddr (size_of saddr) w ≡ (negsuc e, w')
      → Refuses
  pub no_name :
      (k domain type : ℕ) (saddr : SockAddr) (w : W) (e : ℕ) (w' : W)
      → status w k ≡ made domain type
      → api.bind (pos k) saddr (size_of saddr) w ≡ (negsuc e, w')
      → Refuses
  pub no_queue :
      (k domain type : ℕ) (name : Address) (backlog : ℤ) (w : W) (e : ℕ) (w' : W)
      → status w k ≡ bound domain type name
      → api.listen (pos k) backlog w ≡ (negsuc e, w')
      → Refuses

-- The function returns a socket that is as it says, or throws if a call is refused.
abbrev pub Yields : {W : Type 0} → (W → ℕ → Status) → Type 0 → Status → Run W Descriptor → Type 0
Yields status Refuses it =
    Ends (λ d w'. (k : ℕ) × (d ≡ descriptor (pos k)) × (status w' k ≡ it)) (λ _ _. Refuses)

module _ {W : Type 0} (api : SocketOs W) (o : Order) {status : W → ℕ → Status} {Refuses : Type 0}
    (law : AddressLaw api o status Refuses) where
  abbrev Becomes : ℕ → Status → Run W (Unit {0}) → Type 0
  Becomes k it = Ends (λ _ w'. status w' k ≡ it) (λ _ _. Refuses)

  connect-Becomes :
      (k domain type : ℕ) (saddr : SockAddr) (w : W)
      → status w k ≡ made domain type
      → Becomes k
          (connected domain type (seen o saddr))
          (Socket.connect api (descriptor (pos k)) saddr w)
  unfolding Socket.connect
  connect-Becomes k domain type saddr w h =
      done-Ends api.os _ _ _ (λ n w' e. law.connects k domain type saddr w n w' h e)
        (λ n w' e. law.no_connection k domain type saddr w n w' h e)

  bind-Becomes :
      (k domain type : ℕ) (saddr : SockAddr) (w : W)
      → status w k ≡ made domain type
      → Becomes k (bound domain type (seen o saddr)) (Socket.bind api (descriptor (pos k)) saddr w)
  unfolding Socket.bind
  bind-Becomes k domain type saddr w h =
      done-Ends api.os _ _ _ (λ n w' e. law.binds k domain type saddr w n w' h e)
        (λ n w' e. law.no_name k domain type saddr w n w' h e)

  serve-Becomes :
      (k domain type : ℕ) (saddr : SockAddr) (backlog : ℤ) (w : W)
      → status w k ≡ made domain type
      → Becomes k (listening domain type (seen o saddr) backlog) (
          and_then
            (Socket.bind api (descriptor (pos k)) saddr w)
            (λ _. Socket.listen api (descriptor (pos k)) backlog))
  unfolding Socket.listen
  serve-Becomes k domain type saddr backlog w h =
      Ends.bind (bind-Becomes k domain type saddr w h)
        (λ _ t p.
          done-Ends api.os _ _ _
            (λ n w' e. law.listens k domain type (seen o saddr) backlog t n w' p e)
            (λ n w' e. law.no_queue k domain type (seen o saddr) backlog t n w' p e))
        (λ _ _ p. p)

  destroyed :
      (sock : Descriptor) (w : W) {A : Type 0} (P : A → W → Type 0) (r : Cmd W A)
      → ((w' : W) → Ends P (λ _ _. Refuses) (r w'))
      → Ends P (λ _ _. Refuses) (and_then (destroy api.os sock w) (λ _. r))
  unfolding destroy
  destroyed sock w P r h = elim (Bool-cases (is_neg sock.fd)) [
    | inl e ↦ rw e (h w)
    | inr e ↦ rw e (h (api.os.close sock.fd w).1)
  ]

  holding-Yields :
      (k : ℕ) (it : Status) (r : Run W (Unit {0}))
      → Becomes k it r
      → Yields status Refuses it (close_on_throw api (descriptor (pos k)) r)
  holding-Yields k it (ok a w) (returns p) = returns (k, refl, p)
  holding-Yields k it (throw e w) (throws p) =
      destroyed (descriptor (pos k)) w _ (throw e) (λ _. throws p)
  holding-Yields k it fault p = elim p [ ]
  holding-Yields k it out_of_fuel p = elim p [ ]

  result-Yields :
      (tag func : List ℕ) (it : Status) (use_it : Descriptor → Cmd W (Unit {0})) (r : ℤ × W)
      → ((k : ℕ) (w : W) → r ≡ (pos k, w) → Becomes k it (use_it (descriptor (pos k)) w))
      → ((e : ℕ) (w : W) → r ≡ (negsuc e, w) → Refuses)
      → Yields status Refuses it (
          and_then
            (and_then (checked api.os tag func r) (λ fd. pure (descriptor fd)))
            (λ sock. holding api sock (use_it sock)))
  unfolding throw_system_error
  result-Yields tag func it use_it (pos k, w) next refused =
      holding-Yields k it (use_it (descriptor (pos k)) w) (next k w refl)
  result-Yields tag func it use_it (negsuc n, w) next refused = throws (refused n w refl)

  made-Yields :
      (domain type : ℕ) (it : Status) (use_it : Descriptor → Cmd W (Unit {0})) (w : W)
      → ((k : ℕ) (w' : W)
          → status w' k ≡ made domain type
          → Becomes k it (use_it (descriptor (pos k)) w'))
      → Yields status Refuses it (
          and_then
            (Socket.open_socket api domain type 0 w)
            (λ sock. holding api sock (use_it sock)))
  unfolding Socket.open_socket
  made-Yields domain type it use_it w next =
      result-Yields _ _ it use_it (api.socket domain type 0 w)
        (λ k w' e. next k w' (law.makes domain type w k w' e))
        (λ e w' h. law.no_socket domain type w e w' h)

  client-Yields :
      (domain type : ℕ) (saddr : SockAddr) (peer : Address) (w : W)
      → seen o saddr ≡ peer
      → Yields status Refuses (connected domain type peer) (
          and_then
            (Socket.open_socket api domain type 0 w)
            (λ sock. holding api sock (Socket.connect api sock saddr)))
  client-Yields domain type saddr peer w e =
      subst
        (λ a. Yields status Refuses (connected domain type a) (
          and_then (Socket.open_socket api domain type 0 w)
            (λ sock. holding api sock (Socket.connect api sock saddr))))
        e (made-Yields _ _ _ _ w (λ k w' h. connect-Becomes k _ _ _ w' h))

  bound-Yields :
      (domain type : ℕ) (saddr : SockAddr) (name : Address) (w : W)
      → seen o saddr ≡ name
      → Yields status Refuses (bound domain type name) (
          and_then
            (Socket.open_socket api domain type 0 w)
            (λ sock. holding api sock (Socket.bind api sock saddr)))
  bound-Yields domain type saddr name w e =
      subst
        (λ a. Yields status Refuses (bound domain type a) (
          and_then (Socket.open_socket api domain type 0 w)
            (λ sock. holding api sock (Socket.bind api sock saddr))))
        e (made-Yields _ _ _ _ w (λ k w' h. bind-Becomes k _ _ _ w' h))

  server-Yields :
      (domain type : ℕ) (saddr : SockAddr) (name : Address) (backlog : ℤ) (w : W)
      → seen o saddr ≡ name
      → Yields status Refuses (listening domain type name backlog) (
          and_then
            (Socket.open_socket api domain type 0 w)
            (λ sock. holding api sock (serve api saddr backlog sock)))
  server-Yields domain type saddr name backlog w e =
      subst
        (λ a. Yields status Refuses (listening domain type a backlog) (
          and_then (Socket.open_socket api domain type 0 w)
            (λ sock. holding api sock (serve api saddr backlog sock))))
        e (made-Yields _ _ _ _ w (λ k w' h. serve-Becomes k _ _ _ backlog w' h))

  -- The caller's numbers on the wire.
  seen-inet :
      (addr port : ℕ)
      → seen o (EasySocket.inet api o addr port) ≡ inet (big_endian 4 addr) (big_endian 2 port)
  seen-inet addr port = ap₂ inet (object_bytes-hto_be o 4 addr) (object_bytes-hto_be o 2 port)

  seen-inet6 :
      (addr : List ℕ) (port : ℕ)
      → seen o (EasySocket.inet6 api o addr port) ≡ inet6 addr (big_endian 2 port) 0 0
  seen-inet6 addr port = ap (λ bytes. inet6 addr bytes 0 0) (object_bytes-hto_be o 2 port)

  -- Over a system whose calls do what their manual pages say, on a host of either byte order: a client
  -- of tcp_socket is a stream socket that is connected to the address and the port that the caller
  -- gave, whose bytes the system has with the highest first; a server of tcp_socket is one that listens
  -- at them, with the backlog; a server of udp_socket is a datagram socket that is bound to them. With
  -- a whole address it is that address. A function throws only if the system refuses a call.
  pub inet_socket-Yields :
      (addr port : ℕ) (addr6 : List ℕ) (saddr : SockAddr) (backlog : ℤ) (w : W)
      → let at = inet (big_endian 4 addr) (big_endian 2 port) in
        let at6 = inet6 addr6 (big_endian 2 port) 0 0 in
        (Yields status Refuses (connected af_inet sock_stream at) (tcp_client api o addr port w)
          × Yields status Refuses
              (connected af_inet6 sock_stream (seen o saddr))
              (tcp_client6 api saddr w)
          × Yields status Refuses
              (connected af_inet6 sock_stream at6)
              (tcp_client6_at api o addr6 port w))
        × (Yields status Refuses
              (listening af_inet sock_stream at backlog)
              (tcp_server api o addr port backlog w)
            × Yields status Refuses
                (listening af_inet6 sock_stream (seen o saddr) backlog)
                (tcp_server6 api saddr backlog w)
            × Yields status Refuses
                (listening af_inet6 sock_stream at6 backlog)
                (tcp_server6_at api o addr6 port backlog w))
        × (Yields status Refuses (bound af_inet sock_dgram at) (udp_server api o addr port w)
            × Yields status Refuses
                (bound af_inet6 sock_dgram (seen o saddr))
                (udp_server6 api saddr w)
            × Yields status Refuses
                (bound af_inet6 sock_dgram at6)
                (udp_server6_at api o addr6 port w))
  unfolding tcp_client tcp_client6 tcp_client6_at tcp_server tcp_server6 tcp_server6_at udp_server
      udp_server6 udp_server6_at
  inet_socket-Yields addr port addr6 saddr backlog w = (
    (
      client-Yields _ _ _ _ w (seen-inet addr port),
      client-Yields _ _ saddr _ w refl,
      client-Yields _ _ _ _ w (seen-inet6 addr6 port),
    ),
    (
      server-Yields _ _ _ _ backlog w (seen-inet addr port),
      server-Yields _ _ saddr _ backlog w refl,
      server-Yields _ _ _ _ backlog w (seen-inet6 addr6 port),
    ),
    (
      bound-Yields _ _ _ _ w (seen-inet addr port),
      bound-Yields _ _ saddr _ w refl,
      bound-Yields _ _ _ _ w (seen-inet6 addr6 port),
    ),
  )

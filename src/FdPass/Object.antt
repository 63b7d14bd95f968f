-- ===== src/FdPass/Object.antt =====
-- The object `fdpass`: a socket that is connected before the first `send`, or bound before the first
-- `recv`. unlink(2) is a parameter.
use fdcpp.Base.{ℕ, ℤ, List, [], ◌∷◌, Bool, true, false}
use fdcpp.Effect.{Run, Cmd, pure, and_then, ok, throw, fault, out_of_fuel, ◌>>=◌}
use fdcpp.Descriptor.{Descriptor}
use fdcpp.Socket.{SocketOs, SockAddr, sockaddr_un, size_of}
use fdcpp.Socket
use fdcpp.EasySocket.{unix_address, af_unix, sock_dgram}
use fdcpp.FdPass.{send, recv}

pub record Object : Type 0 where
  pub socket : Descriptor
  pub path : List ℕ
  pub ready : Bool

pub record State (W : Type 0) : Type 0 where
  pub self : Object
  pub world : W

-- A command of the socket, run by the object that holds it.
abbrev pub within : {W A : Type 0} → State W → Run W A → Run (State W) A
within s (ok a w) = ok a (record s { world = w })
within s (throw e w) = throw e (record s { world = w })
within s fault = fault
within s out_of_fuel = out_of_fuel

abbrev pub set_ready : {W : Type 0} → Cmd (State W) (Unit {0})
set_ready s = ok tt (record s { self = record s.self { ready = true } })

module _ {W : Type 0} (api : SocketOs W) (unlink : List ℕ → W → ℤ × W) where
  unfoldable pub create : List ℕ → Cmd W Object
  create path = Socket.open_socket api af_unix sock_dgram 0 >>= λ sock.
      pure (record { socket = sock; path = path; ready = false })

  -- `if (!_ready) { … _socket.connect(addr); _ready = true; }`
  unfoldable pub connect_in : Bool → Cmd (State W) (Unit {0})
  unfolding unix_address
  connect_in true s = ok tt s
  connect_in false s =
      and_then (unix_address s.self.path s)
        λ addr t. and_then (within t (Socket.connect api t.self.socket addr t.world)) λ _. set_ready

  -- `fdpass::send(begin, end)`
  unfoldable pub send_from : List ℤ → List ℤ → Cmd (State W) (Unit {0})
  unfolding connect_in
  send_from buffer fds s =
      and_then (connect_in s.self.ready s)
        λ _ t. within t (send api buffer t.self.socket fds t.world)

  unfoldable pub send_list_from : List ℤ → List ℤ → Cmd (State W) (Unit {0})
  unfolding send_from
  send_list_from buffer list = send_from buffer list

  unfoldable pub send_descriptor_from : List ℤ → Descriptor → Cmd (State W) (Unit {0})
  unfolding send_list_from
  send_descriptor_from buffer d = send_list_from buffer (d.fd ∷ [])

  -- What `unlink` returns is not looked at.
  unfoldable pub bind_in : Bool → Cmd (State W) (Unit {0})
  unfolding unix_address
  bind_in true s = ok tt s
  bind_in false s = and_then (unix_address s.self.path s) λ addr t.
      and_then (within t (Socket.bind api t.self.socket addr (unlink t.self.path t.world).1))
        λ _. set_ready

  unfoldable pub recv_from : ℕ → List ℤ → Cmd (State W) (List Descriptor)
  unfolding bind_in
  recv_from fuel buffer s =
      and_then (bind_in s.self.ready s) λ _ t. within t (recv api fuel buffer t.self.socket t.world)

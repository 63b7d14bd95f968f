-- ===== src/EasySocket.antt =====
-- src/easy/unix_socket.cpp, tcp_socket.cpp and udp_socket.cpp: sockets that are ready for use. An
-- exception on the way closes the socket: the destructor of the local variable runs.
pub mod Leaks
pub mod Addresses
mod Tests
use fdcpp.Base.{ℕ, List, ℤ, length, ltb, if◌then◌else◌}
use fdcpp.Effect.{Run, Cmd, pure, and_then, ok, throw, fault, out_of_fuel, ◌>>=◌}
use fdcpp.Descriptor.{Descriptor, destroy}
use fdcpp.Endian.{Order, hto_be}
use fdcpp.Socket.{SockAddr, sockaddr_un, sockaddr_in, sockaddr_in6, SocketOs}
use fdcpp.Socket

abbrev pub af_unix : ℕ
af_unix = 1

abbrev pub af_inet : ℕ
af_inet = 2

abbrev pub af_inet6 : ℕ
af_inet6 = 10

abbrev pub sock_stream : ℕ
sock_stream = 1

abbrev pub sock_dgram : ℕ
sock_dgram = 2

-- `sizeof(addr.sun_path)`
abbrev pub sun_path_size : ℕ
sun_path_size = 108

-- `*stpncpy(addr.sun_path, path, sizeof(addr.sun_path)) = '\0'`: the pointer is the one past the
-- array if the path fills it, and then the terminator is written out of bounds.
unfoldable pub unix_address : {S : Type 0} → List ℕ → Cmd S SockAddr
unix_address path =
    if ltb (length path) sun_path_size then pure (sockaddr_un af_unix path) else λ _. fault

module _ {W : Type 0} (api : SocketOs W) where
  -- The rest of a function that holds a socket in a local variable: an exception runs its destructor.
  abbrev pub close_on_throw : Descriptor → Run W (Unit {0}) → Run W Descriptor
  close_on_throw sock (ok _ w) = ok sock w
  close_on_throw sock (throw e w) = and_then (destroy api.os sock w) (λ _. throw e)
  close_on_throw sock fault = fault
  close_on_throw sock out_of_fuel = out_of_fuel

  abbrev pub holding : Descriptor → Cmd W (Unit {0}) → Cmd W Descriptor
  holding sock use_it w = close_on_throw sock (use_it w)

  abbrev pub serve : SockAddr → ℤ → Descriptor → Cmd W (Unit {0})
  serve saddr backlog sock = Socket.bind api sock saddr >>= λ _. Socket.listen api sock backlog

  unfoldable pub unix_client : List ℕ → Cmd W Descriptor
  unfolding unix_address
  unix_client path = unix_address path >>= λ addr.
      Socket.open_socket api af_unix sock_stream 0 >>= λ sock.
      holding sock (Socket.connect api sock addr)

  unfoldable pub unix_server : List ℕ → ℤ → Cmd W Descriptor
  unfolding unix_address
  unix_server path backlog = unix_address path >>= λ addr.
      Socket.open_socket api af_unix sock_stream 0 >>= λ sock.
      holding sock (serve addr backlog sock)

  -- `htonl` and `htons` are `htobe32` and `htobe16`.
  abbrev pub inet : Order → ℕ → ℕ → SockAddr
  inet o addr port = sockaddr_in af_inet (hto_be o 4 addr) (hto_be o 2 port)

  abbrev pub inet6 : Order → List ℕ → ℕ → SockAddr
  inet6 o addr port = sockaddr_in6 af_inet6 addr (hto_be o 2 port) 0 0

  unfoldable pub tcp_client : Order → ℕ → ℕ → Cmd W Descriptor
  tcp_client o addr port = Socket.open_socket api af_inet sock_stream 0 >>= λ sock.
      holding sock (Socket.connect api sock (inet o addr port))

  unfoldable pub tcp_client6 : SockAddr → Cmd W Descriptor
  tcp_client6 saddr = Socket.open_socket api af_inet6 sock_stream 0 >>= λ sock.
      holding sock (Socket.connect api sock saddr)

  unfoldable pub tcp_client6_at : Order → List ℕ → ℕ → Cmd W Descriptor
  unfolding tcp_client6
  tcp_client6_at o addr port = tcp_client6 (inet6 o addr port)

  unfoldable pub tcp_server : Order → ℕ → ℕ → ℤ → Cmd W Descriptor
  tcp_server o addr port backlog = Socket.open_socket api af_inet sock_stream 0 >>= λ sock.
      holding sock (serve (inet o addr port) backlog sock)

  unfoldable pub tcp_server6 : SockAddr → ℤ → Cmd W Descriptor
  tcp_server6 saddr backlog = Socket.open_socket api af_inet6 sock_stream 0 >>= λ sock.
      holding sock (serve saddr backlog sock)

  unfoldable pub tcp_server6_at : Order → List ℕ → ℕ → ℤ → Cmd W Descriptor
  unfolding tcp_server6
  tcp_server6_at o addr port backlog = tcp_server6 (inet6 o addr port) backlog

  unfoldable pub udp_server : Order → ℕ → ℕ → Cmd W Descriptor
  udp_server o addr port = Socket.open_socket api af_inet sock_dgram 0 >>= λ sock.
      holding sock (Socket.bind api sock (inet o addr port))

  unfoldable pub udp_server6 : SockAddr → Cmd W Descriptor
  udp_server6 saddr = Socket.open_socket api af_inet6 sock_dgram 0 >>= λ sock.
      holding sock (Socket.bind api sock saddr)

  unfoldable pub udp_server6_at : Order → List ℕ → ℕ → Cmd W Descriptor
  unfolding udp_server6
  udp_server6_at o addr port = udp_server6 (inet6 o addr port)

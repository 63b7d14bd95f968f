-- ===== src/Socket.antt =====
-- src/fds/socket.cpp. Buffers are lists of bytes; flags, levels and names are the platform's numbers.
pub mod Stream
pub mod Options
mod Tests
use fdcpp.Base.{ℕ, List, ℤ, is_neg, pos_part, if◌then◌else◌, codes, ◌==◌, not, Bool}
use fdcpp.Effect.{Run, Cmd, pure, and_then, ◌>>=◌}
use fdcpp.Throw.{throw_system_error}
use fdcpp.Os.{Os, checked, checked_bytes}
use fdcpp.Descriptor.{Descriptor, descriptor}

-- `sockaddr_un`, `sockaddr_in` and `sockaddr_in6`, with the fields that the library sets. A path is
-- the content of `sun_path` before its terminator.
pub data SockAddr : Type 0 where
  sockaddr_un : (sun_family : ℕ) (sun_path : List ℕ) → SockAddr
  sockaddr_in : (sin_family s_addr sin_port : ℕ) → SockAddr
  sockaddr_in6 : (sin6_family : ℕ) (sin6_addr : List ℕ) (port flowinfo scope_id : ℕ) → SockAddr

-- `sizeof(saddr)`, which the overloads of `connect`, `bind` and `sendto` pass on.
abbrev pub size_of : SockAddr → ℕ
size_of (sockaddr_un f p) = 110
size_of (sockaddr_in f a p) = 16
size_of (sockaddr_in6 f a p l s) = 28

-- A message with one `iovec` over a `size_t` and one control message of descriptors: `data` is what
-- stands at `CMSG_DATA`, and `name` says that there is no address.
pub record MsgHdr : Type 0 where
  pub iov : ℕ
  pub controllen : ℕ
  pub cmsg_level : ℕ
  pub cmsg_type : ℕ
  pub cmsg_len : ℕ
  pub data_fds : List ℤ

-- The flags of `send` and `recv` that the library uses.
abbrev pub msg_nosignal : ℕ
msg_nosignal = 0x4000

abbrev pub msg_dontwait : ℕ
msg_dontwait = 0x40

abbrev pub msg_waitall : ℕ
msg_waitall = 0x100

abbrev ebadf : ℕ
ebadf = 9

pub record SocketOs (W : Type 0) : Type 0 where
  pub os : Os W
  pub open os use *
  pub socket : ℕ → ℕ → ℕ → W → ℤ × W
  pub connect : ℤ → SockAddr → ℕ → W → ℤ × W
  pub bind : ℤ → SockAddr → ℕ → W → ℤ × W
  pub listen : ℤ → ℤ → W → ℤ × W
  pub accept : ℤ → W → ℤ × W
  pub shutdown : ℤ → ℕ → W → ℤ × W
  pub recv : ℤ → ℕ → ℕ → W → ℤ × List ℕ × W
  pub recvmsg : ℤ → MsgHdr → ℕ → W → ℤ × MsgHdr × W
  pub send : ℤ → List ℕ → ℕ → W → ℤ × W
  pub sendmsg : ℤ → MsgHdr → ℕ → W → ℤ × W
  pub sendto : ℤ → List ℕ → ℕ → SockAddr → ℕ → W → ℤ × W
  pub sockatmark : ℤ → W → ℤ × W
  pub getsockopt : ℤ → ℕ → ℕ → ℕ → W → ℤ × List ℕ × W
  pub setsockopt : ℤ → ℕ → ℕ → List ℕ → W → ℤ × W

module _ {W : Type 0} (api : SocketOs W) where
  -- A call of the socket class that is checked under its tag.
  abbrev call : List ℕ → ℤ × W → Run W ℤ
  call func r = checked api.os (codes "socket") func r

  -- `socket(int domain, int type, int protocol)`
  unfoldable pub open_socket : ℕ → ℕ → ℕ → Cmd W Descriptor
  open_socket domain type protocol =
      (λ w. call (codes "socket()") (api.socket domain type protocol w)) >>= λ fd.
      pure (descriptor fd)

  -- `socket(int fd)`: a number that owns nothing is refused with EBADF.
  unfoldable pub from_fd : ℤ → Cmd W Descriptor
  from_fd fd =
      if is_neg fd
      then throw_system_error (codes "socket") (codes "socket()") ebadf
      else pure (descriptor fd)

  unfoldable pub dup : Descriptor → Cmd W Descriptor
  dup self = (λ w. call (codes "dup()") (api.dup self.fd w)) >>= λ fd. pure (descriptor fd)

  -- `operator=(const socket &) const`, and `dup2`, which is a call of it.
  unfoldable pub dup2 : Descriptor → Descriptor → Cmd W (Unit {0})
  dup2 self other = (λ w. call (codes "dup2()") (api.dup2 other.fd self.fd w)) >>= λ _. pure tt

  unfoldable pub connect : Descriptor → SockAddr → Cmd W (Unit {0})
  connect self saddr =
      (λ w. call (codes "connect()") (api.connect self.fd saddr (size_of saddr) w)) >>= λ _. pure tt

  unfoldable pub bind : Descriptor → SockAddr → Cmd W (Unit {0})
  bind self saddr =
      (λ w. call (codes "bind()") (api.bind self.fd saddr (size_of saddr) w)) >>= λ _. pure tt

  unfoldable pub listen : Descriptor → ℤ → Cmd W (Unit {0})
  listen self backlog =
      (λ w. call (codes "listen()") (api.listen self.fd backlog w)) >>= λ _. pure tt

  -- The connection goes through the private constructor.
  unfoldable pub accept : Descriptor → Cmd W Descriptor
  unfolding from_fd
  accept self = (λ w. call (codes "accept()") (api.accept self.fd w)) >>= λ fd. from_fd fd

  unfoldable pub shutdown : Descriptor → ℕ → Cmd W (Unit {0})
  shutdown self mode =
      (λ w. call (codes "shutdown()") (api.shutdown self.fd mode w)) >>= λ _. pure tt

  unfoldable pub recv : Descriptor → ℕ → ℕ → Cmd W (ℕ × List ℕ)
  recv self size flags =
      (λ w. checked_bytes api.os (codes "socket") (codes "recv()") (api.recv self.fd size flags w))
      >>= λ r. pure (pos_part r.0, r.1)

  -- The header is both an argument and a result: the call writes into it.
  unfoldable pub recvmsg : Descriptor → MsgHdr → ℕ → Cmd W (ℕ × MsgHdr)
  recvmsg self msg flags w =
      let (n, msg', w') = api.recvmsg self.fd msg flags w in
      and_then (call (codes "recvmsg()") (n, w')) (λ k. pure (pos_part k, msg'))

  unfoldable pub send : Descriptor → List ℕ → ℕ → Cmd W ℕ
  send self bytes flags =
      (λ w. call (codes "send()") (api.send self.fd bytes flags w)) >>= λ n. pure (pos_part n)

  unfoldable pub sendmsg : Descriptor → MsgHdr → ℕ → Cmd W ℕ
  sendmsg self msg flags =
      (λ w. call (codes "sendmsg()") (api.sendmsg self.fd msg flags w)) >>= λ n. pure (pos_part n)

  unfoldable pub sendto : Descriptor → List ℕ → SockAddr → ℕ → Cmd W ℕ
  sendto self bytes saddr flags =
      (λ w. call (codes "sendto()") (api.sendto self.fd bytes flags saddr (size_of saddr) w))
      >>= λ n. pure (pos_part n)

  -- `val != 0`
  unfoldable pub sockatmark : Descriptor → Cmd W Bool
  sockatmark self = (λ w. call (codes "sockatmark()") (api.sockatmark self.fd w)) >>= λ val.
      pure (not (pos_part val == 0))

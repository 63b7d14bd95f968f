-- ===== src/FdPass.antt =====
-- src/easy/fdpass.hpp and fdpass.cpp: descriptors sent over a unix socket, ten to a message. The
-- control message lies in a buffer of ten numbers, which is used again for every message.
pub mod Lists
pub mod Kernel
pub mod Sending
pub mod Rounds
pub mod Receiving
pub mod Leaks
pub mod Stale
pub mod Passing
pub mod Object
pub mod Connecting
pub mod Binding
mod Wire
mod Process
mod Tests
use fdcpp.Base.{
  ℕ, zero, suc, ◌+◌, ◌-◌, ◌*◌, ◌/◌, ℤ, List, [], ◌∷◌, ◌++◌, length, take, drop, min, map, ◌&&◌, ltb,
  leb, sub_size, ◌^◌, ◌==◌, if◌then◌else◌,
}
use fdcpp.Effect.{Run, Cmd, pure, and_then, ok, throw, fault, out_of_fuel, ◌>>=◌}
use fdcpp.Descriptor.{Descriptor, descriptor, destroy}
use fdcpp.Socket.{SocketOs, MsgHdr, SockAddr, msg_nosignal}
use fdcpp.Socket

abbrev pub max_batch_size : ℕ
max_batch_size = 10

-- `CMSG_LEN` and `CMSG_SPACE` of <sys/socket.h>: a header of 16 bytes, and padding to 8.
abbrev pub cmsg_len_of : ℕ → ℕ
cmsg_len_of n = 16 + n

abbrev pub cmsg_space_of : ℕ → ℕ
cmsg_space_of n = 16 + (n + 7) / 8 * 8

abbrev pub sol_socket : ℕ
sol_socket = 1

abbrev pub scm_rights : ℕ
scm_rights = 1

-- The message as both functions set it up, over the buffer as it was. `recv` sets no level and no
-- type, which `recvmsg` does not read.
abbrev pub fresh_msg : ℕ → List ℤ → MsgHdr
fresh_msg size buffer = record {
  iov = size;
  controllen = cmsg_space_of (max_batch_size * 4);
  cmsg_level = sol_socket;
  cmsg_type = scm_rights;
  cmsg_len = 0;
  data_fds = buffer;
}

-- The message with the first `batch_size` of the descriptors.
abbrev pub batch_msg : MsgHdr → List ℤ → MsgHdr
batch_msg msg fds =
    let batch_size = min (length fds) max_batch_size in
    record msg {
      controllen = cmsg_space_of (batch_size * 4);
      cmsg_len = cmsg_len_of (batch_size * 4);
      data_fds = take batch_size fds ++ drop batch_size msg.data_fds;
    }

module _ {W : Type 0} (api : SocketOs W) where
  -- `while (begin != end)`, over the descriptors that are left.
  unfoldable pub send_batches : ℕ → Descriptor → MsgHdr → List ℤ → Cmd W (Unit {0})
  send_batches fuel sock msg [] = pure tt
  send_batches zero sock msg (fd ∷ fds) = λ _. out_of_fuel
  send_batches (suc fuel) sock msg (fd ∷ fds) =
      Socket.sendmsg api sock (batch_msg msg (fd ∷ fds)) msg_nosignal >>= λ _.
      send_batches fuel sock (batch_msg msg (fd ∷ fds))
        (drop (min (length (fd ∷ fds)) max_batch_size) (fd ∷ fds))

  -- `fdpass::send(sock, begin, end)`
  unfoldable pub send : List ℤ → Descriptor → List ℤ → Cmd W (Unit {0})
  unfolding send_batches
  send buffer sock fds = send_batches (length fds) sock (fresh_msg (length fds) buffer) fds

  -- `send(sock, list)`, and `send(sock, fd)`, which is `send(sock, { fd })`.
  unfoldable pub send_list : List ℤ → Descriptor → List ℤ → Cmd W (Unit {0})
  unfolding send
  send_list buffer sock list = send buffer sock list

  unfoldable pub send_descriptor : List ℤ → Descriptor → Descriptor → Cmd W (Unit {0})
  unfolding send_list
  send_descriptor buffer sock d = send_list buffer sock (d.fd ∷ [])

  -- The destructor of the vector, when an exception leaves `recv`.
  unfoldable pub close_all : List Descriptor → Cmd W (Unit {0})
  close_all [] = pure tt
  close_all (d ∷ ds) = destroy api.os d >>= λ _. close_all ds

  abbrev pub closing : {A : Type 0} → List Descriptor → Run W A → Run W A
  closing v r = elim r [
    | ok a w ↦ ok a w
    | throw e w ↦ and_then (close_all v w) (λ _. throw e)
    | fault ↦ fault
    | out_of_fuel ↦ out_of_fuel
  ]

  -- One round behind `recvmsg`. `diff` is a `size_t` that becomes a `long`: from 2 ^ 63 on the count is
  -- below zero, and the copy leaves its buffer. Without a control message there is nothing at
  -- `CMSG_DATA`.
  unfoldable pub take_batch : MsgHdr → List Descriptor → Cmd W (List Descriptor)
  take_batch msg v =
      let diff = sub_size msg.iov (length v) in
      if leb (2 ^ 63) diff
      then (λ _. fault)
      else if ltb msg.controllen 16 && ltb 0 diff
      then (λ _. fault)
      else pure (v ++ map descriptor (take (min diff max_batch_size) msg.data_fds))

  unfoldable pub recv_loop : ℕ → Descriptor → MsgHdr → List Descriptor → Cmd W (List Descriptor)
  unfolding close_all take_batch
  recv_loop zero sock msg v = λ _. out_of_fuel
  recv_loop (suc fuel) sock msg v =
      (λ w. closing v (Socket.recvmsg api sock msg msg_nosignal w)) >>= λ r.
      take_batch r.1 v >>= λ v'.
      let rest = recv_loop fuel sock r.1 v' in if length v' == r.1.iov then pure v' else rest

  -- `fdpass::recv(sock)`; `fuel` bounds the messages that it waits for.
  unfoldable pub recv : ℕ → List ℤ → Descriptor → Cmd W (List Descriptor)
  unfolding recv_loop
  recv fuel buffer sock = recv_loop fuel sock (fresh_msg 0 buffer) []

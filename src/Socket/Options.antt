-- ===== src/Socket/Options.antt =====
-- src/fds/socket.cpp: the options of a socket, the names of its ends, and `recvfrom`.
use fdcpp.Base.{
  ℕ, ◌^◌, ◌<◌, ◌≡◌, refl, ap, ◌∙◌, ℤ, pos, pos_part, List, ◌++◌, length, take, take-all, Option,
  true, ◌==◌, ==_iff, if◌then◌else◌, codes, arith,
}
use fdcpp.Effect.{Cmd, pure, and_then, system_error, ◌>>=◌}
use fdcpp.Effect.Ends
use fdcpp.Effect.Ends.{Ends, returns}
use fdcpp.Throw.{throw_runtime_error, make_message}
use fdcpp.Os.{Os, checked, checked_bytes}
use fdcpp.Os.Checked.{done-Ends, got-Ends}
use fdcpp.Descriptor.{Descriptor, move_construct}
use fdcpp.Handle.{adopted}
use fdcpp.Endian.{Order, object_bytes, of_object, to_signed, to_unsigned}
use fdcpp.Endian.Wire.{
  IsSigned, length-object_bytes, of_object-object_bytes, to_signed-to_unsigned, to_unsigned-lt,
}
use fdcpp.Socket.{SocketOs, SockAddr, from_fd}

-- The calls that store an address; `recvfrom` is told the room for it, or a null pointer, and `accept`
-- the room.
pub record NameOs (W : Type 0) : Type 0 where
  pub os : Os W
  pub recvfrom : ℤ → ℕ → ℕ → Option ℕ → W → ℤ × (List ℕ × Option SockAddr) × W
  pub accept : ℤ → ℕ → W → ℤ × SockAddr × W
  pub getsockname : ℤ → W → ℤ × SockAddr × W
  pub getpeername : ℤ → W → ℤ × SockAddr × W

module _ {W : Type 0} (api : NameOs W) where
  unfoldable pub recvfrom : Descriptor → ℕ → Option ℕ → ℕ → Cmd W (ℕ × List ℕ × Option SockAddr)
  recvfrom self size room flags w =
      let (n, (bytes, saddr), w') = api.recvfrom self.fd size flags room w in
      and_then (checked api.os (codes "socket") (codes "recvfrom()") (n, w'))
        λ k. pure (pos_part k, bytes, saddr)

  unfoldable pub getsockname : Descriptor → Cmd W SockAddr
  getsockname self w =
      let (err, saddr, w') = api.getsockname self.fd w in
      and_then (checked api.os (codes "socket") (codes "getsockname()") (err, w')) λ _. pure saddr

  unfoldable pub getpeername : Descriptor → Cmd W SockAddr
  getpeername self w =
      let (err, saddr, w') = api.getpeername self.fd w in
      and_then (checked api.os (codes "socket") (codes "getpeername()") (err, w')) λ _. pure saddr

-- `socket(descriptor &&other)`
unfoldable pub adopt : {W : Type 0} → Os W → Descriptor → Cmd W (Descriptor × Descriptor)
unfolding move_construct
adopt os other = adopted os (codes "socket") (codes "socket()") other

-- `accept(saddr, len)`
unfoldable pub accept_from :
    {W : Type 0} → SocketOs W → NameOs W → Descriptor → ℕ → Cmd W (Descriptor × SockAddr)
unfolding from_fd
accept_from sockets api self room w =
    let (ret, saddr, w') = api.accept self.fd room w in
    and_then (checked sockets.os (codes "socket") (codes "accept()") (ret, w'))
      λ fd. from_fd sockets fd >>= λ sock. pure (sock, saddr)

-- `to_string` is that of the C++ library.
module _ {W : Type 0} (api : SocketOs W) (o : Order) (to_string : ℕ → List ℕ) where
  -- What is stored at `val`, of which `*len` says the length.
  unfoldable pub getsockopt : Descriptor → ℕ → ℕ → ℕ → Cmd W (List ℕ)
  getsockopt self level name len =
      (λ w.
        checked_bytes api.os (codes "socket") (codes "getsockopt()")
          (api.getsockopt self.fd level name len w))
      >>= λ r. pure r.1

  abbrev pub size_message : ℕ → List ℕ
  size_message len = codes "invalid return value size '" ++ to_string len ++ codes "'"

  unfoldable pub getsockopt_int : Descriptor → ℕ → ℕ → Cmd W ℤ
  unfolding getsockopt
  getsockopt_int self level name = getsockopt self level name 4 >>= λ bytes.
      if length bytes == 4
      then pure (to_signed (2 ^ 31) (of_object o bytes))
      else throw_runtime_error (codes "socket") (codes "getsockopt()") (size_message (length bytes))

  unfoldable pub setsockopt : Descriptor → ℕ → ℕ → List ℕ → Cmd W (Unit {0})
  setsockopt self level name val =
      (λ w.
        checked api.os (codes "socket") (codes "setsockopt()")
          (api.setsockopt self.fd level name val w))
      >>= λ _. pure tt

  unfoldable pub setsockopt_int : Descriptor → ℕ → ℕ → ℤ → Cmd W (Unit {0})
  unfolding setsockopt
  setsockopt_int self level name val =
      setsockopt self level name (object_bytes o 4 (to_unsigned (2 ^ 31) val))

-- An option that keeps what it is set to: setsockopt(2) stores the bytes and getsockopt(2) yields them.
pub record OptionLaw {W : Type 0} (api : SocketOs W) (fd : ℤ) (level name : ℕ) (option : W → List ℕ)
    : Type 0 where
  pub stores :
      (val : List ℕ) (w : W) (n : ℕ) (w' : W)
      → api.setsockopt fd level name val w ≡ (pos n, w')
      → option w' ≡ val
  pub yields :
      (len : ℕ) (w : W) (n : ℕ) (bytes : List ℕ) (w' : W)
      → api.getsockopt fd level name len w ≡ (pos n, bytes, w')
      → bytes ≡ take len (option w)

module _ {W : Type 0} (api : SocketOs W) (o : Order) (to_string : ℕ → List ℕ) (self : Descriptor)
    (level name : ℕ) {option : W → List ℕ} (law : OptionLaw api self.fd level name option) where
  getsockopt-Ends :
      (len : ℕ) (w : W)
      → Ends
          (λ bytes _. bytes ≡ take len (option w))
          (λ e _.
            (code : ℕ) × (e
              ≡ system_error code (make_message (codes "socket") (codes "getsockopt()"))))
          (getsockopt api o to_string self level name len w)
  unfolding getsockopt
  getsockopt-Ends len w =
      got-Ends api.os _ _ (api.getsockopt self.fd level name len w)
        (λ n bytes w' e. law.yields len w n bytes w' e) (λ n bytes w' e. (_, refl))

  setsockopt-Ends :
      (val : List ℕ) (w : W)
      → Ends
          (λ _ w'. option w' ≡ val)
          (λ _ _. Unit)
          (setsockopt api o to_string self level name val w)
  unfolding setsockopt
  setsockopt-Ends val w =
      done-Ends api.os _ _ (api.setsockopt self.fd level name val w) (law.stores val w)
        (λ _ _ _. tt)

  -- For an option that keeps the bytes it is set to, as not every one of Linux does, an `int` of 32
  -- bits that it was set to is what it has when it is read, unless a call throws.
  pub getsockopt-setsockopt :
      (val : ℤ) (w : W)
      → IsSigned (2 ^ 31) val
      → Ends
          (λ got _. got ≡ val)
          (λ _ _. Unit)
          (and_then
            (setsockopt_int api o to_string self level name val w)
            (λ _. getsockopt_int api o to_string self level name))
  unfolding setsockopt_int getsockopt_int
  getsockopt-setsockopt val w h =
      let u₀ = to_unsigned (2 ^ 31) val in
      let stored = object_bytes o 4 u₀ in
      let four = length-object_bytes o 4 u₀ in
      let small : u₀ < 256 ^ 4 = omega (arith, to_unsigned-lt (2 ^ 31) val (omega arith)) in
      Ends.bind (setsockopt-Ends stored w)
        (λ _ t p.
          Ends.bind (getsockopt-Ends 4 t)
            (λ bytes u q.
              let same : bytes ≡ stored =
                q ∙ ap (take 4) p ∙ take-all 4 stored (omega (arith, four)) in
              let full : (length bytes == 4) ≡ true =
                (==_iff (length bytes) 4).1 (ap length same ∙ four) in
              rw full (
                returns (
                  ap (λ xs. to_signed (2 ^ 31) (of_object o xs)) same
                  ∙ ap (to_signed (2 ^ 31)) (of_object-object_bytes o 4 u₀ small)
                  ∙ to_signed-to_unsigned (2 ^ 31) val h)))
            (λ _ _ _. tt))
        (λ _ _ _. tt)

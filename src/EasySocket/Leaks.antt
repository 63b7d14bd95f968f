-- ===== src/EasySocket/Leaks.antt =====
-- What the functions that make sockets leave open.
use fdcpp.Base.{
  ltb, ℕ, ◌+◌, ◌≤◌, ◌<◌, ◌≡◌, refl, sym, ap, ◌∙◌, ℤ, pos, negsuc, List, length, ltb→lt,
  ltb_false→le, inl, inr, ◌⊎◌, Bool-cases, ==→eq, ◌==◌, if◌then◌else◌, arith,
}
use fdcpp.Effect.{fault, out_of_fuel, Run, Cmd, pure, and_then, ok, throw}
use fdcpp.Effect.Ends
use fdcpp.Effect.Ends.{Ends, returns, throws}
use fdcpp.Throw.{throw_system_error}
use fdcpp.Os.{Os, checked}
use fdcpp.Descriptor.{Descriptor, descriptor}
use fdcpp.Endian.{Order}
use fdcpp.Socket.{SocketOs, SockAddr, size_of}
use fdcpp.Socket
use fdcpp.Ownership.{holds, holds_number, Opens, CloseLaw, Leaves}
use fdcpp.Ownership.Steps.{destroy-frees}
use fdcpp.Ownership.Closing.{destroy_ok}
use fdcpp.EasySocket.{
  holding, close_on_throw, unix_client, unix_server, tcp_client, tcp_client6, tcp_client6_at,
  tcp_server, tcp_server6, tcp_server6_at, udp_server, udp_server6, udp_server6_at,
}

-- socket(2) opens a number; connect(2), bind(2) and listen(2) open and close none.
pub record SocketLaw {W : Type 0} (api : SocketOs W) (is_open : W → ℕ → ℕ) : Type 0 where
  pub closes : CloseLaw api.os is_open
  pub opens : (domain type protocol : ℕ) → Opens is_open (api.socket domain type protocol)
  pub connects :
      (fd : ℤ) (saddr : SockAddr) (len : ℕ) (w : W) → Leaves is_open w (api.connect fd saddr len w)
  pub binds :
      (fd : ℤ) (saddr : SockAddr) (len : ℕ) (w : W) → Leaves is_open w (api.bind fd saddr len w)
  pub listens : (fd backlog : ℤ) (w : W) → Leaves is_open w (api.listen fd backlog w)

-- The one number that is open afterwards and was not before is that of the result; after an exception
-- there is none.
abbrev pub NoLeak : {W : Type 0} → (W → ℕ → ℕ) → W → Run W Descriptor → Type 0
NoLeak is_open w =
    Ends (λ d w'. (m : ℕ) → is_open w' m ≡ holds m d + is_open w m)
      (λ _ w'. (m : ℕ) → is_open w' m ≡ is_open w m)

module _ {W : Type 0} (is_open : W → ℕ → ℕ) where
  abbrev Same : {A : Type 0} → W → Run W A → Type 0
  Same w =
      Ends (λ _ w'. (m : ℕ) → is_open w' m ≡ is_open w m)
        (λ _ w'. (m : ℕ) → is_open w' m ≡ is_open w m)

  checked-Same :
      (os : Os W) (tag func : List ℕ) (w : W) (r : ℤ × W)
      → Leaves is_open w r
      → Same w (and_then (checked os tag func r) (λ _. pure tt))
  unfolding throw_system_error
  checked-Same os tag func w (pos n, w') h = returns h
  checked-Same os tag func w (negsuc n, w') h = throws h

module _ {W : Type 0} (api : SocketOs W) {is_open : W → ℕ → ℕ} (law : SocketLaw api is_open) where
  connect-Same : (d : Descriptor) (a : SockAddr) (w : W) → Same is_open w (Socket.connect api d a w)
  unfolding Socket.connect
  connect-Same d a w = checked-Same is_open api.os _ _ w _ (law.connects d.fd a (size_of a) w)

  bind-Same : (d : Descriptor) (a : SockAddr) (w : W) → Same is_open w (Socket.bind api d a w)
  unfolding Socket.bind
  bind-Same d a w = checked-Same is_open api.os _ _ w _ (law.binds d.fd a (size_of a) w)

  listen-Same :
      (d : Descriptor) (backlog : ℤ) (w : W) → Same is_open w (Socket.listen api d backlog w)
  unfolding Socket.listen
  listen-Same d backlog w = checked-Same is_open api.os _ _ w _ (law.listens d.fd backlog w)

  serve-Same :
      (d : Descriptor) (a : SockAddr) (backlog : ℤ) (w : W)
      → Same is_open w (and_then (Socket.bind api d a w) (λ _. Socket.listen api d backlog))
  serve-Same d a backlog w =
      Ends.bind (bind-Same d a w)
        (λ _ t p. Ends.mono (listen-Same d backlog t) (λ _ u q m. q m ∙ p m) (λ _ u q m. q m ∙ p m))
        (λ _ t p. p)

  -- A new socket holds a number that was not open.
  abbrev Fresh : W → Descriptor → W → Type 0
  Fresh w d w' =
      (m : ℕ) → (is_open w' m ≡ holds m d + is_open w m) × ((holds m d ≡ 0) ⊎ (is_open w m ≡ 0))

  fresh_number :
      (k m : ℕ) (w : W) → is_open w k ≡ 0 → (holds_number m (pos k) ≡ 0) ⊎ (is_open w m ≡ 0)
  fresh_number k m w free = elim (Bool-cases (k == m)) [
    | inl same ↦ inr (ap (is_open w) (sym (==→eq k m same)) ∙ free)
    | inr other ↦ inl (ground arith)
  ]

  result-Fresh :
      (tag func : List ℕ) (call : W → ℤ × W)
      → Opens is_open call
      → (w : W) (r : ℤ × W) → call w ≡ r
      → Ends
          (Fresh w)
          (λ _ w'. (m : ℕ) → is_open w' m ≡ is_open w m)
          (and_then (checked api.os tag func r) (λ fd. pure (descriptor fd)))
  unfolding throw_system_error
  result-Fresh tag func call op w (pos k, w') e =
      returns (λ m. ((op.takes w k w' e).1 m, fresh_number k m w (op.takes w k w' e).0))
  result-Fresh tag func call op w (negsuc k, w') e = throws (op.refuses w k w' e)

  open_socket-Fresh :
      (domain type protocol : ℕ) (w : W)
      → Ends
          (Fresh w)
          (λ _ w'. (m : ℕ) → is_open w' m ≡ is_open w m)
          (Socket.open_socket api domain type protocol w)
  unfolding Socket.open_socket
  open_socket-Fresh domain type protocol w =
      result-Fresh _ _ (api.socket domain type protocol) (law.opens domain type protocol) w _ refl

  closed_again :
      (sock : Descriptor) (m : ℕ) (before after now closed : ℕ)
      → (now ≡ holds m sock + before) × ((holds m sock ≡ 0) ⊎ (before ≡ 0))
      → after ≡ now
      → closed ≡ (if holds m sock == 0 then after else 0)
      → closed ≡ before
  closed_again sock m before after now closed (e, inl none_held) f g = ground arith
  closed_again sock m before after now closed (e, inr none_open) f g = ground arith

  -- The rest of the function keeps the socket, or throws and closes it.
  holding-NoLeak :
      (w : W) (sock : Descriptor) (w₁ : W) (r : Run W (Unit {0}))
      → Fresh w sock w₁
      → Same is_open w₁ r
      → NoLeak is_open w (close_on_throw api sock r)
  holding-NoLeak w sock w₁ (ok a w₂) fresh (returns p) = returns (λ m. p m ∙ (fresh m).0)
  holding-NoLeak w sock w₁ (throw e w₂) fresh (throws p) =
      let gone = destroy_ok api.os law.closes sock w₂ in
      rw gone.1 (
        throws (λ m.
          closed_again sock m _ _ _ _ (fresh m) (p m)
            (destroy-frees api.os law.closes sock w₂ gone.0 gone.1 m)))
  holding-NoLeak w sock w₁ fault fresh p = elim p [ ]
  holding-NoLeak w sock w₁ out_of_fuel fresh p = elim p [ ]

  made-NoLeak :
      (domain type : ℕ) (use_it : Descriptor → Cmd W (Unit {0})) (w : W)
      → ((d : Descriptor) (w₁ : W) → Same is_open w₁ (use_it d w₁))
      → NoLeak is_open w (
          and_then
            (Socket.open_socket api domain type 0 w)
            (λ sock. holding api sock (use_it sock)))
  made-NoLeak domain type use_it w same =
      Ends.bind (open_socket-Fresh domain type 0 w)
        (λ sock w₁ fresh. holding-NoLeak w sock w₁ (use_it sock w₁) fresh (same sock w₁))
        (λ _ w₁ p. p)

  -- Each function of `tcp_socket` and `udp_socket` returns a socket, whose number is the only one that
  -- is open and was not before; or it throws, also when the socket was open already, and leaves open
  -- what was open before.
  pub inet_socket-NoLeak :
      (o : Order) (addr port : ℕ) (saddr : SockAddr) (addr6 : List ℕ) (backlog : ℤ) (w : W)
      → (NoLeak is_open w (tcp_client api o addr port w)
          × NoLeak is_open w (tcp_client6 api saddr w)
          × NoLeak is_open w (tcp_client6_at api o addr6 port w))
        × (NoLeak is_open w (tcp_server api o addr port backlog w)
            × NoLeak is_open w (tcp_server6 api saddr backlog w)
            × NoLeak is_open w (tcp_server6_at api o addr6 port backlog w))
        × (NoLeak is_open w (udp_server api o addr port w)
            × NoLeak is_open w (udp_server6 api saddr w)
            × NoLeak is_open w (udp_server6_at api o addr6 port w))
  unfolding tcp_client tcp_client6 tcp_client6_at tcp_server tcp_server6 tcp_server6_at udp_server
      udp_server6 udp_server6_at
  inet_socket-NoLeak o addr port saddr addr6 backlog w = (
    (
      made-NoLeak _ _ _ w (λ d t. connect-Same d _ t),
      made-NoLeak _ _ _ w (λ d t. connect-Same d _ t),
      made-NoLeak _ _ _ w (λ d t. connect-Same d _ t),
    ),
    (
      made-NoLeak _ _ _ w (λ d t. serve-Same d _ backlog t),
      made-NoLeak _ _ _ w (λ d t. serve-Same d _ backlog t),
      made-NoLeak _ _ _ w (λ d t. serve-Same d _ backlog t),
    ),
    (
      made-NoLeak _ _ _ w (λ d t. bind-Same d _ t),
      made-NoLeak _ _ _ w (λ d t. bind-Same d _ t),
      made-NoLeak _ _ _ w (λ d t. bind-Same d _ t),
    ),
  )

  -- For a path of fewer than 108 bytes the functions for unix sockets return a socket, whose number is
  -- the only one that is open and was not before, or throw and leave open what was open before. A
  -- longer path makes them write behind the end of `sun_path`, before any call.
  pub unix_socket-NoLeak :
      (path : List ℕ) (backlog : ℤ) (w : W)
      → ((length path < 108)
          × NoLeak is_open w (unix_client api path w)
          × NoLeak is_open w (unix_server api path backlog w))
        ⊎ ((108 ≤ length path)
            × (unix_client api path w ≡ fault)
            × (unix_server api path backlog w ≡ fault))
  unfolding unix_client unix_server
  unix_socket-NoLeak path backlog w = elim (Bool-cases (ltb (length path) 108)) [
    | inl short ↦ inl (
      ltb→lt _ _ short,
      rw short (made-NoLeak _ _ _ w (λ d t. connect-Same d _ t)),
      rw short (made-NoLeak _ _ _ w (λ d t. serve-Same d _ backlog t)),
    )
    | inr long ↦ inr (ltb_false→le _ _ long, rw long refl, rw long refl)
  ]

-- ===== src/EasySocket/Tests.antt =====
-- The theorems on a system that opens one socket and refuses all else.
use fdcpp.Base.{◌∙◌, ap, ℤ, negsuc, false, ℕ, ◌≤◌, ◌<◌, ◌⊎◌, ◌≡◌, refl, pos, List, [], ◌∷◌, length}
use fdcpp.Effect.{fault}
use fdcpp.Endian.{little, object_bytes}
use fdcpp.Socket.{SocketOs, SockAddr, sockaddr_in6}
use fdcpp.Loopback.{refusing}
use fdcpp.Ownership.Table.{Table, is_open, dup_in, dup_in-Opens, os, law}
use fdcpp.EasySocket.{
  unix_client, unix_server, tcp_client, tcp_client6, tcp_client6_at, tcp_server, tcp_server6,
  tcp_server6_at, udp_server, udp_server6, udp_server6_at,
}
use fdcpp.Os.{Os}
use fdcpp.Endian.Wire.{big_endian}
use fdcpp.EasySocket.Addresses.{
  Status, unused, made, connected, bound, listening, inet, inet6, seen, AddressLaw, Yields,
  inet_socket-Yields,
}
use fdcpp.EasySocket.Leaks.{SocketLaw, NoLeak, inet_socket-NoLeak, unix_socket-NoLeak}

abbrev api : SocketOs Table
api = record (refusing os) { socket = λ domain type protocol w. dup_in w.four w }

socket_law : SocketLaw api is_open
socket_law = record {
  closes = law;
  opens = λ domain type protocol. dup_in-Opens;
  connects = λ fd saddr len w m. refl;
  binds = λ fd saddr len w m. refl;
  listens = λ fd backlog w m. refl;
}

abbrev closed : Table
closed = record { three = false; four = false }

inet_socket-NoLeak_example :
    (NoLeak is_open closed (tcp_client api little 1 80 closed)
      × NoLeak is_open closed (tcp_client6 api (sockaddr_in6 10 [] 80 0 0) closed)
      × NoLeak is_open closed (tcp_client6_at api little [] 80 closed))
    × (NoLeak is_open closed (tcp_server api little 1 80 (pos 5) closed)
        × NoLeak is_open closed (tcp_server6 api (sockaddr_in6 10 [] 80 0 0) (pos 5) closed)
        × NoLeak is_open closed (tcp_server6_at api little [] 80 (pos 5) closed))
    × (NoLeak is_open closed (udp_server api little 1 80 closed)
        × NoLeak is_open closed (udp_server6 api (sockaddr_in6 10 [] 80 0 0) closed)
        × NoLeak is_open closed (udp_server6_at api little [] 80 closed))
inet_socket-NoLeak_example =
    inet_socket-NoLeak api socket_law little 1 80 (sockaddr_in6 10 [] 80 0 0) [] (pos 5) closed

abbrev path : List ℕ
path = 47 ∷ 120 ∷ []

unix_socket-NoLeak_example :
    ((length path < 108)
      × NoLeak is_open closed (unix_client api path closed)
      × NoLeak is_open closed (unix_server api path (pos 5) closed))
    ⊎ ((108 ≤ length path)
        × (unix_client api path closed ≡ fault)
        × (unix_server api path (pos 5) closed ≡ fault))
unix_socket-NoLeak_example = unix_socket-NoLeak api socket_law path (pos 5) closed

-- A system with one socket, which refuses nothing.
abbrev connect_in : Status → SockAddr → Status
connect_in (made domain type) saddr = connected domain type (seen little saddr)
connect_in w saddr = w

abbrev bind_in : Status → SockAddr → Status
bind_in (made domain type) saddr = bound domain type (seen little saddr)
bind_in w saddr = w

abbrev listen_in : Status → ℤ → Status
listen_in (bound domain type name) backlog = listening domain type name backlog
listen_in w backlog = w

abbrev one_os : Os Status
one_os = record {
  errno = λ w. 9;
  set_errno = λ e w. w;
  close = λ fd w. (pos 0, unused);
  dup = λ fd w. (negsuc 0, w);
  dup2 = λ old new w. (negsuc 0, w);
  fcntl = λ fd cmd arg w. (negsuc 0, w);
  read = λ fd size w. (negsuc 0, [], w);
  write = λ fd bytes w. (negsuc 0, w);
  pread = λ fd size off w. (negsuc 0, [], w);
  pwrite = λ fd bytes off w. (negsuc 0, w);
}

abbrev one_api : SocketOs Status
one_api = record (refusing one_os) {
  socket = λ domain type protocol w. (pos 3, made domain type);
  connect = λ fd saddr len w. (pos 0, connect_in w saddr);
  bind = λ fd saddr len w. (pos 0, bind_in w saddr);
  listen = λ fd backlog w. (pos 0, listen_in w backlog);
}

after_call : (n m : ℕ) (w w' : Status) → ◌≡◌ {A = ℤ × Status} (pos n, w) (pos m, w') → w' ≡ w
after_call n m w w' e = cc

no_failure : (n e : ℕ) (w w' : Status) → ◌≡◌ {A = ℤ × Status} (pos n, w) (negsuc e, w') → ⊥
no_failure n e w w' h = cc

address_law : AddressLaw one_api little (λ w k. w) ⊥
address_law = record {
  makes = λ domain type w k w' e. after_call _ _ _ _ e;
  connects =
      λ k domain type saddr w n w' h e. after_call _ _ _ _ e ∙ ap (λ x. connect_in x saddr) h;
  binds = λ k domain type saddr w n w' h e. after_call _ _ _ _ e ∙ ap (λ x. bind_in x saddr) h;
  listens = λ k domain type name backlog w n w' h e.
      after_call _ _ _ _ e ∙ ap (λ x. listen_in x backlog) h;
  no_socket = λ domain type w e w' h. no_failure _ _ _ _ h;
  no_connection = λ k domain type saddr w e w' h i. no_failure _ _ _ _ i;
  no_name = λ k domain type saddr w e w' h i. no_failure _ _ _ _ i;
  no_queue = λ k domain type name backlog w e w' h i. no_failure _ _ _ _ i;
}

-- 127.0.0.1, port 8080.
inet_socket-Yields_example :
    let at = inet (127 ∷ 0 ∷ 0 ∷ 1 ∷ []) (31 ∷ 144 ∷ []) in
    let at6 = inet6 [] (31 ∷ 144 ∷ []) 0 0 in
    let here = inet6 [] (31 ∷ 144 ∷ []) 0 0 in
    (Yields (λ w k. w) ⊥ (connected 2 1 at) (tcp_client one_api little 2130706433 8080 unused)
      × Yields
          (λ w k. w)
          ⊥
          (connected 10 1 here)
          (tcp_client6 one_api (sockaddr_in6 10 [] 36895 0 0) unused)
      × Yields (λ w k. w) ⊥ (connected 10 1 at6) (tcp_client6_at one_api little [] 8080 unused))
    × (Yields
          (λ w k. w)
          ⊥
          (listening 2 1 at (pos 5))
          (tcp_server one_api little 2130706433 8080 (pos 5) unused)
        × Yields
            (λ w k. w)
            ⊥
            (listening 10 1 here (pos 5))
            (tcp_server6 one_api (sockaddr_in6 10 [] 36895 0 0) (pos 5) unused)
        × Yields
            (λ w k. w)
            ⊥
            (listening 10 1 at6 (pos 5))
            (tcp_server6_at one_api little [] 8080 (pos 5) unused))
    × (Yields (λ w k. w) ⊥ (bound 2 2 at) (udp_server one_api little 2130706433 8080 unused)
        × Yields
            (λ w k. w)
            ⊥
            (bound 10 2 here)
            (udp_server6 one_api (sockaddr_in6 10 [] 36895 0 0) unused)
        × Yields (λ w k. w) ⊥ (bound 10 2 at6) (udp_server6_at one_api little [] 8080 unused))
unfolding big_endian object_bytes
inet_socket-Yields_example =
    inet_socket-Yields one_api little address_law 2130706433 8080 [] (sockaddr_in6 10 [] 36895 0 0)
      (pos 5) unused

-- ===== src/Loopback.antt =====
-- A small system for the tests: one connected socket, whose peer is a list of bytes on either side.
-- It meets the promises of `SendLaw`, `RecvLaw` and `Waits`.
use Prim.Native.Nat.{bit_or}
use fdcpp.Base.{
  append-nil, leb, ℕ, ◌≤◌, ◌≡◌, ◌≢◌, refl, ℤ, pos, negsuc, List, [], ◌∷◌, ◌++◌, length, take, drop,
  ◌==◌, if◌then◌else◌, arith, min, length-take, take-append-drop,
}
use fdcpp.Os.{Os}
use fdcpp.Socket.{SocketOs, msg_nosignal, msg_waitall}
use fdcpp.Socket.Stream.{SendLaw, RecvLaw, Waits}

pub record Net : Type 0 where
  pub sent : List ℕ
  pub arrived : List ℕ
  pub error : ℕ

abbrev pub os : Os Net
os = record {
  errno = λ w. w.error;
  set_errno = λ e w. record w { error = e };
  close = λ fd w. (pos 0, w);
  dup = λ fd w. (pos 7, w);
  dup2 = λ old new w. (new, w);
  fcntl = λ fd cmd arg w. (pos 0, w);
  read = λ fd size w. (negsuc 0, [], record w { error = 5 });
  write = λ fd bytes w. (negsuc 0, record w { error = 5 });
  pread = λ fd size off w. (negsuc 0, [], record w { error = 5 });
  pwrite = λ fd bytes off w. (negsuc 0, record w { error = 5 });
}

-- At most three bytes go at a time.
unfoldable pub send : List ℕ → Net → ℤ × Net
send bytes w =
    (pos (min 3 (length bytes)), record w { sent = w.sent ++ take (min 3 (length bytes)) bytes })

-- What has arrived is delivered; a call that would have to wait is interrupted (EINTR, 4) if it asked
-- for all, and else finds nothing (EAGAIN, 11) or takes what there is.
unfoldable pub recv : ℕ → ℕ → Net → ℤ × List ℕ × Net
recv size flags w =
    if leb size (length w.arrived)
    then (pos size, take size w.arrived, record w { arrived = drop size w.arrived })
    else if flags == bit_or msg_nosignal msg_waitall
    then (negsuc 0, [], record w { error = 4 })
    else if length w.arrived == 0
    then (negsuc 0, [], record w { error = 11 })
    else (pos (length w.arrived), w.arrived, record w { arrived = [] })

abbrev pub api : SocketOs Net
api = record {
  os = os;
  socket = λ domain type protocol w. (pos 5, w);
  connect = λ fd saddr len w. (pos 0, w);
  bind = λ fd saddr len w. (pos 0, w);
  listen = λ fd backlog w. (pos 0, w);
  accept = λ fd w. (pos 6, w);
  shutdown = λ fd mode w. (pos 0, w);
  recv = λ fd size flags w. recv size flags w;
  recvmsg = λ fd msg flags w. (negsuc 0, msg, record w { error = 5 });
  send = λ fd bytes flags w. send bytes w;
  sendmsg = λ fd msg flags w. (negsuc 0, record w { error = 5 });
  sendto = λ fd bytes flags saddr len w. send bytes w;
  sockatmark = λ fd w. (pos 0, w);
  getsockopt = λ fd level name size w. (negsuc 0, [], record w { error = 5 });
  setsockopt = λ fd level name val w. (pos 0, w);
}

send_accepts :
    (bytes : List ℕ) (w : Net) (n : ℕ) (w' : Net)
    → send bytes w ≡ (pos n, w')
    → (n ≤ length bytes) × (w'.sent ≡ w.sent ++ take n bytes) × (bytes ≢ [] → n ≢ 0)
unfolding send
send_accepts [] w n w' e = (ground arith, ground arith, λ h. absurd (h refl))
send_accepts (x ∷ xs) w n w' e = (ground arith, ground arith, λ h. ground arith)

pub send_law : SendLaw api (pos 5) (λ w. w.sent)
send_law = record {
  accepts = λ bytes flags w n w' e. send_accepts bytes w n w' e;
  refuses = λ bytes flags w e w' h. unfold send in cc;
}

recv_delivers :
    (size flags : ℕ) (w : Net) (n : ℕ) (bytes : List ℕ) (w' : Net)
    → recv size flags w ≡ (pos n, bytes, w')
    → (n ≤ size) × (length bytes ≡ n) × (w.arrived ≡ bytes ++ w'.arrived)
unfolding recv
recv_delivers size flags w n bytes w' e =
    ground
      (arith, length-take size w.arrived, take-append-drop size w.arrived, append-nil w.arrived)

recv_fails :
    (size flags : ℕ) (w : Net) (e : ℕ) (bytes : List ℕ) (w' : Net)
    → recv size flags w ≡ (negsuc e, bytes, w')
    → w'.arrived ≡ w.arrived
unfolding recv
recv_fails size flags w e bytes w' h = ground arith

pub recv_law : RecvLaw api (pos 5) (λ w. w.arrived)
recv_law = record {
  delivers = λ size flags w n bytes w' e. recv_delivers size flags w n bytes w' e;
  fails = λ size flags w e bytes w' h. recv_fails size flags w e bytes w' h;
}

pub waits : Waits api (pos 5)
unfolding recv
waits size w n bytes w' e = ground arith

-- A system whose sockets refuse every call, over any system of descriptors.
abbrev pub refusing : {W : Type 0} → Os W → SocketOs W
refusing os = record {
  os = os;
  socket = λ domain type protocol w. (negsuc 0, w);
  connect = λ fd saddr len w. (negsuc 0, w);
  bind = λ fd saddr len w. (negsuc 0, w);
  listen = λ fd backlog w. (negsuc 0, w);
  accept = λ fd w. (negsuc 0, w);
  shutdown = λ fd mode w. (negsuc 0, w);
  recv = λ fd size flags w. (negsuc 0, [], w);
  recvmsg = λ fd msg flags w. (negsuc 0, msg, w);
  send = λ fd bytes flags w. (negsuc 0, w);
  sendmsg = λ fd msg flags w. (negsuc 0, w);
  sendto = λ fd bytes flags saddr len w. (negsuc 0, w);
  sockatmark = λ fd w. (negsuc 0, w);
  getsockopt = λ fd level name size w. (negsuc 0, [], w);
  setsockopt = λ fd level name val w. (negsuc 0, w);
}

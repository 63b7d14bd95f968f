-- ===== src/FdPass/Process.antt =====
-- A system with a table of open files: a number is the place of its file in the order in which files
-- were opened.
pub mod Promises
use fdcpp.Base.{
  ◌≢◌, ℕ, zero, suc, ◌+◌, ◌*◌, ◌≤◌, ◌≡◌, refl, sym, ap, ap₂, ◌∙◌, subst, ℤ, pos, negsuc, List, [],
  ◌∷◌, ◌++◌, length, take, map, Option, none, some, Bool, true, false, leb, ltb, ◌==◌,
  if◌then◌else◌, length-append, take-all, append_assoc, append-nil, arith,
}
use fdcpp.Os.{Os}
use fdcpp.Descriptor.{Descriptor, descriptor}
use fdcpp.Socket.{SocketOs, MsgHdr}
use fdcpp.Ownership.{holders, CloseLaw}
use fdcpp.FdPass.{cmsg_space_of}
use fdcpp.FdPass.Kernel.{Packet, RecvMsgLaw}
use fdcpp.FdPass.Leaks.{RecvOpens}

pub record Process : Type 0 where
  pub waiting : List (Packet ℕ)
  pub files : List ℕ
  pub live : ℕ → Bool

abbrev pub entry : List ℕ → ℕ → Option ℕ
entry [] n = none
entry (f ∷ fs) zero = some f
entry (f ∷ fs) (suc n) = entry fs n

abbrev pub file : Process → ℤ → Option ℕ
file w (pos n) = entry w.files n
file w (negsuc n) = none

abbrev pub bit : Bool → ℕ
bit true = 1
bit false = 0

abbrev pub is_open : Process → ℕ → ℕ
is_open w n = if ltb n (length w.files) then bit (w.live n) else 0

abbrev pub close : ℤ → Process → ℤ × Process
close (pos n) w = (pos 0, record w { live = λ m. if n == m then false else w.live m })
close (negsuc n) w = (negsuc 0, w)

abbrev pub os : Os Process
os = record {
  errno = λ w. 11;
  set_errno = λ e w. w;
  close = close;
  dup = λ fd w. (negsuc 0, w);
  dup2 = λ old new w. (new, w);
  fcntl = λ fd cmd arg w. (pos 0, w);
  read = λ fd size w. (negsuc 0, [], w);
  write = λ fd bytes w. (negsuc 0, w);
  pread = λ fd size off w. (negsuc 0, [], w);
  pwrite = λ fd bytes off w. (negsuc 0, w);
}

abbrev pub numbers : ℕ → ℕ → List ℤ
numbers from zero = []
numbers from (suc k) = pos from ∷ numbers (suc from) k

abbrev pub message : MsgHdr → Process → Packet ℕ → MsgHdr
message msg w p = record msg {
  iov = p.size;
  controllen = cmsg_space_of (length p.files * 4);
  data_fds = numbers (length w.files) (length p.files);
}

abbrev pub opened : Process → Packet ℕ → List (Packet ℕ) → Process
opened w p ps = record {
  waiting = ps;
  files = w.files ++ p.files;
  live = λ n. if ltb n (length w.files) then w.live n else true;
}

-- A message that the control buffer has no space for stays.
unfoldable pub recvmsg_of : MsgHdr → Process → List (Packet ℕ) → ℤ × MsgHdr × Process
recvmsg_of msg w [] = (negsuc 0, msg, w)
recvmsg_of msg w (p ∷ ps) =
    if leb (16 + length p.files * 4) msg.controllen
    then (pos 8, message msg w p, opened w p ps)
    else (negsuc 0, msg, w)

abbrev pub api : SocketOs Process
api = record {
  os = os;
  socket = λ domain type protocol w. (negsuc 0, w);
  connect = λ fd saddr len w. (pos 0, w);
  bind = λ fd saddr len w. (pos 0, w);
  listen = λ fd backlog w. (pos 0, w);
  accept = λ fd w. (negsuc 0, w);
  shutdown = λ fd mode w. (pos 0, w);
  recv = λ fd size flags w. (negsuc 0, [], w);
  recvmsg = λ fd msg flags w. recvmsg_of msg w w.waiting;
  send = λ fd bytes flags w. (negsuc 0, w);
  sendmsg = λ fd msg flags w. (negsuc 0, w);
  sendto = λ fd bytes flags saddr len w. (negsuc 0, w);
  sockatmark = λ fd w. (pos 0, w);
  getsockopt = λ fd level name size w. (negsuc 0, [], w);
  setsockopt = λ fd level name val w. (pos 0, w);
}

-- ===== src/FdPass/Wire.antt =====
-- A system with one socket, in which the number of a descriptor tells its file.
use fdcpp.Base.{
  ℕ, ◌+◌, ◌-◌, ◌*◌, ◌/◌, ◌≤◌, ◌≡◌, refl, sym, ap, ap₂, ◌∙◌, ℤ, pos, negsuc, pos_part, List, [], ◌∷◌,
  ◌++◌, length, take, map, Option, none, some, take-all, arith, tail, leb, ◌==◌, ◌&&◌,
  if◌then◌else◌,
}
use fdcpp.Os.{Os}
use fdcpp.Socket.{SockAddr, sockaddr_un, SocketOs, MsgHdr}
use fdcpp.FdPass.{cmsg_space_of, sol_socket, scm_rights}
use fdcpp.FdPass.Kernel.{Packet, carried, SendMsgLaw, RecvMsgLaw}

pub record Wire : Type 0 where
  pub waiting : List (Packet ℕ)
  pub error : ℕ
  pub peer : Option (List ℕ)

abbrev os : Os Wire
os = record {
  errno = λ w. w.error;
  set_errno = λ e w. record w { error = e };
  close = λ fd w. (pos 0, w);
  dup = λ fd w. (pos 7, w);
  dup2 = λ old new w. (new, w);
  fcntl = λ fd cmd arg w. (pos 0, w);
  read = λ fd size w. (negsuc 0, [], record w { error = 5 });
  write = λ fd bytes w. (negsuc 0, record w { error = 5 });
  pread = λ fd size off w. (negsuc 0, [], record w { error = 5 });
  pwrite = λ fd bytes off w. (negsuc 0, record w { error = 5 });
}

-- The descriptors that a message carries: those of a control message of SCM_RIGHTS in its buffer.
abbrev rights : MsgHdr → List ℤ
rights msg =
    if (msg.cmsg_level == 1)
      && (msg.cmsg_type == 1)
      && leb 16 msg.cmsg_len
      && leb msg.cmsg_len msg.controllen
    then carried msg
    else []

abbrev pub file : ℤ → Option ℕ
file (pos n) = some n
file (negsuc n) = none

unfoldable pub sendmsg : MsgHdr → Wire → ℤ × Wire
sendmsg msg w = (
  pos 8,
  record w {
    waiting = w.waiting ++ (record { size = msg.iov; files = map pos_part (rights msg) } ∷ []);
  },
)

-- A message that does not fit is cut off.
abbrev space : MsgHdr → ℕ
space msg = (msg.controllen - 16) / 4

unfoldable pub recvmsg_of : MsgHdr → Wire → List (Packet ℕ) → ℤ × MsgHdr × Wire
recvmsg_of msg w [] = (negsuc 0, msg, record w { error = 11 })
recvmsg_of msg w (p ∷ ps) = (
  pos 8,
  record msg {
    iov = p.size;
    controllen = cmsg_space_of (length (take (space msg) p.files) * 4);
    data_fds = map pos (take (space msg) p.files);
  },
  record w { waiting = ps },
)

abbrev pub connect_to : SockAddr → Wire → ℤ × Wire
connect_to (sockaddr_un family path) w = (pos 0, record w { peer = some path })
connect_to _ w = (negsuc 0, record w { error = 22 })

abbrev pub api : SocketOs Wire
api = record {
  os = os;
  socket = λ domain type protocol w. (pos 5, w);
  connect = λ fd saddr len w. connect_to saddr w;
  bind = λ fd saddr len w. (pos 0, w);
  listen = λ fd backlog w. (pos 0, w);
  accept = λ fd w. (pos 6, w);
  shutdown = λ fd mode w. (pos 0, w);
  recv = λ fd size flags w. (negsuc 0, [], record w { error = 5 });
  recvmsg = λ fd msg flags w. recvmsg_of msg w w.waiting;
  send = λ fd bytes flags w. (negsuc 0, record w { error = 5 });
  sendmsg = λ fd msg flags w. sendmsg msg w;
  sendto = λ fd bytes flags saddr len w. (negsuc 0, record w { error = 5 });
  sockatmark = λ fd w. (pos 0, w);
  getsockopt = λ fd level name size w. (negsuc 0, [], record w { error = 5 });
  setsockopt = λ fd level name val w. (pos 0, w);
}

file_numbers : (xs : List ℤ) (ys : List ℕ) → map file xs ≡ map some ys → map pos_part xs ≡ ys
file_numbers [] [] e = refl
file_numbers [] (y ∷ ys) e = absurd (omega (arith, ap length e))
file_numbers (x ∷ xs) [] e = absurd (omega (arith, ap length e))
file_numbers (pos x ∷ xs) (y ∷ ys) e =
    ap₂ (λ b bs. b ∷ bs) (ground arith) (file_numbers xs ys (ap tail e))
file_numbers (negsuc x ∷ xs) (y ∷ ys) e = absurd (ground arith)

sends_law :
    (msg : MsgHdr) (w : Wire) (n : ℕ) (w' : Wire) (files : List ℕ)
    → sendmsg msg w ≡ (pos n, w')
    → msg.cmsg_level ≡ sol_socket
    → msg.cmsg_type ≡ scm_rights
    → 16 ≤ msg.cmsg_len
    → msg.cmsg_len ≤ msg.controllen
    → map file (carried msg) ≡ map some files
    → w'.waiting ≡ w.waiting ++ (record { size = msg.iov; files = files } ∷ [])
unfolding sendmsg
sends_law msg w n w' files e level type header within same =
    let whole : rights msg ≡ carried msg = ground arith in
    ap (λ r. r.1.waiting) (sym e)
    ∙ ap (λ fs. w.waiting ++ (record { size = msg.iov; files = fs } ∷ []))
        (ap (map pos_part) whole ∙ file_numbers (carried msg) files same)

pub send_law : SendMsgLaw api (pos 5) (λ w. file) (λ w. w.waiting)
send_law = record {
  sends = λ msg flags w n w' files e level type header within same.
      (sends_law msg w n w' files e level type header within same, refl);
  refuses = λ msg flags w e w' h. unfold sendmsg in cc;
}

file_pos : (ys : List ℕ) → map file (take (length ys) (map pos ys)) ≡ map some ys
file_pos [] = refl
file_pos (y ∷ ys) = ap (◌∷◌ (some y)) (file_pos ys)

module _ (msg : MsgHdr) (w : Wire) (n : ℕ) (msg' : MsgHdr) (w' : Wire) (p : Packet ℕ)
    (ps : List (Packet ℕ)) (e : recvmsg_of msg w w.waiting ≡ (pos n, msg', w'))
    (waits : w.waiting ≡ p ∷ ps) (fits : 16 + length p.files * 4 ≤ msg.controllen) where
  came : recvmsg_of msg w (p ∷ ps) ≡ (pos n, msg', w')
  came = ap (recvmsg_of msg w) (sym waits) ∙ e

  whole : take (space msg) p.files ≡ p.files
  whole = take-all (space msg) p.files (omega arith)

  came_space : msg'.controllen ≡ cmsg_space_of (length p.files * 4)
  unfolding recvmsg_of
  came_space =
      ap (λ r. r.1.controllen) (sym came)
      ∙ ap (λ (xs : List ℕ). cmsg_space_of (length xs * 4)) whole

  came_files : map file (take (length p.files) msg'.data_fds) ≡ map some p.files
  unfolding recvmsg_of
  came_files =
      ap (λ r. map file (take (length p.files) r.1.data_fds)) (sym came)
      ∙ ap (λ (xs : List ℕ). map file (take (length p.files) (map pos xs))) whole
      ∙ file_pos p.files

  came_iov : msg'.iov ≡ p.size
  unfolding recvmsg_of
  came_iov = ap (λ r. r.1.iov) (sym came)

  came_rest : w'.waiting ≡ ps
  unfolding recvmsg_of
  came_rest = ap (λ r. r.2.waiting) (sym came)

pub recv_law : RecvMsgLaw api (pos 5) (λ w. file) (λ w. w.waiting)
recv_law = record {
  delivers = λ msg flags w n msg' w' p ps e waits fits. (
    came_iov msg w n msg' w' p ps e waits fits,
    (λ _. omega (arith, came_space msg w n msg' w' p ps e waits fits)),
    came_files msg w n msg' w' p ps e waits fits,
    came_rest msg w n msg' w' p ps e waits fits,
  );
  keeps = λ msg flags w n msg' w' e d f h. h;
}

-- ===== src/FdPass/Kernel.antt =====
-- What sendmsg(2) and recvmsg(2) promise of a unix datagram socket that passes descriptors. A process
-- has a table of its open files; a message carries files, and the receiver has numbers of its own for
-- them.
use fdcpp.Base.{
  drop, zero, suc, ℕ, ◌+◌, ◌-◌, ◌*◌, ◌/◌, ◌≤◌, ◌≡◌, ◌≢◌, ℤ, pos, negsuc, List, [], ◌∷◌, ◌++◌,
  length, take, map, Option, some,
}
use fdcpp.Socket.{SocketOs, MsgHdr}
use fdcpp.FdPass.{sol_socket, scm_rights}

-- The number that is sent along, and the files.
pub record Packet (F : Type 0) : Type 0 where
  pub size : ℕ
  pub files : List F

-- `CMSG_LEN` holds the header of 16 bytes and four bytes for each number.
abbrev pub carried : MsgHdr → List ℤ
carried msg = take ((msg.cmsg_len - 16) / 4) msg.data_fds

-- A success puts one message behind the others, which carries the files of the control message if that
-- is one of SCM_RIGHTS and lies in the control buffer; a failure sends nothing.
pub record SendMsgLaw {W : Type 0} (api : SocketOs W) (fd : ℤ) {F : Type 0}
    (table : W → ℤ → Option F) (queue : W → List (Packet F)) : Type 0 where
  pub sends :
      (msg : MsgHdr) (flags : ℕ) (w : W) (n : ℕ) (w' : W) (files : List F)
      → api.sendmsg fd msg flags w ≡ (pos n, w')
      → msg.cmsg_level ≡ sol_socket
      → msg.cmsg_type ≡ scm_rights
      → 16 ≤ msg.cmsg_len
      → msg.cmsg_len ≤ msg.controllen
      → map (table w) (carried msg) ≡ map some files
      → (queue w' ≡ queue w ++ (record { size = msg.iov; files = files } ∷ []))
        × (table w' ≡ table w)
  pub refuses :
      (msg : MsgHdr) (flags : ℕ) (w : W) (e : ℕ) (w' : W)
      → api.sendmsg fd msg flags w ≡ (negsuc e, w')
      → queue w' ≡ queue w

-- A success takes the first message. Its files have new numbers if the control buffer has space for
-- them; the numbers that were open before stay.
pub record RecvMsgLaw {W : Type 0} (api : SocketOs W) (fd : ℤ) {F : Type 0}
    (table : W → ℤ → Option F) (queue : W → List (Packet F)) : Type 0 where
  pub delivers :
      (msg : MsgHdr) (flags : ℕ) (w : W) (n : ℕ) (msg' : MsgHdr) (w' : W) (p : Packet F)
      (ps : List (Packet F))
      → api.recvmsg fd msg flags w ≡ (pos n, msg', w')
      → queue w ≡ p ∷ ps
      → 16 + length p.files * 4 ≤ msg.controllen
      → (msg'.iov ≡ p.size)
        × (p.files ≢ [] → 16 + length p.files * 4 ≤ msg'.controllen)
        × (map (table w') (take (length p.files) msg'.data_fds) ≡ map some p.files)
        × (queue w' ≡ ps)
  pub keeps :
      (msg : MsgHdr) (flags : ℕ) (w : W) (n : ℕ) (msg' : MsgHdr) (w' : W)
      → api.recvmsg fd msg flags w ≡ (pos n, msg', w')
      → (d : ℤ) (f : F) → table w d ≡ some f
      → table w' d ≡ some f

-- The messages in which `size` files go, ten to each: `fuel` is at least the number of the files.
unfoldable pub packets : {F : Type 0} → ℕ → ℕ → List F → List (Packet F)
packets fuel size [] = []
packets zero size (f ∷ fs) = []
packets (suc fuel) size (f ∷ fs) =
    record { size = size; files = take 10 (f ∷ fs) } ∷ packets fuel size (drop 10 (f ∷ fs))

-- ===== src/FdPass/Sending.antt =====
-- The sending function against the messages that the receiver finds.
use fdcpp.Base.{
  length-drop, ℕ, zero, suc, ◌+◌, ◌-◌, ◌*◌, ◌/◌, ◌≤◌, ◌≡◌, refl, sym, ap, ◌∙◌, ℤ, List, [], ◌∷◌,
  ◌++◌, length, take, drop, min, map, Option, some, append-nil, append_assoc, take-append_of_le,
  take-all, length-take, arith,
}
use fdcpp.Effect.Ends
use fdcpp.Effect.Ends.{Ends, returns, throws}
use fdcpp.Os.Checked.{counted-Ends}
use fdcpp.Descriptor.{Descriptor}
use fdcpp.Socket.{SocketOs, MsgHdr, msg_nosignal}
use fdcpp.Socket
use fdcpp.FdPass.{sol_socket, scm_rights, batch_msg, fresh_msg, send_batches, send}
use fdcpp.FdPass.Lists.{same_length, same_take, same_drop}
use fdcpp.FdPass.Kernel.{Packet, carried, SendMsgLaw, packets}

module _ {A : Type 0} where
  take-min : (n : ℕ) (xs : List A) → take (min (length xs) n) xs ≡ take n xs
  take-min zero xs = let e : min (length xs) 0 ≡ 0 = omega arith in rw e refl
  take-min (suc n) [] = let e : min 0 (suc n) ≡ 0 = omega arith in rw e refl
  take-min (suc n) (x ∷ xs) =
      let e : min (suc (length xs)) (suc n) ≡ suc (min (length xs) n) = omega arith in
      rw e (ap (◌∷◌ x) (take-min n xs))

  drop-min : (n : ℕ) (xs : List A) → drop (min (length xs) n) xs ≡ drop n xs
  drop-min zero xs = let e : min (length xs) 0 ≡ 0 = omega arith in rw e refl
  drop-min (suc n) [] = let e : min 0 (suc n) ≡ 0 = omega arith in rw e refl
  drop-min (suc n) (x ∷ xs) =
      let e : min (suc (length xs)) (suc n) ≡ suc (min (length xs) n) = omega arith in
      rw e (drop-min n xs)

-- One message behind others, and the rest behind it.
put_behind :
    {A : Type 0} (before rest : List A) (a : A) {middle after : List A}
    → middle ≡ before ++ (a ∷ [])
    → after ≡ middle ++ rest
    → after ≡ before ++ (a ∷ rest)
put_behind before rest a e f = rw (f, e) (append_assoc before (a ∷ []) rest)

-- The control message is one of descriptors.
abbrev IsRights : MsgHdr → Type 0
IsRights msg = (msg.cmsg_level ≡ sol_socket) × (msg.cmsg_type ≡ scm_rights)

-- A message carries the first ten of the descriptors, whatever its buffer held.
pub carried-batch_msg : (msg : MsgHdr) (fds : List ℤ) → carried (batch_msg msg fds) ≡ take 10 fds
carried-batch_msg msg fds =
    let n = min (length fds) 10 in
    let count : (16 + n * 4 - 16) / 4 ≡ n = omega arith in
    let fits : n ≤ length (take n fds) = omega (arith, length-take n fds) in
    ap (λ m. take m (take n fds ++ drop n msg.data_fds)) count
    ∙ take-append_of_le n (take n fds) (drop n msg.data_fds) fits
    ∙ take-all n (take n fds) (omega (arith, length-take n fds))
    ∙ take-min 10 fds

module _ {W : Type 0} (api : SocketOs W) (sock : Descriptor) {F : Type 0} {table : W → ℤ → Option F}
    {queue : W → List (Packet F)} (law : SendMsgLaw api sock.fd table queue) where
  sendmsg-Ends :
      (msg : MsgHdr) (w : W) (files : List F)
      → IsRights msg
      → 16 ≤ msg.cmsg_len
      → msg.cmsg_len ≤ msg.controllen
      → map (table w) (carried msg) ≡ map some files
      → Ends
          (λ _ w'.
            (queue w' ≡ queue w ++ (record { size = msg.iov; files = files } ∷ []))
            × (table w' ≡ table w))
          (λ _ w'. queue w' ≡ queue w)
          (Socket.sendmsg api sock msg msg_nosignal w)
  unfolding Socket.sendmsg
  sendmsg-Ends msg w files rights header within e =
      counted-Ends api.os _ _ (api.sendmsg sock.fd msg msg_nosignal w)
        (λ n w' r. law.sends msg msg_nosignal w n w' files r rights.0 rights.1 header within e)
        (λ n w' r. law.refuses msg msg_nosignal w n w' r)

  -- Afterwards the messages stand behind those before, all of them or, at an exception, some.
  abbrev Queued : W → List (Packet F) → W → Type 0
  Queued w ps w' = queue w' ≡ queue w ++ ps

  batch_same :
      (msg : MsgHdr) (fd : ℤ) (fds : List ℤ) (f : F) (files : List F) (w : W)
      → map (table w) (fd ∷ fds) ≡ map some (f ∷ files)
      → map (table w) (carried (batch_msg msg (fd ∷ fds))) ≡ map some (take 10 (f ∷ files))
  batch_same msg fd fds f files w e =
      ap (map (table w)) (carried-batch_msg msg (fd ∷ fds))
      ∙ same_take (table w) some (fd ∷ fds) (f ∷ files) e 10

  rest_same :
      (fd : ℤ) (fds : List ℤ) (f : F) (files : List F) (w w' : W)
      → map (table w) (fd ∷ fds) ≡ map some (f ∷ files)
      → table w' ≡ table w
      → map (table w') (drop (min (length (fd ∷ fds)) 10) (fd ∷ fds))
        ≡ map some (drop 10 (f ∷ files))
  rest_same fd fds f files w w' e same =
      rw (same, drop-min 10 (fd ∷ fds)) (same_drop (table w) some (fd ∷ fds) (f ∷ files) e 10)

  send_batches-Ends :
      (fuel : ℕ) (msg : MsgHdr) (fds : List ℤ) (files : List F) (w : W)
      → IsRights msg
      → map (table w) fds ≡ map some files
      → length fds ≤ fuel
      → Ends
          (λ _ w'. Queued w (packets fuel msg.iov files) w')
          (λ _ w'. (k : ℕ) × Queued w (take k (packets fuel msg.iov files)) w')
          (send_batches api fuel sock msg fds w)
  unfolding send_batches packets
  send_batches-Ends fuel msg [] [] w rights e h = returns (sym (append-nil (queue w)))
  send_batches-Ends fuel msg [] (f ∷ files) w rights e h = absurd (omega (arith, ap length e))
  send_batches-Ends fuel msg (fd ∷ fds) [] w rights e h = absurd (omega (arith, ap length e))
  send_batches-Ends zero msg (fd ∷ fds) (f ∷ files) w rights e h = absurd (omega arith)
  send_batches-Ends (suc fuel) msg (fd ∷ fds) (f ∷ files) w rights e h =
      Ends.bind
        (sendmsg-Ends (batch_msg msg (fd ∷ fds)) w (take 10 (f ∷ files)) rights (omega arith)
          (omega arith) (batch_same msg fd fds f files w e))
        (λ _ w' p.
          Ends.mono
            (send_batches-Ends fuel (batch_msg msg (fd ∷ fds))
              (drop (min (length (fd ∷ fds)) 10) (fd ∷ fds)) (drop 10 (f ∷ files)) w' rights
              (rest_same fd fds f files w w' e p.1)
              (omega (arith, length-drop (min (length (fd ∷ fds)) 10) (fd ∷ fds))))
            (λ _ t q. put_behind _ _ _ p.0 q) (λ _ t q. (suc q.0, put_behind _ _ _ p.0 q.1)))
        (λ _ w' p. (0, rw append-nil p))

  -- `send` puts the messages for all the files behind those that wait, or throws after some of them.
  pub send-Ends :
      (buffer fds : List ℤ) (files : List F) (w : W)
      → map (table w) fds ≡ map some files
      → Ends
          (λ _ w'. queue w' ≡ queue w ++ packets (length files) (length files) files)
          (λ _ w'.
            (k : ℕ) × (queue w' ≡ queue w ++ take k (packets (length files) (length files) files)))
          (send api buffer sock fds w)
  unfolding send
  send-Ends buffer fds files w e =
      let n = same_length (table w) some fds files e in
      rw n (
        send_batches-Ends (length files) (fresh_msg (length files) buffer) fds files w (refl, refl)
          e (omega arith))

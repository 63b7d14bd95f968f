-- ===== src/FdPass/Receiving.antt =====
-- The receiving function against the messages that wait.
use fdcpp.Base.{
  subst, drop-all, take-all, ap₂, ◌^◌, ℕ, zero, suc, ◌+◌, ◌-◌, ◌*◌, ◌≤◌, ◌<◌, ◌≡◌, refl, sym, ap,
  ◌∙◌, inl, inr, ℤ, List, [], ◌∷◌, ◌++◌, length, take, drop, min, map, map-map, Option, some, true,
  false, ◌==◌, Bool-cases, append_assoc, take-append-drop, length-take, length-drop, length-append,
  arith,
}
use fdcpp.Effect.{ok}
use fdcpp.Effect.Ends
use fdcpp.Effect.Ends.{Ends, returns, throws}
use fdcpp.Descriptor.{Descriptor, descriptor}
use fdcpp.Socket.{SocketOs, MsgHdr, msg_nosignal}
use fdcpp.FdPass.{fresh_msg, close_all, recv_loop, recv}
use fdcpp.FdPass.Lists.{same_length, kept, map-append}
use fdcpp.FdPass.Rounds.{closing-Ends, take_batch_lem, Came, Refused, recvmsg-Ends}
use fdcpp.FdPass.Kernel.{Packet, RecvMsgLaw, packets}

module _ {W : Type 0} (api : SocketOs W) (sock : Descriptor) {F : Type 0} {table : W → ℤ → Option F}
    {queue : W → List (Packet F)} (law : RecvMsgLaw api sock.fd table queue) where
  -- The files that the numbers of the vector stand for.
  abbrev pub opened : W → List Descriptor → List (Option F)
  opened w v = map (λ (d : Descriptor). table w d.fd) v

  abbrev Received : List F → List (Packet F) → List Descriptor → W → Type 0
  Received files rest v w = (opened w v ≡ map some files) × (queue w ≡ rest)

  -- One round, from what the message brought.
  module _ {size : ℕ} (files got : List F) (msg' : MsgHdr) (v : List Descriptor) (w w' : W)
      (iov : msg'.iov ≡ size) (total : size ≡ length got + length files)
      (before : opened w v ≡ map some got)
      (keep : (d : ℤ) (f : F) → table w d ≡ some f → table w' d ≡ some f)
      (came : map (table w') (take (length (take 10 files)) msg'.data_fds)
        ≡ map some (take 10 files)) where
    abbrev joined : List Descriptor
    joined = v ++ map descriptor (take (min (msg'.iov - length v) 10) msg'.data_fds)

    count : min (msg'.iov - length v) 10 ≡ length (take 10 files)
    count =
        omega (
          arith,
          iov,
          total,
          length-take 10 files,
          same_length (λ d. table w d.fd) some v got before,
        )

    joined_open : opened w' joined ≡ map some (got ++ take 10 files)
    joined_open =
        map-append (λ (d : Descriptor). table w' d.fd) v _
        ∙ ap₂ (◌++◌)
            (kept (λ d. table w d.fd) (λ d. table w' d.fd) some (λ d f. keep d.fd f) v got before)
            (map-map _ descriptor _ ∙ ap (λ n. map (table w') (take n msg'.data_fds)) count ∙ came)
        ∙ sym (map-append some got (take 10 files))

    joined_size : length joined ≡ length got + min 10 (length files)
    joined_size =
        same_length (λ d. table w' d.fd) some joined (got ++ take 10 files) joined_open
        ∙ omega (arith, length-append got (take 10 files), length-take 10 files)

  -- What is said of the vector at each round, and what of the system once an exception has closed it.
  pub record Round (J : List Descriptor → W → Type 0) (E : W → Type 0) : Type 0 where
    pub grows :
        (msg : MsgHdr) (v : List Descriptor) (w : W) (msg' : MsgHdr) (w' : W) (p : Packet F)
        (ps : List (Packet F))
        → J v w
        → Came api sock msg w msg' w'
        → queue w ≡ p ∷ ps
        → 16 + length p.files * 4 ≤ msg.controllen
        → J (v ++ map descriptor (take (length p.files) msg'.data_fds)) w'
    pub fails :
        (msg : MsgHdr) (v : List Descriptor) (w t w' : W)
        → J v w
        → Refused api sock msg w t
        → close_all api v t ≡ ok tt w'
        → E w'

  module _ {J : List Descriptor → W → Type 0} {E : W → Type 0} (round : Round J E) where
    recv_loop-Ends :
        (fuel k size : ℕ) (files got : List F) (msg : MsgHdr) (v : List Descriptor)
        (rest : List (Packet F)) (w : W)
        → queue w ≡ packets k size files ++ rest
        → 0 < length files
        → length files ≤ k
        → length files ≤ fuel
        → size ≡ length got + length files
        → size < 2 ^ 63
        → opened w v ≡ map some got
        → J v w
        → 16 + min 10 (length files) * 4 ≤ msg.controllen
        → Ends
            (λ v' w'. Received (got ++ files) rest v' w' × J v' w')
            (λ _ w'. E w')
            (recv_loop api fuel sock msg v w)
    unfolding recv_loop packets
    recv_loop-Ends fuel k size [] got msg v rest w waits some_left k_enough enough total long before
          j space =
        absurd (omega arith)
    recv_loop-Ends zero k size (f ∷ fs) got msg v rest w waits some_left k_enough enough total long
          before j space =
        absurd (omega arith)
    recv_loop-Ends (suc fuel) zero size (f ∷ fs) got msg v rest w waits some_left k_enough enough
          total long before j space =
        absurd (omega arith)
    recv_loop-Ends (suc fuel) (suc k) size (f ∷ fs) got msg v rest w waits some_left k_enough enough
          total long before j space =
        Ends.bind
          (closing-Ends api v (recvmsg-Ends api sock msg w) (λ t u q. round.fails msg v w t u j q))
          (λ r w' q.
            let files = f ∷ fs in
            let d =
              law.delivers msg msg_nosignal w q.0 r.1 w'
                (record { size = size; files = take 10 files })
                (packets k size (drop 10 files) ++ rest) q.1 waits
                (omega (arith, length-take 10 files, space)) in
            let keep = law.keeps msg msg_nosignal w q.0 r.1 w' q.1 in
            let v' = joined files got r.1 v w w' d.0 total before keep d.2 in
            let now = joined_open files got r.1 v w w' d.0 total before keep d.2 in
            let len = joined_size files got r.1 v w w' d.0 total before keep d.2 in
            let j' =
              subst (λ n. J (v ++ map descriptor (take n r.1.data_fds)) w')
                (sym (count files got r.1 v w w' d.0 total before keep d.2))
                (round.grows msg v w r.1 w' (record { size = size; files = take 10 files })
                  (packets k size (drop 10 files) ++ rest) j q waits
                  (omega (arith, length-take 10 files, space))) in
            let fits = d.1 (λ h. absurd (omega (arith, ap length h))) in
            let all_here : (length v' == r.1.iov) ≡ true → length files ≤ 10 =
              λ h. ground (arith, len, d.0, total) in
            let more_left : (length v' == r.1.iov) ≡ false → 10 < length files =
              λ h. ground (arith, len, d.0, total) in
            rw
              (take_batch_lem api r.1 v w'
                (omega (arith, d.0, total, same_length (λ d. table w d.fd) some v got before))
                (omega (arith, d.0, long)) (omega (arith, fits, length-take 10 files)))
              (elim (Bool-cases (length v' == r.1.iov)) [
                | inl done ↦ rw done (
                    returns (
                      (
                        now ∙ ap (λ xs. map some (got ++ xs)) (take-all 10 files (all_here done)),
                        d.3
                            ∙ ap (λ xs. packets k size xs ++ rest)
                                (drop-all 10 files (all_here done)),
                      ),
                      j',
                    ))
                | inr more ↦ rw more (
                    Ends.mono
                      (recv_loop-Ends fuel k size (drop 10 files) (got ++ take 10 files) r.1 v' rest
                        w' d.3 (omega (arith, length-drop 10 files, more_left more))
                        (omega (arith, length-drop 10 files)) (omega (arith, length-drop 10 files))
                        (omega (
                          arith,
                          total,
                          length-append got (take 10 files),
                          length-take 10 files,
                          length-drop 10 files,
                        ))
                        long now j'
                        (omega (
                          arith,
                          fits,
                          more_left more,
                          length-take 10 files,
                          length-drop 10 files,
                        )))
                      (λ _ t p. (
                        (
                          p.0.0
                              ∙ ap (map some) (
                                  append_assoc got (take 10 files) (drop 10 files)
                                  ∙ ap (◌++◌ got) (take-append-drop 10 files)),
                          p.0.1,
                        ),
                        p.1,
                      ))
                      (λ _ _ q. q))
              ]))
          (λ _ _ q. q)

    -- If messages for some files wait, fewer than 2 ^ 63, `recv` yields descriptors for these files, in their order, takes
    -- no other message, and what is said of the vector holds of it; else it throws.
    pub recv-Round :
        (fuel : ℕ) (buffer : List ℤ) (files : List F) (rest : List (Packet F)) (w : W)
        → queue w ≡ packets (length files) (length files) files ++ rest
        → 0 < length files
        → length files ≤ fuel
        → length files < 2 ^ 63
        → J [] w
        → Ends
            (λ v w'. ((opened w' v ≡ map some files) × (queue w' ≡ rest)) × J v w')
            (λ _ w'. E w')
            (recv api fuel buffer sock w)
    unfolding recv
    recv-Round fuel buffer files rest w waits some_left enough long j =
        recv_loop-Ends fuel (length files) (length files) files [] (fresh_msg 0 buffer) [] rest w
          waits some_left (omega arith) enough (omega arith) long refl j (omega arith)

  -- If messages for some files wait, fewer than 2 ^ 63, `recv` yields descriptors for these files, in
  -- their order, and takes no other message; else it throws.
  pub recv-Ends :
      (fuel : ℕ) (buffer : List ℤ) (files : List F) (rest : List (Packet F)) (w : W)
      → queue w ≡ packets (length files) (length files) files ++ rest
      → 0 < length files
      → length files ≤ fuel
      → length files < 2 ^ 63
      → Ends
          (λ v w'. (opened w' v ≡ map some files) × (queue w' ≡ rest))
          (λ _ _. Unit)
          (recv api fuel buffer sock w)
  recv-Ends fuel buffer files rest w waits some_left enough long =
      Ends.mono
        (recv-Round {J = λ _ _. Unit} {E = λ _. Unit}
          (record { grows = λ _ _ _ _ _ _ _ _ _ _ _. tt; fails = λ _ _ _ _ _ _ _ _. tt }) fuel
          buffer files rest w waits some_left enough long tt)
        (λ _ _ p. p.0) (λ _ _ _. tt)

-- ===== src/BufferedSocket/Output.antt =====
-- The output side against the stream that the peer receives.
use fdcpp.Base.{
  ℕ, zero, suc, ◌+◌, ◌-◌, ◌^◌, ◌≤◌, ◌<◌, ◌≡◌, ◌≢◌, ap, ◌∙◌, inl, inr, List, [], ◌++◌, true, false,
  length, take, drop, ◌==◌, append_assoc, append-nil, Bool-cases, arith, take-append-drop, take-add,
  drop-drop, length-drop, take-all,
}
use fdcpp.Effect.Ends
use fdcpp.Effect.Ends.{Ends, returns, throws}
use fdcpp.Descriptor.{Descriptor}
use fdcpp.Socket.{SocketOs}
use fdcpp.Socket.Stream.{SendLaw, send-Ends}
use fdcpp.BufferedSocket.{add_size, send_loop, send_all}

-- One round of the loop: no wrap, and progress unless the round was the last.
module _ (bytes : List ℕ) (n m : ℕ) (le : n ≤ length bytes) (small : length bytes < 2 ^ 64) where
  round_bounds : m ≤ length (drop n bytes) → (add_size n m ≡ n + m) × (add_size n m ≤ length bytes)
  round_bounds h = omega (arith, length-drop n bytes)

  round_left :
      m ≤ length (drop n bytes) → (add_size n m == length bytes) ≡ false → drop n bytes ≢ []
  round_left h more e = ground (arith, length-drop n bytes, ap length e)

  round_done :
      m ≤ length (drop n bytes) → (add_size n m == length bytes) ≡ true → m ≡ length (drop n bytes)
  round_done h done = ground (arith, length-drop n bytes)

module _ (bytes : List ℕ) (n m : ℕ) (s : List ℕ) {t u : List ℕ}
    (first : t ≡ s ++ take m (drop n bytes)) where
  resume_all : u ≡ t ++ drop (n + m) bytes → u ≡ s ++ drop n bytes
  resume_all e =
      rw (e, first, append_assoc, ← drop-drop m n bytes, take-append-drop m (drop n bytes))

  resume_part :
      (k : ℕ) → u ≡ t ++ take k (drop (n + m) bytes) → u ≡ s ++ take (m + k) (drop n bytes)
  resume_part k e = rw (e, first, append_assoc, ← drop-drop m n bytes, take-add m k (drop n bytes))

module _ {W : Type 0} (api : SocketOs W) (sock : Descriptor) {sent : W → List ℕ}
    (law : SendLaw api sock.fd sent) where
  -- From `n` on the loop sends the rest, or throws after some part of it.
  send_loop-Ends :
      (fuel : ℕ) (bytes : List ℕ) (n : ℕ) (w : W)
      → n ≤ length bytes
      → length bytes < 2 ^ 64
      → length bytes - n < fuel
      → Ends
          (λ _ w'. sent w' ≡ sent w ++ drop n bytes)
          (λ _ w'. (k : ℕ) × (sent w' ≡ sent w ++ take k (drop n bytes)))
          (send_loop api fuel sock bytes n w)
  unfolding send_loop
  send_loop-Ends zero bytes n w le small f = absurd (omega arith)
  send_loop-Ends (suc fuel) bytes n w le small f =
      Ends.bind (send-Ends api sock law (drop n bytes) _ w)
        (λ m w' p. elim (Bool-cases (add_size n m == length bytes)) [
          | inl done ↦ rw done (
              returns (
                p.1
                ∙ ap (◌++◌ (sent w)) (
                    take-all m (drop n bytes)
                      (omega (arith, round_done bytes n m le small p.0 done)))))
          | inr more ↦
              let sum = (round_bounds bytes n m le small p.0).0 in
              let moved = p.2 (round_left bytes n m le small p.0 more) in
              rw (more, sum)
                (Ends.mono
                  (send_loop-Ends fuel bytes (n + m) w' (omega (arith, length-drop n bytes)) small
                    (omega (arith, length-drop n bytes)))
                  (λ _ t q. resume_all bytes n m (sent w) p.1 q)
                  (λ _ t q. (m + q.0, resume_part bytes n m (sent w) p.1 q.0 q.1)))
        ])
        (λ e w' p. (0, rw append-nil p))

  -- `send_all` sends all the bytes in order, or throws after a part of them; it ends in both cases.
  pub send_all-Ends :
      (bytes : List ℕ) (w : W)
      → length bytes < 2 ^ 64
      → Ends
          (λ _ w'. sent w' ≡ sent w ++ bytes)
          (λ _ w'. (k : ℕ) × (sent w' ≡ sent w ++ take k bytes))
          (send_all api sock bytes w)
  unfolding send_all
  send_all-Ends bytes w small =
      send_loop-Ends (length bytes + 1) bytes 0 w (omega arith) small (omega arith)

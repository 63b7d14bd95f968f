-- ===== src/BufferedSocket/Retries.antt =====
-- What a peer gets when a flush that threw is called again.
mod Tests
use fdcpp.Base.{
  arith, ◌+◌, ℕ, zero, suc, ◌≡◌, refl, sym, ap, ap₂, ◌∙◌, subst, List, [], ◌∷◌, ◌++◌, length, take,
  append-nil, append_assoc,
}
use fdcpp.Effect.{Error, throw}
use fdcpp.Effect.Ends
use fdcpp.Effect.Ends.{Ends, Post, post}
use fdcpp.Socket.{SocketOs}
use fdcpp.Socket.Stream.{SendLaw}
use fdcpp.BufferedSocket.{BufferedSocket, State, pending, flush}
use fdcpp.BufferedSocket.Invariant.{IsValid}
use fdcpp.BufferedSocket.Appending.{flushed}
use fdcpp.BufferedSocket.Writing.{flush-Ends}

-- The front of the bytes, once for each count.
abbrev pub fronts : List ℕ → List ℕ → List ℕ
fronts bytes [] = []
fronts bytes (k ∷ ks) = take k bytes ++ fronts bytes ks

module _ {W : Type 0} (api : SocketOs W) where
  -- The states after some flushes that all threw.
  pub data Tries (s : State W) : ℕ → State W → Type 0 where
    none_yet : Tries s zero s
    again :
        {n : ℕ} {t u : State W} (e : Error)
        → Tries s n t
        → flush api t ≡ throw e u
        → Tries s (suc n) u

append_front :
    (bytes ks : List ℕ) (k : ℕ) → fronts bytes (ks ++ (k ∷ [])) ≡ fronts bytes ks ++ take k bytes
append_front bytes [] k = append-nil (take k bytes)
append_front bytes (j ∷ ks) k =
    ap (λ xs. take j bytes ++ xs) (append_front bytes ks k)
    ∙ sym (append_assoc (take j bytes) (fronts bytes ks) (take k bytes))

length-append_one : (ks : List ℕ) (k : ℕ) → length (ks ++ (k ∷ [])) ≡ suc (length ks)
length-append_one [] k = refl
length-append_one (j ∷ ks) k = ap suc (length-append_one ks k)

module _ {W : Type 0} (api : SocketOs W) {sent : W → List ℕ} (s : State W)
    (law : SendLaw api s.self.socket.fd sent) (v : IsValid s.self) where
  -- The object is as it was, and so many fronts of what is pending have been sent.
  abbrev Resent : ℕ → State W → Type 0
  Resent n t =
      (t.self ≡ s.self)
      × ((ks : List ℕ) × (length ks ≡ n)
          × (sent t.world ≡ sent s.world ++ fronts (pending s.self) ks))

  flush-Resent :
      (n : ℕ) (t : State W)
      → Resent n t
      → Ends
          (λ _ u.
            (u.self ≡ flushed s.self)
            × ((ks : List ℕ) × (length ks ≡ n)
                × (sent u.world ≡ sent s.world ++ (fronts (pending s.self) ks ++ pending s.self))))
          (λ _ u. Resent (suc n) u)
          (flush api t)
  flush-Resent n t (e, (ks, count, out)) =
      let here = subst (λ (b : BufferedSocket). SendLaw api b.socket.fd sent) (sym e) law in
      Ends.mono (flush-Ends api t here (subst IsValid (sym e) v))
        (λ _ u p. (
          p.0 ∙ ap {A = BufferedSocket} flushed e,
          (
            ks,
            count,
            p.1
                ∙ ap₂ ◌++◌ out (ap {A = BufferedSocket} pending e)
                ∙ append_assoc (sent s.world) (fronts (pending s.self) ks) (pending s.self),
          ),
        ))
        (λ _ u p. (
          p.0 ∙ e,
          (
            ks ++ (p.1.0 ∷ []),
            length-append_one ks p.1.0 ∙ ap suc count,
            p.1.1
                ∙ ap₂ ◌++◌ out (ap {A = BufferedSocket} (λ b. take p.1.0 (pending b)) e)
                ∙ append_assoc (sent s.world) (fronts (pending s.self) ks)
                    (take p.1.0 (pending s.self))
                ∙ ap (λ xs. sent s.world ++ xs) (sym (append_front (pending s.self) ks p.1.0)),
          ),
        ))

  Tries-Resent : {n : ℕ} {t : State W} → Tries api s n t → Resent n t
  Tries-Resent none_yet = (refl, ([], refl, sym (append-nil (sent s.world))))
  Tries-Resent (again {n} {t} e r eq) =
      subst
        (Post
          (λ _ u.
            (u.self ≡ flushed s.self)
            × ((ks : List ℕ) × (length ks ≡ n)
                × (sent u.world ≡ sent s.world ++ (fronts (pending s.self) ks ++ pending s.self))))
          (λ _ u. Resent (suc n) u))
        eq (post (flush-Resent n t (Tries-Resent r)))

  -- After any number of flushes that threw, the next flush of a valid object over a socket that keeps
  -- its promises returns or throws. If it returns, the peer has been sent a front of the pending bytes
  -- for each flush that threw, and then all of them, and nothing is pending. If it throws, that is one
  -- front more, and the object is as it was.
  pub flush-Tries :
      (n : ℕ) (t : State W)
      → Tries api s n t
      → Ends
          (λ _ u.
            (pending u.self ≡ [])
            × ((ks : List ℕ) × (length ks ≡ n)
                × (sent u.world ≡ sent s.world ++ (fronts (pending s.self) ks ++ pending s.self))))
          (λ _ u.
            (u.self ≡ s.self)
            × ((ks : List ℕ) × (length ks ≡ n + 1)
                × (sent u.world ≡ sent s.world ++ fronts (pending s.self) ks)))
          (flush api t)
  flush-Tries n t r =
      Ends.mono (flush-Resent n t (Tries-Resent r))
        (λ _ u p. (ap {A = BufferedSocket} pending p.0, p.1))
        (λ _ u p. (p.0, (p.1.0, omega (arith, p.1.1), p.1.2)))

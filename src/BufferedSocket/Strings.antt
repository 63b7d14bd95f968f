-- ===== src/BufferedSocket/Strings.antt =====
-- `operator>>(std::string &)`: what it reads when the text and its terminator are in the buffer.
use fdcpp.Base.{
  ap₂, ℕ, suc, ◌-◌, ◌≤◌, ◌≡◌, ◌≢◌, refl, sym, ap, ◌∙◌, subst, List, [], ◌∷◌, ◌++◌, some, length,
  take, drop, arith, append_assoc, append_split, append-nil, length-append, take-append-drop,
}
use fdcpp.Effect.{pure, and_then}
use fdcpp.Effect.Ends
use fdcpp.Effect.Ends.{Ends, returns, throws}
use fdcpp.Descriptor.{Descriptor}
use fdcpp.Socket.{SocketOs}
use fdcpp.Socket.Stream.{RecvLaw}
use fdcpp.BufferedSocket.{BufferedSocket, State, block, unread, add_size}
use fdcpp.BufferedSocket.Invariant.{IsValid, SameOutput, SameOutput-refl}
use fdcpp.BufferedSocket.Indices.{length-unread}
use fdcpp.BufferedSocket.Receiving.{recv_if_possible-Ends}
use fdcpp.BufferedSocket.Draining.{input}
use fdcpp.BufferedSocket.Values.{strlen, read_chars, skip_terminator, read_string}
use fdcpp.BufferedSocket.Taking.{
  Took, input-Took, Took-trans, advance, length-front, Received-Took, buffered_read,
}

-- A text of the C library: no character is the terminator.
abbrev pub IsText : List ℕ → Type 0
IsText [] = Unit {0}
IsText (c ∷ cs) = (c ≢ 0) × IsText cs

strlen-text : (cs rest : List ℕ) → IsText cs → strlen (cs ++ (0 ∷ rest)) ≡ some (length cs)
unfolding strlen
strlen-text [] rest h = refl
strlen-text (c ∷ cs) rest h = ground (arith, strlen-text cs rest h.1)

-- One unread character, in front of others.
module _ {W : Type 0} (incoming : W → List ℕ) where
  one_taken :
      (s t : State W) (got xs : List ℕ) (x : ℕ)
      → unread s.self ≡ x ∷ xs
      → Took incoming s got t
      → length got ≡ 1
      → (got ≡ x ∷ []) × ((bytes : List ℕ) × (unread t.self ≡ xs ++ bytes))
  one_taken s t got xs x e p h =
      let split = append_split got (x ∷ []) (sym p.2.1 ∙ ap (λ ys. ys ++ p.2.0) e) h in
      (split.0, (p.2.0, split.1))

abbrev moved_on : {W : Type 0} → State W → State W
moved_on s = record s { self = record s.self { in_rd = add_size s.self.in_rd 1 } }

module _ {W : Type 0} (api : SocketOs W) (incoming : W → List ℕ) where
  law_of :
      (s t : State W)
      → SameOutput s.self t.self
      → RecvLaw api s.self.socket.fd incoming
      → RecvLaw api t.self.socket.fd incoming
  law_of s t same law = subst (λ (d : Descriptor). RecvLaw api d.fd incoming) (sym same.socket) law

  -- The loop takes the text off the unread bytes; if it throws, a part of the text is gone.
  read_chars-Ends :
      (c : ℕ) (cs rest val : List ℕ) (s : State W)
      → RecvLaw api s.self.socket.fd incoming
      → IsValid s.self
      → unread s.self ≡ cs ++ (0 ∷ rest)
      → Ends
          (λ got t. (got ≡ val ++ cs) × Took incoming s cs t)
          (λ _ t. (k : ℕ) × (input incoming s ≡ take k cs ++ input incoming t))
          (read_chars api (c ∷ []) (length cs) val s)
  unfolding read_chars
  read_chars-Ends c [] rest val s law v e =
      returns
        (sym (append-nil val), (v, SameOutput-refl s.self, ([], append-nil (unread s.self), refl)))
  read_chars-Ends c (x ∷ cs) rest val s law v e =
      Ends.bind
        (buffered_read api incoming s (c ∷ []) law v
          (omega (arith, ap length e, length-append cs (0 ∷ rest))))
        (λ got t p.
          let one = one_taken incoming s t got (cs ++ (0 ∷ rest)) x e p.0 p.1 in
          let next = one.1.1 ∙ append_assoc cs (0 ∷ rest) one.1.0 in
          Ends.mono
            (read_chars-Ends c cs (rest ++ one.1.0) (val ++ got) t (law_of s t p.0.1 law) p.0.0
              next)
            (λ out u q. (
              q.0 ∙ append_assoc val got cs ∙ ap (λ g. val ++ (g ++ cs)) one.0,
              subst (λ g. Took incoming s (g ++ cs) u) one.0
                  (Took-trans incoming s got t cs u p.0 q.1),
            ))
            (λ _ u q. (suc q.0, input-Took incoming s got t p.0 ∙ ap₂ ◌++◌ one.0 q.1)))
        (λ _ t p. (0, p))

  -- The terminator that follows the text is skipped.
  skip_terminator-Ends :
      (s : State W) (rest : List ℕ)
      → IsValid s.self
      → unread s.self ≡ 0 ∷ rest
      → Ends (λ _ t. Took incoming s (0 ∷ []) t) (λ _ _. ⊥) (skip_terminator api s)
  unfolding skip_terminator
  skip_terminator-Ends s rest v e =
      let some_left : 1 ≤ s.self.in_size - s.self.in_rd =
        omega (arith, length-unread s.self v, ap length e) in
      let moved = advance incoming s 1 v some_left in
      let one = one_taken incoming s _ _ rest 0 e moved (length-front incoming s 1 v some_left) in
      returns (subst (λ got. Took incoming s got (moved_on s)) one.0 moved)

  -- The text and its terminator, from an object that has them unread.
  text_taken :
      (c : ℕ) (cs rest : List ℕ) (s : State W)
      → RecvLaw api s.self.socket.fd incoming
      → IsValid s.self
      → unread s.self ≡ cs ++ (0 ∷ rest)
      → Ends
          (λ got t. (got ≡ cs) × Took incoming s (cs ++ (0 ∷ [])) t)
          (λ _ t. (k : ℕ) × (input incoming s ≡ take k cs ++ input incoming t))
          (and_then
            (read_chars api (c ∷ []) (length cs) [] s)
            (λ val u. and_then (skip_terminator api u) (λ _. pure val)))
  text_taken c cs rest s law v e =
      Ends.bind (read_chars-Ends c cs rest [] s law v e)
        (λ got t p.
          let left =
            (append_split cs cs
              (sym p.1.2.1 ∙ ap (λ xs. xs ++ p.1.2.0) e ∙ append_assoc cs (0 ∷ rest) p.1.2.0)
              refl).1 in
          Ends.bind (skip_terminator-Ends t (rest ++ p.1.2.0) p.1.0 left)
            (λ _ u q. returns (p.0, Took-trans incoming s cs t (0 ∷ []) u p.1 q))
            (λ _ _ q. absurd q))
        (λ _ _ p. p)

  -- `strlen` finds the text where it is unread, whatever lies behind.
  strlen-unread :
      (s : State W) (cs rest : List ℕ)
      → IsText cs
      → unread s.self ≡ cs ++ (0 ∷ rest)
      → strlen (drop s.self.in_rd (block s.self)) ≡ some (length cs)
  strlen-unread s cs rest h e =
      let after = drop s.self.in_rd (block s.self) in
      let n = s.self.in_size - s.self.in_rd in
      let there : after ≡ cs ++ (0 ∷ (rest ++ drop n after)) =
        sym (take-append-drop n after)
        ∙ ap (λ xs. xs ++ drop n after) e
        ∙ append_assoc cs (0 ∷ rest) (drop n after) in
      ap strlen there ∙ strlen-text cs (rest ++ drop n after) h

  -- A text that is unread with its terminator is read whole, and both are taken off the stream; if
  -- the read throws, what is gone is the start of the text. It never leaves the block.
  pub read_string-Ends :
      (c : ℕ) (cs rest : List ℕ) (s : State W)
      → RecvLaw api s.self.socket.fd incoming
      → IsValid s.self
      → IsText cs
      → unread s.self ≡ cs ++ (0 ∷ rest)
      → Ends
          (λ got t.
            (got ≡ cs)
            × IsValid t.self
            × SameOutput s.self t.self
            × (input incoming s ≡ (cs ++ (0 ∷ [])) ++ input incoming t))
          (λ _ t. (k : ℕ) × (input incoming s ≡ take k cs ++ input incoming t))
          (read_string api c s)
  unfolding read_string
  read_string-Ends c cs rest s law v h e =
      Ends.bind (recv_if_possible-Ends api s law v)
        (λ _ t p.
          let first = Received-Took api incoming s law v t p in
          let here = p.3.1 ∙ ap (λ xs. xs ++ p.3.0) e ∙ append_assoc cs (0 ∷ rest) p.3.0 in
          rw (strlen-unread t cs (rest ++ p.3.0) h here) (
            Ends.mono (text_taken c cs (rest ++ p.3.0) t (law_of s t p.1 law) p.0 here)
              (λ got u q.
                let all = Took-trans incoming s [] t (cs ++ (0 ∷ [])) u first q.1 in
                (q.0, all.0, all.1, input-Took incoming s (cs ++ (0 ∷ [])) u all))
              (λ _ u q. (q.0, input-Took incoming s [] t first ∙ q.1))))
        (λ _ t p. (0, ap₂ ◌++◌ (ap {A = BufferedSocket} unread (sym p.0.0)) (sym p.0.1)))

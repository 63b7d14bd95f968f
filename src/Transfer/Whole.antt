-- ===== src/Transfer/Whole.antt =====
-- Objects that are read whole.
use fdcpp.Base.{
  ℕ, zero, suc, ◌+◌, ◌-◌, ◌≤◌, ◌<◌, ◌^◌, ◌≡◌, ◌≢◌, ap, ◌∙◌, sym, refl, inl, inr, ℤ, pos, negsuc,
  List, [], ◌++◌, length, false, ◌==◌, Bool-cases, append_assoc, length-append, add_size, sub_size,
  arith,
}
use fdcpp.Effect.{Cmd}
use fdcpp.Effect.Ends
use fdcpp.Effect.Ends.{Ends, returns, throws}
use fdcpp.Os.{Os}
use fdcpp.Os.Checked.{stored-Ends}
use fdcpp.Descriptor.{Descriptor, read_in}
use fdcpp.Transfer.{read_loop, read_whole_in}

-- read(2) on `fd`: a success takes some of what there is to read, at least one byte if any was asked
-- for; a failure takes nothing.
pub record ReadLaw {W : Type 0} (os : Os W) (fd : ℤ) (incoming : W → List ℕ) : Type 0 where
  pub delivers :
      (size : ℕ) (w : W) (n : ℕ) (bytes : List ℕ) (w' : W)
      → os.read fd size w ≡ (pos n, bytes, w')
      → (n ≤ size) × (length bytes ≡ n) × (incoming w ≡ bytes ++ incoming w') × (size ≢ 0 → n ≢ 0)
  pub fails :
      (size : ℕ) (w : W) (e : ℕ) (bytes : List ℕ) (w' : W)
      → os.read fd size w ≡ (negsuc e, bytes, w')
      → incoming w' ≡ incoming w

module _ {W : Type 0} (incoming : W → List ℕ) where
  -- What a call of `read` comes to.
  abbrev pub Some : ℕ → W → ℕ × List ℕ → W → Type 0
  Some size w r w' =
      (r.0 ≤ size) × (length r.1 ≡ r.0) × (incoming w ≡ r.1 ++ incoming w') × (size ≢ 0 → r.0 ≢ 0)

  abbrev pub Reads : (ℕ → Cmd W (ℕ × List ℕ)) → Type 0
  Reads reads =
      (size : ℕ) (w : W) → Ends (Some size w) (λ _ w'. incoming w' ≡ incoming w) (reads size w)

  -- The loop ends within as many rounds as there are bytes to come, with the bytes that were next; at
  -- an exception the bytes that came are lost.
  read_loop-Ends :
      (reads : ℕ → Cmd W (ℕ × List ℕ))
      → Reads reads
      → (fuel size n : ℕ) (got : List ℕ) (w : W) → length got ≡ n
      → n < size
      → size < 2 ^ 64
      → size - n ≤ fuel
      → Ends
          (λ bytes w'. (length bytes ≡ size) × (got ++ incoming w ≡ bytes ++ incoming w'))
          (λ _ w'. (lost : List ℕ) × (incoming w ≡ lost ++ incoming w'))
          (read_loop reads fuel size n got w)
  unfolding read_loop
  read_loop-Ends reads law zero size n got w same more small enough = absurd (omega arith)
  read_loop-Ends reads law (suc fuel) size n got w same more small enough =
      Ends.bind (law (sub_size size n) w)
        (λ r w' p.
          let left : sub_size size n ≡ size - n = omega arith in
          let moved : r.0 ≢ 0 = p.3 (λ e. absurd (omega (arith, e, left))) in
          let sum : add_size n r.0 ≡ n + r.0 = omega (arith, p.0, left) in
          let joined = ap (◌++◌ got) p.2 ∙ sym (append_assoc got r.1 (incoming w')) in
          let len : length (got ++ r.1) ≡ n + r.0 =
            omega (arith, length-append got r.1, p.1, same) in
          elim (Bool-cases (add_size n r.0 == size)) [
            | inl done ↦ rw done (returns (ground (arith, len, sum, done), joined))
            | inr go_on ↦
                rw (go_on, sum)
                  (Ends.mono
                    (read_loop-Ends reads law fuel size (n + r.0) (got ++ r.1) w' len
                      (not_done r.0 sum go_on p.0 left) small (omega (arith, moved)))
                    (λ bytes t q. (q.0, joined ∙ q.1))
                    (λ e t q. (
                      r.1 ++ q.0,
                      p.2 ∙ ap (◌++◌ r.1) q.1 ∙ sym (append_assoc r.1 q.0 (incoming t)),
                    )))
          ])
        (λ e w' p. ([], sym p))
    where
      not_done :
          (m : ℕ)
          → add_size n m ≡ n + m
          → (add_size n m == size) ≡ false
          → m ≤ sub_size size n
          → sub_size size n ≡ size - n
          → n + m < size
      not_done m sum go_on le left = ground arith

module _ {W : Type 0} (os : Os W) (d : Descriptor) {incoming : W → List ℕ}
    (law : ReadLaw os d.fd incoming) where
  read_in-Reads : Reads incoming (read_in os d)
  unfolding read_in
  read_in-Reads size w =
      stored-Ends os _ _ (os.read d.fd size w) (λ n bytes w' e. law.delivers size w n bytes w' e)
        (law.fails size w)

  -- An object of any size but nothing is read whole, and it is what was next to read; the loop ends in
  -- as many rounds as it has bytes. An exception in the middle loses the bytes that had come.
  pub read_whole_in-Ends :
      (fuel size : ℕ) (w : W)
      → 0 < size
      → size < 2 ^ 64
      → size ≤ fuel
      → Ends
          (λ bytes w'. (length bytes ≡ size) × (incoming w ≡ bytes ++ incoming w'))
          (λ _ w'. (lost : List ℕ) × (incoming w ≡ lost ++ incoming w'))
          (read_whole_in os fuel size d w)
  unfolding read_whole_in
  read_whole_in-Ends fuel size w some_size small enough =
      read_loop-Ends incoming (read_in os d) read_in-Reads fuel size 0 [] w refl some_size small
        (omega arith)

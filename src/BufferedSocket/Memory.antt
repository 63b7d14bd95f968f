-- ===== src/BufferedSocket/Memory.antt =====
-- A write into the block: what it stores, and what it leaves alone.
use Prim.Native.Nat.add
use fdcpp.Base.{
  drop-drop, drop-append, subst, ℕ, zero, suc, ◌+◌, ◌-◌, ◌≤◌, ◌≡◌, refl, ap, ◌∙◌, List, [], ◌∷◌,
  ◌++◌, length, take, drop, arith, length-append, length-take, length-drop, take-append_of_le,
  take-all,
}
use fdcpp.BufferedSocket.{write_at}

module _ (bytes : List ℕ) where
  pub length-write_at :
      (i : ℕ) (block : List ℕ)
      → i + length bytes ≤ length block
      → length (write_at i bytes block) ≡ length block
  length-write_at i block h = omega (
    arith,
    length-append (take i block) (bytes ++ drop (i + length bytes) block),
    length-append bytes (drop (i + length bytes) block),
    length-take i block,
    length-drop (i + length bytes) block,
  )

  -- A write at `n + i` is a write at `i` for who looks from `n` on.
  pub drop-write_at :
      (n i : ℕ) (block : List ℕ)
      → n + i ≤ length block
      → drop n (write_at (n + i) bytes block) ≡ write_at i bytes (drop n block)
  drop-write_at zero i block h = rw add.zero
  drop-write_at (suc n) i [] h = absurd (omega arith)
  drop-write_at (suc n) i (x ∷ block) h = simp add.suc (drop-write_at n i block (omega arith))

  -- What lies before the write stays.
  pub take-write_at_of_le :
      (k i : ℕ) (block : List ℕ)
      → k ≤ i
      → i ≤ length block
      → take k (write_at i bytes block) ≡ take k block
  take-write_at_of_le zero i block h le = refl
  take-write_at_of_le (suc k) zero block h le = absurd (omega arith)
  take-write_at_of_le (suc k) (suc i) [] h le = absurd (omega arith)
  take-write_at_of_le (suc k) (suc i) (x ∷ block) h le =
      simp add.suc (ap (◌∷◌ x) (take-write_at_of_le k i block (omega arith) (omega arith)))

  -- Up to its end there is what was there, then the bytes.
  pub take-write_at :
      (i : ℕ) (block : List ℕ)
      → i ≤ length block
      → take (i + length bytes) (write_at i bytes block) ≡ take i block ++ bytes
  take-write_at zero block h = rw (
    add.zero,
    take-append_of_le (length bytes) bytes (drop (length bytes) block) (omega arith),
    take-all (length bytes) bytes (omega arith),
  )
  take-write_at (suc i) [] h = absurd (omega arith)
  take-write_at (suc i) (x ∷ block) h =
      simp add.suc (ap (◌∷◌ x) (take-write_at i block (omega arith)))

  -- What lies behind the write stays.
  pub drop-write_at_of_le :
      (n i : ℕ) (block : List ℕ)
      → i + length bytes ≤ n
      → i ≤ length block
      → drop n (write_at i bytes block) ≡ drop n block
  drop-write_at_of_le n zero block h le =
      let split : length bytes + (n - length bytes) ≡ n = omega arith in
      rw add.zero (
        subst (λ k. drop k (bytes ++ drop (length bytes) block) ≡ drop k block) split
          (drop-append (n - length bytes) bytes (drop (length bytes) block)
            ∙ drop-drop (n - length bytes) (length bytes) block))
  drop-write_at_of_le zero (suc i) block h le = absurd (omega arith)
  drop-write_at_of_le (suc n) (suc i) [] h le = absurd (omega arith)
  drop-write_at_of_le (suc n) (suc i) (x ∷ block) h le =
      simp add.suc (drop-write_at_of_le n i block (omega arith) (omega arith))

  -- A write at the front.
  pub write_at_zero : (block : List ℕ) → write_at 0 bytes block ≡ bytes ++ drop (length bytes) block
  write_at_zero block = rw add.zero

  -- A write right behind a prefix.
  pub write_at_behind :
      (i : ℕ) (front rest : List ℕ)
      → length front ≡ i
      → write_at i bytes (front ++ rest) ≡ front ++ (bytes ++ drop (length bytes) rest)
  write_at_behind zero [] rest h = rw add.zero
  write_at_behind zero (x ∷ front) rest h = absurd (omega arith)
  write_at_behind (suc i) [] rest h = absurd (omega arith)
  write_at_behind (suc i) (x ∷ front) rest h =
      simp add.suc (ap (◌∷◌ x) (write_at_behind i front rest (omega arith)))

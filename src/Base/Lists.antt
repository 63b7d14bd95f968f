-- ===== src/Base/Lists.antt =====
-- Arrays of bytes as lists that native numbers measure and index, under the library's names.
use Prim.Native.Nat.{ℕ, zero, suc, ◌+◌, ◌-◌, ◌≤◌, min}
use Prim.Native.Nat.add
use mathlib.Core.Path.{◌≡◌, refl, ap}
use mathlib.Core.List.{List, [], ◌∷◌, ◌++◌, tail}
use native.Mathlib.Omega.{arith}

module _ {ℓ} {A : Type ℓ} where
  abbrev pub length : List A → ℕ
  length [] = 0
  length (x ∷ xs) = suc (length xs)

  abbrev pub take : ℕ → List A → List A
  take zero xs = []
  take (suc n) [] = []
  take (suc n) (x ∷ xs) = x ∷ take n xs

  abbrev pub drop : ℕ → List A → List A
  drop zero xs = xs
  drop (suc n) [] = []
  drop (suc n) (x ∷ xs) = drop n xs

  pub length-append : (xs ys : List A) → length (xs ++ ys) ≡ length xs + length ys
  length-append [] ys = omega arith
  length-append (x ∷ xs) ys = omega (arith, length-append xs ys)

  pub take-append-drop : (n : ℕ) (xs : List A) → take n xs ++ drop n xs ≡ xs
  take-append-drop zero xs = refl
  take-append-drop (suc n) [] = refl
  take-append-drop (suc n) (x ∷ xs) = rw (take-append-drop n xs)

  pub length-take : (n : ℕ) (xs : List A) → length (take n xs) ≡ min n (length xs)
  length-take zero xs = omega arith
  length-take (suc n) [] = omega arith
  length-take (suc n) (x ∷ xs) = omega (arith, length-take n xs)

  pub length-drop : (n : ℕ) (xs : List A) → length (drop n xs) ≡ length xs - n
  length-drop zero xs = omega arith
  length-drop (suc n) [] = omega arith
  length-drop (suc n) (x ∷ xs) = omega (arith, length-drop n xs)

  -- A prefix that is long enough is the whole list.
  pub take-all : (n : ℕ) (xs : List A) → length xs ≤ n → take n xs ≡ xs
  take-all zero [] h = refl
  take-all zero (x ∷ xs) h = absurd (omega arith)
  take-all (suc n) [] h = refl
  take-all (suc n) (x ∷ xs) h = ap (◌∷◌ x) (take-all n xs (omega arith))

  pub drop-all : (n : ℕ) (xs : List A) → length xs ≤ n → drop n xs ≡ []
  drop-all zero [] h = refl
  drop-all zero (x ∷ xs) h = absurd (omega arith)
  drop-all (suc n) [] h = refl
  drop-all (suc n) (x ∷ xs) h = drop-all n xs (omega arith)

  pub drop-drop : (m n : ℕ) (xs : List A) → drop m (drop n xs) ≡ drop (n + m) xs
  drop-drop m zero xs = rw add.zero
  drop-drop zero (suc n) [] = rw add.suc
  drop-drop (suc m) (suc n) [] = rw add.suc
  drop-drop m (suc n) (x ∷ xs) = rw add.suc (drop-drop m n xs)

  pub take-append_of_le : (n : ℕ) (xs ys : List A) → n ≤ length xs → take n (xs ++ ys) ≡ take n xs
  take-append_of_le zero xs ys h = refl
  take-append_of_le (suc n) [] ys h = absurd (omega arith)
  take-append_of_le (suc n) (x ∷ xs) ys h = ap (◌∷◌ x) (take-append_of_le n xs ys (omega arith))

  pub take-append : (n : ℕ) (xs ys : List A) → take (length xs + n) (xs ++ ys) ≡ xs ++ take n ys
  take-append n [] ys = rw add.zero
  take-append n (x ∷ xs) ys = rw add.suc (ap (◌∷◌ x) (take-append n xs ys))

  pub drop-append_of_le :
      (n : ℕ) (xs ys : List A) → n ≤ length xs → drop n (xs ++ ys) ≡ drop n xs ++ ys
  drop-append_of_le zero xs ys h = refl
  drop-append_of_le (suc n) [] ys h = absurd (omega arith)
  drop-append_of_le (suc n) (x ∷ xs) ys h = drop-append_of_le n xs ys (omega arith)

  pub drop-append : (n : ℕ) (xs ys : List A) → drop (length xs + n) (xs ++ ys) ≡ drop n ys
  drop-append n [] ys = rw add.zero
  drop-append n (x ∷ xs) ys = rw add.suc (drop-append n xs ys)

  -- `take` of `n + m` splits at `n`.
  pub take-add : (n m : ℕ) (xs : List A) → take (n + m) xs ≡ take n xs ++ take m (drop n xs)
  take-add zero m xs = rw add.zero
  take-add (suc n) zero [] = rw add.suc
  take-add (suc n) (suc m) [] = rw add.suc
  take-add (suc n) m (x ∷ xs) = rw add.suc (ap (◌∷◌ x) (take-add n m xs))

  -- Two ways to split a list at the same place.
  pub append_split :
      (xs zs : List A) {ys ws : List A}
      → xs ++ ys ≡ zs ++ ws
      → length xs ≡ length zs
      → (xs ≡ zs) × (ys ≡ ws)
  append_split [] [] e h = (refl, e)
  append_split [] (z ∷ zs) e h = absurd (omega arith)
  append_split (x ∷ xs) [] e h = absurd (omega arith)
  append_split (x ∷ xs) (z ∷ zs) {ys} {ws} e h =
      let r : (xs ≡ zs) × (ys ≡ ws) = append_split xs zs (ap tail e) (omega arith) in
      (ground (arith, r), r.1)

  take-take_of_le : (n m : ℕ) (xs : List A) → n ≤ m → take n xs ≡ take n (take m xs)
  take-take_of_le zero m xs h = refl
  take-take_of_le (suc n) zero xs h = absurd (omega arith)
  take-take_of_le (suc n) (suc m) [] h = refl
  take-take_of_le (suc n) (suc m) (x ∷ xs) h = ap (◌∷◌ x) (take-take_of_le n m xs (omega arith))

  -- A part of a list is a part of its beginning.
  pub take-drop-take :
      (i n m : ℕ) (xs : List A) → i + n ≤ m → take n (drop i xs) ≡ take n (drop i (take m xs))
  take-drop-take zero n m xs h = take-take_of_le n m xs (omega arith)
  take-drop-take (suc i) n zero xs h = absurd (omega arith)
  take-drop-take (suc i) n (suc m) [] h = refl
  take-drop-take (suc i) n (suc m) (x ∷ xs) h = take-drop-take i n m xs (omega arith)

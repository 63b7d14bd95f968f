-- ===== src/FdPass/Lists.antt =====
-- Lists under `map`, for tables of open files.
use fdcpp.Base.{
  ℕ, zero, suc, ◌≡◌, refl, sym, ap, ◌∙◌, List, [], ◌∷◌, ◌++◌, length, take, drop, map, arith, ap₂,
  tail,
}

module _ {A B : Type 0} (f : A → B) where
  pub length-map : (xs : List A) → length (map f xs) ≡ length xs
  length-map [] = refl
  length-map (x ∷ xs) = omega (arith, length-map xs)

  pub map-take : (n : ℕ) (xs : List A) → map f (take n xs) ≡ take n (map f xs)
  map-take zero xs = refl
  map-take (suc n) [] = refl
  map-take (suc n) (x ∷ xs) = ap (◌∷◌ (f x)) (map-take n xs)

  pub map-drop : (n : ℕ) (xs : List A) → map f (drop n xs) ≡ drop n (map f xs)
  map-drop zero xs = refl
  map-drop (suc n) [] = refl
  map-drop (suc n) (x ∷ xs) = map-drop n xs

  pub map-append : (xs ys : List A) → map f (xs ++ ys) ≡ map f xs ++ map f ys
  map-append [] ys = refl
  map-append (x ∷ xs) ys = ap (◌∷◌ (f x)) (map-append xs ys)

module _ {A B C : Type 0} (f : A → B) (g : C → B) (xs : List A) (ys : List C)
    (e : map f xs ≡ map g ys) where
  -- Lists with the same image have the same length, and so have their parts.
  pub same_length : length xs ≡ length ys
  same_length = sym (length-map f xs) ∙ ap length e ∙ length-map g ys

  pub same_take : (n : ℕ) → map f (take n xs) ≡ map g (take n ys)
  same_take n = rw (map-take, map-take, e) refl

  pub same_drop : (n : ℕ) → map f (drop n xs) ≡ map g (drop n ys)
  same_drop n = rw (map-drop, map-drop, e) refl

-- What is looked up in one table is found in another that has kept it.
pub kept :
    {A B C : Type 0} (f g : A → B) (h : C → B)
    → ((a : A) (c : C) → f a ≡ h c → g a ≡ h c)
    → (xs : List A) (ys : List C) → map f xs ≡ map h ys
    → map g xs ≡ map h ys
kept f g h keep [] [] e = refl
kept f g h keep [] (y ∷ ys) e = absurd (omega (arith, ap length e))
kept f g h keep (x ∷ xs) [] e = absurd (omega (arith, ap length e))
kept f g h keep (x ∷ xs) (y ∷ ys) e =
    ap₂ (λ b bs. b ∷ bs) (keep x y (ground arith)) (kept f g h keep xs ys (ap tail e))

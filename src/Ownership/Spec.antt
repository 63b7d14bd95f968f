-- ===== src/Ownership/Spec.antt =====
-- The objects of a program as the bag of the numbers that they hold: which object holds which, and in
-- what order they were made, is forgotten.
use mathlib.Core.Quot
use mathlib.Core.Quot.{Quot, Quot-set}
use native.Mathlib.Nat.{ℕ_set}
use fdcpp.Base.{
  ◌⊎◌, inl, inr, is_neg, true, false, ℕ, ◌≡◌, refl, sym, ap, ◌∙◌, ℤ, pos, negsuc, List, ◌∷◌, ◌++◌,
  arith,
}
use fdcpp.Effect.{ok, and_then}
use fdcpp.Throw.{throw_system_error}
use fdcpp.Os.{Os, checked}
use fdcpp.Ownership.Closing.{Reach-Owned}
use fdcpp.Descriptor.{Descriptor, descriptor, move_construct, move_assign}
use fdcpp.Ownership.{holds, holders, CloseLaw, Owned}
use fdcpp.Ownership.Steps.{
  ok_inj, World, Step, born, not_born, moved, assigned, assigned_back, died, others, Reach,
  Step-Owned, holders-append, holders_pair,
}

-- The same numbers are held, as often.
abbrev pub SameHolders : List Descriptor → List Descriptor → Type 0
SameHolders xs ys = (n : ℕ) → holders n xs ≡ holders n ys

abbrev pub Owners : Type 0
Owners = Quot SameHolders

abbrev pub owners : List Descriptor → Owners
owners xs = Quot.mk xs

-- How many hold a number, and one holder more.
unfoldable pub count : ℕ → Owners → ℕ
count n = Quot.lift ℕ_set (holders n) (λ xs ys h. h n)

pub SameHolders-cons :
    (d : Descriptor) (xs ys : List Descriptor) → SameHolders xs ys → SameHolders (d ∷ xs) (d ∷ ys)
SameHolders-cons d xs ys h n = omega (arith, h n)

unfoldable pub add : ℕ → Owners → Owners
add n =
    Quot.lift Quot-set (λ xs. Quot.mk (descriptor (pos n) ∷ xs))
      (λ xs ys h. Quot.sound (SameHolders-cons (descriptor (pos n)) xs ys h))

-- A number that nobody held gets a holder, and one holder goes.
abbrev pub Takes : Owners → Owners → Type 0
Takes a b = (n : ℕ) × (count n a ≡ 0) × (b ≡ add n a)

abbrev pub Gives : Owners → Owners → Type 0
Gives a b = (n : ℕ) × (a ≡ add n b)

module _ {W : Type 0} (os : Os W) {is_open : W → ℕ → ℕ} where
  -- What a step does to the bag: a constructor takes a new number, a move and an assignment leave the
  -- bag as it is, as does a constructor that throws, and a destructor gives up the number that its
  -- object held, if any.
  abbrev pub Does : {s t : World W} → Step os is_open s t → Type 0
  Does {s} {t} (born tag func call d op e) = Takes (owners s.objs) (owners t.objs)
  Does {s} {t} (not_born tag func call err op e) = owners t.objs ≡ owners s.objs
  Does {s} {t} (moved xs d ys e) = owners t.objs ≡ owners s.objs
  Does {s} {t} (assigned xs a ys b zs e) = owners t.objs ≡ owners s.objs
  Does {s} {t} (assigned_back xs b ys a zs e) = owners t.objs ≡ owners s.objs
  Does {s} {t} (died xs d ys e closes) =
      (is_neg d.fd ≡ false × Gives (owners s.objs) (owners t.objs))
      ⊎ (is_neg d.fd ≡ true × (owners t.objs ≡ owners s.objs))
  Does {s} {t} (others same) = owners t.objs ≡ owners s.objs

module _ {W : Type 0} (os : Os W) {is_open : W → ℕ → ℕ} (law : CloseLaw os is_open) where
  result_holds :
      (tag func : List ℕ) (d : Descriptor) (w' : W) (r : ℤ × W)
      → and_then (checked os tag func r) (λ fd. ok (descriptor fd)) ≡ ok d w'
      → (k : ℕ) × (d ≡ descriptor (pos k))
  unfolding throw_system_error
  result_holds tag func d w' (pos k, w) e = (k, sym (ok_inj os law e).0)
  result_holds tag func d w' (negsuc k, w) e = absurd (ground arith)

  -- A new object.
  new_holder :
      (k : ℕ) (d : Descriptor) (objs : List Descriptor) (w w' : W)
      → d ≡ descriptor (pos k)
      → Owned is_open objs w
      → Owned is_open (d ∷ objs) w'
      → Takes (owners objs) (owners (d ∷ objs))
  unfolding count add
  new_holder k d objs w w' e v v' =
      let self : holds k d ≡ 1 = ap (holds k) e ∙ ground arith in
      let free : holders k objs ≡ 0 = omega (arith, self, v'.one k, v'.few k) in
      (k, free, ap (λ x. owners (x ∷ objs)) e)

  -- An object that goes.
  old_holder :
      (z : ℤ) (objs xs ys : List Descriptor)
      → objs ≡ xs ++ (descriptor z ∷ ys)
      → (is_neg z ≡ false × Gives (owners objs) (owners (xs ++ ys)))
        ⊎ (is_neg z ≡ true × (owners (xs ++ ys) ≡ owners objs))
  unfolding add
  old_holder (pos n) objs xs ys e = inl (
    refl,
    (
      n,
      Quot.sound (λ m. omega (
        arith,
        ap (holders m) e,
        holders-append m xs (descriptor (pos n) ∷ ys),
        holders-append m xs ys,
      )),
    ),
  )
  old_holder (negsuc k) objs xs ys e = inr (
    refl,
    Quot.sound (λ m. omega (
      arith,
      ap (holders m) e,
      holders-append m xs (descriptor (negsuc k) ∷ ys),
      holders-append m xs ys,
    )),
  )

  Step-Does : {s t : World W} (st : Step os is_open s t) → Owned is_open s.objs s.world → Does os st
  unfolding move_construct move_assign
  Step-Does {s} (born {w = w} tag func call d op e) v =
      let (k, holds_it) = result_holds tag func d w (call s.world) e in
      new_holder k d s.objs s.world w holds_it v
        (Step-Owned os law {s = s} (born tag func call d op e) v)
  Step-Does (not_born tag func call err op e) v = refl
  Step-Does (moved xs d ys e) v = Quot.sound (λ n. omega (
    arith,
    ap (holders n) e,
    holders-append n xs (d ∷ ys),
    holders-append n xs (descriptor (negsuc 0) ∷ ys),
  ))
  Step-Does (assigned xs a ys b zs e) v = Quot.sound (λ n. omega (
    arith,
    ap (holders n) e,
    holders_pair n xs a ys b zs,
    holders_pair n xs (descriptor b.fd) ys (descriptor a.fd) zs,
  ))
  Step-Does (assigned_back xs b ys a zs e) v = Quot.sound (λ n. omega (
    arith,
    ap (holders n) e,
    holders_pair n xs b ys a zs,
    holders_pair n xs (descriptor a.fd) ys (descriptor b.fd) zs,
  ))
  Step-Does {s} (died xs d ys e closes) v = old_holder d.fd s.objs xs ys e
  Step-Does (others same) v = refl

  -- In every state that a program reaches by making objects with calls that open a new number, the
  -- classes' ::dup among them, by moving, assigning and destroying objects, also with constructors
  -- that throw, and by other calls that open and close nothing (so not by file's dup, dup2, or an
  -- object made from a number), from one where each open number has one holder and no object holds
  -- any other number, the next such step keeps that so; and of the bag of the numbers that are held,
  -- without the order of the objects: a constructor that returns adds a number that nobody held, a
  -- destructor
  -- takes away the number that its object held, if any, and moves, assignments and a constructor that
  -- throws leave it as it is.
  pub Reach-Does :
      {s t u : World W}
      → Owned is_open s.objs s.world
      → Reach os is_open s t
      → (st : Step os is_open t u) → Owned is_open u.objs u.world × Does os st
  Reach-Does v r st = let w = Reach-Owned os law v r in (Step-Owned os law st w, Step-Does st w)

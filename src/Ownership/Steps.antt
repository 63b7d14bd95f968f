-- ===== src/Ownership/Steps.antt =====
-- A program that makes, moves, assigns and destroys objects, in any order.
use fdcpp.Base.{
  ℕ, ◌+◌, ◌≤◌, ◌≡◌, refl, ap, inl, inr, ℤ, pos, negsuc, List, [], ◌∷◌, ◌++◌, ◌==◌, if◌then◌else◌,
  Bool-cases, ==→eq, arith,
}
use fdcpp.Effect.{Error, ok, throw, and_then}
use fdcpp.Throw.{throw_system_error}
use fdcpp.Os.{Os, checked}
use fdcpp.Descriptor.{Descriptor, descriptor, move_construct, move_assign, destroy}
use fdcpp.Handle
use fdcpp.Ownership.{holds, holds_number, holders, Opens, CloseLaw, Owned}

pub holders-append :
    (n : ℕ) (xs ys : List Descriptor) → holders n (xs ++ ys) ≡ holders n xs + holders n ys
holders-append n [] ys = omega arith
holders-append n (x ∷ xs) ys = omega (arith, holders-append n xs ys)

-- Two of the objects, apart from the others.
pub holders_pair :
    (n : ℕ) (xs : List Descriptor) (a : Descriptor) (ys : List Descriptor) (b : Descriptor)
    (zs : List Descriptor)
    → holders n (xs ++ (a ∷ (ys ++ (b ∷ zs))))
      ≡ holders n xs + holds n a + holders n ys + holds n b + holders n zs
holders_pair n xs a ys b zs =
    omega (arith, holders-append n xs (a ∷ (ys ++ (b ∷ zs))), holders-append n ys (b ∷ zs))

pub record World (W : Type 0) : Type 0 where
  pub objs : List Descriptor
  pub world : W

module _ {W : Type 0} (os : Os W) (is_open : W → ℕ → ℕ) where
  pub data Step (s : World W) : World W → Type 0 where
    -- A constructor over a call that opens, or `dup`; it may throw.
    born :
        {w : W} (tag func : List ℕ) (call : W → ℤ × W) (d : Descriptor)
        → Opens is_open call
        → Handle.opened os tag func call s.world ≡ ok d w
        → Step s (record { objs = d ∷ s.objs; world = w })
    not_born :
        {w : W} (tag func : List ℕ) (call : W → ℤ × W) (e : Error)
        → Opens is_open call
        → Handle.opened os tag func call s.world ≡ throw e w
        → Step s (record { objs = s.objs; world = w })
    -- A new object from `std::move` of one of them.
    moved :
        (xs : List Descriptor) (d : Descriptor) (ys : List Descriptor)
        → s.objs ≡ xs ++ (d ∷ ys)
        → Step s (record s { objs = (move_construct d).0 ∷ (xs ++ ((move_construct d).1 ∷ ys)) })
    -- `a = std::move(b)`, where `a` stands first among the objects, and where `b` does.
    assigned :
        (xs : List Descriptor) (a : Descriptor) (ys : List Descriptor) (b : Descriptor)
        (zs : List Descriptor)
        → s.objs ≡ xs ++ (a ∷ (ys ++ (b ∷ zs)))
        → Step s
            (record s { objs = xs ++ ((move_assign a b).0 ∷ (ys ++ ((move_assign a b).1 ∷ zs))) })
    assigned_back :
        (xs : List Descriptor) (b : Descriptor) (ys : List Descriptor) (a : Descriptor)
        (zs : List Descriptor)
        → s.objs ≡ xs ++ (b ∷ (ys ++ (a ∷ zs)))
        → Step s
            (record s { objs = xs ++ ((move_assign a b).1 ∷ (ys ++ ((move_assign a b).0 ∷ zs))) })
    -- The end of an object's life.
    died :
        {w : W} (xs : List Descriptor) (d : Descriptor) (ys : List Descriptor)
        → s.objs ≡ xs ++ (d ∷ ys)
        → destroy os d s.world ≡ ok tt w
        → Step s (record { objs = xs ++ ys; world = w })
    -- Any call that opens and closes nothing.
    others :
        {w : W}
        → ((m : ℕ) → is_open w m ≡ is_open s.world m)
        → Step s (record { objs = s.objs; world = w })

  pub data Reach (s : World W) : World W → Type 0 where
    here : Reach s s
    next : {t u : World W} → Reach s t → Step t u → Reach s u

module _ {W : Type 0} (os : Os W) {is_open : W → ℕ → ℕ} (law : CloseLaw os is_open) where
  pub ok_inj : {A : Type 0} {a b : A} {w w' : W} → ok a w ≡ ok b w' → (a ≡ b) × (w ≡ w')
  ok_inj e = (cc, cc)

  still_few :
      (k m : ℕ) (w w' : W)
      → is_open w k ≡ 0
      → is_open w' m ≡ holds_number m (pos k) + is_open w m
      → is_open w m ≤ 1
      → is_open w' m ≤ 1
  still_few k m w w' free now few = elim (Bool-cases (k == m)) [
    | inl same ↦ ground (arith, ap (is_open w) (==→eq k m same))
    | inr other ↦ ground arith
  ]

  result-Opens :
      (tag func : List ℕ) (call : W → ℤ × W)
      → Opens is_open call
      → (w : W) (d : Descriptor) (w' : W) (r : ℤ × W) → call w ≡ r
      → and_then (checked os tag func r) (λ fd. ok (descriptor fd)) ≡ ok d w'
      → (m : ℕ) → (is_open w' m ≡ holds m d + is_open w m) × (is_open w m ≤ 1 → is_open w' m ≤ 1)
  unfolding throw_system_error
  result-Opens tag func call op w d w' (pos k, w₁) called e m =
      let (made, same) = ok_inj e in
      rw (← made, ← same)
        (
          (op.takes w k w₁ called).1 m,
          λ few. still_few k m w w₁ (op.takes w k w₁ called).0 ((op.takes w k w₁ called).1 m) few,
        )
  result-Opens tag func call op w d w' (negsuc k, w₁) called e m = absurd (ground arith)

  -- A constructor's object holds the number that the call opened.
  pub opened-Opens :
      (tag func : List ℕ) (call : W → ℤ × W)
      → Opens is_open call
      → (w : W) (d : Descriptor) (w' : W) → Handle.opened os tag func call w ≡ ok d w'
      → (m : ℕ) → (is_open w' m ≡ holds m d + is_open w m) × (is_open w m ≤ 1 → is_open w' m ≤ 1)
  opened-Opens tag func call op w d w' e = result-Opens tag func call op w d w' (call w) refl e

  result_refuses :
      (tag func : List ℕ) (call : W → ℤ × W)
      → Opens is_open call
      → (w : W) (err : Error) (w' : W) (r : ℤ × W) → call w ≡ r
      → and_then (checked os tag func r) (λ fd. ok (descriptor fd)) ≡ throw err w'
      → (m : ℕ) → is_open w' m ≡ is_open w m
  unfolding throw_system_error
  result_refuses tag func call op w err w' (pos k, w₁) called e m = absurd (ground arith)
  result_refuses tag func call op w err w' (negsuc k, w₁) called e m =
      let same : w₁ ≡ w' = cc in rw (← same) (op.refuses w k w₁ called m)

  closed_number :
      (z : ℤ) (w w' : W)
      → destroy os (descriptor z) w ≡ ok tt w'
      → (m : ℕ) → is_open w' m ≡ (if holds_number m z == 0 then is_open w m else 0)
  unfolding destroy
  closed_number (pos k) w w' e m = rw (← (ok_inj e).1) (ground (arith, law.frees k w m))
  closed_number (negsuc k) w w' e m = rw (← (ok_inj e).1) refl

  -- A destructor frees the number that its object holds, and no other.
  pub destroy-frees :
      (d : Descriptor) (w w' : W)
      → destroy os d w ≡ ok tt w'
      → (m : ℕ) → is_open w' m ≡ (if holds m d == 0 then is_open w m else 0)
  destroy-frees d w w' e m = closed_number d.fd w w' e m

  pub Step-Owned :
      {s t : World W}
      → Step os is_open s t
      → Owned is_open s.objs s.world
      → Owned is_open t.objs t.world
  unfolding move_construct move_assign
  Step-Owned {s} (born {w = w} tag func call d op e) v = record {
    one = λ n. omega (arith, (opened-Opens tag func call op s.world d w e n).0, v.one n);
    few = λ n. (opened-Opens tag func call op s.world d w e n).1 (v.few n);
  }
  Step-Owned {s} (not_born {w = w} tag func call err op e) v = record {
    one = λ n. omega (arith, result_refuses tag func call op s.world err w _ refl e n, v.one n);
    few = λ n. omega (arith, result_refuses tag func call op s.world err w _ refl e n, v.few n);
  }
  Step-Owned {s} (moved xs d ys e) v = record {
    one = λ n. omega (
      arith,
      ap (holders n) e,
      v.one n,
      holders-append n xs (d ∷ ys),
      holders-append n xs (descriptor (negsuc 0) ∷ ys),
    );
    few = v.few;
  }
  Step-Owned {s} (assigned xs a ys b zs e) v = record {
    one = λ n. omega (
      arith,
      ap (holders n) e,
      v.one n,
      holders_pair n xs a ys b zs,
      holders_pair n xs (descriptor b.fd) ys (descriptor a.fd) zs,
    );
    few = v.few;
  }
  Step-Owned {s} (assigned_back xs b ys a zs e) v = record {
    one = λ n. omega (
      arith,
      ap (holders n) e,
      v.one n,
      holders_pair n xs b ys a zs,
      holders_pair n xs (descriptor a.fd) ys (descriptor b.fd) zs,
    );
    few = v.few;
  }
  Step-Owned {s} (died {w = w} xs d ys e closes) v = record {
    one = λ n. ground (
      arith,
      destroy-frees d s.world w closes n,
      ap (holders n) e,
      v.one n,
      v.few n,
      holders-append n xs (d ∷ ys),
      holders-append n xs ys,
    );
    few = λ n. ground (arith, destroy-frees d s.world w closes n, v.few n);
  }
  Step-Owned (others same) v = record {
    one = λ n. omega (arith, same n, v.one n);
    few = λ n. omega (arith, same n, v.few n);
  }

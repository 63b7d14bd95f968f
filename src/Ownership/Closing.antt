-- ===== src/Ownership/Closing.antt =====
-- What the ownership of descriptors comes to: where numbers are closed, and that all are in the end.
use fdcpp.Base.{
  ℕ, ◌≡◌, refl, sym, ap, ◌∙◌, inl, inr, pos, List, [], ◌∷◌, ◌++◌, is_neg, Bool-cases, arith,
}
use fdcpp.Effect.{ok}
use fdcpp.Effect.Ends.{Ends, returns}
use fdcpp.Os.{Os}
use fdcpp.Descriptor.{Descriptor, descriptor, destroy}
use fdcpp.Socket.{SocketOs}
use fdcpp.FdPass.{close_all}
use fdcpp.File.{FileOs}
use fdcpp.File
use fdcpp.Ownership.{holds_number, holds, holders, CloseLaw, Owned}
use fdcpp.Ownership.Steps.{
  World, Reach, here, next, died, Step-Owned, destroy-frees, holders-append,
}

holds_self : (n : ℕ) (d : Descriptor) → d.fd ≡ pos n → holds n d ≡ 1
holds_self n d e = ap (holds_number n) e ∙ ground arith

module _ {W : Type 0} (os : Os W) {is_open : W → ℕ → ℕ} (law : CloseLaw os is_open) where
  -- In every state that a program reaches by making, moving, assigning and destroying objects, also with
  -- constructors that throw, each open number has one holder and no object holds any other number.
  pub Reach-Owned :
      {s t : World W}
      → Owned is_open s.objs s.world
      → Reach os is_open s t
      → Owned is_open t.objs t.world
  Reach-Owned v here = v
  Reach-Owned v (next r st) = Step-Owned os law st (Reach-Owned v r)

  -- In such a state the number that a destructor closes is open, and no other object holds it.
  pub closes_once :
      (s t : World W) (xs : List Descriptor) (d : Descriptor) (ys : List Descriptor) (n : ℕ)
      → Owned is_open s.objs s.world
      → Reach os is_open s t
      → t.objs ≡ xs ++ (d ∷ ys)
      → d.fd ≡ pos n
      → (is_open t.world n ≡ 1) × (holders n (xs ++ ys) ≡ 0)
  closes_once s t xs d ys n v r e same =
      let o = Reach-Owned v r in
      let sum = ap (holders n) e ∙ holders-append n xs (d ∷ ys) in
      omega (arith, o.one n, o.few n, sum, holds_self n d same, holders-append n xs ys)

  pub destroy_ok : (d : Descriptor) (w : W) → (w' : W) × (destroy os d w ≡ ok tt w')
  unfolding destroy
  destroy_ok d w = elim (Bool-cases (is_neg d.fd)) [
    | inl owns ↦ (w, rw owns)
    | inr owns ↦ ((os.close d.fd w).1, rw owns)
  ]

module _ {W : Type 0} (api : SocketOs W) {is_open : W → ℕ → ℕ} (law : CloseLaw api.os is_open) where
  -- When all the objects are destroyed nothing is left open.
  pub close_all-frees :
      (objs : List Descriptor) (w : W)
      → Owned is_open objs w
      → Ends (λ _ w'. (n : ℕ) → is_open w' n ≡ 0) (λ _ _. ⊥) (close_all api objs w)
  unfolding close_all
  close_all-frees [] w v = returns (λ n. sym (v.one n))
  close_all-frees (d ∷ ds) w v =
      let r = destroy_ok api.os law d w in
      rw r.1 (
        close_all-frees ds r.0 (
          Step-Owned api.os law {s = record { objs = d ∷ ds; world = w }} (died [] d ds refl r.1)
            v))

module _ {W : Type 0} (api : FileOs W) {is_open : W → ℕ → ℕ} (law : CloseLaw api.os is_open) where
  -- A `file` that is copied shares its number with the copy: when the first of the two is destroyed the
  -- number is closed, and the other holds it still, to close it again.
  pub file_copy-shared :
      (self copy : Descriptor) (n : ℕ) (w w₁ w₂ : W)
      → self.fd ≡ pos n
      → File.dup api self w ≡ ok copy w₁
      → destroy api.os copy w₁ ≡ ok tt w₂
      → (copy.fd ≡ self.fd) × (is_open w₂ n ≡ 0) × (holds n self ≡ 1)
  unfolding File.dup
  file_copy-shared self copy n w w₁ w₂ owns copied gone =
      let made : ok (descriptor (pos n)) w ≡ ok copy w₁ = rw (owns, File.dup) at copied in
      let number : copy.fd ≡ self.fd = cc in
      let held = holds_self n copy (number ∙ owns) in
      let freed = destroy-frees api.os law copy w₁ w₂ gone n in
      (number, ground (arith, held, freed), holds_self n self owns)

-- ===== src/Mmap/Moves.antt =====
-- Which object takes a mapping away.
use fdcpp.Base.{ℕ, ◌≡◌, ◌≢◌, refl, ap, ℤ, ◌==◌, Bool-cases, inl, inr, false, arith}
use fdcpp.Effect.{ok, ◌>>◌}
use fdcpp.Throw.{throw_system_error}
use fdcpp.Mmap.{Mmap, MmapOs, nullptr, create_at, destroy, move_construct, move_assign}

addr_test : (m : Mmap) → m.addr ≢ nullptr → (m.addr == nullptr) ≡ false
addr_test m h = ground arith

module _ {W : Type 0} (api : MmapOs W) where
  -- A mapping that was made is taken away once, with its own address and length: by its object, or,
  -- after a move, by the object that it was moved to, whichever is destroyed first. Two objects that
  -- were assigned take away what each of them took before.
  pub unmapped_once :
      (addr len prot flags : ℕ) (fd off : ℤ) (w w₁ : W) (m other : Mmap)
      → create_at api addr len prot flags fd off w ≡ ok m w₁
      → m.addr ≢ nullptr
      → (destroy api m w₁ ≡ ok tt (api.munmap m.addr len w₁).1)
        × ((destroy api (move_construct m).1 >> destroy api (move_construct m).0) w₁
            ≡ destroy api m w₁)
        × ((destroy api (move_construct m).0 >> destroy api (move_construct m).1) w₁
            ≡ destroy api m w₁)
        × ((destroy api (move_assign m other).0 >> destroy api (move_assign m other).1) w₁
            ≡ (destroy api other >> destroy api m) w₁)
  unfolding create_at destroy move_construct move_assign throw_system_error
  unmapped_once addr len prot flags fd off w w₁ m other made live = (
    rw (addr_test m live, destroy) (ap (λ n. ok tt (api.munmap m.addr n w₁).1) size),
    refl,
    elim (Bool-cases (m.addr == nullptr)) [ inl e ↦ rw e refl | inr e ↦ rw e refl ],
    refl,
  )
    where
      size : m.size ≡ len
      size = ground arith

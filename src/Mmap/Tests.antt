-- ===== src/Mmap/Tests.antt =====
-- A system that counts what is mapped and always maps at 4096.
use fdcpp.Base.{ℕ, ◌+◌, ◌≡◌, refl, pos, arith}
use fdcpp.Effect.{ok, ◌>>◌}
use fdcpp.Mmap.{Mmap, MmapOs, create_at, destroy, move_construct, move_assign}
use fdcpp.Mmap.Moves.{unmapped_once}

abbrev api : MmapOs ℕ
api = record {
  errno = λ w. 12;
  mmap = λ addr len prot flags fd off w. (4096, w + 1);
  munmap = λ addr len w. (pos 0, w + len);
}

abbrev page : Mmap
page = record { addr = 4096; size = 64 }

abbrev other : Mmap
other = record { addr = 8192; size = 32 }

unmapped_once_example :
    (destroy api page 1 ≡ ok tt 65)
    × ((destroy api (move_construct page).1 >> destroy api (move_construct page).0) 1
        ≡ destroy api page 1)
    × ((destroy api (move_construct page).0 >> destroy api (move_construct page).1) 1
        ≡ destroy api page 1)
    × ((destroy api (move_assign page other).0 >> destroy api (move_assign page other).1) 1
        ≡ (destroy api other >> destroy api page) 1)
unfolding create_at
unmapped_once_example =
    unmapped_once api 0 64 3 1 (pos 5) (pos 0) 0 1 page other refl (λ e. absurd (omega (arith, e)))

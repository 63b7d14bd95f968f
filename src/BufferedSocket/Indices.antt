-- ===== src/BufferedSocket/Indices.antt =====
-- The indices of the input buffer: sizes that do not wrap, and the objects that a read leaves.
use fdcpp.Base.{
  ℕ, ◌+◌, ◌-◌, ◌≤◌, ◌≡◌, refl, List, ◌++◌, length, take, drop, arith, length-drop, length-take,
  take-add, drop-drop,
}
use fdcpp.BufferedSocket.{BufferedSocket, block, unread, add_size, copy_size, copied}
use fdcpp.BufferedSocket.Memory.{write_at_zero}
use fdcpp.BufferedSocket.Invariant.{IsValid, SameOutput}

-- Sizes in a valid object: nothing wraps.
module _ (b : BufferedSocket) (v : IsValid b) where
  pub copy_size-eq : copy_size b ≡ b.in_size - b.in_rd
  copy_size-eq = omega arith

  pub length-unread : length (unread b) ≡ b.in_size - b.in_rd
  length-unread = omega (
    arith,
    length-take (b.in_size - b.in_rd) (drop b.in_rd (block b)),
    length-drop b.in_rd (block b),
  )

  -- What the first copy leaves in the caller's buffer.
  pub copied-eq : (dest : List ℕ) → copied b dest ≡ unread b ++ drop (length (unread b)) dest
  copied-eq dest = rw copy_size-eq (write_at_zero (unread b) dest)

  -- A read from inside the buffer.
  pub split_unread :
      (n : ℕ)
      → n ≤ b.in_size - b.in_rd
      → unread b
        ≡ take n (drop b.in_rd (block b))
          ++ take (b.in_size - (b.in_rd + n)) (drop (b.in_rd + n) (block b))
  split_unread n h =
      let sum : b.in_size - b.in_rd ≡ n + (b.in_size - (b.in_rd + n)) = omega arith in
      rw (
        sum,
        take-add n (b.in_size - (b.in_rd + n)) (drop b.in_rd (block b)),
        drop-drop n b.in_rd (block b),
      )

abbrev pub emptied : BufferedSocket → BufferedSocket
emptied b = record b { in_rd = 0; in_size = 0 }

pub emptied-IsValid : {b : BufferedSocket} → IsValid b → IsValid (emptied b)
emptied-IsValid v = record {
  owned = v.owned;
  room = v.room;
  base = v.base;
  small = v.small;
  rd_le = omega arith;
  in_le = omega arith;
  out_le = v.out_le;
}

pub advanced-IsValid :
    {b : BufferedSocket} (n : ℕ)
    → IsValid b
    → n ≤ b.in_size - b.in_rd
    → IsValid (record b { in_rd = add_size b.in_rd n })
advanced-IsValid n v h = record {
  owned = v.owned;
  room = v.room;
  base = v.base;
  small = v.small;
  rd_le = omega arith;
  in_le = v.in_le;
  out_le = v.out_le;
}

-- A change of the input indices alone.
pub reindexed-SameOutput :
    (b : BufferedSocket) (rd size : ℕ) → SameOutput b (record b { in_rd = rd; in_size = size })
reindexed-SameOutput b rd size = record {
  socket = refl;
  in_capacity = refl;
  out_base = refl;
  out_size = refl;
  out_capacity = refl;
  output = refl;
}

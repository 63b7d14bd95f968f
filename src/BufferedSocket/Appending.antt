-- ===== src/BufferedSocket/Appending.antt =====
-- The object that `flush` leaves, and the one with more bytes behind the pending ones.
use fdcpp.Base.{
  ℕ, ◌+◌, ◌<◌, ◌≡◌, refl, ◌∙◌, subst, List, ◌++◌, some, length, take, drop, arith, length-drop,
}
use fdcpp.BufferedSocket.{BufferedSocket, block, pending, add_size, write_at}
use fdcpp.BufferedSocket.Memory.{length-write_at, drop-write_at, take-write_at_of_le, take-write_at}
use fdcpp.BufferedSocket.Invariant.{IsValid, SameInput}

-- The object after its pending bytes were sent.
abbrev pub flushed : BufferedSocket → BufferedSocket
flushed b = record b { out_size = 0 }

pub flushed-IsValid : {b : BufferedSocket} → IsValid b → IsValid (flushed b)
flushed-IsValid v = record {
  owned = v.owned;
  room = v.room;
  base = v.base;
  small = v.small;
  rd_le = v.rd_le;
  in_le = v.in_le;
  out_le = omega arith;
}

abbrev pub appended : BufferedSocket → List ℕ → BufferedSocket
appended b bytes = record b {
  buffer = some (write_at (b.out_base + b.out_size) bytes (block b));
  out_size = add_size b.out_size (length bytes);
}

pub SameInput-refl : (b : BufferedSocket) → SameInput b b
SameInput-refl b = record {
  socket = refl;
  in_rd = refl;
  in_size = refl;
  in_capacity = refl;
  out_capacity = refl;
  input = refl;
}

pub flushed-SameInput : (b : BufferedSocket) → SameInput b (flushed b)
flushed-SameInput b = record {
  socket = refl;
  in_rd = refl;
  in_size = refl;
  in_capacity = refl;
  out_capacity = refl;
  input = refl;
}

pub SameInput-trans : {b c d : BufferedSocket} → SameInput b c → SameInput c d → SameInput b d
SameInput-trans {b} {c} {d} h k = record {
  socket = k.socket ∙ h.socket;
  in_rd = k.in_rd ∙ h.in_rd;
  in_size = k.in_size ∙ h.in_size;
  in_capacity = k.in_capacity ∙ h.in_capacity;
  out_capacity = k.out_capacity ∙ h.out_capacity;
  input = subst (λ n. take n (block d) ≡ take n (block c)) h.in_capacity k.input ∙ h.input;
}

module _ (b : BufferedSocket) (bytes : List ℕ) (v : IsValid b)
    (fits : b.out_size + length bytes < b.out_capacity) where
  pub appended-IsValid : IsValid (appended b bytes)
  appended-IsValid = record {
    owned = λ e. cc;
    room = length-write_at bytes (b.out_base + b.out_size) (block b) (omega arith) ∙ v.room;
    base = v.base;
    small = v.small;
    rd_le = v.rd_le;
    in_le = v.in_le;
    out_le = omega arith;
  }

  pub appended-SameInput : SameInput b (appended b bytes)
  appended-SameInput = record {
    socket = refl;
    in_rd = refl;
    in_size = refl;
    in_capacity = refl;
    out_capacity = refl;
    input =
        take-write_at_of_le bytes b.in_capacity (b.out_base + b.out_size) (block b) (omega arith)
          (omega arith);
  }

  pub pending-appended : pending (appended b bytes) ≡ pending b ++ bytes
  pending-appended =
      let sum : add_size b.out_size (length bytes) ≡ b.out_size + length bytes = omega arith in
      rw (sum, drop-write_at bytes b.out_base b.out_size (block b) (omega arith))
        (take-write_at bytes b.out_size (drop b.out_base (block b))
          (omega (arith, length-drop b.out_base (block b))))

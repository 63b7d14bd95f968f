-- ===== src/BufferedSocket/Invariant.antt =====
-- The representation invariant of a `buffered_socket` that owns its memory.
use fdcpp.Base.{
  ℕ, true, arith, subst, ◌∙◌, refl, ap, ◌+◌, ◌^◌, ◌≤◌, ◌<◌, ◌≡◌, ◌≢◌, none, length, take, drop,
}
use fdcpp.BufferedSocket.{pending, BufferedSocket, block, in_block}

-- The block holds both buffers, the input buffer first, and every index lies in its buffer. No
-- object in memory is of 2 ^ 63 bytes or more.
pub record IsValid (b : BufferedSocket) : Type 0 where
  pub owned : b.buffer ≢ none
  pub room : length (block b) ≡ b.in_capacity + b.out_capacity
  pub base : b.out_base ≡ b.in_capacity
  pub small : b.in_capacity + b.out_capacity < 2 ^ 63
  pub rd_le : b.in_rd ≤ b.in_size
  pub in_le : b.in_size ≤ b.in_capacity
  pub out_le : b.out_size ≤ b.out_capacity

-- What an operation of the output side leaves as it is.
pub record SameInput (b c : BufferedSocket) : Type 0 where
  pub socket : c.socket ≡ b.socket
  pub in_rd : c.in_rd ≡ b.in_rd
  pub in_size : c.in_size ≡ b.in_size
  pub in_capacity : c.in_capacity ≡ b.in_capacity
  pub out_capacity : c.out_capacity ≡ b.out_capacity
  pub input : take b.in_capacity (block c) ≡ take b.in_capacity (block b)

-- What an operation of the input side leaves as it is.
pub record SameOutput (b c : BufferedSocket) : Type 0 where
  pub socket : c.socket ≡ b.socket
  pub in_capacity : c.in_capacity ≡ b.in_capacity
  pub out_base : c.out_base ≡ b.out_base
  pub out_size : c.out_size ≡ b.out_size
  pub out_capacity : c.out_capacity ≡ b.out_capacity
  pub output : drop b.out_base (block c) ≡ drop b.out_base (block b)

pub SameOutput-refl : (b : BufferedSocket) → SameOutput b b
SameOutput-refl b = record {
  socket = refl;
  in_capacity = refl;
  out_base = refl;
  out_size = refl;
  out_capacity = refl;
  output = refl;
}

pub SameOutput-trans : {b c d : BufferedSocket} → SameOutput b c → SameOutput c d → SameOutput b d
SameOutput-trans {b} {c} {d} h k = record {
  socket = k.socket ∙ h.socket;
  in_capacity = k.in_capacity ∙ h.in_capacity;
  out_base = k.out_base ∙ h.out_base;
  out_size = k.out_size ∙ h.out_size;
  out_capacity = k.out_capacity ∙ h.out_capacity;
  output = subst (λ n. drop n (block d) ≡ drop n (block c)) h.out_base k.output ∙ h.output;
}

-- So the pending bytes stay.
pub pending-SameOutput : {b c : BufferedSocket} → SameOutput b c → pending c ≡ pending b
pending-SameOutput {b} {c} h = rw (h.out_size, h.out_base) (ap (take b.out_size) h.output)

-- A valid object accesses its own memory only.
pub IsValid-in_block :
    {b : BufferedSocket} (i n : ℕ)
    → IsValid b
    → i + n ≤ b.in_capacity + b.out_capacity
    → in_block i n b ≡ true
IsValid-in_block i n v h = ground (arith, v.room)

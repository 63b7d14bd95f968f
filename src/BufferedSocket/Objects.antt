-- ===== src/BufferedSocket/Objects.antt =====
-- Construction, the moves and the destructor of `buffered_socket`. `new char[n]` yields a block of `n`
-- bytes whose content is the allocator's.
use fdcpp.Base.{ℕ, ◌+◌, ◌^◌, ◌<◌, ◌≡◌, refl, List, Option, none, some, length, add_size, arith}
use fdcpp.Effect.{Cmd, pure, ◌>>=◌}
use fdcpp.Effect.Ends.{Ends}
use fdcpp.Os.{Os}
use fdcpp.Descriptor.{Descriptor, move_construct, move_assign, destroy}
use fdcpp.BufferedSocket.{BufferedSocket, pending, unread}
use fdcpp.BufferedSocket.Invariant.{IsValid}

-- The object, and what is left of the socket it was made from.
unfoldable pub construct : (ℕ → List ℕ) → Descriptor → ℕ → ℕ → BufferedSocket × Descriptor
unfolding move_construct
construct new_char sock input_size output_size = (
  record {
    socket = (move_construct sock).0;
    buffer = some (new_char (add_size input_size output_size));
    in_rd = 0;
    in_size = 0;
    in_capacity = input_size;
    out_base = input_size;
    out_size = 0;
    out_capacity = output_size;
  },
  (move_construct sock).1,
)

-- What is left of an object that another one was constructed from: `_buffer_in` is null, and
-- `_buffer_out` points, `out_base` bytes behind its start, into the block that the other one owns now.
pub record MovedFrom : Type 0 where
  pub socket : Descriptor
  pub buffer_in : Option (List ℕ)
  pub in_rd : ℕ
  pub in_size : ℕ
  pub in_capacity : ℕ
  pub out_base : ℕ
  pub out_size : ℕ
  pub out_capacity : ℕ

-- `buffered_socket(buffered_socket &&other)`: the new object, and what is left of `other`.
unfoldable pub move_from : BufferedSocket → BufferedSocket × MovedFrom
unfolding move_construct
move_from other = (
  record other { socket = (move_construct other.socket).0 },
  record {
    socket = (move_construct other.socket).1;
    buffer_in = none;
    in_rd = other.in_rd;
    in_size = other.in_size;
    in_capacity = other.in_capacity;
    out_base = other.out_base;
    out_size = other.out_size;
    out_capacity = other.out_capacity;
  },
)

-- The old object as its output methods see it, with the block of the owner.
abbrev pub sharing : MovedFrom → BufferedSocket → BufferedSocket
sharing old owner = record {
  socket = old.socket;
  buffer = owner.buffer;
  in_rd = old.in_rd;
  in_size = old.in_size;
  in_capacity = old.in_capacity;
  out_base = old.out_base;
  out_size = old.out_size;
  out_capacity = old.out_capacity;
}

-- `operator=(buffered_socket &&other)`: `*this` and `other` afterwards. The pointers are swapped, the
-- sizes are copied.
unfoldable pub assign_from : BufferedSocket → BufferedSocket → BufferedSocket × BufferedSocket
unfolding move_assign
assign_from self other =
    let (mine, left) = move_assign self.socket other.socket in
    (
      record {
        socket = mine;
        buffer = other.buffer;
        in_rd = other.in_rd;
        in_size = other.in_size;
        in_capacity = other.in_capacity;
        out_base = other.out_base;
        out_size = other.out_size;
        out_capacity = other.out_capacity;
      },
      record other { socket = left; buffer = self.buffer; out_base = self.out_base },
    )

-- The destructor, over the two members that it reads, `_socket` and `_buffer_in`: it gives back the
-- block, if there is one, and then destroys the members. The result is the block.
unfoldable pub destruct :
    {W : Type 0} → Os W → Descriptor → Option (List ℕ) → Cmd W (Option (List ℕ))
destruct os socket buffer_in = destroy os socket >>= λ _. pure buffer_in

-- A new object is valid and has nothing pending and nothing unread, if its buffers are no larger than
-- memory.
pub construct-IsValid :
    (new_char : ℕ → List ℕ) (sock : Descriptor) (input_size output_size : ℕ)
    → ((n : ℕ) → length (new_char n) ≡ n)
    → input_size + output_size < 2 ^ 63
    → IsValid (construct new_char sock input_size output_size).0
unfolding construct
construct-IsValid new_char sock input_size output_size sized small = record {
  owned = λ e. cc;
  room = omega (arith, sized (add_size input_size output_size));
  base = refl;
  small = small;
  rd_le = omega arith;
  in_le = omega arith;
  out_le = omega arith;
}

-- The streams of two objects that hold the same bytes in the same places.
pub record SameStreams (b c : BufferedSocket) : Type 0 where
  pub pending_same : pending c ≡ pending b
  pub unread_same : unread c ≡ unread b
  pub socket_same : c.socket ≡ b.socket

module _ {W : Type 0} (os : Os W) where
  -- Two destructors return, and give back these blocks, the first one's first.
  abbrev pub Frees :
      Option (List ℕ)
      → Option (List ℕ)
      → Cmd W (Option (List ℕ))
      → Cmd W (Option (List ℕ))
      → W
      → Type 0
  Frees a b first second w =
      Ends {A = Option (List ℕ) × Option (List ℕ)} (λ r _. (r.0 ≡ a) × (r.1 ≡ b)) (λ _ _. ⊥)
        ((first >>= λ x. second >>= λ y. pure (x, y)) w)

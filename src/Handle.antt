-- ===== src/Handle.antt =====
-- What the classes of fds/ have in common: taking over a descriptor, and duplicating one. `tag` is the
-- name of the class.
use fdcpp.Base.{List, ℕ, ℤ, is_neg, if◌then◌else◌, codes}
use fdcpp.Effect.{Cmd, pure, ◌>>=◌}
use fdcpp.Throw.{throw_system_error}
use fdcpp.Os.{Os, checked}
use fdcpp.Descriptor.{Descriptor, descriptor, move_construct}

module _ {W : Type 0} (os : Os W) (tag : List ℕ) where
  -- A constructor over the number that a system call returned.
  abbrev pub opened : List ℕ → (W → ℤ × W) → Cmd W Descriptor
  opened func call = (λ w. checked os tag func (call w)) >>= λ fd. pure (descriptor fd)

  -- The constructor from `descriptor &&`: the new object, and what is left of `other`.
  abbrev pub adopted : List ℕ → Descriptor → Cmd W (Descriptor × Descriptor)
  adopted func other =
      if is_neg (move_construct other).0.fd
      then throw_system_error tag func 9
      else pure (move_construct other)

  -- The copy constructor, which `dup` calls.
  abbrev pub duplicated : Descriptor → Cmd W Descriptor
  duplicated self = opened (codes "dup()") (os.dup self.fd)

  -- `operator=(const … &) const`, which `dup2` calls.
  abbrev pub duplicated_onto : Descriptor → Descriptor → Cmd W (Unit {0})
  duplicated_onto self other =
      (λ w. checked os tag (codes "dup2()") (os.dup2 other.fd self.fd w)) >>= λ _. pure tt

  -- A call that is checked and returns nothing.
  abbrev pub done : List ℕ → (W → ℤ × W) → Cmd W (Unit {0})
  done func call = (λ w. checked os tag func (call w)) >>= λ _. pure tt

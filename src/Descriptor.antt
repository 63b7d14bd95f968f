-- ===== src/Descriptor.antt =====
-- src/fds/base: `descriptor`, `idescriptor` and `iodescriptor`. An object holds one number, `_fd`.
-- A method that changes its object returns the new object; one that changes two returns both.
use fdcpp.Base.{ℕ, List, ℤ, negsuc, is_neg, pos_part, if◌then◌else◌, codes}
use fdcpp.Effect.{Cmd, pure, ok, ◌>>=◌}
use fdcpp.Os.{Os, checked, checked_bytes}

pub record Descriptor : Type 0 where
  pub fd : ℤ

abbrev pub descriptor : ℤ → Descriptor
descriptor n = record { fd = n }

-- -1, the number of an object that owns nothing.
abbrev pub no_fd : ℤ
no_fd = negsuc 0

-- `descriptor(descriptor &&other)`: the new object, and what is left of `other`.
unfoldable pub move_construct : Descriptor → Descriptor × Descriptor
move_construct other = (descriptor other.fd, record other { fd = no_fd })

-- `operator=(descriptor &&other)`: `*this` and `other` afterwards.
unfoldable pub move_assign : Descriptor → Descriptor → Descriptor × Descriptor
move_assign self other = (record self { fd = other.fd }, record other { fd = self.fd })

module _ {W : Type 0} (os : Os W) where
  -- `~descriptor()` does not look at what `close` returns.
  unfoldable pub destroy : Descriptor → Cmd W (Unit {0})
  destroy d w = if is_neg d.fd then ok tt w else (let (ret, w') = os.close d.fd w in ok tt w')

  -- The three forms of `fcntl` differ in the type of the argument only.
  unfoldable pub fcntl : Descriptor → ℕ → ℕ → Cmd W ℤ
  fcntl d cmd arg w = checked os (codes "descriptor") (codes "fcntl()") (os.fcntl d.fd cmd arg w)

  -- `idescriptor::read`: how much was read, and the bytes at the front of the buffer.
  unfoldable pub read_in : Descriptor → ℕ → Cmd W (ℕ × List ℕ)
  read_in d size =
      (λ w. checked_bytes os (codes "idescriptor") (codes "read()") (os.read d.fd size w)) >>= λ r.
      pure (pos_part r.0, r.1)

  unfoldable pub read_io : Descriptor → ℕ → Cmd W (ℕ × List ℕ)
  read_io d size =
      (λ w. checked_bytes os (codes "iodescriptor") (codes "read()") (os.read d.fd size w)) >>= λ r.
      pure (pos_part r.0, r.1)

  unfoldable pub write_io : Descriptor → List ℕ → Cmd W ℕ
  write_io d bytes =
      (λ w. checked os (codes "iodescriptor") (codes "write()") (os.write d.fd bytes w)) >>= λ n.
      pure (pos_part n)

  unfoldable pub pread_io : Descriptor → ℕ → ℕ → Cmd W (ℕ × List ℕ)
  pread_io d size off =
      (λ w. checked_bytes os (codes "iodescriptor") (codes "pread()") (os.pread d.fd size off w))
      >>= λ r. pure (pos_part r.0, r.1)

  unfoldable pub pwrite_io : Descriptor → List ℕ → ℕ → Cmd W ℕ
  pwrite_io d bytes off =
      (λ w. checked os (codes "iodescriptor") (codes "pwrite()") (os.pwrite d.fd bytes off w))
      >>= λ n. pure (pos_part n)

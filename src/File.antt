-- ===== src/File.antt =====
-- src/fds/file.cpp. A path is the list of its bytes; `struct stat` and `struct statvfs` are the bytes
-- that the call stores.
use fdcpp.Base.{ℕ, List, ℤ, is_neg, pos_part, ◌==◌, not, ◌&&◌, if◌then◌else◌, codes, ◌^◌}
use fdcpp.Effect.{Cmd, pure, ok, ◌>>=◌}
use fdcpp.Throw.{throw_system_error}
use fdcpp.Os.{Os, checked, checked_bytes}
use fdcpp.Descriptor.{Descriptor, descriptor, move_construct}
use fdcpp.Endian.{to_signed}
use fdcpp.Handle.{opened, adopted, duplicated_onto, done}

pub record FileOs (W : Type 0) : Type 0 where
  pub os : Os W
  pub open_file : List ℕ → ℕ → W → ℤ × W
  pub open_mode : List ℕ → ℕ → ℕ → W → ℤ × W
  pub lseek : ℤ → ℤ → ℕ → W → ℤ × W
  pub fchmod : ℤ → ℕ → W → ℤ × W
  pub fchown : ℤ → ℕ → ℕ → W → ℤ × W
  pub fstat : ℤ → W → ℤ × List ℕ × W
  pub fsync : ℤ → W → ℤ × W
  pub ftruncate : ℤ → ℤ → W → ℤ × W
  pub fpathconf : ℤ → ℕ → W → ℤ × W
  pub fdatasync : ℤ → W → ℤ × W
  pub fstatvfs : ℤ → W → ℤ × List ℕ × W

module _ {W : Type 0} (api : FileOs W) where
  abbrev tag : List ℕ
  tag = codes "file"

  -- `file(path, flags)` and `file(path, flags, mode)`
  unfoldable pub create : List ℕ → ℕ → Cmd W Descriptor
  create path flags = opened api.os tag (codes "file()") (api.open_file path flags)

  unfoldable pub create_mode : List ℕ → ℕ → ℕ → Cmd W Descriptor
  create_mode path flags mode = opened api.os tag (codes "file()") (api.open_mode path flags mode)

  unfoldable pub adopt : Descriptor → Cmd W (Descriptor × Descriptor)
  unfolding move_construct
  adopt other = adopted api.os tag (codes "file()") other

  -- The copy constructor takes the number as it is: it calls no `::dup`.
  unfoldable pub dup : Descriptor → Cmd W Descriptor
  dup self w =
      if is_neg self.fd
      then throw_system_error tag (codes "dup()") (api.os.errno w) w
      else ok (descriptor self.fd) w

  unfoldable pub dup2 : Descriptor → Descriptor → Cmd W (Unit {0})
  dup2 self other = duplicated_onto api.os tag self other

  unfoldable pub lseek : Descriptor → ℤ → ℕ → Cmd W ℕ
  lseek self offset whence =
      (λ w. checked api.os tag (codes "lseek()") (api.lseek self.fd offset whence w)) >>= λ n.
      pure (pos_part n)

  unfoldable pub fchmod : Descriptor → ℕ → Cmd W (Unit {0})
  fchmod self mode = done api.os tag (codes "fchmod()") (api.fchmod self.fd mode)

  unfoldable pub fchown : Descriptor → ℕ → ℕ → Cmd W (Unit {0})
  fchown self uid gid = done api.os tag (codes "fchown()") (api.fchown self.fd uid gid)

  unfoldable pub fstat : Descriptor → Cmd W (List ℕ)
  fstat self =
      (λ w. checked_bytes api.os tag (codes "fstat()") (api.fstat self.fd w)) >>= λ r. pure r.1

  unfoldable pub fsync : Descriptor → Cmd W (Unit {0})
  fsync self = done api.os tag (codes "fsync()") (api.fsync self.fd)

  -- `static_cast<off_t>(size)`
  unfoldable pub ftruncate : Descriptor → ℕ → Cmd W (Unit {0})
  unfolding to_signed
  ftruncate self size =
      done api.os tag (codes "ftruncate()") (api.ftruncate self.fd (to_signed (2 ^ 63) size))

  -- -1 is an error only if `errno` was set: it stands for a limit that does not exist, too.
  unfoldable pub fpathconf : Descriptor → ℕ → Cmd W ℤ
  fpathconf self name w =
      let (val, w') = api.fpathconf self.fd name (api.os.set_errno 0 w) in
      if is_neg val && not (api.os.errno w' == 0)
      then throw_system_error tag (codes "fpathconf()") (api.os.errno w') w'
      else ok val w'

  unfoldable pub fdatasync : Descriptor → Cmd W (Unit {0})
  fdatasync self = done api.os tag (codes "fdatasync()") (api.fdatasync self.fd)

  unfoldable pub fstatvfs : Descriptor → Cmd W (List ℕ)
  fstatvfs self =
      (λ w. checked_bytes api.os tag (codes "fstatvfs()") (api.fstatvfs self.fd w)) >>= λ r.
      pure r.1

-- ===== src/Ownership/Table.antt =====
-- A table of two numbers, 3 and 4, of which `dup` opens the second, for the tests.
use fdcpp.Base.{
  ℕ, ◌+◌, ◌≡◌, refl, ap, sym, ℤ, pos, negsuc, [], ◌==◌, if◌then◌else◌, Bool, true, false, arith,
}
use fdcpp.Os.{Os}
use fdcpp.Descriptor.{descriptor}
use fdcpp.Ownership.{holds, Opens, CloseLaw}

-- Which of the two are open.
pub record Table : Type 0 where
  pub three : Bool
  pub four : Bool

abbrev pub bit : Bool → ℕ
bit true = 1
bit false = 0

abbrev pub is_open : Table → ℕ → ℕ
is_open w n = if n == 3 then bit w.three else if n == 4 then bit w.four else 0

abbrev pub close : ℤ → Table → ℤ × Table
close (pos n) w = (
  pos 0,
  (if n == 3 then record w { three = false } else if n == 4 then record w { four = false } else w),
)
close (negsuc n) w = (negsuc 0, w)

abbrev pub dup_in : Bool → Table → ℤ × Table
dup_in true w = (negsuc 0, w)
dup_in false w = (pos 4, record w { four = true })

abbrev pub os : Os Table
os = record {
  errno = λ w. 9;
  set_errno = λ e w. w;
  close = close;
  dup = λ fd w. dup_in w.four w;
  dup2 = λ old new w. (new, w);
  fcntl = λ fd cmd arg w. (pos 0, w);
  read = λ fd size w. (negsuc 0, [], w);
  write = λ fd bytes w. (negsuc 0, w);
  pread = λ fd size off w. (negsuc 0, [], w);
  pwrite = λ fd bytes off w. (negsuc 0, w);
}

pub frees_law :
    (n : ℕ) (w : Table) (m : ℕ)
    → is_open (close (pos n) w).1 m ≡ (if n == m then 0 else is_open w m)
frees_law n w m = ground arith

pub dup_takes :
    (b : Bool) (w : Table)
    → w.four ≡ b
    → (n : ℕ) (w' : Table) → dup_in b w ≡ (pos n, w')
    → (is_open w n ≡ 0) × ((m : ℕ) → is_open w' m ≡ holds m (descriptor (pos n)) + is_open w m)
dup_takes true w e n w' h = absurd (ground arith)
dup_takes false w e n w' h = (ground arith, λ m. ground arith)

pub dup_refuses :
    (b : Bool) (w : Table) (e : ℕ) (w' : Table)
    → dup_in b w ≡ (negsuc e, w')
    → (m : ℕ) → is_open w' m ≡ is_open w m
dup_refuses true w e w' h m = ap (λ r. is_open r.1 m) (sym h)
dup_refuses false w e w' h m = absurd (ground arith)

pub law : CloseLaw os is_open
law = record {
  frees = frees_law;
  dups = λ old. record {
    takes = λ w n w' h. dup_takes w.four w refl n w' h;
    refuses = λ w e w' h. dup_refuses w.four w e w' h;
  };
}

pub dup_in-Opens : Opens is_open (λ w. dup_in w.four w)
dup_in-Opens = record {
  takes = λ w n w' h. dup_takes w.four w refl n w' h;
  refuses = λ w e w' h. dup_refuses w.four w e w' h;
}

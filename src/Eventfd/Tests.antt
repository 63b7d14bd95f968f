-- ===== src/Eventfd/Tests.antt =====
-- A counter that starts at 5. A call that would have to wait finds nothing (EAGAIN, 11).
use fdcpp.Base.{◌-◌, ℕ, ◌+◌, ◌^◌, ℤ, pos, negsuc, List, [], ltb, if◌then◌else◌}
use fdcpp.Effect.Ends.{Ends}
use fdcpp.Os.{Os}
use fdcpp.Descriptor.{Descriptor, descriptor}
use fdcpp.Endian.{little, object_bytes, of_object}
use fdcpp.Eventfd.{EventfdOs}
use fdcpp.Eventfd

record Kernel : Type 0 where
  count : ℕ
  error : ℕ

unfoldable take_count : Kernel → ℤ × List ℕ × Kernel
take_count w =
    if ltb 0 w.count
    then if ltb w.count (2 ^ 64)
      then (pos 8, object_bytes little 8 w.count, record w { count = 0 })
      else (negsuc 0, [], record w { error = 11 })
    else (negsuc 0, [], record w { error = 11 })

unfoldable add_count : ℕ → Kernel → ℤ × Kernel
add_count val w =
    if ltb (w.count + val) (2 ^ 64 - 1)
    then (pos 8, record w { count = w.count + val })
    else (negsuc 0, record w { error = 11 })

abbrev os : Os Kernel
os = record {
  errno = λ w. w.error;
  set_errno = λ e w. record w { error = e };
  close = λ fd w. (pos 0, w);
  dup = λ fd w. (pos 7, w);
  dup2 = λ old new w. (new, w);
  fcntl = λ fd cmd arg w. (pos 0, w);
  read = λ fd size w. take_count w;
  write = λ fd bytes w. add_count (of_object little bytes) w;
  pread = λ fd size off w. (negsuc 0, [], record w { error = 29 });
  pwrite = λ fd bytes off w. (negsuc 0, record w { error = 29 });
}

abbrev counter : Descriptor
counter = descriptor (pos 4)

abbrev api : EventfdOs Kernel
api = record { os = os; eventfd = λ initval flags w. (pos 4, record w { count = initval }) }

abbrev five : Kernel
five = record { count = 5; error = 0 }

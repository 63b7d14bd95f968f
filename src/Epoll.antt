-- ===== src/Epoll.antt =====
-- src/fds/epoll.cpp. An event is its mask and the eight bytes of the union `epoll_data`, in which a
-- member is written and read in the order of the host, `fd` and `u32` in the first four bytes.
pub mod Fields
pub mod Kernel
pub mod Interest
mod Tests
use fdcpp.Base.{
  ℕ, ◌^◌, ℤ, List, ◌++◌, Option, none, some, take, drop, is_neg, pos_part, if◌then◌else◌, codes,
}
use fdcpp.Effect.{Run, Cmd, pure, and_then, ◌>>=◌}
use fdcpp.Throw.{throw_system_error}
use fdcpp.Os.{Os, checked}
use fdcpp.Descriptor.{Descriptor, descriptor, move_construct}
use fdcpp.Endian.{Order, object_bytes, of_object, to_signed, to_unsigned}
use fdcpp.Handle.{opened, adopted, duplicated, duplicated_onto, done}

pub record EpollEvent : Type 0 where
  pub events : ℕ
  pub memory : List ℕ

abbrev pub epoll_ctl_add : ℕ
epoll_ctl_add = 1

abbrev pub epoll_ctl_del : ℕ
epoll_ctl_del = 2

abbrev pub epoll_ctl_mod : ℕ
epoll_ctl_mod = 3

-- `epoll_wait` returns how many events it has stored, and the events.
pub record EpollOs (W : Type 0) : Type 0 where
  pub os : Os W
  pub epoll_create1 : ℕ → W → ℤ × W
  pub epoll_ctl : ℤ → ℕ → ℤ → Option EpollEvent → W → ℤ × W
  pub epoll_wait : ℤ → ℤ → ℤ → W → ℤ × List EpollEvent × W
  pub epoll_pwait : ℤ → ℤ → ℤ → List ℕ → W → ℤ × List EpollEvent × W

module _ (o : Order) where
  -- `ev.data.u64 = 0; ev.data.fd = data;` and so for the other members.
  unfoldable pub int_event : ℕ → ℤ → EpollEvent
  int_event mask val = record {
    events = mask;
    memory = object_bytes o 4 (to_unsigned (2 ^ 31) val) ++ drop 4 (object_bytes o 8 0);
  }

  unfoldable pub u32_event : ℕ → ℕ → EpollEvent
  u32_event mask val = record {
    events = mask;
    memory = object_bytes o 4 val ++ drop 4 (object_bytes o 8 0);
  }

  unfoldable pub u64_event : ℕ → ℕ → EpollEvent
  u64_event mask val = record { events = mask; memory = object_bytes o 8 val }

  -- A pointer is its address.
  unfoldable pub ptr_event : ℕ → ℕ → EpollEvent
  ptr_event mask val = record { events = mask; memory = object_bytes o 8 val }

  -- What a caller reads of an event.
  unfoldable pub data_fd : EpollEvent → ℤ
  data_fd ev = to_signed (2 ^ 31) (of_object o (take 4 ev.memory))

  unfoldable pub data_u32 : EpollEvent → ℕ
  data_u32 ev = of_object o (take 4 ev.memory)

  unfoldable pub data_u64 : EpollEvent → ℕ
  data_u64 ev = of_object o ev.memory

module _ {W : Type 0} (api : EpollOs W) where
  abbrev tag : List ℕ
  tag = codes "epoll"

  unfoldable pub create : ℕ → Cmd W Descriptor
  create flags = opened api.os tag (codes "epoll()") (api.epoll_create1 flags)

  unfoldable pub adopt : Descriptor → Cmd W (Descriptor × Descriptor)
  unfolding move_construct
  adopt other = adopted api.os tag (codes "epoll()") other

  unfoldable pub dup : Descriptor → Cmd W Descriptor
  dup self = duplicated api.os tag self

  unfoldable pub dup2 : Descriptor → Descriptor → Cmd W (Unit {0})
  dup2 self other = duplicated_onto api.os tag self other

  -- With a null pointer, or an event.
  unfoldable pub ctl : Descriptor → ℕ → ℤ → Option EpollEvent → Cmd W (Unit {0})
  ctl self op fd ev = done api.os tag (codes "ctl()") (api.epoll_ctl self.fd op fd ev)

  unfoldable pub ctl_int : Order → Descriptor → ℕ → ℤ → ℕ → ℤ → Cmd W (Unit {0})
  unfolding ctl int_event
  ctl_int o self op fd mask val = ctl self op fd (some (int_event o mask val))

  unfoldable pub ctl_u32 : Order → Descriptor → ℕ → ℤ → ℕ → ℕ → Cmd W (Unit {0})
  unfolding ctl u32_event
  ctl_u32 o self op fd mask val = ctl self op fd (some (u32_event o mask val))

  unfoldable pub ctl_u64 : Order → Descriptor → ℕ → ℤ → ℕ → ℕ → Cmd W (Unit {0})
  unfolding ctl u64_event
  ctl_u64 o self op fd mask val = ctl self op fd (some (u64_event o mask val))

  unfoldable pub ctl_ptr : Order → Descriptor → ℕ → ℤ → ℕ → ℕ → Cmd W (Unit {0})
  unfolding ctl ptr_event
  ctl_ptr o self op fd mask val = ctl self op fd (some (ptr_event o mask val))

  unfoldable pub add_int : Order → Descriptor → ℤ → ℕ → ℤ → Cmd W (Unit {0})
  unfolding ctl_int
  add_int o self fd mask val = ctl_int o self epoll_ctl_add fd mask val

  unfoldable pub add_u32 : Order → Descriptor → ℤ → ℕ → ℕ → Cmd W (Unit {0})
  unfolding ctl_u32
  add_u32 o self fd mask val = ctl_u32 o self epoll_ctl_add fd mask val

  unfoldable pub add_u64 : Order → Descriptor → ℤ → ℕ → ℕ → Cmd W (Unit {0})
  unfolding ctl_u64
  add_u64 o self fd mask val = ctl_u64 o self epoll_ctl_add fd mask val

  unfoldable pub add_ptr : Order → Descriptor → ℤ → ℕ → ℕ → Cmd W (Unit {0})
  unfolding ctl_ptr
  add_ptr o self fd mask val = ctl_ptr o self epoll_ctl_add fd mask val

  unfoldable pub mod_int : Order → Descriptor → ℤ → ℕ → ℤ → Cmd W (Unit {0})
  unfolding ctl_int
  mod_int o self fd mask val = ctl_int o self epoll_ctl_mod fd mask val

  unfoldable pub mod_u32 : Order → Descriptor → ℤ → ℕ → ℕ → Cmd W (Unit {0})
  unfolding ctl_u32
  mod_u32 o self fd mask val = ctl_u32 o self epoll_ctl_mod fd mask val

  unfoldable pub mod_u64 : Order → Descriptor → ℤ → ℕ → ℕ → Cmd W (Unit {0})
  unfolding ctl_u64
  mod_u64 o self fd mask val = ctl_u64 o self epoll_ctl_mod fd mask val

  unfoldable pub mod_ptr : Order → Descriptor → ℤ → ℕ → ℕ → Cmd W (Unit {0})
  unfolding ctl_ptr
  mod_ptr o self fd mask val = ctl_ptr o self epoll_ctl_mod fd mask val

  unfoldable pub del : Descriptor → ℤ → Cmd W (Unit {0})
  unfolding ctl
  del self fd = ctl self epoll_ctl_del fd none

  -- How many events there are, and the events.
  unfoldable pub wait : Descriptor → ℤ → ℤ → Cmd W (ℤ × List EpollEvent)
  wait self size timeout w =
      let (n, events, w') = api.epoll_wait self.fd size timeout w in
      and_then (checked api.os tag (codes "wait()") (n, w')) λ k. pure (k, events)

  unfoldable pub pwait : Descriptor → ℤ → List ℕ → ℤ → Cmd W (ℤ × List EpollEvent)
  pwait self size sigmask timeout w =
      let (n, events, w') = api.epoll_pwait self.fd size timeout sigmask w in
      and_then (checked api.os tag (codes "pwait()") (n, w')) λ k. pure (k, events)

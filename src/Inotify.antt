-- ===== src/Inotify.antt =====
-- src/fds/inotify.cpp. A path is the list of its bytes; a watch is the number that the system gives it.
use fdcpp.Base.{ℕ, List, ℤ, codes}
use fdcpp.Effect.{Cmd}
use fdcpp.Os.{Os, checked}
use fdcpp.Descriptor.{Descriptor, move_construct}
use fdcpp.Handle.{opened, adopted, duplicated, duplicated_onto, done}

pub record InotifyOs (W : Type 0) : Type 0 where
  pub os : Os W
  pub inotify_init1 : ℕ → W → ℤ × W
  pub inotify_add_watch : ℤ → List ℕ → ℕ → W → ℤ × W
  pub inotify_rm_watch : ℤ → ℤ → W → ℤ × W

module _ {W : Type 0} (api : InotifyOs W) where
  abbrev tag : List ℕ
  tag = codes "inotify"

  unfoldable pub adopt : Descriptor → Cmd W (Descriptor × Descriptor)
  unfolding move_construct
  adopt other = adopted api.os tag (codes "inotify()") other

  unfoldable pub dup : Descriptor → Cmd W Descriptor
  dup self = duplicated api.os tag self

  unfoldable pub dup2 : Descriptor → Descriptor → Cmd W (Unit {0})
  dup2 self other = duplicated_onto api.os tag self other

  unfoldable pub create : ℕ → Cmd W Descriptor
  create flags = opened api.os tag (codes "inotify()") (api.inotify_init1 flags)

  unfoldable pub add_watch : Descriptor → List ℕ → ℕ → Cmd W ℤ
  add_watch self path mask w =
      checked api.os tag (codes "add_watch()") (api.inotify_add_watch self.fd path mask w)

  unfoldable pub rm_watch : Descriptor → ℤ → Cmd W (Unit {0})
  rm_watch self wd = done api.os tag (codes "rm_watch()") (api.inotify_rm_watch self.fd wd)

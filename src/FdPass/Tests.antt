-- ===== src/FdPass/Tests.antt =====
-- What the theorems say of eleven and of three descriptors over `Wire`.
use fdcpp.Base.{
  ◌==◌, ◌+◌, not, true, false, ℕ, ◌≡◌, refl, sym, ap, ℤ, pos, negsuc, List, [], ◌∷◌, ◌++◌, take,
  drop, map, none, some, arith,
}
use fdcpp.Effect.{and_then, ok}
use fdcpp.Effect.Ends.{Ends}
use fdcpp.Descriptor.{Descriptor, descriptor}
use fdcpp.Socket.{SocketOs}
use fdcpp.FdPass.{send, recv, fresh_msg}
use fdcpp.FdPass.Kernel.{Packet, packets}
use fdcpp.FdPass.Stale.{short_message-stale}
use fdcpp.FdPass.Leaks.{recv-NoLeak}
use fdcpp.FdPass.Process
use fdcpp.FdPass.Process.Promises
use fdcpp.Ownership.{holders}
use fdcpp.FdPass.Object.{State, send_from}
use fdcpp.FdPass.Connecting.{ConnectLaw, send_from-Ends}
use fdcpp.FdPass.Passing.{recv-send}
use fdcpp.FdPass.Wire.{Wire, file, sendmsg, connect_to, api, send_law, recv_law}

abbrev idle : Wire
idle = record { waiting = []; error = 0; peer = none }

abbrev sock : Descriptor
sock = record { fd = pos 5 }

abbrev eleven : List ℕ
eleven = 20 ∷ 21 ∷ 22 ∷ 23 ∷ 24 ∷ 25 ∷ 26 ∷ 27 ∷ 28 ∷ 29 ∷ 30 ∷ []

recv-send_example :
    Ends
      (λ v w'. (map (λ (d : Descriptor). file d.fd) v ≡ map some eleven) × (w'.waiting ≡ []))
      (λ _ _. Unit)
      (and_then (send api [] sock (map pos eleven) idle) (λ _. recv api 11 [] sock))
recv-send_example =
    recv-send api sock sock send_law recv_law 11 [] [] (map pos eleven) eleven idle refl refl
      (omega arith) (omega arith) (omega arith)

-- Three files wait, and another message behind theirs.
abbrev other : List (Packet ℕ)
other = record { size = 1; files = 9 ∷ [] } ∷ []

abbrev waiting : Wire
waiting = record { waiting = packets 3 3 (20 ∷ 21 ∷ 22 ∷ []) ++ other; error = 0; peer = none }

-- A process with two files open and one that was, and the three files on their way to it.
abbrev receiving : Process.Process
receiving = record {
  waiting = packets 3 3 (20 ∷ 21 ∷ 22 ∷ []) ++ other;
  files = 9 ∷ 8 ∷ 7 ∷ [];
  live = λ n. not (n == 1);
}

recv-NoLeak_example :
    Ends
      (λ v w'.
        (map (λ (d : Descriptor). Process.file w' d.fd) v ≡ map some (20 ∷ 21 ∷ 22 ∷ []))
        × (w'.waiting ≡ other)
        × ((m : ℕ) → Process.is_open w' m ≡ holders m v + Process.is_open receiving m))
      (λ _ w'. (m : ℕ) → Process.is_open w' m ≡ Process.is_open receiving m)
      (recv Process.api 3 [] sock receiving)
recv-NoLeak_example =
    recv-NoLeak Process.api sock Promises.recv_law Promises.recv_opens Promises.close_law 3 []
      (20 ∷ 21 ∷ 22 ∷ []) other receiving refl (omega arith) (omega arith) (omega arith)
      (λ m. ground arith)

-- A message that says it has three descriptors and brings one, into a buffer with other numbers.
abbrev short_api : SocketOs Wire
short_api = record api {
  recvmsg = λ fd msg flags w.
      (pos 8, record msg { iov = 3; controllen = 24; data_fds = pos 20 ∷ drop 1 msg.data_fds }, w);
}

abbrev old_numbers : List ℤ
old_numbers = pos 0 ∷ pos 1 ∷ pos 2 ∷ []

short_message-stale_example :
    recv short_api 2 old_numbers sock idle
    ≡ ok (descriptor (pos 20) ∷ descriptor (pos 1) ∷ descriptor (pos 2) ∷ []) idle
short_message-stale_example =
    short_message-stale short_api sock 1 old_numbers (pos 20 ∷ []) idle 8
      (record (fresh_msg 0 old_numbers) {
        iov = 3;
        controllen = 24;
        data_fds = pos 20 ∷ pos 1 ∷ pos 2 ∷ [];
      })
      idle refl (omega arith) (omega arith) (omega arith) (omega arith) refl

connect_law : ConnectLaw api (pos 5) (λ w. w.peer) (λ w. file) (λ w. w.waiting)
unfolding sendmsg
connect_law = record {
  connects = λ path w n w' e. (ap (λ r. r.1.peer) (sym e), refl, ap (λ r. r.1.waiting) (sym e));
  refuses = λ path w n w' e. absurd (ground arith);
  sending = λ msg flags w. refl;
}

abbrev path : List ℕ
path = 47 ∷ 120 ∷ []

abbrev fresh : State Wire
fresh = record { self = record { socket = sock; path = path; ready = false }; world = idle }

abbrev no_unlink : List ℕ → Wire → ℤ × Wire
no_unlink name w = (negsuc 0, w)

send_from-Ends_example :
    Ends
      (λ _ t.
        (t.self ≡ record { socket = sock; path = path; ready = true })
        × (t.world.peer ≡ some path)
        × (t.world.waiting ≡ packets 11 11 eleven))
      (λ _ t.
        (t.self.ready ≡ true → t.world.peer ≡ some t.self.path)
        × ((k : ℕ) × (t.world.waiting ≡ take k (packets 11 11 eleven))))
      (send_from api no_unlink [] (map pos eleven) fresh)
send_from-Ends_example =
    send_from-Ends api no_unlink fresh connect_law send_law (λ e. cc) (omega arith) []
      (map pos eleven) eleven refl

-- The same with `bind`, which gives the socket its address.
abbrev bind_api : SocketOs Wire
bind_api = record api { bind = λ fd saddr len w. connect_to saddr w }

abbrev fresh_waiting : State Wire
fresh_waiting = record fresh { world = waiting }

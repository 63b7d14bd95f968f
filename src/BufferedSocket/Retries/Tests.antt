-- ===== src/BufferedSocket/Retries/Tests.antt =====
-- A flush that was interrupted: the socket takes one byte, then fails once, and then takes one byte at
-- a time.
use fdcpp.Base.{
  ℕ, ◌≤◌, ◌≡◌, ◌≢◌, refl, ℤ, pos, negsuc, List, [], ◌∷◌, ◌++◌, length, take, min, ◌==◌,
  if◌then◌else◌, arith,
}
use fdcpp.Effect.Ends.{Ends}
use fdcpp.Throw.{throw_system_error}
use fdcpp.Socket
use fdcpp.Socket.{SocketOs}
use fdcpp.Socket.Stream.{SendLaw}
use fdcpp.Loopback
use fdcpp.Loopback.{Net}
use fdcpp.BufferedSocket.{State, pending, flush, send_all}
use fdcpp.BufferedSocket.Fixtures.{busy, busy-IsValid, at, peer}
use fdcpp.BufferedSocket.Retries.{Tries, none_yet, again, fronts, flush-Tries}

-- EINTR is 4.
send_once : List ℕ → Net → ℤ × Net
send_once bytes w = if w.error == 4 then (negsuc 0, record w { error = 5 }) else (
  pos (min 1 (length bytes)),
  record w {
    sent = w.sent ++ take (min 1 (length bytes)) bytes;
    error = if w.error == 0 then 4 else w.error;
  },
)

abbrev api : SocketOs Net
api = record Loopback.api { send = λ fd bytes flags w. send_once bytes w }

once_accepts :
    (bytes : List ℕ) (w : Net) (n : ℕ) (w' : Net)
    → send_once bytes w ≡ (pos n, w')
    → (n ≤ length bytes) × (w'.sent ≡ w.sent ++ take n bytes) × (bytes ≢ [] → n ≢ 0)
unfolding send_once
once_accepts [] w n w' e = (ground arith, ground arith, λ h. absurd (h refl))
once_accepts (x ∷ xs) w n w' e = (ground arith, ground arith, λ h. ground arith)

once_refuses :
    (bytes : List ℕ) (w : Net) (e : ℕ) (w' : Net)
    → send_once bytes w ≡ (negsuc e, w')
    → w'.sent ≡ w.sent
unfolding send_once
once_refuses bytes w e w' h = ground arith

once_law : SendLaw api (pos 5) peer
once_law = record {
  accepts = λ bytes flags w n w' e. once_accepts bytes w n w' e;
  refuses = λ bytes flags w e w' h. once_refuses bytes w e w' h;
}

-- After the flush that threw, with the first of the two bytes sent.
abbrev interrupted : State Net
interrupted = record { self = busy; world = record { sent = 1 ∷ []; arrived = []; error = 5 } }

one_try : Tries api (at busy []) 1 interrupted
unfolding flush send_all Socket.send send_once throw_system_error
one_try = again _ none_yet refl

flush-Tries_example :
    Ends
      (λ _ u.
        (pending u.self ≡ [])
        × ((ks : List ℕ) × (length ks ≡ 1)
            × (peer u.world ≡ fronts (1 ∷ 2 ∷ []) ks ++ (1 ∷ 2 ∷ []))))
      (λ _ u.
        (u.self ≡ busy)
        × ((ks : List ℕ) × (length ks ≡ 2) × (peer u.world ≡ fronts (1 ∷ 2 ∷ []) ks)))
      (flush api interrupted)
flush-Tries_example = flush-Tries api (at busy []) once_law busy-IsValid 1 interrupted one_try

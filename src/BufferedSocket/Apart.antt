-- ===== src/BufferedSocket/Apart.antt =====
-- The two directions of a connection: what is written leaves what comes in alone, and what is read
-- leaves what was sent.
use fdcpp.Base.{
  ◌+◌, ℕ, zero, suc, ◌-◌, ◌≤◌, ◌≡◌, sym, ap, ◌∙◌, inl, inr, ℤ, pos, negsuc, pos_part, List, length,
  take, drop, ◌==◌, ◌||◌, leb, ltb, Bool-cases, arith, take-drop-take,
}
use fdcpp.Effect.{
  Error, system_error, runtime_error, Run, pure, ok, throw, fault, out_of_fuel, and_then,
}
use fdcpp.Effect.Kept.{Keeps, Keeps-guarded, Keeps-bind, Keeps-handle}
use fdcpp.Throw.{throw_system_error}
use fdcpp.Os.{Os, checked, checked_bytes}
use fdcpp.Descriptor.{Descriptor}
use fdcpp.Socket.{SocketOs, msg_nosignal}
use fdcpp.Socket
use fdcpp.BufferedSocket.{
  in_block, store_input, BufferedSocket, State, within, block, unread, add_size, send_loop,
  send_all, pending, flush, append_output, write_output_buffer, recv_failed, recv_if_possible,
  copy_size, recv_size, drain_input, copy_input, take_input, eagain, ewouldblock,
}
use fdcpp.BufferedSocket.Invariant.{IsValid, SameInput}

-- send(2) and recv(2) on one socket.
pub record Apart {W : Type 0} (api : SocketOs W) (fd : ℤ) (sent incoming : W → List ℕ)
    : Type 0 where
  pub sending :
      (bytes : List ℕ) (flags : ℕ) (w : W) → incoming (api.send fd bytes flags w).1 ≡ incoming w
  pub receiving : (size flags : ℕ) (w : W) → sent (api.recv fd size flags w).2 ≡ sent w

module _ {W : Type 0} (os : Os W) (tag func : List ℕ) (K : W → Type 0) where
  counted-Keeps :
      (r : ℤ × W) → K r.1 → Keeps K (and_then (checked os tag func r) (λ n. pure (pos_part n)))
  unfolding throw_system_error
  counted-Keeps (pos n, w) k = k
  counted-Keeps (negsuc n, w) k = k

  stored-Keeps :
      (r : ℤ × List ℕ × W)
      → K r.2
      → Keeps {A = ℕ × List ℕ} K
          (and_then (checked_bytes os tag func r) (λ a. pure (pos_part a.0, a.1)))
  unfolding throw_system_error
  stored-Keeps (pos n, bytes, w) k = k
  stored-Keeps (negsuc n, bytes, w) k = k

module _ {W : Type 0} (K : W → Type 0) where
  -- What is said of the system, of an object with it.
  abbrev pub There : State W → Type 0
  There s = K s.world

  within-Keeps : {A : Type 0} (s : State W) (r : Run W A) → Keeps K r → Keeps There (within s r)
  within-Keeps s (ok a w) k = k
  within-Keeps s (throw e w) k = k
  within-Keeps s fault k = tt
  within-Keeps s out_of_fuel k = tt

module _ {W : Type 0} (api : SocketOs W) (K : W → Type 0) (sock : Descriptor)
    (keep : (bytes : List ℕ) (flags : ℕ) (w : W) → K w → K (api.send sock.fd bytes flags w).1) where
  send_loop-Keeps :
      (fuel : ℕ) (bytes : List ℕ) (n : ℕ) (w : W)
      → K w
      → Keeps K (send_loop api fuel sock bytes n w)
  unfolding send_loop Socket.send
  send_loop-Keeps zero bytes n w k = tt
  send_loop-Keeps (suc fuel) bytes n w k =
      Keeps-bind K (Socket.send api sock (drop n bytes) msg_nosignal w) _
        (counted-Keeps api.os _ _ K (api.send sock.fd (drop n bytes) msg_nosignal w)
          (keep (drop n bytes) msg_nosignal w k))
        (λ m w' k'. elim (Bool-cases (add_size n m == length bytes)) [
          | inl e ↦ rw e k'
          | inr e ↦ rw e (send_loop-Keeps fuel bytes (add_size n m) w' k')
        ])

-- What the object stores is its own affair.
module _ {W : Type 0} (api : SocketOs W) (K : W → Type 0) where
  append_output-Keeps :
      (bytes : List ℕ) (t : State W) → K t.world → Keeps (There K) (append_output api bytes t)
  unfolding append_output
  append_output-Keeps bytes t k =
      elim (Bool-cases (in_block (t.self.out_base + t.self.out_size) (length bytes) t.self)) [
        | inl e ↦ rw e k
        | inr e ↦ rw e tt
      ]

  store_input-Keeps :
      (r : ℕ × List ℕ) (t : State W) → K t.world → Keeps (There K) (store_input api r t)
  store_input-Keeps r t k = elim (Bool-cases (in_block t.self.in_size (length r.1) t.self)) [
    | inl e ↦ rw e k
    | inr e ↦ rw e tt
  ]

-- What every `send` keeps is kept by a write and a flush.
module _ {W : Type 0} (api : SocketOs W) (K : W → Type 0) (s : State W)
    (keep : (bytes : List ℕ) (flags : ℕ) (w : W)
      → K w
      → K (api.send s.self.socket.fd bytes flags w).1)
    (k : K s.world) where
  sent-Keeps :
      (bytes : List ℕ) → Keeps (There K) (within s (send_all api s.self.socket bytes s.world))
  unfolding send_all
  sent-Keeps bytes =
      within-Keeps K s _ (send_loop-Keeps api K s.self.socket keep _ bytes 0 s.world k)

  pub flush-Keeps : Keeps (There K) (flush api s)
  unfolding flush
  flush-Keeps =
      Keeps-guarded (There K) _ _
        (Keeps-bind (There K) _ _ (sent-Keeps (pending s.self)) (λ _ t h. h))

  pub write_output_buffer-Keeps :
      (bytes : List ℕ) → Keeps (There K) (write_output_buffer api bytes s)
  unfolding write_output_buffer
  write_output_buffer-Keeps bytes = elim (Bool-cases (leb s.self.out_capacity (length bytes))) [
    | inl e ↦ rw e (sent-Keeps bytes)
    | inr e ↦
        rw e
          (elim (Bool-cases (leb s.self.out_capacity (add_size s.self.out_size (length bytes)))) [
            | inl full ↦ rw full (
                Keeps-bind (There K) (flush api s) (λ _. append_output api bytes) flush-Keeps
                  (λ _ t h. append_output-Keeps api K bytes t h))
            | inr place ↦ rw place (append_output-Keeps api K bytes s k)
          ])
  ]

-- What every `recv` keeps is kept by a read.
module _ {W : Type 0} (api : SocketOs W) (K : W → Type 0) where
  recv-Keeps :
      (sock : Descriptor) (size flags : ℕ) (w : W)
      → K (api.recv sock.fd size flags w).2
      → Keeps K (Socket.recv api sock size flags w)
  unfolding Socket.recv
  recv-Keeps sock size flags w k = stored-Keeps api.os _ _ K (api.recv sock.fd size flags w) k

  recv_failed-Keeps : (e : Error) (t : State W) → K t.world → Keeps (There K) (recv_failed api e t)
  unfolding recv_failed
  recv_failed-Keeps (system_error code what) t k =
      elim (Bool-cases (code == eagain || code == ewouldblock)) [ inl e ↦ rw e k | inr e ↦ rw e k ]
  recv_failed-Keeps (runtime_error what) t k = k

  pub recv_if_possible-Keeps :
      (s : State W)
      → ((size flags : ℕ) → K (api.recv s.self.socket.fd size flags s.world).2)
      → K s.world
      → Keeps (There K) (recv_if_possible api s)
  unfolding recv_if_possible
  recv_if_possible-Keeps s keep k = elim (Bool-cases (leb s.self.in_capacity s.self.in_size)) [
    | inl e ↦ rw e k
    | inr e ↦ rw e (
        Keeps-handle (There K) _ (recv_failed api)
          (Keeps-bind (There K) _ (store_input api)
            (within-Keeps K s _ (recv-Keeps s.self.socket _ _ s.world (keep _ _)))
            (store_input-Keeps api K))
          recv_failed-Keeps)
  ]

  pub take_input-Keeps :
      (s : State W) (dest : List ℕ)
      → ((size flags : ℕ) → K (api.recv s.self.socket.fd size flags s.world).2)
      → K s.world
      → Keeps (There K) (take_input api dest s)
  unfolding take_input drain_input copy_input
  take_input-Keeps s dest keep k =
      elim (Bool-cases (leb s.self.in_size (add_size s.self.in_rd (length dest)))) [
        | inr e ↦ rw e (elim (Bool-cases (in_block s.self.in_rd (length dest) s.self)) [
          | inl h ↦ rw h k
          | inr h ↦ rw h tt
        ])
        | inl e ↦ rw e (elim (Bool-cases (ltb (length dest) (copy_size s.self))) [
          | inl bad ↦ rw bad tt
          | inr fits ↦
              rw fits (elim (Bool-cases (in_block s.self.in_rd (copy_size s.self) s.self)) [
                | inr out ↦ rw out tt
                | inl own ↦ rw own (elim (Bool-cases (recv_size s.self dest == 0)) [
                  | inl all ↦ rw all k
                  | inr more ↦ rw more (
                      Keeps-bind (There K) _ _
                        (within-Keeps K s _ (recv-Keeps s.self.socket _ _ s.world (keep _ _)))
                        (λ r t h. h))
                ])
              ])
        ])
      ]

-- A write leaves the unread bytes.
pub unread-SameInput : {b c : BufferedSocket} → IsValid b → SameInput b c → unread c ≡ unread b
unread-SameInput {b} {c} v h =
    let n = b.in_size - b.in_rd in
    let inside : b.in_rd + n ≤ b.in_capacity = omega (arith, v.rd_le, v.in_le) in
    rw (h.in_size, h.in_rd)
      (take-drop-take b.in_rd n b.in_capacity (block c) inside
        ∙ ap (λ xs. take n (drop b.in_rd xs)) h.input
        ∙ sym (take-drop-take b.in_rd n b.in_capacity (block b) inside))

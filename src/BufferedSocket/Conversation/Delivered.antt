-- ===== src/BufferedSocket/Conversation/Delivered.antt =====
-- That what one end has written comes out at the other when it is flushed and read.
use fdcpp.Base.{
  refl, ℕ, ◌+◌, ◌^◌, ◌<◌, ◌≡◌, sym, ap, ◌∙◌, subst, ℤ, List, [], ◌∷◌, ◌++◌, length, append-nil,
  length-append, arith,
}
use fdcpp.Effect.Ends
use fdcpp.Effect.Ends.{Ends}
use fdcpp.Effect.Quiet.{Ends-Quiet}
use fdcpp.Socket.{SocketOs}
use fdcpp.BufferedSocket.{BufferedSocket, State, pending, unread, flush, read_input_buffer}
use fdcpp.BufferedSocket.Writing.{flush-Ends}
use fdcpp.BufferedSocket.Draining.{input}
use fdcpp.BufferedSocket.Reading.{read_input_buffer-Ends}
use fdcpp.BufferedSocket.Returning.{Answers, flush-Quiet, read_input_buffer-Quiet}
use fdcpp.BufferedSocket.Spec.{Connection}
use fdcpp.BufferedSocket.Conversation.{Log, Talk, at_left, at_right, Reach}
use fdcpp.BufferedSocket.Conversation.Direction.{Good}
use fdcpp.BufferedSocket.Conversation.Lossless.{Opened, Opened-Reach}

pub nothing_left : (xs ys : List ℕ) → length ys ≡ length (ys ++ xs) → xs ≡ []
nothing_left [] ys h = refl
nothing_left (x ∷ xs) ys h = absurd (omega (arith, length-append ys (x ∷ xs)))

module _ {W : Type 0} (api : SocketOs W) {fd fd' : ℤ} {sent incoming : W → List ℕ}
    (near : Connection api fd sent incoming) (far : Connection api fd' incoming sent)
    (near_answers : Answers api fd incoming) (far_answers : Answers api fd' sent) where
  -- A flush at the near end and a read at the far one, of all that it has not read.
  abbrev pub Delivers : State W → Log → BufferedSocket → Log → List ℕ → Type 0
  Delivers s mine other theirs dest =
      Ends
        (λ _ t.
          Ends (λ got _. theirs.read ++ got ≡ mine.wrote) (λ _ _. ⊥)
            (read_input_buffer api dest (record { self = other; world = t.world })))
        (λ _ _. ⊥) (flush api s)

  module _ (s : State W) (mine : Log) (other : BufferedSocket) (theirs : Log) (w : W)
      (g : Good fd sent incoming s mine other theirs)
      (h : Good fd' incoming sent (record { self = other; world = w }) theirs s.self mine) where
    read_rest :
        (t : State W) (dest : List ℕ)
        → sent t.world ≡ sent s.world ++ pending s.self
        → length dest < 2 ^ 63
        → length theirs.read + length dest ≡ length mine.wrote
        → Ends
            (λ got _. theirs.read ++ got ≡ mine.wrote)
            (λ _ _. ⊥)
            (read_input_buffer api dest (record { self = other; world = t.world }))
    read_rest t dest e small exact =
        let r : State W = record { self = other; world = t.world } in
        let law = subst (λ n. Connection api n incoming sent) (sym h.same_fd) far in
        let answers = subst (λ n. Answers api n sent) (sym h.same_fd) far_answers in
        let all : theirs.read ++ input sent r ≡ mine.wrote =
          ap (λ wire. theirs.read ++ (unread other ++ wire)) e ∙ g.there in
        let count : length dest ≡ length (input sent r) =
          omega (arith, ap length all, length-append theirs.read (input sent r)) in
        Ends.mono
          (Ends-Quiet (read_input_buffer-Ends api r law.receives h.valid dest small law.waits)
            (read_input_buffer-Quiet api r dest answers law.receives h.valid small (omega arith)))
          (λ got u p.
            let rest = nothing_left (input sent u) got (p.2 ∙ count ∙ ap length p.3) in
            ap (λ xs. theirs.read ++ xs) (sym (p.3 ∙ ap (λ xs. got ++ xs) rest ∙ append-nil got))
            ∙ all)
          (λ _ _ p. p)

    flush-Delivers :
        (dest : List ℕ)
        → length dest < 2 ^ 63
        → length theirs.read + length dest ≡ length mine.wrote
        → Delivers s mine other theirs dest
    flush-Delivers dest small exact =
        let law = subst (λ n. Connection api n sent incoming) (sym g.same_fd) near in
        let answers = subst (λ n. Answers api n incoming) (sym g.same_fd) near_answers in
        Ends.mono (Ends-Quiet (flush-Ends api s law.sends g.valid) (flush-Quiet api s answers))
          (λ _ t p. read_rest t dest p.1 small exact) (λ _ _ p. p)

module _ {W : Type 0} (api : SocketOs W) {fd fd' : ℤ} {to_right to_left : W → List ℕ}
    (left : Connection api fd to_right to_left) (right : Connection api fd' to_left to_right)
    (left_answers : Answers api fd to_left) (right_answers : Answers api fd' to_right) where
  -- Two new objects at the ends of one connection, whose system keeps its promises at both and answers
  -- every call: after any calls at either end that returned, with each write smaller than its output
  -- buffer, and reads that threw, in any order, one at a time, a flush at one end returns; and a read
  -- at the other end then, into a buffer of as many bytes as were written here and not read there,
  -- returns, and with it all that was written has been read, in its order.
  pub Reach-delivers :
      (c d : Talk W) (right_dest left_dest : List ℕ)
      → Opened api left right c
      → Reach api c d
      → length right_dest < 2 ^ 63
      → length left_dest < 2 ^ 63
      → length d.right_log.read + length right_dest ≡ length d.left_log.wrote
      → length d.left_log.read + length left_dest ≡ length d.right_log.wrote
      → Ends
          (λ _ t.
            Ends
              (λ got _. d.right_log.read ++ got ≡ d.left_log.wrote)
              (λ _ _. ⊥)
              (read_input_buffer api right_dest (record { self = d.right; world = t.world })))
          (λ _ _. ⊥)
          (flush api (at_left d))
        × Ends
            (λ _ t.
              Ends
                (λ got _. d.left_log.read ++ got ≡ d.right_log.wrote)
                (λ _ _. ⊥)
                (read_input_buffer api left_dest (record { self = d.left; world = t.world })))
            (λ _ _. ⊥)
            (flush api (at_right d))
  Reach-delivers c d right_dest left_dest o r small small' exact exact' =
      let v = Opened-Reach api left right c d o r in
      (
        flush-Delivers api left right left_answers right_answers (at_left d) d.left_log d.right
            d.right_log d.world v.left_good v.right_good right_dest small exact,
        flush-Delivers api right left right_answers left_answers (at_right d) d.right_log d.left
            d.left_log d.world v.right_good v.left_good left_dest small' exact',
      )

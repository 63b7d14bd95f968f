-- ===== src/Transfer/Tests.antt =====
-- A system from which a read takes at most three bytes, and finds nothing at the end.
use fdcpp.Base.{
  ap₂, ℕ, ◌≤◌, ◌≡◌, ◌≢◌, sym, ap, ◌∙◌, ℤ, pos, negsuc, pos_part, List, [], ◌∷◌, ◌++◌, length, take,
  drop, min, length-take, take-append-drop, arith,
}
use fdcpp.Effect.Ends.{Ends}
use fdcpp.Os.{Os}
use fdcpp.Transfer.{read_whole_in}
use fdcpp.Transfer.Whole.{ReadLaw, read_whole_in-Ends}

record Pipe : Type 0 where
  incoming : List ℕ
  error : ℕ

unfoldable read_of : ℕ → Pipe → List ℕ → ℤ × List ℕ × Pipe
read_of size w [] = (negsuc 0, [], record w { error = 11 })
read_of size w (b ∷ bytes) =
    let n = min 3 (min size (length (b ∷ bytes))) in
    (pos n, take n (b ∷ bytes), record w { incoming = drop n (b ∷ bytes) })

abbrev os : Os Pipe
os = record {
  errno = λ w. w.error;
  set_errno = λ e w. record w { error = e };
  close = λ fd w. (pos 0, w);
  dup = λ fd w. (pos 7, w);
  dup2 = λ old new w. (new, w);
  fcntl = λ fd cmd arg w. (pos 0, w);
  read = λ fd size w. read_of size w w.incoming;
  write = λ fd bytes w. (negsuc 0, record w { error = 5 });
  pread = λ fd size off w. (negsuc 0, [], record w { error = 5 });
  pwrite = λ fd bytes off w. (negsuc 0, record w { error = 5 });
}

pipe_delivers :
    (size : ℕ) (w : Pipe) (xs : List ℕ) (n : ℕ) (bytes : List ℕ) (w' : Pipe)
    → read_of size w xs ≡ (pos n, bytes, w')
    → (n ≤ size) × (length bytes ≡ n) × (xs ≡ bytes ++ w'.incoming) × (size ≢ 0 → n ≢ 0)
unfolding read_of
pipe_delivers size w [] n bytes w' e = absurd (ground arith)
pipe_delivers size w (b ∷ bs) n bytes w' e =
    let xs = b ∷ bs in
    let m = min 3 (min size (length xs)) in
    let count : m ≡ n = ap (λ r. pos_part r.0) e in
    let came : take m xs ≡ bytes = ap (λ r. r.1) e in
    let left : drop m xs ≡ w'.incoming = ap (λ r. r.2.incoming) e in
    (
      omega (arith, count),
      omega (arith, count, ap length came, length-take m xs),
      sym (take-append-drop m xs) ∙ ap₂ (◌++◌) came left,
      (λ some_size none_came. some_size (omega (arith, count, none_came))),
    )

pipe_fails :
    (size : ℕ) (w : Pipe) (xs : List ℕ) (e : ℕ) (bytes : List ℕ) (w' : Pipe)
    → read_of size w xs ≡ (negsuc e, bytes, w')
    → w'.incoming ≡ w.incoming
unfolding read_of
pipe_fails size w [] e bytes w' h = ap (λ r. r.2.incoming) (sym h)
pipe_fails size w (b ∷ bs) e bytes w' h = absurd (ground arith)

law : ReadLaw os (pos 4) (λ w. w.incoming)
law = record {
  delivers = λ size w n bytes w' e. pipe_delivers size w w.incoming n bytes w' e;
  fails = λ size w e bytes w' h. pipe_fails size w w.incoming e bytes w' h;
}

abbrev full : Pipe
full = record { incoming = 1 ∷ 2 ∷ 3 ∷ 4 ∷ 5 ∷ 6 ∷ 7 ∷ 8 ∷ 9 ∷ []; error = 0 }

read_whole_in-Ends_example :
    Ends
      (λ bytes w'.
        (length bytes ≡ 8) × (1 ∷ 2 ∷ 3 ∷ 4 ∷ 5 ∷ 6 ∷ 7 ∷ 8 ∷ 9 ∷ [] ≡ bytes ++ w'.incoming))
      (λ _ w'. (lost : List ℕ) × (1 ∷ 2 ∷ 3 ∷ 4 ∷ 5 ∷ 6 ∷ 7 ∷ 8 ∷ 9 ∷ [] ≡ lost ++ w'.incoming))
      (read_whole_in os 8 8 (record { fd = pos 4 }) full)
read_whole_in-Ends_example =
    read_whole_in-Ends os (record { fd = pos 4 }) law 8 8 full (omega arith) (omega arith)
      (omega arith)

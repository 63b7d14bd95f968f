-- ===== src/FdPass/Process/Promises.antt =====
-- That Process keeps the promises of recvmsg(2) and close(2).
use fdcpp.Base.{
  ◌≢◌, ℕ, zero, suc, ◌+◌, ◌*◌, ◌≤◌, ◌≡◌, refl, sym, ap, ap₂, ◌∙◌, subst, ℤ, pos, negsuc, List, [],
  ◌∷◌, ◌++◌, length, take, map, some, leb, ltb, ◌==◌, if◌then◌else◌, length-append, take-all,
  append_assoc, arith,
}
use fdcpp.Descriptor.{descriptor}
use fdcpp.Socket.{MsgHdr}
use fdcpp.Ownership.{holders, CloseLaw}
use fdcpp.FdPass.Kernel.{Packet, RecvMsgLaw}
use fdcpp.FdPass.Leaks.{RecvOpens}
use fdcpp.FdPass.Process.{
  Process, entry, file, is_open, close, os, numbers, message, opened, recvmsg_of, api,
}

frees_law :
    (n : ℕ) (w : Process) (m : ℕ)
    → is_open (close (pos n) w).1 m ≡ (if n == m then 0 else is_open w m)
frees_law n w m = ground arith

pub close_law : CloseLaw os is_open
close_law = record {
  frees = frees_law;
  dups = λ old. record {
    takes = λ w n w' h. cc;
    refuses = λ w e w' h m. ap (λ r. is_open r.1 m) (sym h);
  };
}

-- Entries stay where they are when files are added.
entry_stays : (xs ys : List ℕ) (n f : ℕ) → entry xs n ≡ some f → entry (xs ++ ys) n ≡ some f
entry_stays [] ys n f e = cc
entry_stays (x ∷ xs) ys zero f e = e
entry_stays (x ∷ xs) ys (suc n) f e = entry_stays xs ys n f e

entry_behind : (xs ys : List ℕ) (y : ℕ) → entry (xs ++ (y ∷ ys)) (length xs) ≡ some y
entry_behind [] ys y = refl
entry_behind (x ∷ xs) ys y = entry_behind xs ys y

-- The numbers of the added files.
file-numbers :
    (w : Process) (xs ys : List ℕ)
    → w.files ≡ xs ++ ys
    → map (file w) (numbers (length xs) (length ys)) ≡ map some ys
file-numbers w xs [] e = refl
file-numbers w xs (y ∷ ys) e =
    let next : length (xs ++ (y ∷ [])) ≡ suc (length xs) =
      omega (arith, length-append xs (y ∷ [])) in
    ap₂ (λ b bs. b ∷ bs) (ap (λ fs. entry fs (length xs)) e ∙ entry_behind xs ys y)
      (ap (λ n. map (file w) (numbers n (length ys))) (sym next)
        ∙ file-numbers w (xs ++ (y ∷ [])) ys (e ∙ sym (append_assoc xs (y ∷ []) ys)))

length-numbers : (from k : ℕ) → length (numbers from k) ≡ k
length-numbers from zero = refl
length-numbers from (suc k) = omega (arith, length-numbers (suc from) k)

whole : (from k : ℕ) → take k (numbers from k) ≡ numbers from k
whole from k = take-all k (numbers from k) (omega (arith, length-numbers from k))

holders-numbers :
    (from k m : ℕ)
    → holders m (map descriptor (numbers from k))
      ≡ (if leb from m then if ltb m (from + k) then 1 else 0 else 0)
holders-numbers from zero m = ground arith
holders-numbers from (suc k) m = ground (arith, holders-numbers (suc from) k m)

recvmsg_fits :
    (msg : MsgHdr) (w : Process) (p : Packet ℕ) (ps : List (Packet ℕ))
    → 16 + length p.files * 4 ≤ msg.controllen
    → recvmsg_of msg w (p ∷ ps) ≡ (pos 8, message msg w p, opened w p ps)
unfolding recvmsg_of
recvmsg_fits msg w p ps fits = ground arith

-- A call that fails changes nothing.
recvmsg_refuses :
    (msg : MsgHdr) (w : Process) (ps : List (Packet ℕ)) (e : ℕ) (msg' : MsgHdr) (w' : Process)
    → recvmsg_of msg w ps ≡ (negsuc e, msg', w')
    → w ≡ w'
unfolding recvmsg_of
recvmsg_refuses msg w [] e msg' w' h = ap (λ r. r.2) h
recvmsg_refuses msg w (p ∷ ps) e msg' w' h = ground arith

file_stays :
    (w w' : Process) (fs : List ℕ)
    → w'.files ≡ w.files ++ fs
    → (d : ℤ) (f : ℕ) → file w d ≡ some f
    → file w' d ≡ some f
file_stays w w' fs grown (pos n) f e = ap (λ xs. entry xs n) grown ∙ entry_stays w.files fs n f e
file_stays w w' fs grown (negsuc n) f e = absurd (ground arith)

recvmsg_keeps :
    (msg : MsgHdr) (w : Process) (ps : List (Packet ℕ)) (n : ℕ) (msg' : MsgHdr) (w' : Process)
    → recvmsg_of msg w ps ≡ (pos n, msg', w')
    → (d : ℤ) (f : ℕ) → file w d ≡ some f
    → file w' d ≡ some f
unfolding recvmsg_of
recvmsg_keeps msg w [] n msg' w' h d f e = absurd (ground arith)
recvmsg_keeps msg w (p ∷ ps) n msg' w' h d f e = file_stays w w' p.files (ground arith) d f e

module _ (msg : MsgHdr) (w : Process) (n : ℕ) (msg' : MsgHdr) (w' : Process) (p : Packet ℕ)
    (ps : List (Packet ℕ)) (e : recvmsg_of msg w w.waiting ≡ (pos n, msg', w'))
    (waits : w.waiting ≡ p ∷ ps) (fits : 16 + length p.files * 4 ≤ msg.controllen) where
  came : ◌≡◌ {A = ℤ × MsgHdr × Process} (pos 8, message msg w p, opened w p ps) (pos n, msg', w')
  came = sym (recvmsg_fits msg w p ps fits) ∙ ap (recvmsg_of msg w) (sym waits) ∙ e

  delivered :
      (msg'.iov ≡ p.size)
      × (p.files ≢ [] → 16 + length p.files * 4 ≤ msg'.controllen)
      × (map (file w') (take (length p.files) msg'.data_fds) ≡ map some p.files)
      × (w'.waiting ≡ ps)
  delivered =
      subst
        (λ (r : ℤ × MsgHdr × Process).
          (r.1.iov ≡ p.size)
          × (p.files ≢ [] → 16 + length p.files * 4 ≤ r.1.controllen)
          × (map (file r.2) (take (length p.files) r.1.data_fds) ≡ map some p.files)
          × (r.2.waiting ≡ ps))
        came
        (
          refl,
          (λ _. omega arith),
          ap (map (file (opened w p ps))) (whole (length w.files) (length p.files))
              ∙ file-numbers (opened w p ps) w.files p.files refl,
          refl,
        )

  opened_now :
      (m : ℕ)
      → (is_open w' m
          ≡ holders m (map descriptor (take (length p.files) msg'.data_fds)) + is_open w m)
        × (is_open w' m ≤ 1)
  opened_now m =
      subst
        (λ (r : ℤ × MsgHdr × Process).
          (is_open r.2 m
            ≡ holders m (map descriptor (take (length p.files) r.1.data_fds)) + is_open w m)
          × (is_open r.2 m ≤ 1))
        came
        (rw (whole, holders-numbers) (ground (arith, length-append w.files p.files)), ground arith)

pub recv_law : RecvMsgLaw api (pos 5) file (λ w. w.waiting)
recv_law = record {
  delivers = λ msg flags w n msg' w' p ps e waits fits. delivered msg w n msg' w' p ps e waits fits;
  keeps = λ msg flags w n msg' w' e d f h. recvmsg_keeps msg w w.waiting n msg' w' e d f h;
}

pub recv_opens : RecvOpens api (pos 5) is_open (λ w. w.waiting)
recv_opens = record {
  opens =
      λ msg flags w n msg' w' p ps e waits fits m. opened_now msg w n msg' w' p ps e waits fits m;
  refuses = λ msg flags w e msg' w' h m.
      ap (λ t. is_open t m) (sym (recvmsg_refuses msg w w.waiting e msg' w' h));
}

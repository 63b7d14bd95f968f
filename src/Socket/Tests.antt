-- ===== src/Socket/Tests.antt =====
-- A system with one option, whose state is the bytes of that.
use fdcpp.Base.{◌+◌, ℕ, ◌≡◌, sym, ap, pos, negsuc, List, [], ◌∷◌, take, arith}
use fdcpp.Effect.{and_then}
use fdcpp.Effect.Ends.{Ends}
use fdcpp.Os.{Os}
use fdcpp.Descriptor.{Descriptor, descriptor}
use fdcpp.Endian.{big}
use fdcpp.Loopback.{refusing}
use fdcpp.Socket.{SocketOs}
use fdcpp.Socket.Options.{getsockopt_int, setsockopt_int, OptionLaw, getsockopt-setsockopt}

abbrev os : Os (List ℕ)
os = record {
  errno = λ w. 22;
  set_errno = λ e w. w;
  close = λ fd w. (pos 0, w);
  dup = λ fd w. (pos 7, w);
  dup2 = λ old new w. (new, w);
  fcntl = λ fd cmd arg w. (pos 0, w);
  read = λ fd size w. (negsuc 0, [], w);
  write = λ fd bytes w. (negsuc 0, w);
  pread = λ fd size off w. (negsuc 0, [], w);
  pwrite = λ fd bytes off w. (negsuc 0, w);
}

abbrev api : SocketOs (List ℕ)
api = record (refusing os) {
  getsockopt = λ fd level name len w. (pos 0, take len w, w);
  setsockopt = λ fd level name val w. (pos 0, val);
}

law : OptionLaw api (pos 5) 1 7 (λ w. w)
law = record {
  stores = λ val w n w' e. ap (λ r. r.1) (sym e);
  yields = λ len w n bytes w' e. ap (λ r. r.1) (sym e);
}

-- `std::to_string` on numbers of one digit.
abbrev digit : ℕ → List ℕ
digit n = (48 + n) ∷ []

abbrev sock : Descriptor
sock = descriptor (pos 5)

getsockopt-setsockopt_example :
    Ends
      (λ got _. got ≡ negsuc 4)
      (λ _ _. Unit)
      (and_then
        (setsockopt_int api big digit sock 1 7 (negsuc 4) [])
        (λ _. getsockopt_int api big digit sock 1 7))
getsockopt-setsockopt_example =
    getsockopt-setsockopt api big digit sock 1 7 law (negsuc 4) [] (omega arith)

abbrev two : List ℕ
two = 3 ∷ 4 ∷ []

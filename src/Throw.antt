-- ===== src/Throw.antt =====
-- src/util/throw.cpp: how every class reports an error. A `const char *` is the list of the
-- characters before its terminator, so `strlen` is the length and `*tag != '\0'` says not empty.
use fdcpp.Base.{ℕ, List, [], ◌∷◌, ◌++◌, codes}
use fdcpp.Effect.{Cmd, throw, system_error, runtime_error}

-- `if (*tag != '\0') msg += "::"`
separator : List ℕ → List ℕ
separator [] = []
separator (c ∷ tag) = codes "::"

unfoldable pub make_message : List ℕ → List ℕ → List ℕ
unfolding separator
make_message tag func = tag ++ separator tag ++ func

-- The code `e` is an argument: the default, `errno`, is read where the error is found.
unfoldable pub throw_system_error : {S A : Type 0} → List ℕ → List ℕ → ℕ → Cmd S A
throw_system_error tag func e = throw (system_error e (make_message tag func))

unfoldable pub throw_runtime_error : {S A : Type 0} → List ℕ → List ℕ → List ℕ → Cmd S A
throw_runtime_error tag func msg =
    throw (runtime_error (make_message tag func ++ (codes ": " ++ msg)))

-- ===== src/Endian/Wire.antt =====
-- On the wire a number is its bytes, the highest first, whatever the order of the hosts.
use native.Mathlib.Nat.{pow-suc, mod-eq_of_lt}
use mathlib.Core.List.{reverse-reverse, reverse-cons}
use fdcpp.Base.{
  ℕ, zero, suc, ◌+◌, ◌-◌, ◌*◌, ◌/◌, ◌%◌, ◌^◌, ◌<◌, ◌≡◌, refl, ap, ◌∙◌, subst, ℤ, pos, negsuc, List,
  [], ◌∷◌, ◌++◌, reverse, length, length-append, arith,
}
use fdcpp.Endian.{
  Order, little, big, le_bytes, of_le, object_bytes, of_object, hto_be, be_toh, to_unsigned,
  to_signed,
}

-- The bytes of a number, the highest first.
unfoldable pub big_endian : ℕ → ℕ → List ℕ
unfolding le_bytes
big_endian n v = reverse (le_bytes n v)

abbrev pub AreBytes : List ℕ → Type 0
AreBytes [] = Unit {0}
AreBytes (b ∷ bytes) = (b < 256) × AreBytes bytes

-- The integers of the signed type of `2 * half` values.
abbrev pub IsSigned : ℕ → ℤ → Type 0
IsSigned half (pos n) = n < half
IsSigned half (negsuc n) = n < half

AreBytes-append : (xs ys : List ℕ) → AreBytes xs → AreBytes ys → AreBytes (xs ++ ys)
AreBytes-append [] ys h k = k
AreBytes-append (x ∷ xs) ys h k = (h.0, AreBytes-append xs ys h.1 k)

AreBytes-reverse : (xs : List ℕ) → AreBytes xs → AreBytes (reverse xs)
AreBytes-reverse [] h = tt
AreBytes-reverse (x ∷ xs) h =
    rw (reverse-cons x xs)
      (AreBytes-append (reverse xs) (x ∷ []) (AreBytes-reverse xs h.1) (h.0, tt))

length-reverse : (xs : List ℕ) → length (reverse xs) ≡ length xs
length-reverse [] = refl
length-reverse (x ∷ xs) =
    omega
      (arith, ap length (reverse-cons x xs), length-append (reverse xs) (x ∷ []), length-reverse xs)

le_bytes-AreBytes : (n v : ℕ) → AreBytes (le_bytes n v)
unfolding le_bytes
le_bytes-AreBytes zero v = tt
le_bytes-AreBytes (suc n) v = (omega arith, le_bytes-AreBytes n (v / 256))

length-le_bytes : (n v : ℕ) → length (le_bytes n v) ≡ n
unfolding le_bytes
length-le_bytes zero v = refl
length-le_bytes (suc n) v = ap suc (length-le_bytes n (v / 256))

pub length-big_endian : (n v : ℕ) → length (big_endian n v) ≡ n
unfolding big_endian
length-big_endian n v = length-reverse (le_bytes n v) ∙ length-le_bytes n v

of_le-le_bytes : (n v : ℕ) → v < 256 ^ n → of_le (le_bytes n v) ≡ v
unfolding le_bytes of_le
of_le-le_bytes zero v h = omega arith
of_le-le_bytes (suc n) v h =
    omega (arith, of_le-le_bytes n (v / 256) (omega (arith, pow-suc 256 n)))

le_bytes-of_le : (bytes : List ℕ) → AreBytes bytes → le_bytes (length bytes) (of_le bytes) ≡ bytes
unfolding le_bytes of_le
le_bytes-of_le [] h = refl
le_bytes-of_le (b ∷ bytes) h =
    let low : (b + 256 * of_le bytes) % 256 ≡ b = omega arith in
    let high : (b + 256 * of_le bytes) / 256 ≡ of_le bytes = omega arith in
    rw (low, high, le_bytes-of_le bytes h.1)

-- A number goes through the bytes of an object of its size.
pub of_object-object_bytes :
    (o : Order) (n v : ℕ) → v < 256 ^ n → of_object o (object_bytes o n v) ≡ v
unfolding of_object object_bytes
of_object-object_bytes little n v h = of_le-le_bytes n v h
of_object-object_bytes big n v h = ap of_le (reverse-reverse (le_bytes n v)) ∙ of_le-le_bytes n v h

-- What a host of either order stores for the wire.
pub object_bytes-hto_be : (o : Order) (n v : ℕ) → object_bytes o n (hto_be o n v) ≡ big_endian n v
unfolding object_bytes hto_be big_endian
object_bytes-hto_be little n v =
    let swapped = reverse (le_bytes n v) in
    subst (λ k. le_bytes k (of_le swapped) ≡ swapped) (length-big_endian n v)
      (le_bytes-of_le swapped (AreBytes-reverse (le_bytes n v) (le_bytes-AreBytes n v)))
object_bytes-hto_be big n v = refl

-- What a host of either order makes of the wire.
pub be_toh-of_object :
    (o : Order) (n v : ℕ) → v < 256 ^ n → be_toh o n (of_object o (big_endian n v)) ≡ v
unfolding object_bytes of_object hto_be big_endian
be_toh-of_object little n v h =
    let back : le_bytes n (of_le (reverse (le_bytes n v))) ≡ reverse (le_bytes n v) =
      object_bytes-hto_be little n v in
    rw (back, reverse-reverse) (of_le-le_bytes n v h)
be_toh-of_object big n v h = rw reverse-reverse (of_le-le_bytes n v h)

pub to_signed-to_unsigned :
    (half : ℕ) (z : ℤ) → IsSigned half z → to_signed half (to_unsigned half z) ≡ z
unfolding to_signed to_unsigned
to_signed-to_unsigned half (pos n) h =
    rw (mod-eq_of_lt {n = n} {m = 2 * half} (omega arith)) (ground arith)
to_signed-to_unsigned half (negsuc n) h =
    rw (mod-eq_of_lt {n = n} {m = 2 * half} (omega arith)) (ground arith)

pub to_unsigned-to_signed : (half u : ℕ) → u < 2 * half → to_unsigned half (to_signed half u) ≡ u
unfolding to_signed to_unsigned
to_unsigned-to_signed half u h = ground (
  arith,
  λ (p : u < 2 * half). mod-eq_of_lt p,
  λ (p : 2 * half - 1 - u < 2 * half). mod-eq_of_lt p,
)

pub to_unsigned-lt : (half : ℕ) (z : ℤ) → 0 < half → to_unsigned half z < 2 * half
unfolding to_unsigned
to_unsigned-lt half (pos n) h = grind arith
to_unsigned-lt half (negsuc n) h = grind arith

pub length-object_bytes : (o : Order) (n v : ℕ) → length (object_bytes o n v) ≡ n
unfolding object_bytes
length-object_bytes little n v = length-le_bytes n v
length-object_bytes big n v = length-reverse (le_bytes n v) ∙ length-le_bytes n v

of_le-lt : (bytes : List ℕ) → AreBytes bytes → of_le bytes < 256 ^ length bytes
unfolding of_le
of_le-lt [] h = omega arith
of_le-lt (b ∷ bytes) h = omega (arith, of_le-lt bytes h.1, pow-suc 256 (length bytes))

-- The object that a host makes of the wire is in range.
pub of_object-lt : (o : Order) (n v : ℕ) → of_object o (big_endian n v) < 256 ^ n
unfolding of_object big_endian
of_object-lt little n v =
    subst (λ k. of_le (reverse (le_bytes n v)) < 256 ^ k) (length-big_endian n v)
      (of_le-lt (reverse (le_bytes n v)) (AreBytes-reverse (le_bytes n v) (le_bytes-AreBytes n v)))
of_object-lt big n v = rw reverse-reverse (
    subst (λ k. of_le (le_bytes n v) < 256 ^ k) (length-le_bytes n v)
      (of_le-lt (le_bytes n v) (le_bytes-AreBytes n v)))

-- A signed integer through the two conversions of its type.
pub signed_through :
    (o : Order) (n half : ℕ) (z : ℤ)
    → 256 ^ n ≡ 2 * half
    → IsSigned half z
    → 0 < half
    → to_signed half (
        be_toh o n
          (to_unsigned half (to_signed half (of_object o (big_endian n (to_unsigned half z))))))
      ≡ z
signed_through o n half z e h p =
    let u = to_unsigned half z in
    rw
      (
        to_unsigned-to_signed half (of_object o (big_endian n u))
            (omega (arith, of_object-lt o n u)),
        be_toh-of_object o n u (omega (arith, to_unsigned-lt half z p)),
      )
      (to_signed-to_unsigned half z h)

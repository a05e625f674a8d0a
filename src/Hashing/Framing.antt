-- ===== src/Hashing/Framing.antt =====
-- A length-framed text and an integer are read back from the front of a buffer.
use doublangu.Prelude.{
  ℕ, zero, suc, ◌*◌, ◌<◌, ◌≡◌, refl, ap, [], ◌∷◌, ◌++◌, arith, ℤ, pos, negsuc, length,
}
use Prim.Native.Nat.{◌/◌, ◌%◌}
use doublangu.Hashing.{Text, big_endian, two_to_64, to_uint64, write_hash_string, write_hash_int}

abbrev bytes_bound : ℕ → ℕ
bytes_bound zero = 1
bytes_bound (suc n) = 256 * bytes_bound n

pub head_of : {a b : ℕ} {xs ys : Text} → a ∷ xs ≡ b ∷ ys → a ≡ b
head_of e = ground arith

pub tail_of : {a b : ℕ} {xs ys : Text} → a ∷ xs ≡ b ∷ ys → xs ≡ ys
tail_of e = ground arith

big_endian_unique :
    (count m n : ℕ) (xs ys : Text)
    → m < bytes_bound count
    → n < bytes_bound count
    → big_endian count m xs ≡ big_endian count n ys
    → (m ≡ n) × (xs ≡ ys)
unfolding big_endian
big_endian_unique zero m n xs ys h k e = (omega arith, e)
big_endian_unique (suc count) m n xs ys h k e =
    let (quotients, digits) =
      big_endian_unique count (m / 256) (n / 256) (m % 256 ∷ xs) (n % 256 ∷ ys) (omega arith)
        (omega arith) e in
    let low = head_of digits in (omega (arith, quotients, low), tail_of digits)

same_prefix : (a b xs ys : Text) → length a ≡ length b → a ++ xs ≡ b ++ ys → (a ≡ b) × (xs ≡ ys)
same_prefix [] [] xs ys l e = (refl, e)
same_prefix [] (b ∷ bs) xs ys l e = absurd (omega arith)
same_prefix (a ∷ later_a) [] xs ys l e = absurd (omega arith)
same_prefix (a ∷ later_a) (b ∷ bs) xs ys l e =
    let (later, rest) = same_prefix later_a bs xs ys (omega arith) (tail_of e) in
    (ground (arith, head_of e, later), rest)

-- the length of every Go string fits 64 bits
abbrev pub Fits : Text → Type 0
Fits s = length s < two_to_64

pub write_hash_string_unique :
    (a b xs ys : Text)
    → Fits a
    → Fits b
    → write_hash_string a xs ≡ write_hash_string b ys
    → (a ≡ b) × (xs ≡ ys)
unfolding write_hash_string
write_hash_string_unique a b xs ys f g e =
    let (lengths, rest) = big_endian_unique 8 (length a) (length b) (a ++ xs) (b ++ ys) f g e in
    same_prefix a b xs ys lengths rest

-- a Go int has 64 bits
abbrev pub IsInt64 : ℤ → Type 0
IsInt64 (pos n) = n < 9_223_372_036_854_775_808
IsInt64 (negsuc n) = n < 9_223_372_036_854_775_808

to_uint64_unique : (a b : ℤ) → IsInt64 a → IsInt64 b → to_uint64 a ≡ to_uint64 b → a ≡ b
to_uint64_unique (pos m) (pos n) h k e = ap pos (omega arith)
to_uint64_unique (pos m) (negsuc n) h k e = absurd (omega arith)
to_uint64_unique (negsuc m) (pos n) h k e = absurd (omega arith)
to_uint64_unique (negsuc m) (negsuc n) h k e = ap negsuc (omega arith)

to_uint64-bound : (a : ℤ) → to_uint64 a < two_to_64
to_uint64-bound (pos m) = omega arith
to_uint64-bound (negsuc m) = omega arith

pub write_hash_int_unique :
    (a b : ℤ) (xs ys : Text)
    → IsInt64 a
    → IsInt64 b
    → write_hash_int a xs ≡ write_hash_int b ys
    → (a ≡ b) × (xs ≡ ys)
unfolding write_hash_int
write_hash_int_unique a b xs ys f g e =
    let (codes, rest) =
      big_endian_unique 8 (to_uint64 a) (to_uint64 b) xs ys (to_uint64-bound a) (to_uint64-bound b)
        e in
    (to_uint64_unique a b f g codes, rest)

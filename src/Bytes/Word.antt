-- ===== src/Bytes/Word.antt =====
-- `uint64` arithmetic, and its eight bytes in `encoding/binary`'s big-endian order.
use native.Mathlib.Nat.{pow-suc}
use meta_co_sign.Base.{
  ℕ, zero, suc, Bool, false, sym, ◌+◌, ◌*◌, ◌/◌, ◌%◌, ◌^◌, ◌<◌, ◌≡◌, refl, ap, ◌∙◌, Option, none,
  some, [], ◌∷◌, ◌++◌, arith, leb, if◌then◌else◌, length, length-append, take,
}
use meta_co_sign.Bytes.Compare.{Bytes}

abbrev pub two64 : ℕ
two64 = 18446744073709551616

-- the value of a `uint64` sum or product
abbrev pub u64 : ℕ → ℕ
u64 n = n % 18446744073709551616

-- `n - 1` on `uint64`
abbrev pub u64_pred : ℕ → ℕ
u64_pred n = (n + 18446744073709551615) % 18446744073709551616

-- A Go `int` or `int64` is given by its 64 bits: `a + 1` and the order on them.
abbrev pub int_suc : ℕ → ℕ
int_suc a = (a + 1) % 18446744073709551616

abbrev pub int_leb : ℕ → ℕ → Bool
int_leb a b =
    leb ((a + 9223372036854775808) % 18446744073709551616)
      ((b + 9223372036854775808) % 18446744073709551616)

-- On non-negative numbers the order is that of ℕ.
pub int_leb-small :
    (a b : ℕ) → a < 9223372036854775808 → b < 9223372036854775808 → int_leb a b ≡ leb a b
int_leb-small a b small small' =
    let e : (a + 9223372036854775808) % 18446744073709551616 ≡ a + 9223372036854775808 =
      omega arith in
    let f : (b + 9223372036854775808) % 18446744073709551616 ≡ b + 9223372036854775808 =
      omega arith in
    ground (arith, e, f)

pub lt_of_int_leb :
    (a b : ℕ) → a < 9223372036854775808 → b < 9223372036854775808 → int_leb a b ≡ false → b < a
lt_of_int_leb a b small small' h =
    let e : leb a b ≡ false = sym (int_leb-small a b small small') ∙ h in ground arith

unfoldable pub big_endian : ℕ → ℕ → Bytes
big_endian zero n = []
big_endian (suc k) n = big_endian k (n / 256) ++ (n % 256) ∷ []

unfoldable pub value_from : ℕ → Bytes → ℕ
value_from acc [] = acc
value_from acc (b ∷ bs) = value_from (acc * 256 + b) bs

-- `binary.BigEndian.PutUint64` into a new slice of eight bytes
unfoldable pub put_uint64 : ℕ → Bytes
put_uint64 n = big_endian 8 n

-- `binary.BigEndian.Uint64`, which reads the first eight bytes and panics on a shorter slice
unfoldable pub read_uint64 : Bytes → Option ℕ
unfolding value_from
read_uint64 bs = if leb 8 (length bs) then some (value_from 0 (take 8 bs)) else none

pub value_from-append :
    (acc : ℕ) (bs : Bytes) (b : ℕ) → value_from acc (bs ++ b ∷ []) ≡ value_from acc bs * 256 + b
unfolding value_from
value_from-append acc [] b = refl
value_from-append acc (c ∷ bs) b = value_from-append (acc * 256 + c) bs b

length-big_endian : (k n : ℕ) → length (big_endian k n) ≡ k
unfolding big_endian
length-big_endian zero n = refl
length-big_endian (suc k) n =
    omega (
      arith,
      length-append (big_endian k (n / 256)) ((n % 256) ∷ []),
      length-big_endian k (n / 256),
    )

-- The bytes denote the number, if there are enough of them.
value_from-big_endian : (k n : ℕ) → n < 256 ^ k → value_from 0 (big_endian k n) ≡ n
unfolding big_endian value_from
value_from-big_endian zero n h = omega arith
value_from-big_endian (suc k) n h =
    let small : n / 256 < 256 ^ k = omega (arith, pow-suc 256 k) in
    value_from-append 0 (big_endian k (n / 256)) (n % 256)
    ∙ omega (arith, value_from-big_endian k (n / 256) small)

take-length : (k : ℕ) (bs : Bytes) → length bs ≡ k → take k bs ≡ bs
take-length zero [] h = refl
take-length zero (b ∷ bs) h = absurd (omega arith)
take-length (suc k) [] h = refl
take-length (suc k) (b ∷ bs) h = ap (◌∷◌ b) (take-length k bs (omega arith))

read_uint64-length : (bs : Bytes) → length bs ≡ 8 → read_uint64 bs ≡ some (value_from 0 bs)
unfolding read_uint64
read_uint64-length bs h = rw (h, take-length 8 bs h)

-- A `uint64` that was written is read back.
pub read_uint64-put_uint64 : (n : ℕ) → n < two64 → read_uint64 (put_uint64 n) ≡ some n
unfolding put_uint64
read_uint64-put_uint64 n h =
    read_uint64-length (big_endian 8 n) (length-big_endian 8 n)
    ∙ ap some (value_from-big_endian 8 n h)

pub length-put_uint64 : (n : ℕ) → length (put_uint64 n) ≡ 8
unfolding put_uint64
length-put_uint64 n = length-big_endian 8 n

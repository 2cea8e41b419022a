-- ===== src/AccountState/Integer.antt =====
-- `math/big`'s integers as far as account states use them: sums, differences, comparison, and the
-- bytes of the absolute value.
use meta_co_sign.Base.{
  ℕ, zero, suc, ◌+◌, ◌-◌, ◌/◌, ◌%◌, ◌≤◌, ◌≡◌, refl, ap, ◌∙◌, Bool, true, false, [], ◌∷◌, ◌++◌,
  arith, ltb, leb, if◌then◌else◌,
}
use meta_co_sign.Bytes.{Bytes}
use meta_co_sign.Bytes.Word.{value_from, value_from-append}

pub data ℤ : Type 0 where
  pos negsuc : ℕ → ℤ

infixl 60 ◌⊖◌
infixl 60 ◌+ℤ◌
infixl 60 ◌-ℤ◌
-- the difference of two natural numbers
abbrev pub ◌⊖◌ : ℕ → ℕ → ℤ
a ⊖ b = if leb b a then pos (a - b) else negsuc (b - a - 1)

abbrev pub ◌+ℤ◌ : ℤ → ℤ → ℤ
pos a +ℤ pos b = pos (a + b)
pos a +ℤ negsuc b = a ⊖ suc b
negsuc a +ℤ pos b = b ⊖ suc a
negsuc a +ℤ negsuc b = negsuc (suc (a + b))

abbrev pub neg : ℤ → ℤ
neg (pos zero) = pos 0
neg (pos (suc a)) = negsuc a
neg (negsuc a) = pos (suc a)

abbrev pub ◌-ℤ◌ : ℤ → ℤ → ℤ
a -ℤ b = a +ℤ neg b

-- `a.Cmp(b) > 0`
abbrev pub greater : ℤ → ℤ → Bool
greater (pos a) (pos b) = ltb b a
greater (pos a) (negsuc b) = true
greater (negsuc a) (pos b) = false
greater (negsuc a) (negsuc b) = ltb a b

abbrev pub magnitude : ℤ → ℕ
magnitude (pos a) = a
magnitude (negsuc a) = suc a

-- Enough rounds are given by the number: each divides what is left.
unfoldable pub minimal_bytes : ℕ → ℕ → Bytes
minimal_bytes zero n = []
minimal_bytes (suc rounds) zero = []
minimal_bytes (suc rounds) (suc n) = minimal_bytes rounds (suc n / 256) ++ (suc n % 256) ∷ []

-- `Int.Bytes`: the absolute value, big-endian, with no leading zero
unfoldable pub bytes : ℤ → Bytes
unfolding minimal_bytes
bytes z = minimal_bytes (magnitude z) (magnitude z)

-- `Int.SetBytes`
unfoldable pub set_bytes : Bytes → ℤ
unfolding value_from
set_bytes bs = pos (value_from 0 bs)

value_from-minimal_bytes : (rounds n : ℕ) → n ≤ rounds → value_from 0 (minimal_bytes rounds n) ≡ n
unfolding minimal_bytes value_from
value_from-minimal_bytes zero n h = omega arith
value_from-minimal_bytes (suc rounds) zero h = refl
value_from-minimal_bytes (suc rounds) (suc n) h =
    value_from-append 0 (minimal_bytes rounds (suc n / 256)) (suc n % 256)
    ∙ omega (arith, value_from-minimal_bytes rounds (suc n / 256) (omega arith))

-- The bytes of an integer denote its absolute value.
pub set_bytes-bytes : (n : ℕ) → set_bytes (bytes (pos n)) ≡ pos n
unfolding set_bytes bytes
set_bytes-bytes n = rw (value_from-minimal_bytes n n (omega arith)) refl

-- What is taken off can be taken off.
pub sub-pos : (a b : ℕ) → b ≤ a → (pos a -ℤ pos b) ≡ pos (a - b)
sub-pos a zero h = ap pos (omega arith)
sub-pos a (suc b) h = ground arith

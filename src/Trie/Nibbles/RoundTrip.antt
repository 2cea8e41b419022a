-- ===== src/Trie/Nibbles/RoundTrip.antt =====
-- pkg/trie/node/encoding.go: the forms of a key are read back as they were written.
use Prim.Native.Nat.{bit_or}
use meta_co_sign.Base.{
  ℕ, zero, suc, ◌+◌, ◌*◌, ◌/◌, ◌%◌, ◌<◌, ◌≡◌, refl, ap, ◌∙◌, Bool, true, false, [], ◌∷◌, ◌++◌, ◌==◌,
  ==_iff, ◌&&◌, Bool-cases, inl, inr, if◌then◌else◌, length, arith, All,
}
use meta_co_sign.Bytes.{Bytes}
use meta_co_sign.Result.{ok}
use meta_co_sign.Trie.Nibbles.{
  has_term, drop_last, nibbles_of, keybytes_to_hex, join, decode_nibbles, without_term,
  hex_to_keybytes, compact, hex_to_compact, cut, compact_to_hex,
}

all_below : ℕ → (ℕ → Bool) → Bool
all_below zero p = true
all_below (suc n) p = let rest = all_below n p in p n && rest

all_below-true : (n : ℕ) (p : ℕ → Bool) (x : ℕ) → all_below n p ≡ true → x < n → p x ≡ true
unfolding all_below
all_below-true zero p x h lt = absurd (omega arith)
all_below-true (suc n) p x h lt = ground (arith, all_below-true n p x)

-- every two nibbles
join_table : all_below 16 (λ x. all_below 16 (λ y. join x y == x * 16 + y)) ≡ true
unfolding all_below join
join_table = refl

join-eq : (x y : ℕ) → x < 16 → y < 16 → join x y ≡ x * 16 + y
join-eq x y h k =
    (==_iff _ _).0
      (all_below-true 16 (λ y. join x y == x * 16 + y) y (all_below-true 16 _ x join_table h) k)

abbrev pub IsNibbles : Bytes → Type 0
IsNibbles = All (λ x. x < 16)

-- A key that ends in the terminator, without it.
has_term-append : (xs : Bytes) → has_term (xs ++ 16 ∷ []) ≡ true
unfolding has_term
has_term-append [] = refl
has_term-append (x ∷ []) = refl
has_term-append (x ∷ y ∷ xs) = has_term-append (y ∷ xs)

drop_last-append : (xs : Bytes) (y : ℕ) → drop_last (xs ++ y ∷ []) ≡ xs
unfolding drop_last
drop_last-append [] y = refl
drop_last-append (x ∷ []) y = refl
drop_last-append (x ∷ z ∷ xs) y = ap (◌∷◌ x) (drop_last-append (z ∷ xs) y)

decode_nibbles-nibbles_of :
    (k : Bytes) → All (λ b. b < 256) k → decode_nibbles (nibbles_of k) ≡ ok k
unfolding decode_nibbles nibbles_of
decode_nibbles-nibbles_of [] h = refl
decode_nibbles-nibbles_of (b ∷ k) h =
    let byte : join (b / 16) (b % 16) ≡ b =
      join-eq (b / 16) (b % 16) (omega (arith, h.0)) (omega arith) ∙ omega arith in
    rw (decode_nibbles-nibbles_of k h.1, byte) refl

length-nibbles_of : (k : Bytes) → length (nibbles_of k) ≡ 2 * length k
unfolding nibbles_of
length-nibbles_of [] = refl
length-nibbles_of (b ∷ k) = omega (arith, length-nibbles_of k)

-- A key of bytes, written in hexadecimal form, is read back.
pub hex_to_keybytes-keybytes_to_hex :
    (k : Bytes) → All (λ b. b < 256) k → hex_to_keybytes (keybytes_to_hex k) ≡ ok k
unfolding hex_to_keybytes keybytes_to_hex without_term
hex_to_keybytes-keybytes_to_hex k h =
    let even : (length (nibbles_of k) % 2 == 0) ≡ true = ground (arith, length-nibbles_of k) in
    rw (has_term-append (nibbles_of k), drop_last-append (nibbles_of k) 16, even)
      (decode_nibbles-nibbles_of k h)

-- An even number of nibbles is packed into bytes.
pub packed :
    (xs : Bytes)
    → IsNibbles xs
    → length xs % 2 ≡ 0
    → (bs : Bytes) × (decode_nibbles xs ≡ ok bs) × (nibbles_of bs ≡ xs)
unfolding decode_nibbles nibbles_of
packed [] h even = ([], refl, refl)
packed (x ∷ []) h even = absurd (omega arith)
packed (x ∷ y ∷ xs) h even =
    let (bs, decoded, back) = packed xs h.1.1 (omega arith) in
    let value : join x y ≡ x * 16 + y = join-eq x y h.0 h.1.0 in
    let high : join x y / 16 ≡ x = omega (arith, value, h.1.0) in
    let low : join x y % 16 ≡ y = omega (arith, value, h.1.0) in
    (join x y ∷ bs, rw decoded refl, rw (high, low, back) refl)

-- a key of nibbles, with the terminator or without
abbrev pub with_term : Bool → Bytes → Bytes
with_term true xs = xs ++ 16 ∷ []
with_term false xs = xs

IsNibbles-has_term : (xs : Bytes) → IsNibbles xs → has_term xs ≡ false
unfolding has_term
IsNibbles-has_term [] h = refl
IsNibbles-has_term (x ∷ []) h = ground (arith, h.0)
IsNibbles-has_term (x ∷ y ∷ xs) h = IsNibbles-has_term (y ∷ xs) h.1

pub has_term-with_term : (t : Bool) (xs : Bytes) → IsNibbles xs → has_term (with_term t xs) ≡ t
has_term-with_term true xs h = has_term-append xs
has_term-with_term false xs h = IsNibbles-has_term xs h

pub without_term-with_term :
    (t : Bool) (xs : Bytes) → IsNibbles xs → without_term (with_term t xs) ≡ xs
unfolding without_term
without_term-with_term true xs h = rw (has_term-append xs) (drop_last-append xs 16)
without_term-with_term false xs h = rw (IsNibbles-has_term xs h) refl

abbrev pub flag : Bool → ℕ
flag t = if t then 32 else 0

-- the first byte, with a nibble of an odd number of them
first_table :
    (t : Bool) → all_below 16 (λ x. bit_or (bit_or (flag t) 16) x == flag t + 16 + x) ≡ true
unfolding all_below
first_table true = refl
first_table false = refl

first_byte : (t : Bool) (x : ℕ) → x < 16 → bit_or (bit_or (flag t) 16) x ≡ flag t + 16 + x
first_byte t x h = (==_iff _ _).0 (all_below-true 16 _ x (first_table t) h)

-- What the compact form of a key is, by the flag and the bytes: the flag says the terminator, and
-- whether a nibble is in the first byte.
data Compact (t : Bool) (xs : Bytes) : Type 0 where
  even_key :
      (bs : Bytes) → nibbles_of bs ≡ xs → compact (flag t) xs ≡ ok (flag t ∷ bs) → Compact t xs
  odd_key :
      (x : ℕ) (bs : Bytes)
      → x < 16
      → x ∷ nibbles_of bs ≡ xs
      → compact (flag t) xs ≡ ok ((flag t + 16 + x) ∷ bs)
      → Compact t xs

Compact-cases : (t : Bool) (xs : Bytes) → IsNibbles xs → Compact t xs
unfolding compact nibbles_of
Compact-cases t [] h = even_key [] refl refl
Compact-cases t (x ∷ xs) h = elim (Bool-cases (length (x ∷ xs) % 2 == 1)) [
  | inl odd ↦
      let (bs, decoded, back) = packed xs h.1 (ground (arith, odd)) in
      odd_key x bs h.0 (ap (◌∷◌ x) back) (rw (odd, decoded, first_byte t x h.0) refl)
  | inr even ↦
      let (bs, decoded, back) = packed (x ∷ xs) h (ground (arith, even)) in
      even_key bs back (rw (even, decoded) refl)
]

cut-even : (t : Bool) (bs : Bytes) → compact_to_hex (flag t ∷ bs) ≡ with_term t (nibbles_of bs)
unfolding compact_to_hex cut keybytes_to_hex
cut-even true bs = refl
cut-even false [] = refl
cut-even false (b ∷ bs) = drop_last-append (nibbles_of (b ∷ bs)) 16

cut-odd :
    (t : Bool) (x : ℕ) (bs : Bytes)
    → x < 16
    → compact_to_hex ((flag t + 16 + x) ∷ bs) ≡ with_term t (x ∷ nibbles_of bs)
unfolding compact_to_hex cut keybytes_to_hex nibbles_of
cut-odd true x bs h =
    let high : (48 + x) / 16 ≡ 3 = omega arith in
    let low : (48 + x) % 16 ≡ x = omega arith in rw (high, low) refl
cut-odd false x bs h =
    let high : (16 + x) / 16 ≡ 1 = omega arith in
    let low : (flag false + 16 + x) % 16 ≡ x = omega arith in
    rw high
      (drop_last-append (((16 + x) % 16) ∷ nibbles_of bs) 16 ∙ ap (λ y. y ∷ nibbles_of bs) low)

hex_to_compact-eq :
    (t : Bool) (xs : Bytes) → IsNibbles xs → hex_to_compact (with_term t xs) ≡ compact (flag t) xs
unfolding hex_to_compact
hex_to_compact-eq t xs h =
    ap (λ b. compact (flag b) (without_term (with_term t xs))) (has_term-with_term t xs h)
    ∙ ap (compact (flag t)) (without_term-with_term t xs h)

-- The compact form of a key of nibbles, with the terminator or without, is read back.
pub compact_to_hex-hex_to_compact :
    (t : Bool) (xs : Bytes)
    → IsNibbles xs
    → (c : Bytes) × (hex_to_compact (with_term t xs) ≡ ok c) × (compact_to_hex c ≡ with_term t xs)
compact_to_hex-hex_to_compact t xs h = rw (hex_to_compact-eq t xs h) (elim (Compact-cases t xs h) [
  | even_key bs back packs ↦ (flag t ∷ bs, packs, cut-even t bs ∙ ap (with_term t) back)
  | odd_key x bs small back packs ↦
      ((flag t + 16 + x) ∷ bs, packs, cut-odd t x bs small ∙ ap (with_term t) back)
])

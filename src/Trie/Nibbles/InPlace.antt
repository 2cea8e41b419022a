-- ===== src/Trie/Nibbles/InPlace.antt =====
-- `hexToCompactInPlace` of pkg/trie/node/encoding.go: the compact form, written over the key.
use mathlib.Core.List.{append_assoc, append-nil}
use Prim.Native.Nat.{bit_or}
use meta_co_sign.Base.{
  ℕ, zero, suc, ◌+◌, ◌-◌, ◌*◌, ◌/◌, ◌%◌, ◌<◌, ◌≤◌, ◌≡◌, refl, sym, ap, ◌∙◌, subst, true, false, [],
  ◌∷◌, ◌++◌, ◌==◌, if◌then◌else◌, length, take, drop, length-take, arith, Bool-cases, inl, inr,
}
use meta_co_sign.Bytes.{Bytes}
use meta_co_sign.Result.{Result, ok, panic, ◌>>=◌}
use meta_co_sign.Trie.Nibbles.{
  has_term, drop_last, join, decode_nibbles, without_term, compact, hex_to_compact,
}

-- `hex[i]`
unfoldable pub read_at : ℕ → Bytes → Result ℕ
read_at i [] = panic
read_at zero (x ∷ xs) = ok x
read_at (suc i) (x ∷ xs) = read_at i xs

-- `hex[i] = v`
unfoldable pub write_at : ℕ → ℕ → Bytes → Result Bytes
write_at i v [] = panic
write_at zero v (x ∷ xs) = ok (v ∷ xs)
write_at (suc i) v (x ∷ xs) = do rest ← write_at i v xs; ok (x ∷ rest)

-- the loop, with the rounds that are left
unfoldable pub pack_in_place : ℕ → ℕ → ℕ → Bytes → Result Bytes
unfolding read_at write_at join
pack_in_place zero bi ni hex = ok hex
pack_in_place (suc rounds) bi ni hex = do
  hi ← read_at ni hex
  lo ← read_at (suc ni) hex
  next ← write_at bi (join hi lo) hex
  pack_in_place rounds (suc bi) (suc (suc ni)) next

-- `hex[0] = firstByte` and `hex[:binLen]`
unfoldable pub put_first : ℕ → ℕ → Bytes → Result Bytes
unfolding write_at
put_first first bin_len hex = do buf ← write_at 0 first hex; ok (take bin_len buf)

unfoldable pub compact_in_place : ℕ → ℕ → Bytes → Result Bytes
unfolding pack_in_place put_first
compact_in_place first hex_len hex =
    if hex_len % 2 == 1
    then (do
      x ← read_at 0 hex
      buf ← pack_in_place (hex_len / 2) 1 1 hex
      put_first (bit_or (bit_or first 16) x) (suc (hex_len / 2)) buf)
    else (do buf ← pack_in_place (hex_len / 2) 1 0 hex; put_first first (suc (hex_len / 2)) buf)

unfoldable pub hex_to_compact_in_place : Bytes → Result Bytes
unfolding compact_in_place has_term
hex_to_compact_in_place hex =
    if has_term hex
    then compact_in_place 32 (length hex - 1) hex
    else compact_in_place 0 (length hex) hex

read_at-lt :
    (i : ℕ) (hex : Bytes)
    → i < length hex
    → (x : ℕ) × (read_at i hex ≡ ok x) × (drop i hex ≡ x ∷ drop (suc i) hex)
unfolding read_at
read_at-lt i [] h = absurd (omega arith)
read_at-lt zero (x ∷ xs) h = (x, refl, refl)
read_at-lt (suc i) (x ∷ xs) h = read_at-lt i xs (omega arith)

-- What a write leaves: the part behind it, and the part before it with the new byte.
record Written (i v : ℕ) (hex : Bytes) : Type 0 where
  buf : Bytes
  writes : write_at i v hex ≡ ok buf
  same_length : length buf ≡ length hex
  behind : (j : ℕ) → i < j → drop j buf ≡ drop j hex
  before : take (suc i) buf ≡ take i hex ++ v ∷ []

write_at-lt : (i v : ℕ) (hex : Bytes) → i < length hex → Written i v hex
unfolding write_at
write_at-lt i v [] h = absurd (omega arith)
write_at-lt zero v (x ∷ xs) h = record {
  buf = v ∷ xs;
  writes = refl;
  same_length = refl;
  behind = λ j lt.
      elim j as (λ j. 0 < j → drop j (v ∷ xs) ≡ drop j (x ∷ xs)) [
        | zero ↦ λ lt. absurd (omega arith)
        | suc j ↦ λ lt. refl
      ]
        lt;
  before = refl;
}
write_at-lt (suc i) v (x ∷ xs) h =
    let rest = write_at-lt i v xs (omega arith) in
    record {
      buf = x ∷ rest.buf;
      writes = rw rest.writes refl;
      same_length = ap suc rest.same_length;
      behind = λ j lt.
          elim j as (λ j. suc i < j → drop j (x ∷ rest.buf) ≡ drop j (x ∷ xs)) [
            | zero ↦ λ lt. absurd (omega arith)
            | suc j ↦ λ lt. rest.behind j (omega arith)
          ]
            lt;
      before = ap (◌∷◌ x) rest.before;
    }

abbrev double : ℕ → ℕ
double zero = zero
double (suc n) = suc (suc (double n))

double-eq : (n : ℕ) → double n ≡ 2 * n
double-eq zero = refl
double-eq (suc n) = omega (arith, double-eq n)

-- What the loop leaves in front of the place where it stops.
record Packed (rounds bi ni : ℕ) (hex : Bytes) : Type 0 where
  buf : Bytes
  packs : pack_in_place rounds bi ni hex ≡ ok buf
  bytes : Bytes
  decoded : decode_nibbles (take (double rounds) (drop ni hex)) ≡ ok bytes
  before : take (rounds + bi) buf ≡ take bi hex ++ bytes

pack_in_place-lt :
    (rounds bi ni : ℕ) (hex : Bytes)
    → bi ≤ suc ni
    → ni + 2 * rounds ≤ length hex
    → Packed rounds bi ni hex
unfolding pack_in_place decode_nibbles
pack_in_place-lt zero bi ni hex h fits = record {
  buf = hex;
  packs = refl;
  bytes = [];
  decoded = refl;
  before =
      let none_left : bi ≡ 0 + bi = omega arith in
      subst (λ n. take n hex ≡ take bi hex ++ []) none_left (sym (append-nil (take bi hex)));
}
pack_in_place-lt (suc rounds) bi ni hex h fits =
    let (hi, reads_hi, at_hi) = read_at-lt ni hex (omega arith) in
    let (lo, reads_lo, at_lo) = read_at-lt (suc ni) hex (omega arith) in
    let next = write_at-lt bi (join hi lo) hex (omega arith) in
    let later =
      pack_in_place-lt rounds (suc bi) (suc (suc ni)) next.buf (omega arith)
        (omega (arith, next.same_length)) in
    let same : drop (suc (suc ni)) next.buf ≡ drop (suc (suc ni)) hex =
      next.behind (suc (suc ni)) (omega arith) in
    let rest : decode_nibbles (take (double rounds) (drop (suc (suc ni)) hex)) ≡ ok later.bytes =
      subst (λ d. decode_nibbles (take (double rounds) d) ≡ ok later.bytes) same later.decoded in
    let count : rounds + suc bi ≡ suc rounds + bi = omega arith in
    record {
      buf = later.buf;
      packs = rw (reads_hi, reads_lo, next.writes) later.packs;
      bytes = join hi lo ∷ later.bytes;
      decoded = rw (at_hi, at_lo, rest) refl;
      before =
          subst (λ n. take n later.buf ≡ take bi hex ++ join hi lo ∷ later.bytes) count
            (later.before
              ∙ ap (λ front. front ++ later.bytes) next.before
              ∙ append_assoc (take bi hex) (join hi lo ∷ []) later.bytes);
    }

put_first-eq :
    (first n x : ℕ) (bytes buf : Bytes)
    → take (suc n) buf ≡ x ∷ bytes
    → put_first first (suc n) buf ≡ ok (first ∷ bytes)
unfolding put_first write_at
put_first-eq first n x bytes [] h = cc
put_first-eq first n x bytes (y ∷ ys) h =
    let rest : take n ys ≡ bytes = cc in ap (λ b. ok (first ∷ b)) rest

compact-even :
    (first : ℕ) (xs bs : Bytes)
    → (length xs % 2 == 1) ≡ false
    → decode_nibbles xs ≡ ok bs
    → compact first xs ≡ ok (first ∷ bs)
unfolding compact decode_nibbles
compact-even first [] bs even decoded = ap (λ r. r >>= λ rest. ok (first ∷ rest)) decoded
compact-even first (x ∷ xs) bs even decoded = rw (even, decoded) refl

compact-odd :
    (first x : ℕ) (xs bs : Bytes)
    → (length (x ∷ xs) % 2 == 1) ≡ true
    → decode_nibbles xs ≡ ok bs
    → compact first (x ∷ xs) ≡ ok (bit_or (bit_or first 16) x ∷ bs)
unfolding compact
compact-odd first x xs bs odd decoded = rw (odd, decoded) refl

take-all : (xs : Bytes) → take (length xs) xs ≡ xs
take-all [] = refl
take-all (x ∷ xs) = ap (◌∷◌ x) (take-all xs)

take-drop_last : (x : ℕ) (xs : Bytes) → take (length xs) (x ∷ xs) ≡ drop_last (x ∷ xs)
unfolding drop_last
take-drop_last x [] = refl
take-drop_last x (y ∷ xs) = ap (◌∷◌ x) (take-drop_last y xs)

compact_in_place-eq :
    (first hex_len x : ℕ) (xs : Bytes)
    → hex_len ≤ length (x ∷ xs)
    → compact_in_place first hex_len (x ∷ xs) ≡ compact first (take hex_len (x ∷ xs))
unfolding compact_in_place read_at
compact_in_place-eq first hex_len x xs h = elim (Bool-cases (hex_len % 2 == 1)) [
  | inl odd ↦
      let done = pack_in_place-lt (hex_len / 2) 1 1 (x ∷ xs) (omega arith) (ground (arith, odd)) in
      let count : hex_len / 2 + 1 ≡ suc (hex_len / 2) = omega arith in
      let twice : hex_len ≡ suc (double (hex_len / 2)) =
        ground (arith, odd, double-eq (hex_len / 2)) in
      let len : length (x ∷ take (double (hex_len / 2)) xs) ≡ hex_len =
        omega (arith, length-take (double (hex_len / 2)) xs, twice) in
      let split : take hex_len (x ∷ xs) ≡ x ∷ take (double (hex_len / 2)) xs =
        ap (λ n. take n (x ∷ xs)) twice in
      rw (odd, done.packs)
        (put_first-eq (bit_or (bit_or first 16) x) (hex_len / 2) x done.bytes done.buf
            (subst (λ n. take n done.buf ≡ x ∷ done.bytes) count done.before)
          ∙ sym (
              ap (compact first) split
              ∙ compact-odd first x _ done.bytes (rw len odd) done.decoded))
  | inr even ↦
      let done = pack_in_place-lt (hex_len / 2) 1 0 (x ∷ xs) (omega arith) (omega arith) in
      let len : length (take hex_len (x ∷ xs)) ≡ hex_len =
        omega (arith, length-take hex_len (x ∷ xs)) in
      let count : hex_len / 2 + 1 ≡ suc (hex_len / 2) = omega arith in
      let twice : double (hex_len / 2) ≡ hex_len = double-eq (hex_len / 2) ∙ ground (arith, even) in
      let decoded : decode_nibbles (take hex_len (x ∷ xs)) ≡ ok done.bytes =
        subst (λ n. decode_nibbles (take n (x ∷ xs)) ≡ ok done.bytes) twice done.decoded in
      rw (even, done.packs)
        (put_first-eq first (hex_len / 2) x done.bytes done.buf
            (subst (λ n. take n done.buf ≡ x ∷ done.bytes) count done.before)
          ∙ sym (compact-even first _ done.bytes (rw len even) decoded))
]

-- On every key that is not empty the two functions return the same.
pub hex_to_compact_in_place-eq :
    (x : ℕ) (xs : Bytes) → hex_to_compact_in_place (x ∷ xs) ≡ hex_to_compact (x ∷ xs)
unfolding hex_to_compact_in_place hex_to_compact without_term
hex_to_compact_in_place-eq x xs =
    let cut : compact_in_place 32 (length (x ∷ xs) - 1) (x ∷ xs) ≡ compact 32 (drop_last (x ∷ xs)) =
      let len : length (x ∷ xs) - 1 ≡ length xs = omega arith in
      compact_in_place-eq 32 (length (x ∷ xs) - 1) x xs (omega arith)
      ∙ ap (λ n. compact 32 (take n (x ∷ xs))) len
      ∙ ap (compact 32) (take-drop_last x xs) in
    let whole : compact_in_place 0 (length (x ∷ xs)) (x ∷ xs) ≡ compact 0 (x ∷ xs) =
      compact_in_place-eq 0 (length (x ∷ xs)) x xs (omega arith)
      ∙ ap (compact 0) (take-all (x ∷ xs)) in
    elim (Bool-cases (has_term (x ∷ xs))) [
      | inl term ↦ rw term cut
      | inr no_term ↦ rw no_term whole
    ]

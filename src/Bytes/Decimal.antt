-- ===== src/Bytes/Decimal.antt =====
-- Decimal text of a `uint64`: `strconv.FormatUint(n, 10)`, `strconv.ParseUint(s, 10, 64)`, and the
-- zero padding that both storages put in front of an identifier.
use native.Mathlib.Nat.{pow-suc}
use meta_co_sign.Base.{
  All, ℕ, zero, suc, ◌+◌, ◌-◌, ◌*◌, ◌/◌, ◌%◌, ◌^◌, ◌<◌, ◌≡◌, refl, ap, ◌∙◌, inl, inr, ◌&&◌, Option,
  none, some, [], ◌∷◌, ◌++◌, arith, ltb, leb, if◌then◌else◌, length, length-append, replicate,
  Bool-cases,
}
use meta_co_sign.Bytes.Compare.{Bytes}
use meta_co_sign.Bytes.Word.{two64}

-- `fuel` bounds the number of digits.
format_from : ℕ → ℕ → Bytes
format_from zero n = []
format_from (suc fuel) n =
    let front = format_from fuel (n / 10) in
    if ltb n 10 then (48 + n) ∷ [] else front ++ (48 + n % 10) ∷ []

-- A `uint64` has at most 20 digits.
unfoldable pub format_uint : ℕ → Bytes
unfolding format_from
format_uint n = format_from 20 n

-- One digit of `ParseUint`: an error at any other byte, or when the value leaves 64 bits.
push_digit : ℕ → ℕ → Option ℕ
push_digit acc c =
    if leb 48 c && leb c 57 && ltb (acc * 10 + (c - 48)) two64
    then some (acc * 10 + (c - 48))
    else none

parse_from : Option ℕ → Bytes → Option ℕ
parse_from acc [] = acc
parse_from none (c ∷ cs) = none
parse_from (some acc) (c ∷ cs) = parse_from (push_digit acc c) cs

unfoldable pub parse_uint : Bytes → Option ℕ
unfolding parse_from push_digit
parse_uint [] = none
parse_uint (c ∷ cs) = parse_from (some 0) (c ∷ cs)

-- `strings.Repeat("0", width - len(s)) + s`, or `s` where it is long enough
unfoldable pub zero_pad : ℕ → Bytes → Bytes
zero_pad width s = if leb width (length s) then s else replicate (width - length s) 48 ++ s

parse_from-none : (cs : Bytes) → parse_from none cs ≡ none
unfolding parse_from
parse_from-none [] = refl
parse_from-none (c ∷ cs) = refl

parse_from-append :
    (o : Option ℕ) (v : ℕ) (xs : Bytes) (c : ℕ)
    → parse_from o xs ≡ some v
    → parse_from o (xs ++ c ∷ []) ≡ push_digit v c
unfolding parse_from
parse_from-append none v [] c h = cc
parse_from-append (some a) v [] c h = ground arith
parse_from-append none v (x ∷ xs) c h = cc
parse_from-append (some a) v (x ∷ xs) c h = parse_from-append (push_digit a x) v xs c h

push_digit-some :
    (v d : ℕ) → d < 10 → v * 10 + d < two64 → push_digit v (48 + d) ≡ some (v * 10 + d)
unfolding push_digit
push_digit-some v d h k = ground arith

parse_from-format_from :
    (fuel n : ℕ) → n < 10 ^ fuel → n < two64 → parse_from (some 0) (format_from fuel n) ≡ some n
unfolding format_from
parse_from-format_from zero n h k = unfold parse_from in ap some (omega arith)
parse_from-format_from (suc fuel) n h k = elim (Bool-cases (ltb n 10)) [
  | inl small ↦ rw small (unfold parse_from push_digit in ground arith)
  | inr big ↦ rw big (
      parse_from-append (some 0) (n / 10) (format_from fuel (n / 10)) (48 + n % 10)
        (parse_from-format_from fuel (n / 10) (omega (arith, pow-suc 10 fuel)) (omega arith))
      ∙ (push_digit-some (n / 10) (n % 10) (omega arith) (omega arith) ∙ ap some (omega arith)))
]

parse_from-zeros :
    (k : ℕ) (xs : Bytes) → parse_from (some 0) (replicate k 48 ++ xs) ≡ parse_from (some 0) xs
unfolding parse_from push_digit
parse_from-zeros zero xs = refl
parse_from-zeros (suc k) xs = parse_from-zeros k xs

parse_uint_of_parse_from : (xs : Bytes) → 0 < length xs → parse_uint xs ≡ parse_from (some 0) xs
unfolding parse_uint
parse_uint_of_parse_from [] h = elim h [ ]
parse_uint_of_parse_from (x ∷ xs) h = refl

length-format_from : (fuel n : ℕ) → 0 < length (format_from (suc fuel) n)
unfolding format_from
length-format_from fuel n = elim (Bool-cases (ltb n 10)) [
  | inl small ↦ rw small (omega arith)
  | inr big ↦ rw big (omega (arith, length-append (format_from fuel (n / 10)) ((48 + n % 10) ∷ [])))
]

parse_uint-zero_pad :
    (width : ℕ) (s : Bytes) (n : ℕ)
    → 0 < length s
    → parse_from (some 0) s ≡ some n
    → parse_uint (zero_pad width s) ≡ some n
unfolding zero_pad
parse_uint-zero_pad width s n h e = elim (Bool-cases (leb width (length s))) [
  | inl long ↦ rw long (parse_uint_of_parse_from s h ∙ e)
  | inr short ↦ rw short (
      parse_uint_of_parse_from (replicate (width - length s) 48 ++ s)
        (omega (arith, length-append (replicate (width - length s) 48) s))
      ∙ (parse_from-zeros (width - length s) s ∙ e))
]

-- The padded decimal text of a `uint64` parses to the number.
pub parse_uint-zero_pad-format_uint :
    (width n : ℕ) → n < two64 → parse_uint (zero_pad width (format_uint n)) ≡ some n
unfolding format_uint
parse_uint-zero_pad-format_uint width n h =
    parse_uint-zero_pad width (format_from 20 n) n (length-format_from 19 n)
      (parse_from-format_from 20 n (omega arith) h)

digits-append_one :
    (cs : Bytes) (c : ℕ) → All (λ c. c < 58) cs → c < 58 → All (λ c. c < 58) (cs ++ c ∷ [])
digits-append_one [] c h k = (k, tt)
digits-append_one (b ∷ bs) c h k = (h.0, digits-append_one bs c h.1 k)

format_from-digits : (fuel n : ℕ) → All (λ c. c < 58) (format_from fuel n)
unfolding format_from
format_from-digits zero n = tt
format_from-digits (suc fuel) n = elim (Bool-cases (ltb n 10)) [
  | inl small ↦ rw small (ground arith, tt)
  | inr big ↦ rw big (
      digits-append_one (format_from fuel (n / 10)) (48 + n % 10) (format_from-digits fuel (n / 10))
        (omega arith))
]

pub format_uint-digits : (n : ℕ) → All (λ c. c < 58) (format_uint n)
unfolding format_uint
format_uint-digits n = format_from-digits 20 n

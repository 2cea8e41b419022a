-- ===== src/Trie/Nibbles.antt =====
-- pkg/trie/node/encoding.go: keys as nibbles, in hexadecimal form (one nibble to a byte, and 16 for
-- the end of a key) and in compact form (two nibbles to a byte, behind a flag nibble).
pub mod InPlace
pub mod Prefix
pub mod RoundTrip
use Prim.Native.Nat.{bit_or}
use meta_co_sign.Base.{
  ℕ, suc, ◌-◌, ◌*◌, ◌/◌, ◌%◌, Bool, false, [], ◌∷◌, ◌++◌, ltb, ◌==◌, if◌then◌else◌, length, drop,
}
use meta_co_sign.Bytes.{Bytes}
use meta_co_sign.Result.{Result, ok, panic, ◌>>=◌}

-- whether a key in hexadecimal form ends in the terminator
unfoldable pub has_term : Bytes → Bool
has_term [] = false
has_term (x ∷ []) = x == 16
has_term (x ∷ y ∷ xs) = has_term (y ∷ xs)

-- `s[:len(s)-1]`
unfoldable pub drop_last : Bytes → Bytes
drop_last [] = []
drop_last (x ∷ []) = []
drop_last (x ∷ y ∷ xs) = x ∷ drop_last (y ∷ xs)

unfoldable pub nibbles_of : Bytes → Bytes
nibbles_of [] = []
nibbles_of (b ∷ bs) = (b / 16) ∷ (b % 16) ∷ nibbles_of bs

unfoldable pub keybytes_to_hex : Bytes → Bytes
unfolding nibbles_of
keybytes_to_hex str = nibbles_of str ++ 16 ∷ []

-- `hi<<4 | lo` on bytes
unfoldable pub join : ℕ → ℕ → ℕ
join hi lo = bit_or (hi * 16 % 256) lo

-- On an odd number of nibbles the read of the second one is out of range.
unfoldable pub decode_nibbles : Bytes → Result Bytes
unfolding join
decode_nibbles [] = ok []
decode_nibbles (hi ∷ []) = panic
decode_nibbles (hi ∷ lo ∷ rest) = do key ← decode_nibbles rest; ok (join hi lo ∷ key)

-- `hex[:len(hex)-1]` if the key has a terminator
unfoldable pub without_term : Bytes → Bytes
unfolding has_term drop_last
without_term hex = if has_term hex then drop_last hex else hex

unfoldable pub hex_to_keybytes : Bytes → Result Bytes
unfolding without_term decode_nibbles
hex_to_keybytes hex =
    let nibbles = without_term hex in
    if length nibbles % 2 == 0 then decode_nibbles nibbles else panic

-- The first byte takes the first nibble of an odd number of them.
unfoldable pub compact : ℕ → Bytes → Result Bytes
unfolding decode_nibbles
compact flag [] = ok (flag ∷ [])
compact flag (x ∷ xs) =
    if length (x ∷ xs) % 2 == 1
    then (do rest ← decode_nibbles xs; ok (bit_or (bit_or flag 16) x ∷ rest))
    else (do rest ← decode_nibbles (x ∷ xs); ok (flag ∷ rest))

unfoldable pub hex_to_compact : Bytes → Result Bytes
unfolding has_term without_term compact
hex_to_compact hex = compact (if has_term hex then 32 else 0) (without_term hex)

-- What `CompactToHex` cuts off: the terminator, if the flag does not say that there is one, and
-- then one nibble or two of the flag.
unfoldable pub cut : Bytes → Bytes
unfolding drop_last
cut [] = []
cut (flag ∷ nibbles) =
    let base = if ltb flag 2 then drop_last (flag ∷ nibbles) else flag ∷ nibbles in
    drop (2 - flag % 2) base

unfoldable pub compact_to_hex : Bytes → Bytes
unfolding cut keybytes_to_hex
compact_to_hex [] = []
compact_to_hex (b ∷ bs) = cut (keybytes_to_hex (b ∷ bs))

-- the length of the common prefix
unfoldable pub prefix_len : Bytes → Bytes → ℕ
prefix_len [] b = 0
prefix_len (x ∷ a) [] = 0
prefix_len (x ∷ a) (y ∷ b) = let rest = prefix_len a b in if x == y then suc rest else 0

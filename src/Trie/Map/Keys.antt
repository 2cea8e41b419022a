-- ===== src/Trie/Map/Keys.antt =====
-- Keys in hexadecimal form: they end in the terminator, and tell the keys apart.
use meta_co_sign.Base.{◌<◌, ◌/◌, ◌%◌, ◌≡◌, refl, true, false, [], ◌∷◌, arith, ◌==◌, All}
use meta_co_sign.Bytes.{Bytes, bytes_eq}
use meta_co_sign.Trie.Nibbles.{keybytes_to_hex}
use meta_co_sign.Trie.Paths.{Ends}

abbrev pub IsBytes : Bytes → Type 0
IsBytes = All (λ b. b < 256)

pub keybytes_to_hex-Ends : (k : Bytes) → IsBytes k → Ends false (keybytes_to_hex k) true
unfolding keybytes_to_hex
keybytes_to_hex-Ends [] h = (omega arith, refl)
keybytes_to_hex-Ends (b ∷ k) h =
    let high : (b / 16 == 16) ≡ false = ground (arith, h.0) in
    let low : (b % 16 == 16) ≡ false = ground arith in
    rw (high, low) (omega (arith, h.0), (omega arith, keybytes_to_hex-Ends k h.1))

pub bytes_eq-keybytes_to_hex :
    (k j : Bytes) → bytes_eq (keybytes_to_hex k) (keybytes_to_hex j) ≡ bytes_eq k j
unfolding keybytes_to_hex bytes_eq
bytes_eq-keybytes_to_hex [] [] = refl
bytes_eq-keybytes_to_hex [] (b ∷ j) = ground arith
bytes_eq-keybytes_to_hex (b ∷ k) [] = ground arith
bytes_eq-keybytes_to_hex (b ∷ k) (c ∷ j) = ground (arith, bytes_eq-keybytes_to_hex k j)

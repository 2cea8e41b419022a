-- ===== src/Examples/Encodings.antt =====
-- The theorems on the encodings of keys at concrete keys.
use meta_co_sign.Base.{ℕ, ◌≡◌, ◌↔◌, ◌≤◌, true, [], ◌∷◌, arith, take}
use meta_co_sign.Bytes.{Bytes}
use meta_co_sign.Result.{ok}
use meta_co_sign.Trie.Nibbles.{
  keybytes_to_hex, hex_to_keybytes, hex_to_compact, compact_to_hex, prefix_len,
}
use meta_co_sign.Trie.Nibbles.InPlace.{hex_to_compact_in_place, hex_to_compact_in_place-eq}
use meta_co_sign.Trie.Nibbles.Prefix.{prefix_len-take}
use meta_co_sign.Trie.Nibbles.RoundTrip.{
  hex_to_keybytes-keybytes_to_hex, compact_to_hex-hex_to_compact, with_term,
}

hex_to_keybytes-keybytes_to_hex_example :
    hex_to_keybytes (keybytes_to_hex (255 ∷ 18 ∷ [])) ≡ ok (255 ∷ 18 ∷ [])
hex_to_keybytes-keybytes_to_hex_example =
    hex_to_keybytes-keybytes_to_hex (255 ∷ 18 ∷ []) (omega arith, (omega arith, tt))

compact_to_hex-hex_to_compact_example :
    (c : Bytes) × (hex_to_compact (with_term true (15 ∷ 1 ∷ 2 ∷ [])) ≡ ok c)
    × (compact_to_hex c ≡ with_term true (15 ∷ 1 ∷ 2 ∷ []))
compact_to_hex-hex_to_compact_example =
    compact_to_hex-hex_to_compact true (15 ∷ 1 ∷ 2 ∷ [])
      (omega arith, (omega arith, (omega arith, tt)))

hex_to_compact_in_place-eq_example :
    hex_to_compact_in_place (15 ∷ 1 ∷ 2 ∷ 16 ∷ []) ≡ hex_to_compact (15 ∷ 1 ∷ 2 ∷ 16 ∷ [])
hex_to_compact_in_place-eq_example = hex_to_compact_in_place-eq 15 (1 ∷ 2 ∷ 16 ∷ [])

prefix_len-take_example :
    (take {A = ℕ} 2 (1 ∷ 2 ∷ 3 ∷ []) ≡ take 2 (1 ∷ 2 ∷ 4 ∷ 5 ∷ []))
    ↔ (2 ≤ prefix_len (1 ∷ 2 ∷ 3 ∷ []) (1 ∷ 2 ∷ 4 ∷ 5 ∷ []))
prefix_len-take_example =
    prefix_len-take (1 ∷ 2 ∷ 3 ∷ []) (1 ∷ 2 ∷ 4 ∷ 5 ∷ []) 2 (omega arith) (omega arith)

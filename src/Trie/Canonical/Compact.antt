-- ===== src/Trie/Canonical/Compact.antt =====
-- The key of a short node in compact form.
use meta_co_sign.Base.{
  ℕ, ◌≡◌, refl, sym, ap, ◌∙◌, inl, inr, Bool, true, false, [], ◌∷◌, ◌==◌, ==_iff, Bool-cases, arith,
}
use meta_co_sign.Bytes.{Bytes}
use meta_co_sign.Result.{ok}
use meta_co_sign.Trie.Nibbles.{has_term, hex_to_compact, compact_to_hex}
use meta_co_sign.Trie.Nibbles.RoundTrip.{
  IsNibbles, with_term, has_term-with_term, compact_to_hex-hex_to_compact,
}
use meta_co_sign.Trie.Paths.{Ends, Ends-nil}

Ends-with_term :
    (k : Bytes) (t : Bool) → Ends false k t → (xs : Bytes) × IsNibbles xs × (k ≡ with_term t xs)
Ends-with_term [] true h = cc
Ends-with_term [] false h = ([], tt, refl)
Ends-with_term (x ∷ k) t h = elim (Bool-cases (x == 16)) [
  | inl last ↦
      let over : Ends true k t = (rw last at h.1) in
      let nothing_left : k ≡ [] = Ends-nil k t over in
      let ended : t ≡ true = sym (rw nothing_left at over) in
      ([], tt, rw (ended, nothing_left, (==_iff x 16).0 last) refl)
  | inr more ↦
      let (xs, nibbles, e) = Ends-with_term k t (rw more at h.1) in
      (x ∷ xs, (ground (arith, h.0), nibbles), ap (◌∷◌ x) e ∙ with_term-cons t x xs)
]
  where
    with_term-cons : (t : Bool) (x : ℕ) (xs : Bytes) → x ∷ with_term t xs ≡ with_term t (x ∷ xs)
    with_term-cons true x xs = refl
    with_term-cons false x xs = refl

nonempty :
    (c : Bytes) (x : ℕ) (key : Bytes)
    → compact_to_hex c ≡ x ∷ key
    → (y : ℕ) × (ys : Bytes) × (c ≡ y ∷ ys)
unfolding compact_to_hex
nonempty [] x key e = cc
nonempty (y ∷ ys) x key e = (y, ys, refl)

-- A key that is a path has a compact form, from which it is read back.
pub compact_key :
    (x : ℕ) (key : Bytes) (t : Bool)
    → Ends false (x ∷ key) t
    → (y : ℕ) × (ys : Bytes) × (hex_to_compact (x ∷ key) ≡ ok (y ∷ ys))
      × (compact_to_hex (y ∷ ys) ≡ x ∷ key)
compact_key x key t h =
    let (xs, nibbles, e) = Ends-with_term (x ∷ key) t h in
    let (c, made, back) = compact_to_hex-hex_to_compact t xs nibbles in
    let (y, ys, form) = nonempty c x key (back ∙ sym e) in
    (y, ys, ap hex_to_compact e ∙ made ∙ ap ok form, ap compact_to_hex (sym form) ∙ back ∙ sym e)

pub Ends-has_term : (k : Bytes) (t : Bool) → Ends false k t → has_term k ≡ t
Ends-has_term k t h =
    let (xs, nibbles, e) = Ends-with_term k t h in ap has_term e ∙ has_term-with_term t xs nibbles

-- ===== src/Trie/Nibbles/Prefix.antt =====
-- `PrefixLen` of pkg/trie/node/encoding.go.
use meta_co_sign.Base.{
  ℕ, zero, suc, ◌≤◌, ◌≡◌, refl, ◌↔◌, [], ◌∷◌, ◌==◌, ==_iff, length, take, arith, Bool-cases, inl,
  inr,
}
use meta_co_sign.Bytes.{Bytes}
use meta_co_sign.Trie.Nibbles.{prefix_len}

-- The first `n` elements of two keys that have that many are the same exactly if `n` is at most
-- what `PrefixLen` returns.
pub prefix_len-take :
    (a b : Bytes) (n : ℕ)
    → n ≤ length a
    → n ≤ length b
    → (take n a ≡ take n b) ↔ (n ≤ prefix_len a b)
unfolding prefix_len
prefix_len-take a b zero h k = (λ e. omega arith, λ le. refl)
prefix_len-take [] b (suc n) h k = absurd (omega arith)
prefix_len-take (x ∷ a) [] (suc n) h k = absurd (omega arith)
prefix_len-take (x ∷ a) (y ∷ b) (suc n) h k =
    let (to, from) = prefix_len-take a b n (omega arith) (omega arith) in
    elim (Bool-cases (x == y)) [
      | inl same ↦
          let e : x ≡ y = (==_iff x y).0 same in
          (
            λ t. let rest : take n a ≡ take n b = cc in rw same (omega (arith, to rest)),
            λ le.
                let le : suc n ≤ suc (prefix_len a b) = (rw same at le) in
                rw (e, from (omega arith)) refl,
          )
      | inr differ ↦ (
        λ t. let e : x ≡ y = cc in ground (arith, (==_iff x y).1 e, differ),
        λ le. let le : suc n ≤ 0 = (rw differ at le) in absurd (omega arith),
      )
    ]

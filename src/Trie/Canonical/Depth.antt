-- ===== src/Trie/Canonical/Depth.antt =====
-- The length of the paths behind a node of pkg/trie in canonical form.
use meta_co_sign.Base.{
  ℕ, suc, ◌+◌, ◌<◌, ◌≡◌, refl, subst, true, false, [], ◌∷◌, ◌++◌, ◌==◌, arith, length,
  length-append, Bool-cases, inl, inr,
}
use meta_co_sign.Bytes.{Bytes}
use meta_co_sign.Store.{Read}
use meta_co_sign.Trie.Canonical.{
  Shape, nil, leaf, short, full, occupied, stored_alone, Canonical, nil_at, leaf_at, short_at,
  full_at, hash_at,
}
use meta_co_sign.Trie.Node.{Node, TrieLibrary}
use meta_co_sign.Trie.Paths.{Ends, Ends-rest}

pub stored_alone-occupied : (s : Shape) → stored_alone s ≡ true → occupied s ≡ true
stored_alone-occupied nil e = cc
stored_alone-occupied leaf e = refl
stored_alone-occupied short e = refl
stored_alone-occupied full e = refl

module _ (T : TrieLibrary) (get_blob : Bytes → Read) where
  pub Canonical-depth :
      {d : ℕ} {s : Shape} {n : Node}
      → Canonical T get_blob d s n
      → stored_alone s ≡ true
      → (d == 0) ≡ false
  Canonical-depth nil_at e = cc
  Canonical-depth leaf_at e = cc
  Canonical-depth (short_at b path len c flag) e = ground (arith, len)
  Canonical-depth (full_at shape len each last two flag) e = ground (arith, len)
  Canonical-depth (hash_at _ st c) e = Canonical-depth c e

-- a path of this length up to the terminator, from a node that stands behind the rest of it
abbrev pub IsPath : ℕ → Bytes → Type 0
IsPath d k = (length k ≡ d) × Ends (d == 0) k true

pub IsPath-rest :
    (m d x : ℕ) (nk r : Bytes)
    → IsPath m ((x ∷ nk) ++ r)
    → Ends false (x ∷ nk) (d == 0)
    → length (x ∷ nk) + d ≡ m
    → IsPath d r
IsPath-rest m d x nk r (len, path) front e =
    let deep : (m == 0) ≡ false = ground (arith, e) in
    (
      omega (arith, len, e, length-append nk r),
      Ends-rest false (d == 0) (x ∷ nk) r true front
          (subst (λ b. Ends b ((x ∷ nk) ++ r) true) deep path),
    )

pub IsPath-cons : (d x : ℕ) (k : Bytes) → IsPath (suc (suc d)) (x ∷ k) → (x < 16) × IsPath (suc d) k
IsPath-cons d x [] (len, path) = absurd (omega (arith, len))
IsPath-cons d x (y ∷ k) (len, path) =
    let deep : (suc (suc d) == 0) ≡ false = ground arith in
    let still : (suc d == 0) ≡ false = ground arith in
    let (small, rest) = subst (λ b. Ends b (x ∷ y ∷ k) true) deep path in
    elim (Bool-cases (x == 16)) [
      | inl last ↦ absurd (rw last at rest)
      | inr more ↦ (ground arith, (omega (arith, len), rw still (rw more at rest)))
    ]

-- ===== src/Trie/Canonical/Cached.antt =====
-- The nodes in canonical form whose hashes are cached are the sealed ones.
use meta_co_sign.Base.{ℕ, ◌≡◌, refl, sym, ap, ◌∙◌, ◌⊎◌, inl, inr, Bool-cases, true, false, [], ◌∷◌}
use meta_co_sign.Bytes.{Bytes}
use meta_co_sign.Store.{Read}
use meta_co_sign.Trie.Canonical.{
  Shape, IsHash, Hashed, Flagged, Canonical, nil_at, leaf_at, short_at, full_at, hash_at,
}
use meta_co_sign.Trie.Canonical.Sealed.{
  hash_of, clean_node, dirty-is_clean, Sealed, sealed_nil, sealed_leaf, sealed_hash, sealed_clean,
  sealed_short, sealed_full,
}
use meta_co_sign.Trie.Committer.{is_clean}
use meta_co_sign.Trie.Node.{
  Node, empty, value_node, hash_node, short_node, full_node, NodeFlag, new_flag, TrieLibrary,
}

pub is_clean-dirty : (flags : NodeFlag) → is_clean flags ≡ true → flags.dirty ≡ false
unfolding is_clean
is_clean-dirty flags e = elim (Bool-cases flags.dirty) [
  | inl on ↦ let clash : is_clean flags ≡ false = dirty-is_clean flags on in cc
  | inr off ↦ off
]

module _ (T : TrieLibrary) (get_blob : Bytes → Read) where
  clean-is_clean :
      (flags : NodeFlag) → flags.dirty ≡ false → IsHash T flags.hash → is_clean flags ≡ true
  unfolding is_clean
  clean-is_clean flags e is = rw (is.bytes, e) refl

  -- A node that an update made has no hash.
  fresh-IsHash : (flags : NodeFlag) → flags ≡ new_flag → IsHash T flags.hash → ⊥
  unfolding new_flag
  fresh-IsHash flags fresh is =
      let none_yet : flags.hash ≡ [] = ap (λ f. f.hash) fresh in
      let clash : [] ≡ is.first_byte ∷ is.rest = sym none_yet ∙ is.bytes in cc

  -- The hash of a node that is flagged with one is a hash.
  pub Flagged-Hashed :
      (n : Node) (flags : NodeFlag)
      → (IsHash T flags.hash → flags.dirty ≡ false → Hashed T n)
      → Flagged T get_blob n flags
      → (flags ≡ new_flag) ⊎ Hashed T n
  Flagged-Hashed n flags clean (inl fresh) = inl fresh
  Flagged-Hashed n flags clean (inr (inl (dirty, stored))) = inr (clean stored.is_hash dirty)
  Flagged-Hashed n flags clean (inr (inr (dirty, hashed))) = inr hashed

  pub Canonical-Sealed :
      {d : ℕ} {s : Shape} {n : Node}
      → Canonical T get_blob d s n
      → Hashed T n
      → Sealed T get_blob d s n
  unfolding hash_of clean_node
  Canonical-Sealed nil_at hashed = sealed_nil
  Canonical-Sealed leaf_at hashed = sealed_leaf
  Canonical-Sealed (hash_at a st c) hashed = sealed_hash (hash_at a st c)
  Canonical-Sealed (short_at {flags = flags} b path len c flag) (is, rest) = elim flag [
    | inl fresh ↦ absurd (fresh-IsHash flags fresh is)
    | inr (inl (dirty, stored)) ↦
        sealed_clean refl (short_at b path len c (inr (inl (dirty, stored)))) stored
          (clean-is_clean flags dirty is)
    | inr (inr (dirty, hashed)) ↦ elim rest [
      | inl clean ↦ let clash : true ≡ false = sym dirty ∙ clean in cc
      | inr below ↦ sealed_short b path len (Canonical-Sealed c below) is dirty
    ]
  ]
  Canonical-Sealed (full_at {flags = flags} shape e each last two flag) (is, rest) = elim flag [
    | inl fresh ↦ absurd (fresh-IsHash flags fresh is)
    | inr (inl (dirty, stored)) ↦
        sealed_clean refl (full_at shape e each last two (inr (inl (dirty, stored)))) stored
          (clean-is_clean flags dirty is)
    | inr (inr (dirty, hashed)) ↦ elim rest [
      | inl clean ↦ let clash : true ≡ false = sym dirty ∙ clean in cc
      | inr below ↦
          sealed_full shape e (λ i small. Canonical-Sealed (each i small) (below i small)) last two
            is dirty
    ]
  ]

  clean-Hashed : (n : Node) → clean_node n ≡ true → IsHash T (hash_of n) → Hashed T n
  unfolding clean_node hash_of
  clean-Hashed empty e is = tt
  clean-Hashed (value_node v) e is = tt
  clean-Hashed (hash_node h) e is = tt
  clean-Hashed (short_node key child flags) e is = (is, inl (is_clean-dirty flags e))
  clean-Hashed (full_node children flags) e is = (is, inl (is_clean-dirty flags e))

  pub Sealed-Canonical :
      {d : ℕ} {s : Shape} {n : Node}
      → Sealed T get_blob d s n
      → Canonical T get_blob d s n × Hashed T n
  Sealed-Canonical sealed_nil = (nil_at, tt)
  Sealed-Canonical sealed_leaf = (leaf_at, tt)
  Sealed-Canonical (sealed_hash c) = (c, tt)
  Sealed-Canonical (sealed_clean {n = n} a c st clean) = (c, clean-Hashed n clean st.is_hash)
  Sealed-Canonical (sealed_short b path len below is dirty) =
      let (c, hashed) = Sealed-Canonical below in
      (short_at b path len c (inr (inr (dirty, (is, inr hashed)))), (is, inr hashed))
  Sealed-Canonical (sealed_full shape e each last two is dirty) = (
    full_at shape e (λ i small. (Sealed-Canonical (each i small)).0) last two
        (inr (inr (dirty, (is, inr (λ i small. (Sealed-Canonical (each i small)).1))))),
    (is, inr (λ i small. (Sealed-Canonical (each i small)).1)),
  )

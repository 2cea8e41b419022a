-- ===== src/Trie/Canonical/Seals.antt =====
-- What `hash` of pkg/trie/hasher.go gives for a node, and for the nodes right below another.
use meta_co_sign.Base.{ℕ, ◌<◌, ◌≡◌, refl, sym, ap, subst, Bool, true, [], ◌∷◌}
use meta_co_sign.Bytes.{Bytes}
use meta_co_sign.Result.{Result, ok}
use meta_co_sign.Store.{Read}
use meta_co_sign.Trie.Canonical.{
  Shape, nil, leaf, short, full, below, stored_alone, occupied, IsHash, Canonical, nil_at, leaf_at,
  short_at, full_at, hash_at,
}
use meta_co_sign.Trie.Canonical.Sealed.{hash_of, Sealed, sealed_nil, sealed_leaf, sealed_hash}
use meta_co_sign.Trie.Denotes.{Content, Denotes, at_short, at_full}
use meta_co_sign.Trie.Hasher.{cached_or, hash_below, hash_child, hash}
use meta_co_sign.Trie.Marshal.{marshal, child_bytes}
use meta_co_sign.Trie.Node.{
  Node, empty, value_node, hash_node, short_node, full_node, NodeFlag, TrieLibrary,
}

module _ (T : TrieLibrary) (get_blob : Bytes → Read) where
  -- the node that is kept stands for the same map, and the other can be written into its parent
  abbrev pub Seals : ℕ → Shape → Node → Node → Node → Type 0
  Seals d s n new kept =
      Sealed T get_blob d s kept
      × ((b : Bool) (f : Content) → Denotes T get_blob b n f → Denotes T get_blob b kept f)
      × ((b : Bytes) × (child_bytes new (marshal T new) ≡ ok b))

  abbrev pub Hashes : ℕ → Shape → Node → Type 0
  Hashes d s n =
      (new : Node) × (kept : Node) × (hash T n ≡ ok (new, kept))
      × Seals d s n new kept
      × (stored_alone s ≡ true → new ≡ hash_node (hash_of kept))

  abbrev SealedBy : ℕ → Shape → Node → Result (Node × Node) → Type 0
  SealedBy d s n r = (new : Node) × (kept : Node) × (r ≡ ok (new, kept)) × Seals d s n new kept

  pub hash_below-Seals :
      {d : ℕ} {s : Shape} {n : Node}
      → Canonical T get_blob d s n
      → below s ≡ true
      → Hashes d s n
      → (new : Node) × (kept : Node) × (b : Bytes) × (hash_below n (hash T n) ≡ ok (new, kept))
        × Seals d s n new kept
        × (marshal T new ≡ ok b)
  unfolding hash_below marshal hash child_bytes
  hash_below-Seals nil_at h hashes = cc
  hash_below-Seals (leaf_at {v = v}) h hashes =
      (value_node v, value_node v, v, refl, (sealed_leaf, λ b f e. e, (v, refl)), refl)
  hash_below-Seals (short_at e path len c flag) h hashes = cc
  hash_below-Seals (full_at shape e each last two flag) h (new, kept, runs, seals, is) =
      let form : new ≡ hash_node (hash_of kept) = is refl in
      (new, kept, hash_of kept, runs, seals, ap (marshal T) form)
  hash_below-Seals (hash_at {h = h} e stored c) _ hashes = (
    hash_node h,
    hash_node h,
    h,
    refl,
    (sealed_hash (hash_at e stored c), λ b f d. d, (h, refl)),
    refl,
  )

  pub hash_child-Seals :
      {d : ℕ} {s : Shape} {n : Node}
      → Canonical T get_blob d s n
      → (occupied s ≡ true → Hashes d s n)
      → SealedBy d s n (hash_child n (hash T n))
  unfolding hash_child child_bytes marshal
  hash_child-Seals nil_at hashes =
      (value_node [], empty, refl, (sealed_nil, λ b f d. d, ([], refl)))
  hash_child-Seals (leaf_at {v = v}) hashes =
      let (new, kept, runs, seals, is) = hashes refl in (new, kept, runs, seals)
  hash_child-Seals (short_at e path len c flag) hashes =
      let (new, kept, runs, seals, is) = hashes refl in (new, kept, runs, seals)
  hash_child-Seals (full_at shape e each last two flag) hashes =
      let (new, kept, runs, seals, is) = hashes refl in (new, kept, runs, seals)
  hash_child-Seals (hash_at {s = s} e stored c) hashes =
      let (new, kept, runs, seals, is) = hashes (alone s e) in (new, kept, runs, seals)
    where
      alone : (s : Shape) → stored_alone s ≡ true → occupied s ≡ true
      alone nil e = cc
      alone leaf e = refl
      alone short e = refl
      alone full e = refl

  pub cached_or-hash :
      (h : Bytes) (n : Node) (r : Result (Node × Node))
      → IsHash T h
      → cached_or h n r ≡ ok (hash_node h, n)
  unfolding cached_or
  cached_or-hash h n r is = subst (λ g. cached_or g n r ≡ ok (hash_node g, n)) (sym is.bytes) refl

  pub short-keeps :
      (x : ℕ) (key : Bytes) (child kept : Node) (flags flags' : NodeFlag)
      → ((b : Bool) (f : Content) → Denotes T get_blob b child f → Denotes T get_blob b kept f)
      → (b : Bool) (f : Content) → Denotes T get_blob b (short_node (x ∷ key) child flags) f
      → Denotes T get_blob b (short_node (x ∷ key) kept flags') f
  short-keeps x key child kept flags flags' same b f (at_short way den miss) =
      at_short way (same _ _ den) miss

  pub full-keeps :
      (children kept : ℕ → Node) (flags flags' : NodeFlag)
      → ((i : ℕ)
          → i < 17
          → (b : Bool) (f : Content) → Denotes T get_blob b (children i) f
          → Denotes T get_blob b (kept i) f)
      → (b : Bool) (f : Content) → Denotes T get_blob b (full_node children flags) f
      → Denotes T get_blob b (full_node kept flags') f
  full-keeps children kept flags flags' same b f (at_full den) =
      at_full λ i small. same i small _ _ (den i small)

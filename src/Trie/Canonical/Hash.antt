-- ===== src/Trie/Canonical/Hash.antt =====
-- `hash` of pkg/trie/hasher.go ends on every node in canonical form, and seals it.
use meta_co_sign.Base.{
  ℕ, suc, ◌+◌, ◌<◌, ◌≡◌, refl, sym, ◌∙◌, subst, inl, inr, Bool, true, false, ◌∷◌, ◌==◌, ==_iff,
  Bool-cases, length, replicate, arith,
}
use meta_co_sign.Bytes.{Bytes}
use meta_co_sign.Result.{ok, ◌>>=◌}
use meta_co_sign.Store.{Read}
use meta_co_sign.Trie.Canonical.{
  Shape, nil, leaf, short, full, below, occupied, Two, IsHash, Canonical, nil_at, leaf_at, short_at,
  full_at, hash_at, Laws,
}
use meta_co_sign.Trie.Canonical.Cached.{Flagged-Hashed, Canonical-Sealed}
use meta_co_sign.Trie.Canonical.Compact.{compact_key}
use meta_co_sign.Trie.Canonical.Sealed.{
  hash_of, hash_children-all, Sealed, sealed_leaf, sealed_hash, sealed_short, sealed_full,
  short-node_hash, full-node_hash,
}
use meta_co_sign.Trie.Denotes.{Content, Denotes}
use meta_co_sign.Trie.Hasher.{cached_or, hash_child, hash_children, hash_short, hash_full, hash}
use meta_co_sign.Trie.Marshal.{marshal, child_bytes}
use meta_co_sign.Trie.Node.{
  Node, empty, value_node, hash_node, short_node, full_node, NodeFlag, new_flag, TrieLibrary,
}
use meta_co_sign.Trie.Paths.{Ends}
use meta_co_sign.Trie.Canonical.Seals.{
  Seals, Hashes, hash_below-Seals, hash_child-Seals, cached_or-hash, short-keeps, full-keeps,
}

module _ (T : TrieLibrary) (get_blob : Bytes → Read) (laws : Laws T) where
  fresh_short :
      (d m : ℕ) (s : Shape) (x : ℕ) (key : Bytes) (child : Node)
      → below s ≡ true
      → Ends false (x ∷ key) (d == 0)
      → length (x ∷ key) + d ≡ m
      → Canonical T get_blob d s child
      → Hashes T get_blob d s child
      → Hashes T get_blob m short (short_node (x ∷ key) child new_flag)
  unfolding hash hash_short cached_or new_flag hash_of child_bytes marshal
  fresh_short d m s x key child e path len c hashes =
      let (new, kept, b, runs, (sealed, same, written), bytes) =
        hash_below-Seals T get_blob c e hashes in
      let (y, ys, made, back) = compact_key x key (d == 0) path in
      let (z, hashed) = short-node_hash T get_blob (y ∷ ys) b new new_flag bytes in
      let flag : NodeFlag = record { hash = T.keccak256 z; dirty = true } in
      (
        hash_node (T.keccak256 z),
        short_node (x ∷ key) kept flag,
        rw (runs, made, hashed) refl,
        (
          sealed_short e path len sealed (laws.keccak_is_hash z) refl,
          short-keeps T get_blob x key child kept new_flag flag same,
          (T.keccak256 z, refl),
        ),
        λ _. refl,
      )

  hash_full-eq :
      (children : ℕ → Node) (flags : NodeFlag)
      → hash T (full_node children flags)
        ≡ cached_or flags.hash (full_node children flags) (
            hash_children 16 0
              (λ i. hash_child (children i) (hash T (children i)))
              (children, children)
            >>= hash_full T flags)
  unfolding hash
  hash_full-eq children flags = refl

  fresh_full :
      (d m : ℕ) (shape : ℕ → Shape) (children : ℕ → Node)
      → suc (suc d) ≡ m
      → ((i : ℕ) → i < 16 → Canonical T get_blob (suc d) (shape i) (children i))
      → children 16 ≡ empty
      → Two shape
      → ((i : ℕ)
          → i < 16
          → occupied (shape i) ≡ true
          → Hashes T get_blob (suc d) (shape i) (children i))
      → Hashes T get_blob m full (full_node children new_flag)
  unfolding hash_full cached_or new_flag hash_of child_bytes marshal
  fresh_full d m shape children e each last two hashes =
      let (col, cac, runs, inside, outside) =
        hash_children-all (λ i new kept. Seals T get_blob (suc d) (shape i) (children i) new kept)
          (λ i. hash_child (children i) (hash T (children i))) 16 0 children children
          (λ i low high.
            hash_child-Seals T get_blob (each i (omega arith)) (hashes i (omega arith))) in
      let (col_16, cac_16) = outside 16 (inr (omega arith)) in
      let col_last : col 16 ≡ empty = col_16 ∙ last in
      let cac_last : cac 16 ≡ empty = cac_16 ∙ last in
      let (z, hashed) = full-node_hash T get_blob col new_flag (λ i small.
        elim (Bool-cases (i == 16)) [
          | inl at ↦
              let here : 16 ≡ i = sym ((==_iff i 16).0 at) in
              subst (λ i. (b : Bytes) × (child_bytes (col i) (marshal T (col i)) ≡ ok b)) here
                (rw col_last (replicate 32 0, refl))
          | inr before ↦ (inside i (omega arith) (ground arith)).2
        ]) in
      let flag : NodeFlag = record { hash = T.keccak256 z; dirty = true } in
      (
        hash_node (T.keccak256 z),
        full_node cac flag,
        hash_full-eq children new_flag ∙ rw (runs, hashed) refl,
        (
          sealed_full shape e (λ i small. (inside i (omega arith) (omega arith)).0) cac_last two
              (laws.keccak_is_hash z) refl,
          full-keeps T get_blob children cac new_flag flag (λ i small. elim (Bool-cases (i == 16)) [
            | inl at ↦
                let here : 16 ≡ i = sym ((==_iff i 16).0 at) in
                subst
                  (λ i.
                    (b : Bool) (f : Content)
                    → Denotes T get_blob b (children i) f
                    → Denotes T get_blob b (cac i) f)
                  here (λ b f den. subst (λ n. Denotes T get_blob b n f) (last ∙ sym cac_last) den)
            | inr before ↦ (inside i (omega arith) (ground arith)).1
          ]),
          (T.keccak256 z, refl),
        ),
        λ _. refl,
      )

  -- A node that has its hash is kept as it is.
  hashed_short :
      (m : ℕ) (key : Bytes) (child : Node) (flags : NodeFlag)
      → Sealed T get_blob m short (short_node key child flags)
      → IsHash T flags.hash
      → Hashes T get_blob m short (short_node key child flags)
  unfolding hash hash_of child_bytes marshal
  hashed_short m key child flags sealed is = (
    hash_node flags.hash,
    short_node key child flags,
    cached_or-hash T get_blob flags.hash (short_node key child flags) _ is,
    (sealed, λ b f den. den, (flags.hash, refl)),
    λ _. refl,
  )

  hashed_full :
      (m : ℕ) (children : ℕ → Node) (flags : NodeFlag)
      → Sealed T get_blob m full (full_node children flags)
      → IsHash T flags.hash
      → Hashes T get_blob m full (full_node children flags)
  unfolding hash_of child_bytes marshal
  hashed_full m children flags sealed is = (
    hash_node flags.hash,
    full_node children flags,
    hash_full-eq children flags
        ∙ cached_or-hash T get_blob flags.hash (full_node children flags) _ is,
    (sealed, λ b f den. den, (flags.hash, refl)),
    λ _. refl,
  )

  -- Every node in canonical form but nil is hashed.
  pub Canonical-Hashes :
      {d : ℕ} {s : Shape} {n : Node}
      → Canonical T get_blob d s n
      → occupied s ≡ true
      → Hashes T get_blob d s n
  unfolding hash hash_of child_bytes marshal
  Canonical-Hashes nil_at o = cc
  Canonical-Hashes (leaf_at {v = v}) o =
      (value_node v, value_node v, refl, (sealed_leaf, λ b f d. d, (v, refl)), λ a. cc)
  Canonical-Hashes
        (short_at {d = d} {m = m} {s = s} {x = x} {key = key} {child = child} {flags = flags} e path
          len c flag)
        o =
      elim (Flagged-Hashed T get_blob (short_node (x ∷ key) child flags) flags
        (λ is clean. (is, inl clean)) flag) [
          | inl fresh ↦
              subst (λ fl. Hashes T get_blob m short (short_node (x ∷ key) child fl)) (sym fresh)
                (fresh_short d m s x key child e path len c (Canonical-Hashes c (there s e)))
          | inr (is, rest) ↦
              hashed_short m (x ∷ key) child flags
                (Canonical-Sealed T get_blob (short_at e path len c flag) (is, rest)) is
        ]
    where
      there : (s : Shape) → below s ≡ true → occupied s ≡ true
      there nil e = e
      there leaf e = refl
      there short e = refl
      there full e = refl
  Canonical-Hashes
        (full_at {d = d} {m = m} {children = children} {flags = flags} shape e each last two flag)
        o =
      elim (Flagged-Hashed T get_blob (full_node children flags) flags (λ is clean. (is, inl clean))
        flag) [
          | inl fresh ↦
              subst (λ fl. Hashes T get_blob m full (full_node children fl)) (sym fresh)
                (fresh_full d m shape children e each last two
                  (λ i small. Canonical-Hashes (each i small)))
          | inr (is, rest) ↦
              hashed_full m children flags
                (Canonical-Sealed T get_blob (full_at shape e each last two flag) (is, rest)) is
        ]
  Canonical-Hashes (hash_at {h = h} e stored c) o = (
    hash_node h,
    hash_node h,
    refl,
    (sealed_hash (hash_at e stored c), λ b f d. d, (h, refl)),
    λ a. refl,
  )

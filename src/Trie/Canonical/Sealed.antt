-- ===== src/Trie/Canonical/Sealed.antt =====
-- What `hash` of pkg/trie/hasher.go makes of a trie in canonical form: the same nodes, each with a
-- hash.
use meta_co_sign.Base.{
  ℕ, zero, suc, ◌+◌, ◌<◌, ◌≤◌, ◌≡◌, refl, ◌∙◌, subst, ◌⊎◌, inl, inr, Bool, true, false, Option,
  none, some, List, [], ◌∷◌, ◌==◌, ==_iff, Bool-cases, length, arith,
}
use meta_co_sign.Bytes.{Bytes}
use meta_co_sign.Result.{Result, ok, or_fail, encode_error}
use meta_co_sign.Store.{Read}
use meta_co_sign.Trie.Canonical.{
  Shape, nil, leaf, short, full, below, stored_alone, Two, IsHash, Stored, Canonical,
}
use meta_co_sign.Trie.Committer.{is_clean}
use meta_co_sign.Trie.Hasher.{hash_children, node_hash}
use meta_co_sign.Trie.Marshal.{
  marshal, marshal_typed, marshal_children, child_bytes, bytes_or_nil, node_to_bytes, or_nil,
}
use meta_co_sign.Trie.Node.{
  Node, empty, value_node, hash_node, short_node, full_node, NodeFlag, set_child, TrieLibrary,
  short_type, full_type,
}
use meta_co_sign.Trie.Paths.{Ends}

-- the hash that a node has or is
unfoldable pub hash_of : Node → Bytes
hash_of empty = []
hash_of (value_node v) = []
hash_of (hash_node h) = h
hash_of (short_node key child flags) = flags.hash
hash_of (full_node children flags) = flags.hash

-- whether a commit takes the cached hash
unfoldable pub clean_node : Node → Bool
unfolding is_clean
clean_node empty = false
clean_node (value_node v) = false
clean_node (hash_node h) = false
clean_node (short_node key child flags) = is_clean flags
clean_node (full_node children flags) = is_clean flags

-- The loop of the hasher, if each child has a result of which `P` holds.
pub hash_children-all :
    (P : ℕ → Node → Node → Type 0) (hashed : ℕ → Result (Node × Node)) (rounds i : ℕ)
    (collapsed cached : ℕ → Node)
    → ((j : ℕ)
        → i ≤ j
        → j < i + rounds
        → (new : Node) × (kept : Node) × (hashed j ≡ ok (new, kept)) × P j new kept)
    → (col : ℕ → Node) × (cac : ℕ → Node) × (hash_children rounds i hashed (collapsed, cached)
        ≡ ok (col, cac))
      × ((j : ℕ) → i ≤ j → j < i + rounds → P j (col j) (cac j))
      × ((j : ℕ) → (j < i) ⊎ (i + rounds ≤ j) → (col j ≡ collapsed j) × (cac j ≡ cached j))
unfolding hash_children
hash_children-all P hashed zero i collapsed cached each =
    (collapsed, cached, refl, λ j low high. absurd (omega arith), λ j out. (refl, refl))
hash_children-all P hashed (suc rounds) i collapsed cached each =
    let (new, kept, makes, holds) = each i (omega arith) (omega arith) in
    let (col, cac, runs, inside, outside) =
      hash_children-all P hashed rounds (suc i) (set_child collapsed i new)
        (set_child cached i kept) (λ j low high. each j (omega arith) (omega arith)) in
    let same : (i == i) ≡ true = (==_iff i i).1 refl in
    let (col_i, cac_i) = outside i (inl (omega arith)) in
    let col_i : col i ≡ new = col_i ∙ rw same refl in
    let cac_i : cac i ≡ kept = cac_i ∙ rw same refl in
    (
      col,
      cac,
      rw makes runs,
      λ j low high. elim (Bool-cases (i == j)) [
        | inl here ↦
            subst (λ j. P j (col j) (cac j)) ((==_iff i j).0 here) (rw (col_i, cac_i) holds)
        | inr there ↦ inside j (ground arith) (omega arith)
      ],
      λ j out.
          let apart : (i == j) ≡ false = elim out [
            | inl low ↦ ground arith
            | inr high ↦ ground arith
          ] in
          let further : (j < suc i) ⊎ (suc i + rounds ≤ j) = elim out [
            | inl low ↦ inl (omega arith)
            | inr high ↦ inr (omega arith)
          ] in
          let (c, k) = outside j further in (c ∙ rw apart refl, k ∙ rw apart refl),
    )

marshal_children-all :
    (bytes : ℕ → Result Bytes) (rounds i : ℕ)
    → ((j : ℕ) → i ≤ j → j < i + rounds → (b : Bytes) × (bytes j ≡ ok b))
    → (bufs : List Bytes) × (marshal_children rounds i bytes ≡ ok bufs)
unfolding marshal_children
marshal_children-all bytes zero i each = ([], refl)
marshal_children-all bytes (suc rounds) i each =
    let (b, first) = each i (omega arith) (omega arith) in
    let (bufs, rest) =
      marshal_children-all bytes rounds (suc i)
        (λ j low high. each j (omega arith) (omega arith)) in
    (b ∷ bufs, rw (first, rest) refl)

pub dirty-is_clean : (flags : NodeFlag) → flags.dirty ≡ true → is_clean flags ≡ false
unfolding is_clean
dirty-is_clean flags e = ground (arith, e)

module _ (T : TrieLibrary) (get_blob : Bytes → Read) where
  -- A node in canonical form after it was hashed.
  pub data Sealed : ℕ → Shape → Node → Type 0 where
    sealed_nil : {d : ℕ} → Sealed d nil empty
    sealed_leaf : {v : Bytes} → Sealed 0 leaf (value_node v)
    sealed_hash :
        {d : ℕ} {s : Shape} {h : Bytes}
        → Canonical T get_blob d s (hash_node h)
        → Sealed d s (hash_node h)
    sealed_clean :
        {d : ℕ} {s : Shape} {n : Node}
        → stored_alone s ≡ true
        → Canonical T get_blob d s n
        → Stored T get_blob (hash_of n) n
        → clean_node n ≡ true
        → Sealed d s n
    sealed_short :
        {d m : ℕ} {s : Shape} {x : ℕ} {key : Bytes} {child : Node} {flags : NodeFlag}
        → below s ≡ true
        → Ends false (x ∷ key) (d == 0)
        → length (x ∷ key) + d ≡ m
        → Sealed d s child
        → IsHash T flags.hash
        → flags.dirty ≡ true
        → Sealed m short (short_node (x ∷ key) child flags)
    sealed_full :
        {d m : ℕ} {children : ℕ → Node} {flags : NodeFlag} (shape : ℕ → Shape)
        → suc (suc d) ≡ m
        → ((i : ℕ) → i < 16 → Sealed (suc d) (shape i) (children i))
        → children 16 ≡ empty
        → Two shape
        → IsHash T flags.hash
        → flags.dirty ≡ true
        → Sealed m full (full_node children flags)

  bytes_of_or_fail :
      (o : Option Bytes) → (b : Bytes) × (bytes_or_nil (or_fail encode_error o) ≡ ok b)
  unfolding bytes_or_nil
  bytes_of_or_fail none = ([], refl)
  bytes_of_or_fail (some b) = (b, refl)

  pub short-node_hash :
      (key b : Bytes) (child : Node) (flags : NodeFlag)
      → marshal T child ≡ ok b
      → (c : Bytes) × (node_hash T (short_node key child flags) ≡ ok (T.keccak256 c))
  unfolding node_hash node_to_bytes marshal marshal_typed
  short-node_hash key b child flags e =
      let (c, made) = bytes_of_or_fail (
        T.mpt_node.marshal (record {
          node_type = short_type;
          node_bytes =
              or_nil (T.mpt_short_node.marshal (record { short_key = key; short_value = b }));
        })) in
      (c, rw (e, made) refl)

  pub full-node_hash :
      (children : ℕ → Node) (flags : NodeFlag)
      → ((i : ℕ)
          → i < 17
          → (b : Bytes) × (child_bytes (children i) (marshal T (children i)) ≡ ok b))
      → (c : Bytes) × (node_hash T (full_node children flags) ≡ ok (T.keccak256 c))
  unfolding node_hash node_to_bytes marshal marshal_typed
  full-node_hash children flags each =
      let (bufs, all) =
        marshal_children-all (λ i. child_bytes (children i) (marshal T (children i))) 17 0
          (λ j low high. each j (omega arith)) in
      let (c, made) = bytes_of_or_fail (
        T.mpt_node.marshal
          (record { node_type = full_type; node_bytes = or_nil (T.mpt_full_node.marshal bufs) })) in
      (c, rw (all, made) refl)

-- ===== src/Trie/Hasher.antt =====
-- pkg/trie/hasher.go, and `Hash` of pkg/trie/trie.go. The sixteen hashers that run in parallel give
-- what one gives.
use meta_co_sign.Base.{ℕ, zero, suc, [], ◌∷◌}
use meta_co_sign.Bytes.{Bytes}
use meta_co_sign.Result.{Result, ok, panic, ◌>>=◌}
use meta_co_sign.Trie.Map.{MerklePatriciaTrie, empty_root_hash}
use meta_co_sign.Trie.Marshal.{node_to_bytes}
use meta_co_sign.Trie.Nibbles.{hex_to_compact}
use meta_co_sign.Trie.Node.{
  Node, empty, value_node, hash_node, short_node, full_node, NodeFlag, set_child, TrieLibrary,
}

-- The cached hash, where there is one.
unfoldable pub cached_or : Bytes → Node → Result (Node × Node) → Result (Node × Node)
cached_or [] n r = r
cached_or (x ∷ h) n r = ok (hash_node (x ∷ h), n)

-- Only a short and a full node below a short node are hashed.
unfoldable pub hash_below : Node → Result (Node × Node) → Result (Node × Node)
hash_below empty r = ok (empty, empty)
hash_below (value_node v) r = ok (value_node v, value_node v)
hash_below (hash_node h) r = ok (hash_node h, hash_node h)
hash_below (short_node key child flags) r = r
hash_below (full_node children flags) r = r

-- In the place of a nil child of a full node `NilValueNode` is hashed.
unfoldable pub hash_child : Node → Result (Node × Node) → Result (Node × Node)
hash_child empty r = ok (value_node [], empty)
hash_child (value_node v) r = r
hash_child (hash_node h) r = r
hash_child (short_node key child flags) r = r
hash_child (full_node children flags) r = r

-- the loop over the children, which fills the collapsed and the cached copy
unfoldable pub hash_children :
    ℕ → ℕ → (ℕ → Result (Node × Node)) → (ℕ → Node) × (ℕ → Node) → Result ((ℕ → Node) × (ℕ → Node))
hash_children zero i hashed copies = ok copies
hash_children (suc rounds) i hashed (collapsed, cached) = do
  (new, kept) ← hashed i
  hash_children rounds (suc i) hashed (set_child collapsed i new, set_child cached i kept)

module _ (T : TrieLibrary) where
  -- `hashData` on what a collapsed node marshals to
  unfoldable pub node_hash : Node → Result Bytes
  unfolding node_to_bytes
  node_hash n = do b ← node_to_bytes T n; ok (T.keccak256 b)

  unfoldable pub hash_short : Bytes → NodeFlag → Node × Node → Result (Node × Node)
  unfolding node_hash hex_to_compact
  hash_short key flags (new, kept) = do
    compact_key ← hex_to_compact key
    h ← node_hash (short_node compact_key new flags)
    ok (hash_node h, short_node key kept (record flags { hash = h }))

  unfoldable pub hash_full : NodeFlag → (ℕ → Node) × (ℕ → Node) → Result (Node × Node)
  unfolding node_hash
  hash_full flags (collapsed, cached) = do
    h ← node_hash (full_node collapsed flags)
    ok (hash_node h, full_node cached (record flags { hash = h }))

  -- A call of `Cache` on nil panics.
  unfoldable pub hash : Node → Result (Node × Node)
  unfolding cached_or hash_below hash_child hash_children hash_short hash_full
  hash empty = panic
  hash (value_node v) = ok (value_node v, value_node v)
  hash (hash_node h) = ok (hash_node h, hash_node h)
  hash (short_node key child flags) =
      cached_or flags.hash (short_node key child flags)
        (hash_below child (hash child) >>= hash_short key flags)
  hash (full_node children flags) = cached_or flags.hash (full_node children flags) (
      hash_children 16 0 (λ i. hash_child (children i) (hash (children i))) (children, children)
      >>= hash_full flags)

-- `hash.(node.HashNode)`
unfoldable pub as_hash : Node → Result Bytes
as_hash (hash_node h) = ok h
as_hash empty = panic
as_hash (value_node v) = panic
as_hash (short_node key child flags) = panic
as_hash (full_node children flags) = panic

module _ (T : TrieLibrary) where
  unfoldable pub hash_root : Node → Result (Node × Node)
  unfolding hash
  hash_root empty = ok (hash_node empty_root_hash, empty)
  hash_root (value_node v) = hash T (value_node v)
  hash_root (hash_node h) = hash T (hash_node h)
  hash_root (short_node key child flags) = hash T (short_node key child flags)
  hash_root (full_node children flags) = hash T (full_node children flags)

  unfoldable pub hash_trie : MerklePatriciaTrie → Result (Bytes × MerklePatriciaTrie)
  unfolding hash_root as_hash
  hash_trie t = do
    (hashed, cached) ← hash_root t.root
    h ← as_hash hashed
    ok (T.bytes_to_hash h, record t { root = cached })

-- ===== src/Trie/Committer.antt =====
-- pkg/trie/committer.go, and `Commit` of pkg/trie/trie.go.
use meta_co_sign.Base.{
  ℕ, zero, suc, Bool, true, false, Option, none, some, List, [], ◌∷◌, ◌++◌, if◌then◌else◌, not,
  ◌&&◌,
}
use meta_co_sign.Bytes.{Bytes}
use meta_co_sign.Registry.{is_some}
use meta_co_sign.Result.{Result, ok, panic, ◌>>=◌}
use meta_co_sign.Trie.Hasher.{hash_trie, as_hash}
use meta_co_sign.Trie.Map.{MerklePatriciaTrie, empty_root_hash, copy_trie}
use meta_co_sign.Trie.Marshal.{node_to_bytes}
use meta_co_sign.Trie.Nibbles.{hex_to_compact}
use meta_co_sign.Trie.Node.{
  Node, empty, value_node, hash_node, short_node, full_node, NodeFlag, set_child, cache,
  TrieLibrary,
}
use meta_co_sign.Trie.NodeSet.{NodeSet, NodeWrapper, new_node_set, new_deleted, add_node, add_leaf}
use meta_co_sign.Trie.Tracer.{Tracer, reset_tracer}

-- a call that fills the node set
abbrev pub Fills : Type 0
Fills = Bytes → NodeSet → Result (Node × NodeSet)

-- The child of a short node is committed if it is a full node.
unfoldable pub commit_below : Node → Bytes → Fills → NodeSet → Result (Node × NodeSet)
commit_below (full_node children flags) path commit set = commit path set
commit_below empty path commit set = ok (empty, set)
commit_below (value_node v) path commit set = ok (value_node v, set)
commit_below (hash_node h) path commit set = ok (hash_node h, set)
commit_below (short_node key child flags) path commit set = ok (short_node key child flags, set)

-- A nil child and a hashed one stay as they are.
unfoldable pub commit_child : Node → Fills → Fills
commit_child empty commit path set = ok (empty, set)
commit_child (hash_node h) commit path set = ok (hash_node h, set)
commit_child (value_node v) commit path set = commit path set
commit_child (short_node key child flags) commit path set = commit path set
commit_child (full_node children flags) commit path set = commit path set

-- The loop over the children, whose array starts with nil everywhere.
unfoldable pub commit_children :
    ℕ → ℕ → (ℕ → Fills) → Bytes → (ℕ → Node) → NodeSet → Result ((ℕ → Node) × NodeSet)
commit_children zero i commit path hashed set = ok (hashed, set)
commit_children (suc rounds) i commit path hashed set = do
  (kid, next) ← commit i (path ++ i ∷ []) set
  commit_children rounds (suc i) commit path (set_child hashed i kid) next

-- `hash != nil && !dirty`
unfoldable pub is_clean : NodeFlag → Bool
is_clean flags = is_hashed flags.hash && not flags.dirty
  where
    is_hashed : Bytes → Bool
    is_hashed [] = false
    is_hashed (x ∷ h) = true

module _ (T : TrieLibrary) (hex_encode : Bytes → Bytes) (tracer : Tracer)
    (collect_leaf : Bool) where
  -- the leaf of a collapsed short node
  unfoldable pub note_leaf : Bytes → Node → NodeSet → NodeSet
  unfolding add_leaf
  note_leaf parent (short_node key (value_node v) flags) set =
      if collect_leaf then add_leaf parent v set else set
  note_leaf parent n set = set

  -- `store` on a collapsed node with this cached hash
  unfoldable pub store_node : Bytes → Bytes → Node → NodeSet → Result (Node × NodeSet)
  unfolding add_node note_leaf node_to_bytes is_some
  store_node [] path n set = ok (
    n,
    if is_some (tracer.access_list path) then add_node hex_encode path new_deleted set else set,
  )
  store_node (x ∷ h) path n set = do
    blob ← node_to_bytes T n
    let wrapper : NodeWrapper = record { hash = T.bytes_to_hash (x ∷ h); blob = blob }
    ok (
      hash_node (x ∷ h),
      note_leaf (T.bytes_to_hash (x ∷ h)) n (add_node hex_encode path wrapper set),
    )

  unfoldable pub commit : Node → Fills
  unfolding commit_below commit_child commit_children store_node is_clean hex_to_compact
  commit empty path set = panic
  commit (value_node v) path set = panic
  commit (hash_node h) path set = ok (hash_node h, set)
  commit (short_node key child flags) path set =
      if is_clean flags then ok (hash_node flags.hash, set) else (do
        (collapsed, next) ← commit_below child (path ++ key) (λ p s. commit child p s) set
        compact_key ← hex_to_compact key
        store_node flags.hash path (short_node compact_key collapsed flags) next)
  commit (full_node children flags) path set =
      if is_clean flags then ok (hash_node flags.hash, set) else (do
        (kids, next) ←
            commit_children 16 0 (λ i. commit_child (children i) (λ p s. commit (children i) p s))
              path (λ i. empty) set
        store_node flags.hash path (full_node (set_child kids 16 (children 16)) flags) next)

-- what `Commit` returns
pub record Committed : Type 0 where
  pub root_hash : Bytes
  pub node_set : Option NodeSet
  pub old_keys : List Bytes

module _ (T : TrieLibrary) (hex_encode : Bytes → Bytes) where
  unfoldable pub add_deleted : List Bytes → NodeSet → NodeSet
  unfolding add_node
  add_deleted [] set = set
  add_deleted (path ∷ paths) set = add_deleted paths (add_node hex_encode path new_deleted set)

  -- `paths` is what `deletedNodes` returns, in the order of the range over the map.
  unfoldable pub commit_empty : List Bytes → List Bytes → Committed
  unfolding add_deleted
  commit_empty [] old_keys = record {
    root_hash = empty_root_hash;
    node_set = none;
    old_keys = old_keys;
  }
  commit_empty (path ∷ paths) old_keys = record {
    root_hash = empty_root_hash;
    node_set = some (add_deleted (path ∷ paths) new_node_set);
    old_keys = old_keys;
  }

  -- the commit of the hashed copy, where that is dirty
  unfoldable pub commit_copy :
      List Bytes → Bool → Tracer → Bytes × MerklePatriciaTrie → Result Committed
  unfolding commit as_hash add_deleted cache
  commit_copy paths collect_leaf tracer (h, copy) =
      if (cache copy.root).1
      then (do
        (hashed, set) ←
            commit T hex_encode tracer collect_leaf copy.root [] (add_deleted paths new_node_set)
        root ← as_hash hashed
        ok (record { root_hash = h; node_set = some set; old_keys = tracer.old_keys }))
      else ok (record { root_hash = h; node_set = none; old_keys = tracer.old_keys })

  unfoldable pub commit_root : List Bytes → Bool → Node → MerklePatriciaTrie → Result Committed
  unfolding commit_empty commit_copy hash_trie copy_trie
  commit_root paths collect_leaf empty t = ok (commit_empty paths t.tracer.old_keys)
  commit_root paths collect_leaf (value_node v) t =
      hash_trie T (copy_trie t) >>= commit_copy paths collect_leaf t.tracer
  commit_root paths collect_leaf (hash_node h) t =
      hash_trie T (copy_trie t) >>= commit_copy paths collect_leaf t.tracer
  commit_root paths collect_leaf (short_node key child flags) t =
      hash_trie T (copy_trie t) >>= commit_copy paths collect_leaf t.tracer
  commit_root paths collect_leaf (full_node children flags) t =
      hash_trie T (copy_trie t) >>= commit_copy paths collect_leaf t.tracer

  -- The tracer is reset whatever is returned.
  unfoldable pub commit_trie :
      List Bytes → Bool → MerklePatriciaTrie → Result Committed × MerklePatriciaTrie
  unfolding commit_root reset_tracer
  commit_trie paths collect_leaf t =
      (commit_root paths collect_leaf t.root t, record t { tracer = reset_tracer t.tracer })

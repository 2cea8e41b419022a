-- ===== src/Trie/Marshal.antt =====
-- `Marshal` of the nodes of pkg/trie/node, and `NodeToBytes`.
use meta_co_sign.Base.{ℕ, zero, suc, Option, none, some, List, [], ◌∷◌, replicate}
use meta_co_sign.Bytes.{Bytes}
use meta_co_sign.Result.{Result, ok, fail, panic, encode_error, ◌>>=◌, or_fail}
use meta_co_sign.Trie.Node.{
  Node, empty, value_node, hash_node, short_node, full_node, total_child_node, full_type,
  short_type, MptNodeType, TrieLibrary,
}

-- `b, _ := proto.Marshal(…)`
abbrev pub or_nil : Option Bytes → Bytes
or_nil none = []
or_nil (some b) = b

-- A nil child of a full node is written as the zero hash.
unfoldable pub child_bytes : Node → Result Bytes → Result Bytes
child_bytes empty r = ok (replicate 32 0)
child_bytes (value_node v) r = r
child_bytes (hash_node h) r = r
child_bytes (short_node key child flags) r = r
child_bytes (full_node children flags) r = r

unfoldable pub marshal_children : ℕ → ℕ → (ℕ → Result Bytes) → Result (List Bytes)
marshal_children zero i bytes = ok []
marshal_children (suc rounds) i bytes = do
  b ← bytes i
  rest ← marshal_children rounds (suc i) bytes
  ok (b ∷ rest)

module _ (T : TrieLibrary) where
  unfoldable pub marshal_typed : MptNodeType → Option Bytes → Result Bytes
  marshal_typed node_type data_bytes =
      or_fail encode_error
        (T.mpt_node.marshal (record { node_type = node_type; node_bytes = or_nil data_bytes }))

  -- A call of the method on nil panics.
  unfoldable pub marshal : Node → Result Bytes
  unfolding marshal_typed marshal_children child_bytes
  marshal empty = panic
  marshal (value_node v) = ok v
  marshal (hash_node h) = ok h
  marshal (short_node key child flags) = do
    value ← marshal child
    marshal_typed short_type
        (T.mpt_short_node.marshal (record { short_key = key; short_value = value }))
  marshal (full_node children flags) = do
    nodes ←
        marshal_children total_child_node 0 (λ i. child_bytes (children i) (marshal (children i)))
    marshal_typed full_type (T.mpt_full_node.marshal nodes)

-- An error leaves no bytes.
unfoldable pub bytes_or_nil : Result Bytes → Result Bytes
bytes_or_nil (ok b) = ok b
bytes_or_nil (fail e) = ok []
bytes_or_nil panic = panic

module _ (T : TrieLibrary) where
  unfoldable pub node_to_bytes : Node → Result Bytes
  unfolding marshal bytes_or_nil
  node_to_bytes n = bytes_or_nil (marshal T n)

-- ===== src/Trie/Node.antt =====
-- pkg/trie/node: the nodes of the trie, and the form in which they are read from the database.
use meta_co_sign.Base.{
  ℕ, suc, Bool, true, false, Option, none, some, List, [], ◌∷◌, ltb, ◌==◌, if◌then◌else◌, replicate,
}
use meta_co_sign.Bytes.{Bytes, bytes_eq}
use meta_co_sign.Result.{Result, ok, panic, ◌>>=◌}
use meta_co_sign.Store.{Codec}
use meta_co_sign.Trie.Nibbles.{has_term, compact_to_hex}

abbrev pub total_child_node : ℕ
total_child_node = 17

-- a nil hash is the empty one
pub record NodeFlag : Type 0 where
  pub hash : Bytes
  pub dirty : Bool

-- A nil node is `empty`. The children of a full node stand at 0, …, 16; the function says nothing
-- of use at other numbers.
pub data Node : Type 0 where
  empty : Node
  value_node hash_node : Bytes → Node
  short_node : Bytes → Node → NodeFlag → Node
  full_node : (ℕ → Node) → NodeFlag → Node

unfoldable pub new_flag : NodeFlag
new_flag = record { hash = []; dirty = true }

-- what a full node has in the place of its children after `n.Children[i] = c` on a copy
abbrev pub set_child : (ℕ → Node) → ℕ → Node → ℕ → Node
set_child children i c j = if i == j then c else children j

-- `Cache`: only a short and a full node carry a flag. The callers have no nil node.
unfoldable pub cache : Node → Bytes × Bool
cache (short_node key child flags) = (flags.hash, flags.dirty)
cache (full_node children flags) = (flags.hash, flags.dirty)
cache empty = ([], true)
cache (value_node v) = ([], true)
cache (hash_node h) = ([], true)

-- the messages of pkg/proto
pub data MptNodeType : Type 0 where
  full_type short_type other_type : MptNodeType

pub record MptNode : Type 0 where
  pub node_type : MptNodeType
  pub node_bytes : Bytes

pub record MptShortNode : Type 0 where
  pub short_key : Bytes
  pub short_value : Bytes

-- What the trie takes from outside: the protobuf encodings, `crypto.Keccak256`, and
-- `common.BytesToHash` followed by `Bytes`.
pub record TrieLibrary : Type 0 where
  pub mpt_node : Codec MptNode
  pub mpt_short_node : Codec MptShortNode
  pub mpt_full_node : Codec (List Bytes)
  pub keccak256 : Bytes → Bytes
  pub bytes_to_hash : Bytes → Bytes

module _ (T : TrieLibrary) where
  -- One round of the loop over the children that were read: a zero hash is skipped, and one past
  -- the last child is out of range.
  unfoldable pub unmarshal_child : ℕ → Bytes → (ℕ → Node) → Result (ℕ → Node)
  unmarshal_child i v children =
      if bytes_eq (T.bytes_to_hash v) (replicate 32 0)
      then ok children
      else if ltb i total_child_node
      then ok (set_child children i (hash_node v))
      else panic

  unfoldable pub unmarshal_children : ℕ → List Bytes → (ℕ → Node) → Result (ℕ → Node)
  unfolding unmarshal_child
  unmarshal_children i [] children = ok children
  unmarshal_children i (v ∷ vs) children =
      unmarshal_child i v children >>= λ next. unmarshal_children (suc i) vs next

  unfoldable pub unmarshal_full : Bytes → Option (List Bytes) → Bytes → Result Node
  unfolding unmarshal_children
  unmarshal_full hash none buf = ok (hash_node buf)
  unmarshal_full hash (some nodes) buf = do
    children ← unmarshal_children 0 nodes (λ i. empty)
    ok (full_node children (record { hash = hash; dirty = false }))

  unfoldable pub short_value_node : Bytes → Bytes → Node
  unfolding has_term
  short_value_node key v = if has_term key then value_node v else hash_node v

  unfoldable pub unmarshal_short : Bytes → Option MptShortNode → Bytes → Node
  unfolding short_value_node compact_to_hex
  unmarshal_short hash none buf = hash_node buf
  unmarshal_short hash (some m) buf =
      short_node (compact_to_hex m.short_key)
        (short_value_node (compact_to_hex m.short_key) m.short_value)
        (record { hash = hash; dirty = false })

  unfoldable pub decode_parts : Bytes → MptNodeType → Bytes → Result Node
  unfolding unmarshal_full unmarshal_short
  decode_parts hash full_type bytes = unmarshal_full hash (T.mpt_full_node.unmarshal bytes) bytes
  decode_parts hash short_type bytes =
      ok (unmarshal_short hash (T.mpt_short_node.unmarshal bytes) bytes)
  decode_parts hash other_type bytes = ok empty

  -- What cannot be parsed is taken for a hash.
  unfoldable pub decode_message : Bytes → Option MptNode → Bytes → Result Node
  unfolding decode_parts
  decode_message hash none buf = ok (hash_node buf)
  decode_message hash (some m) buf = decode_parts hash m.node_type m.node_bytes

  unfoldable pub decode_node : Bytes → Bytes → Result Node
  unfolding decode_message
  decode_node hash buf = decode_message hash (T.mpt_node.unmarshal buf) buf

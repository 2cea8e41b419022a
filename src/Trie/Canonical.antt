-- ===== src/Trie/Canonical.antt =====
-- The form of a trie whose keys have all the same length: no short node is over a short node or over
-- nothing, and a full node has at least two children.
pub mod Seals
pub mod Growth
pub mod Cached
pub mod Compact
pub mod Commit
pub mod Decode
pub mod Deletion
pub mod Depth
pub mod Served
pub mod Hash
pub mod Branch
pub mod Insertion
pub mod Reduction
pub mod Reopen
pub mod Root
pub mod Sealed
pub mod Sessions
pub mod Shrinking
pub mod Updates
use meta_co_sign.Base.{
  ℕ, zero, suc, ◌+◌, ◌<◌, ◌≡◌, ◌≢◌, ◌⊎◌, inl, inr, Bool, true, false, some, List, [], ◌∷◌, ◌==◌,
  length, replicate,
}
use meta_co_sign.Bytes.{Bytes, bytes_eq}
use meta_co_sign.Result.{ok}
use meta_co_sign.Store.{Read, found}
use meta_co_sign.Trie.Node.{
  Node, empty, value_node, hash_node, short_node, full_node, NodeFlag, new_flag, TrieLibrary,
  decode_node, MptNode, MptShortNode,
}
use meta_co_sign.Trie.Paths.{Ends}

-- what kind of node it is, or is loaded as
pub data Shape : Type 0 where
  nil leaf short full : Shape

-- what may stand below a short node
abbrev pub below : Shape → Bool
below nil = false
below leaf = true
below short = false
below full = true

-- what is stored on its own
abbrev pub stored_alone : Shape → Bool
stored_alone nil = false
stored_alone leaf = false
stored_alone short = true
stored_alone full = true

abbrev pub occupied : Shape → Bool
occupied nil = false
occupied leaf = true
occupied short = true
occupied full = true

-- two children of the sixteen that are there
pub record Two (shape : ℕ → Shape) : Type 0 where
  pub first : ℕ
  pub second : ℕ
  pub first_small : first < 16
  pub second_small : second < 16
  pub apart : first ≢ second
  pub first_there : occupied (shape first) ≡ true
  pub second_there : occupied (shape second) ≡ true

-- a hash that is neither nil nor taken for a missing child
pub record IsHash (T : TrieLibrary) (h : Bytes) : Type 0 where
  pub first_byte : ℕ
  pub rest : Bytes
  pub bytes : h ≡ first_byte ∷ rest
  pub normal : T.bytes_to_hash h ≡ h
  pub not_zero : bytes_eq h (replicate 32 0) ≡ false

-- not a hash
abbrev pub is_direct : Node → Bool
is_direct empty = true
is_direct (value_node v) = true
is_direct (hash_node h) = false
is_direct (short_node key child flags) = true
is_direct (full_node children flags) = true

-- The node has a hash, and so have all below it, down to the nodes that are as they were loaded.
abbrev pub Hashed : TrieLibrary → Node → Type 0
Hashed T empty = Unit {0}
Hashed T (value_node v) = Unit {0}
Hashed T (hash_node h) = Unit {0}
Hashed T (short_node key child flags) =
    IsHash T flags.hash × ((flags.dirty ≡ false) ⊎ Hashed T child)
Hashed T (full_node children flags) =
    IsHash T flags.hash × ((flags.dirty ≡ false) ⊎ ((i : ℕ) → i < 16 → Hashed T (children i)))

module _ (T : TrieLibrary) (get_blob : Bytes → Read) where
  -- The database has the node under this hash.
  pub record Stored (h : Bytes) (n : Node) : Type 0 where
    pub is_hash : IsHash T h
    pub head : ℕ
    pub tail : Bytes
    pub there : get_blob (T.bytes_to_hash h) ≡ found (head ∷ tail)
    pub decodes : decode_node T h (head ∷ tail) ≡ ok n
    pub direct : is_direct n ≡ true

  -- A node was made by an update, or is as it was loaded, or was hashed.
  abbrev pub Flagged : Node → NodeFlag → Type 0
  Flagged n flags =
      (flags ≡ new_flag)
      ⊎ (((flags.dirty ≡ false) × Stored flags.hash n) ⊎ ((flags.dirty ≡ true) × Hashed T n))

  -- `Canonical d s n`: the paths behind `n` are of length `d`.
  pub data Canonical : ℕ → Shape → Node → Type 0 where
    nil_at : {d : ℕ} → Canonical d nil empty
    leaf_at : {v : Bytes} → Canonical 0 leaf (value_node v)
    short_at :
        {d m : ℕ} {s : Shape} {x : ℕ} {key : Bytes} {child : Node} {flags : NodeFlag}
        → below s ≡ true
        → Ends false (x ∷ key) (d == 0)
        → length (x ∷ key) + d ≡ m
        → Canonical d s child
        → Flagged (short_node (x ∷ key) child flags) flags
        → Canonical m short (short_node (x ∷ key) child flags)
    full_at :
        {d m : ℕ} {children : ℕ → Node} {flags : NodeFlag} (shape : ℕ → Shape)
        → suc (suc d) ≡ m
        → ((i : ℕ) → i < 16 → Canonical (suc d) (shape i) (children i))
        → children 16 ≡ empty
        → Two shape
        → Flagged (full_node children flags) flags
        → Canonical m full (full_node children flags)
    hash_at :
        {d : ℕ} {s : Shape} {h : Bytes} {n : Node}
        → stored_alone s ≡ true
        → Stored h n
        → Canonical d s n
        → Canonical d s (hash_node h)

-- What the trie relies on of the code outside: a Keccak hash has 32 bytes and is not zero,
-- `BytesToHash` keeps 32 bytes as they are, and a message with contents is encoded in some bytes.
pub record Laws (T : TrieLibrary) : Type 0 where
  pub keccak_is_hash : (b : Bytes) → IsHash T (T.keccak256 b)
  pub hash_of_32 : (b : Bytes) → length b ≡ 32 → T.bytes_to_hash b ≡ b
  pub marshals_node :
      (x : MptNode) (b : ℕ) (bs : Bytes)
      → x.node_bytes ≡ b ∷ bs
      → (y : ℕ) × (ys : Bytes) × (T.mpt_node.marshal x ≡ some (y ∷ ys))
  pub marshals_short :
      (x : MptShortNode) (b : ℕ) (bs : Bytes)
      → x.short_key ≡ b ∷ bs
      → (y : ℕ) × (ys : Bytes) × (T.mpt_short_node.marshal x ≡ some (y ∷ ys))
  pub marshals_full :
      (x : Bytes) (xs : List Bytes)
      → (y : ℕ) × (ys : Bytes) × (T.mpt_full_node.marshal (x ∷ xs) ≡ some (y ∷ ys))

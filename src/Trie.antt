-- ===== src/Trie.antt =====
-- The Merkle Patricia trie of pkg/trie: its key encodings, nodes and tracer, and the operations of
-- pkg/trie/trie.go over a database of hashed nodes.
pub mod Nibbles
pub mod Node
pub mod Tracer
pub mod Operations
pub mod Deletion
pub mod Paths
pub mod Denotes
pub mod Map
pub mod Walks
pub mod Marshal
pub mod Hasher
pub mod NodeSet
pub mod Committer
pub mod Canonical

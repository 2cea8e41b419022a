-- ===== src/Trie/Map.antt =====
-- `MerklePatriciaTrie` of pkg/trie/trie.go: `New`, `Copy`, `Get` and `Update`. The reader is the
-- database, which the other operations of a trie only read.
pub mod Errors
pub mod Fuel
pub mod Keys
pub mod Refinement
pub mod Runs
use meta_co_sign.Base.{
  ℕ, Bool, true, false, not, Option, none, some, [], ◌∷◌, ◌==◌, ◌||◌, if◌then◌else◌, length,
  replicate,
}
use meta_co_sign.Bytes.{Bytes, bytes_eq}
use meta_co_sign.Store.{Read}
use meta_co_sign.Trie.Deletion.{delete}
use meta_co_sign.Trie.Nibbles.{keybytes_to_hex}
use meta_co_sign.Trie.Node.{Node, empty, value_node, TrieLibrary}
use meta_co_sign.Trie.Operations.{get, insert, resolve_and_track, Got}
use meta_co_sign.Trie.Operations.Steps.{Reply, done, missing_node, crashed, unfinished}
use meta_co_sign.Trie.Tracer.{Tracer, new_tracer}

pub record MerklePatriciaTrie : Type 0 where
  pub root : Node
  pub committed : Bool
  pub tracer : Tracer
  pub is_hash : Bool

-- what a method returns; `no_fuel` stands for a run that is not over
pub data Outcome (A : Type 0) : Type 0 where
  returned : A → Outcome A
  err_committed err_missing_node panicked no_fuel : Outcome A

-- `EmptyRootHash`
abbrev pub empty_root_hash : Bytes
empty_root_hash =
    86 ∷ 232 ∷ 31 ∷ 23 ∷ 27 ∷ 204 ∷ 85 ∷ 166 ∷ 255 ∷ 131 ∷ 69 ∷ 230 ∷ 146 ∷ 192 ∷ 248 ∷ 110 ∷ 91
    ∷ 72 ∷ 224 ∷ 27 ∷ 153 ∷ 108 ∷ 173 ∷ 192 ∷ 1 ∷ 98 ∷ 47 ∷ 181 ∷ 227 ∷ 99 ∷ 180 ∷ 33 ∷ []

-- An error leaves the root as it was; what was read on the way stays in the tracer.
unfoldable pub with_root :
    MerklePatriciaTrie → Reply (Bool × Node) × Tracer → Outcome (Unit {0}) × MerklePatriciaTrie
with_root t (done (dirty, n), tracer) = (returned tt, record t { root = n; tracer = tracer })
with_root t (missing_node, tracer) = (err_missing_node, record t { tracer = tracer })
with_root t (crashed, tracer) = (panicked, record t { tracer = tracer })
with_root t (unfinished, tracer) = (no_fuel, record t { tracer = tracer })

unfoldable pub value_got :
    MerklePatriciaTrie → Reply Got × Tracer → Outcome (Option Bytes) × MerklePatriciaTrie
value_got t (done (value, new_node, did_resolve), tracer) =
    (returned value, record t { tracer = tracer })
value_got t (missing_node, tracer) = (err_missing_node, record t { tracer = tracer })
value_got t (crashed, tracer) = (panicked, record t { tracer = tracer })
value_got t (unfinished, tracer) = (no_fuel, record t { tracer = tracer })

unfoldable pub copy_trie : MerklePatriciaTrie → MerklePatriciaTrie
copy_trie t = record t { tracer = new_tracer; committed = false }

unfoldable pub empty_trie : Bool → MerklePatriciaTrie
unfolding new_tracer
empty_trie is_hash = record {
  root = empty;
  committed = false;
  tracer = new_tracer;
  is_hash = is_hash;
}

unfoldable pub trie_at : Bool → Reply Node × Tracer → Outcome MerklePatriciaTrie
trie_at is_hash (done n, tracer) =
    returned (record { root = n; committed = false; tracer = tracer; is_hash = is_hash })
trie_at is_hash (missing_node, tracer) = err_missing_node
trie_at is_hash (crashed, tracer) = panicked
trie_at is_hash (unfinished, tracer) = no_fuel

module _ (T : TrieLibrary) where
  unfoldable pub hash_key : Bool → Bytes → Bytes
  hash_key is_hash key = if (length key == 32) || not is_hash then key else T.keccak256 key

module _ (T : TrieLibrary) (get_blob : Bytes → Read) where
  unfoldable pub new_trie : Bytes → Bool → Outcome MerklePatriciaTrie
  unfolding empty_trie trie_at
  new_trie root is_hash =
      if bytes_eq root (replicate 32 0) || bytes_eq root empty_root_hash
      then returned (empty_trie is_hash)
      else trie_at is_hash (resolve_and_track T get_blob root [] new_tracer)

  unfoldable pub get_value :
      ℕ → Bytes → MerklePatriciaTrie → Outcome (Option Bytes) × MerklePatriciaTrie
  unfolding value_got
  get_value fuel key t =
      if t.committed
      then (err_committed, t)
      else value_got t
          (get T get_blob fuel t.root [] (keybytes_to_hex (hash_key T t.is_hash key)) t.tracer)

  -- An empty value deletes the key.
  unfoldable pub update_hashed :
      ℕ → Bytes → Bytes → MerklePatriciaTrie → Outcome (Unit {0}) × MerklePatriciaTrie
  unfolding with_root
  update_hashed fuel key [] t =
      with_root t (delete T get_blob fuel t.root [] (keybytes_to_hex key) t.tracer)
  update_hashed fuel key (v ∷ vs) t =
      with_root t
        (insert T get_blob fuel t.root [] (keybytes_to_hex key) (value_node (v ∷ vs)) t.tracer)

  unfoldable pub update :
      ℕ → Bytes → Bytes → MerklePatriciaTrie → Outcome (Unit {0}) × MerklePatriciaTrie
  unfolding update_hashed
  update fuel key value t =
      if t.committed
      then (err_committed, t)
      else update_hashed fuel (hash_key T t.is_hash key) value t

-- ===== src/Trie/Walks.antt =====
-- The walks of pkg/trie/trie.go over all values of a trie: `countRecursive`, `getAll` and
-- `getKeyValue` take the same way and differ in what they do at a value, which is the argument
-- `visit` here. What they fill behind a pointer is passed along.
pub mod Entries
pub mod Listing
pub mod Contents
pub mod Names
use meta_co_sign.Base.{
  ℕ, zero, suc, Bool, true, false, Option, none, some, [], ◌∷◌, ◌++◌, if◌then◌else◌,
}
use meta_co_sign.Bytes.{Bytes}
use meta_co_sign.Bytes.Word.{int_suc}
use meta_co_sign.Store.{Read}
use meta_co_sign.Trie.Map.{
  MerklePatriciaTrie, Outcome, returned, err_committed, err_missing_node, panicked, no_fuel,
}
use meta_co_sign.Trie.Nibbles.{keybytes_to_hex}
use meta_co_sign.Trie.Node.{
  Node, empty, value_node, hash_node, short_node, full_node, total_child_node, TrieLibrary,
}
use meta_co_sign.Trie.Operations.{resolve_and_track}
use meta_co_sign.Trie.Operations.Steps.{
  Reply, done, missing_node, crashed, unfinished, Access, return, ◌>>=◌,
}
use meta_co_sign.Trie.Tracer.{Tracer, store}

-- The body of the loop over the children: a nil child is passed over.
unfoldable pub walk_child :
    {S : Type 0} → (Node → Bytes → S → Access S) → ℕ → Node → Bytes → S → Access S
walk_child step i empty prefix s = return s
walk_child step i (value_node v) prefix s = step (value_node v) (prefix ++ i ∷ []) s
walk_child step i (hash_node h) prefix s = step (hash_node h) (prefix ++ i ∷ []) s
walk_child step i (short_node key child flags) prefix s =
    step (short_node key child flags) (prefix ++ i ∷ []) s
walk_child step i (full_node children flags) prefix s =
    step (full_node children flags) (prefix ++ i ∷ []) s

unfoldable pub walk_children :
    {S : Type 0} → (Node → Bytes → S → Access S) → ℕ → ℕ → (ℕ → Node) → Bytes → S → Access S
unfolding walk_child
walk_children step zero i children prefix s = return s
walk_children step (suc rounds) i children prefix s =
    walk_child step i (children i) prefix s >>= λ next.
    walk_children step rounds (suc i) children prefix next

module _ (T : TrieLibrary) (get_blob : Bytes → Read) where
  unfoldable pub walk : {S : Type 0} → (Bytes → Bytes → S → S) → ℕ → Node → Bytes → S → Access S
  unfolding walk_children resolve_and_track
  walk visit zero n prefix s = λ t. (unfinished, t)
  walk visit (suc fuel) empty prefix s = return s
  walk visit (suc fuel) (value_node v) prefix s = return (visit prefix v s)
  walk visit (suc fuel) (short_node key child flags) prefix s =
      walk visit fuel child (prefix ++ key) s
  walk visit (suc fuel) (full_node children flags) prefix s =
      walk_children (λ n p r. walk visit fuel n p r) total_child_node 0 children prefix s
  walk visit (suc fuel) (hash_node h) prefix s =
      resolve_and_track T get_blob h prefix >>= λ child. walk visit fuel child prefix s

-- `*count++`, where the `int` is given by its bits
unfoldable pub count_value : Bytes → Bytes → ℕ → ℕ
count_value prefix v count = int_suc count

-- a Go map from strings
abbrev pub Data : Type 0
Data = Bytes → Option Bytes

unfoldable pub walked :
    {S : Type 0} → MerklePatriciaTrie → Reply S × Tracer → Outcome S × MerklePatriciaTrie
walked t (done s, tracer) = (returned s, record t { tracer = tracer })
walked t (missing_node, tracer) = (err_missing_node, record t { tracer = tracer })
walked t (crashed, tracer) = (panicked, record t { tracer = tracer })
walked t (unfinished, tracer) = (no_fuel, record t { tracer = tracer })

module _ (T : TrieLibrary) (hex_encode : Bytes → Bytes) where
  -- the name of a value: its path and the hash of its path, each of whose bytes is two nibbles
  unfoldable pub entry_name : Bytes → Bytes
  unfolding keybytes_to_hex
  entry_name prefix = hex_encode (prefix ++ keybytes_to_hex (T.keccak256 prefix))

  unfoldable pub keep_value : Bytes → Bytes → Data → Data
  unfolding entry_name
  keep_value prefix v data_map = store (entry_name prefix) (some v) data_map

module _ (T : TrieLibrary) (get_blob : Bytes → Read) where
  unfoldable pub count_recursive : ℕ → Node → Bytes → ℕ → Access ℕ
  unfolding walk count_value
  count_recursive fuel n prefix total = walk T get_blob count_value fuel n prefix total

  unfoldable pub count : ℕ → MerklePatriciaTrie → Outcome ℕ × MerklePatriciaTrie
  unfolding count_recursive walked
  count fuel t =
      if t.committed
      then (err_committed, t)
      else walked t (count_recursive fuel t.root [] 0 t.tracer)

  module _ (hex_encode : Bytes → Bytes) where
    unfoldable pub get_all_values : ℕ → Node → Bytes → Data → Access Data
    unfolding walk keep_value
    get_all_values fuel n prefix data_map =
        walk T get_blob (keep_value T hex_encode) fuel n prefix data_map

    unfoldable pub get_all : ℕ → MerklePatriciaTrie → Outcome Data × MerklePatriciaTrie
    unfolding get_all_values walked
    get_all fuel t =
        if t.committed
        then (err_committed, t)
        else walked t (get_all_values fuel t.root [] (λ name. none) t.tracer)

    unfoldable pub get_key_values : ℕ → Node → Bytes → Data → Access Data
    unfolding walk keep_value
    get_key_values fuel n prefix data_map =
        walk T get_blob (keep_value T hex_encode) fuel n prefix data_map

    unfoldable pub get_key_value : ℕ → MerklePatriciaTrie → Outcome Data × MerklePatriciaTrie
    unfolding get_key_values walked
    get_key_value fuel t =
        if t.committed
        then (err_committed, t)
        else walked t (get_key_values fuel t.root [] (λ name. none) t.tracer)

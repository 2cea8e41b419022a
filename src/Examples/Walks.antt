-- ===== src/Examples/Walks.antt =====
-- The walks over a trie with one value.
use meta_co_sign.Base.{ℕ, ◌≤◌, ◌≡◌, false, some, length, List}
use meta_co_sign.Bytes.{Bytes}
use meta_co_sign.Bytes.Word.{u64}
use meta_co_sign.Examples.Tries.{library, blobs, leaf_trie, leaf_map, leaf_trie-Represents}
use meta_co_sign.Trie.Map.{returned}
use meta_co_sign.Trie.Map.Keys.{IsBytes}
use meta_co_sign.Trie.Map.Refinement.{Represents}
use meta_co_sign.Trie.Nibbles.{keybytes_to_hex}
use meta_co_sign.Trie.Walks.{Data, entry_name, count, get_all, get_key_value}
use meta_co_sign.Trie.Walks.Contents.{Keys, count-Represents}
use meta_co_sign.Trie.Walks.Entries.{Entry}
use meta_co_sign.Trie.Walks.Names.{get_all-Represents}

count-Represents_example :
    (keys : List Entry) × Keys leaf_map keys
    × (enough : ℕ) × ((fuel : ℕ)
        → enough ≤ fuel
        → ((count library blobs fuel leaf_trie).0 ≡ returned (u64 (length keys)))
          × Represents library blobs false (count library blobs fuel leaf_trie).1 leaf_map)
count-Represents_example =
    count-Represents library blobs false leaf_trie leaf_map leaf_trie-Represents

get_all-Represents_example :
    (all_data : Data) × ((k : Bytes)
      → IsBytes k
      → all_data (entry_name library (λ b. b) (keybytes_to_hex k)) ≡ leaf_map k)
    × ((name v : Bytes)
        → all_data name ≡ some v
        → (k : Bytes) × IsBytes k × (name ≡ entry_name library (λ b. b) (keybytes_to_hex k)))
    × (enough : ℕ) × ((fuel : ℕ)
        → enough ≤ fuel
        → ((get_all library blobs (λ b. b) fuel leaf_trie).0 ≡ returned all_data)
          × (get_key_value library blobs (λ b. b) fuel leaf_trie
              ≡ get_all library blobs (λ b. b) fuel leaf_trie)
          × Represents library blobs false
              (get_all library blobs (λ b. b) fuel leaf_trie).1
              leaf_map)
get_all-Represents_example =
    get_all-Represents library (λ b. b) (λ a b e. e) blobs false leaf_trie leaf_map
      leaf_trie-Represents

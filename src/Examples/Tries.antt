-- ===== src/Examples/Tries.antt =====
-- The theorems on the trie at concrete inputs: small encoders for the messages, and a database that
-- holds one short node under the hash 7, 7, ….
use meta_co_sign.Base.{
  inr, sym, Bool-cases, inl, ℕ, zero, suc, ◌≤◌, ◌≡◌, refl, ap, subst, true, false, Option, none,
  some, List, [], if◌then◌else◌, ◌∷◌, ◌++◌, arith, length, take, drop, replicate,
}
use meta_co_sign.Bytes.{Bytes, bytes_eq, bytes_eq_iff}
use meta_co_sign.Examples.Memory.{pack, take-pack, drop-pack}
use meta_co_sign.Examples.Messages.{parts, then_parts, parts-pack, some_injective}
use meta_co_sign.Store.{Read, found, not_found}
use meta_co_sign.Trie.Denotes.{Content, put, at_value, at_short, at_hash}
use meta_co_sign.Trie.Map.{MerklePatriciaTrie, returned, empty_trie, hash_key, get_value, update}
use meta_co_sign.Trie.Map.Errors.{with_node, update-missing}
use meta_co_sign.Trie.Map.Keys.{bytes_eq-keybytes_to_hex}
use meta_co_sign.Trie.Map.Refinement.{Represents, written, get_value-Represents, update-Represents}
use meta_co_sign.Trie.Map.Runs.{Write, Runs, after_writes, run-empty_trie}
use meta_co_sign.Trie.Nibbles.{keybytes_to_hex}
use meta_co_sign.Trie.Node.{
  hash_node, short_node, value_node, MptNodeType, full_type, short_type, other_type, MptNode,
  MptShortNode, TrieLibrary, decode_node,
}
use meta_co_sign.Trie.Paths.{bytes_eq_of_strip}

abbrev pub type_number : MptNodeType → ℕ
type_number full_type = 0
type_number short_type = 1
type_number other_type = 2

abbrev pub type_of_number : ℕ → MptNodeType
type_of_number zero = full_type
type_of_number (suc zero) = short_type
type_of_number (suc (suc n)) = other_type

pub type_of_number-type_number : (t : MptNodeType) → type_of_number (type_number t) ≡ t
type_of_number-type_number full_type = refl
type_of_number-type_number short_type = refl
type_of_number-type_number other_type = refl

abbrev pub write_node : MptNode → Bytes
write_node x = pack [] (type_number x.node_type) x.node_bytes

abbrev pub read_node : Bytes → Option MptNode
read_node b =
    then_parts (parts b) (λ a t r. some (record { node_type = type_of_number t; node_bytes = r }))

pub read_node-write_node :
    (x : MptNode) (b : Bytes) → some (write_node x) ≡ some b → read_node b ≡ some x
read_node-write_node x b e =
    subst (λ c. read_node c ≡ some x) (some_injective e)
      (rw
        (
          parts-pack [] (type_number x.node_type) x.node_bytes,
          type_of_number-type_number x.node_type,
        )
        refl)

abbrev pub read_short : Bytes → Option MptShortNode
read_short b = then_parts (parts b) (λ a t r. some (record { short_key = a; short_value = r }))

pub read_short-pack :
    (x : MptShortNode) (b : Bytes)
    → some (pack x.short_key 0 x.short_value) ≡ some b
    → read_short b ≡ some x
read_short-pack x b e =
    subst (λ c. read_short c ≡ some x) (some_injective e)
      (rw (parts-pack x.short_key 0 x.short_value) refl)

-- each child behind its length, and the number of children before all
abbrev pub write_children : List Bytes → Bytes
write_children [] = []
write_children (x ∷ xs) = length x ∷ x ++ write_children xs

pub read_children : ℕ → Bytes → List Bytes
read_children zero b = []
read_children (suc n) [] = []
read_children (suc n) (l ∷ b) = take l b ∷ read_children n (drop l b)

pub read_children-write_children :
    (xs : List Bytes) → read_children (length xs) (write_children xs) ≡ xs
unfolding read_children
read_children-write_children [] = refl
read_children-write_children (x ∷ xs) =
    rw
      (
        take-pack x (write_children xs),
        drop-pack x (write_children xs),
        read_children-write_children xs,
      )
      refl

abbrev pub read_full : Bytes → Option (List Bytes)
unfolding read_children
read_full [] = none
read_full (n ∷ b) = some (read_children n b)

pub read_full-pack :
    (x : List Bytes) (b : Bytes)
    → some (length x ∷ write_children x) ≡ some b
    → read_full b ≡ some x
unfolding read_full
read_full-pack x b e =
    subst (λ c. read_full c ≡ some x) (some_injective e) (ap some (read_children-write_children x))

abbrev pub library : TrieLibrary
library = record {
  mpt_node = record {
    marshal = λ x. some (write_node x);
    unmarshal = read_node;
    unmarshal-marshal = read_node-write_node;
  };
  mpt_short_node = record {
    marshal = λ x. some (pack x.short_key 0 x.short_value);
    unmarshal = read_short;
    unmarshal-marshal = read_short-pack;
  };
  mpt_full_node = record {
    marshal = λ x. some (length x ∷ write_children x);
    unmarshal = read_full;
    unmarshal-marshal = read_full-pack;
  };
  keccak256 = λ b. take 32 (b ++ replicate 32 0);
  bytes_to_hash = λ h. h;
}

-- a database that holds one short node, for the value 9, 9 at the key 18, 52
abbrev pub leaf : Bytes
leaf = 0 ∷ 1 ∷ 3 ∷ 0 ∷ 32 ∷ 18 ∷ 52 ∷ 9 ∷ 9 ∷ []

abbrev pub root_hash : Bytes
root_hash = replicate 32 7

pub blobs : Bytes → Read
blobs k = if bytes_eq root_hash k then found leaf else not_found

abbrev pub leaf_trie : MerklePatriciaTrie
leaf_trie = record {
  root = hash_node root_hash;
  committed = false;
  tracer = record {
    inserts = λ p. false;
    deletes = λ p. false;
    old_keys = [];
    access_list = λ p. none;
  };
  is_hash = false;
}

abbrev pub leaf_map : Content
leaf_map = put (18 ∷ 52 ∷ []) (some (9 ∷ 9 ∷ [])) (λ k. none)

pub leaf_trie-Represents : Represents library blobs false leaf_trie leaf_map
unfolding decode_node keybytes_to_hex blobs bytes_eq parts
leaf_trie-Represents = record {
  open_to_use = refl;
  hashing = refl;
  content = put (1 ∷ 2 ∷ 3 ∷ 4 ∷ 16 ∷ []) (some (9 ∷ 9 ∷ [])) (λ k. none);
  denotes =
      at_hash {h = root_hash}
        {n = short_node (1 ∷ 2 ∷ 3 ∷ 4 ∷ 16 ∷ []) (value_node (9 ∷ 9 ∷ []))
          (record { hash = root_hash; dirty = false })}
        0 (1 ∷ 3 ∷ 0 ∷ 32 ∷ 18 ∷ 52 ∷ 9 ∷ 9 ∷ []) refl refl
        (at_short {c = true} {f = put (1 ∷ 2 ∷ 3 ∷ 4 ∷ 16 ∷ []) (some (9 ∷ 9 ∷ [])) (λ k. none)}
          (omega arith, (omega arith, (omega arith, (omega arith, (omega arith, refl)))))
          (at_value refl)
          (λ k h miss. rw (bytes_eq_of_strip (1 ∷ 2 ∷ 3 ∷ 4 ∷ 16 ∷ []) k miss) refl));
  agrees = λ k h. rw (bytes_eq-keybytes_to_hex (18 ∷ 52 ∷ []) k) refl;
  only_keys = λ p v path e. elim (Bool-cases (bytes_eq (1 ∷ 2 ∷ 3 ∷ 4 ∷ 16 ∷ []) p)) [
    | inl same ↦ (
      18 ∷ 52 ∷ [],
      (omega arith, (omega arith, tt)),
      sym ((bytes_eq_iff (1 ∷ 2 ∷ 3 ∷ 4 ∷ 16 ∷ []) p).0 same),
    )
    | inr differ ↦ let clash : none ≡ some v = (rw differ at e) in cc
  ];
}

get_value-Represents_example :
    (enough : ℕ) × ((fuel : ℕ)
      → enough ≤ fuel
      → ((get_value library blobs fuel (18 ∷ 52 ∷ []) leaf_trie).0
          ≡ returned (leaf_map (hash_key library false (18 ∷ 52 ∷ []))))
        × Represents library blobs false
            (get_value library blobs fuel (18 ∷ 52 ∷ []) leaf_trie).1
            leaf_map)
unfolding hash_key
get_value-Represents_example =
    get_value-Represents library blobs false leaf_trie leaf_map leaf_trie-Represents (18 ∷ 52 ∷ [])
      (omega arith, (omega arith, tt))

update-Represents_example :
    (enough : ℕ) × ((fuel : ℕ)
      → enough ≤ fuel
      → ((update library blobs fuel (18 ∷ 60 ∷ []) (5 ∷ []) leaf_trie).0 ≡ returned tt)
        × Represents library blobs false
            (update library blobs fuel (18 ∷ 60 ∷ []) (5 ∷ []) leaf_trie).1
            (put (hash_key library false (18 ∷ 60 ∷ [])) (written (5 ∷ [])) leaf_map))
unfolding hash_key
update-Represents_example =
    update-Represents library blobs false leaf_trie leaf_map leaf_trie-Represents (18 ∷ 60 ∷ [])
      (5 ∷ []) (omega arith, (omega arith, tt))

-- three writes, of which the last takes the first back
abbrev pub three_writes : List Write
three_writes = (1 ∷ 2 ∷ [], 5 ∷ []) ∷ (1 ∷ 3 ∷ [], 6 ∷ []) ∷ (1 ∷ 2 ∷ [], []) ∷ []

run-empty_trie_example :
    (u : MerklePatriciaTrie) × Runs library blobs three_writes (empty_trie false) u
    × Represents library blobs false u (after_writes library false three_writes (λ k. none))
unfolding hash_key
run-empty_trie_example = run-empty_trie library blobs false three_writes (
  (omega arith, (omega arith, tt)),
  ((omega arith, (omega arith, tt)), ((omega arith, (omega arith, tt)), tt)),
)

update-missing_example :
    ((update library blobs 1
        (18 ∷ 52 ∷ [])
        (5 ∷ [])
        (with_node false leaf_trie.tracer (hash_node (8 ∷ [])))).0
      ≡ returned tt)
    × Represents library blobs false
        (update library blobs 1
          (18 ∷ 52 ∷ [])
          (5 ∷ [])
          (with_node false leaf_trie.tracer (hash_node (8 ∷ [])))).1
        (put (hash_key library false (18 ∷ 52 ∷ [])) (some (5 ∷ [])) (λ k. none))
unfolding hash_key blobs bytes_eq
update-missing_example =
    update-missing library blobs (8 ∷ []) (inl refl) false leaf_trie.tracer 0 5 (18 ∷ 52 ∷ []) []
      (omega arith, (omega arith, tt))

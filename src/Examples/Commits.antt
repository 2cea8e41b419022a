-- ===== src/Examples/Commits.antt =====
-- The theorems on the commit of a trie at concrete inputs: a hash that begins with 1, and a trie of
-- one short node that was just made, over an empty database.
use meta_co_sign.Base.{
  ◌≡◌, refl, sym, ap, subst, inl, inr, Bool-cases, true, false, Option, none, some, [], ◌∷◌, ◌++◌,
  arith, take, replicate, length, if◌then◌else◌,
}
use meta_co_sign.Bytes.{Bytes, bytes_eq, bytes_eq_iff}
use meta_co_sign.Examples.Tries.{three_writes, library, type_number, write_children}
use meta_co_sign.Result.{ok}
use meta_co_sign.Store.{Read, found, not_found}
use meta_co_sign.Trie.Canonical.{nil, nil_at, short, Canonical, short_at, leaf_at, Laws}
use meta_co_sign.Trie.Canonical.Reopen.{hash_trie-commit_trie, commit_trie-reopens}
use meta_co_sign.Trie.Canonical.Root.{Saved}
use meta_co_sign.Trie.Canonical.Updates.{InForm, run-InForm}
use meta_co_sign.Trie.Committer.{
  commit_trie, Committed, is_clean, commit_root, commit_copy, commit, store_node, add_deleted,
  note_leaf, commit_below,
}
use meta_co_sign.Trie.Denotes.{Content, put, at_short, at_value}
use meta_co_sign.Trie.Hasher.{
  hash_trie, hash_root, hash, as_hash, cached_or, hash_below, hash_short, node_hash,
}
use meta_co_sign.Trie.Map.{empty_trie, hash_key, MerklePatriciaTrie, returned, new_trie, copy_trie}
use meta_co_sign.Trie.Map.Runs.{Runs, after_writes, empty_trie-Represents}
use meta_co_sign.Trie.Map.Keys.{bytes_eq-keybytes_to_hex}
use meta_co_sign.Trie.Map.Refinement.{Represents}
use meta_co_sign.Trie.Marshal.{node_to_bytes, marshal, marshal_typed, bytes_or_nil}
use meta_co_sign.Trie.Nibbles.{keybytes_to_hex, hex_to_compact}
use meta_co_sign.Trie.Node.{short_node, value_node, new_flag, TrieLibrary, cache}
use meta_co_sign.Trie.NodeSet.{NodeWrapper, new_node_set, add_node, counted, is_deleted}
use meta_co_sign.Trie.Paths.{bytes_eq_of_strip}

abbrev pub hashing_library : TrieLibrary
hashing_library = record library { keccak256 = λ b. take 32 (1 ∷ b ++ replicate 32 0) }

pub hashing_library-Laws : Laws hashing_library
unfolding bytes_eq
hashing_library-Laws = record {
  keccak_is_hash = λ b. record {
    first_byte = 1;
    rest = take 31 (b ++ replicate 32 0);
    bytes = refl;
    normal = refl;
    not_zero = refl;
  };
  hash_of_32 = λ b e. refl;
  marshals_node = λ x b bs e. (0, type_number x.node_type ∷ x.node_bytes, refl);
  marshals_short = λ x b bs e. (length x.short_key, 0 ∷ x.short_key ++ x.short_value, refl);
  marshals_full = λ x xs. (length (x ∷ xs), write_children (x ∷ xs), refl);
}

-- the value 5 at the key 1
abbrev fresh_trie : MerklePatriciaTrie
fresh_trie = record {
  root = short_node (0 ∷ 1 ∷ 16 ∷ []) (value_node (5 ∷ [])) (record { hash = []; dirty = true });
  committed = false;
  tracer = record {
    inserts = λ p. false;
    deletes = λ p. false;
    old_keys = [];
    access_list = λ p. none;
  };
  is_hash = false;
}

abbrev fresh_map : Content
fresh_map = put (1 ∷ []) (some (5 ∷ [])) (λ k. none)

abbrev pub no_blobs : Bytes → Read
no_blobs k = not_found

fresh_trie-Represents : Represents hashing_library no_blobs false fresh_trie fresh_map
unfolding keybytes_to_hex bytes_eq
fresh_trie-Represents = record {
  open_to_use = refl;
  hashing = refl;
  content = put (0 ∷ 1 ∷ 16 ∷ []) (some (5 ∷ [])) (λ k. none);
  denotes =
      at_short {c = true} {f = put (0 ∷ 1 ∷ 16 ∷ []) (some (5 ∷ [])) (λ k. none)}
        (omega arith, (omega arith, (omega arith, refl))) (at_value refl)
        (λ k h miss. rw (bytes_eq_of_strip (0 ∷ 1 ∷ 16 ∷ []) k miss) refl);
  agrees = λ k h. rw (bytes_eq-keybytes_to_hex (1 ∷ []) k) refl;
  only_keys = λ p v path e. elim (Bool-cases (bytes_eq (0 ∷ 1 ∷ 16 ∷ []) p)) [
    | inl same ↦ (1 ∷ [], (omega arith, tt), sym ((bytes_eq_iff (0 ∷ 1 ∷ 16 ∷ []) p).0 same))
    | inr differ ↦ let clash : none ≡ some v = (rw differ at e) in cc
  ];
}

fresh_trie-Canonical : Canonical hashing_library no_blobs 3 short fresh_trie.root
unfolding new_flag
fresh_trie-Canonical =
    short_at {d = 0} refl (omega arith, (omega arith, (omega arith, refl))) refl leaf_at (inl refl)

abbrev pub blob : Bytes
blob = 0 ∷ 1 ∷ 2 ∷ 0 ∷ 32 ∷ 1 ∷ 5 ∷ []

abbrev pub blob_hash : Bytes
blob_hash = 1 ∷ blob ++ replicate 24 0

abbrev pub committed_fresh : Committed
committed_fresh = record {
  root_hash = blob_hash;
  node_set = some (record {
    leaves = [];
    nodes = λ q. if bytes_eq [] q then some (record { hash = blob_hash; blob = blob }) else none;
    updates = 1;
    deletes = 0;
  });
  old_keys = [];
}

commits_fresh : (commit_trie hashing_library (λ b. b) [] false fresh_trie).0 ≡ ok committed_fresh
unfolding commit_trie commit_root commit_copy hash_trie hash_root hash as_hash cached_or hash_below
    hash_short node_hash node_to_bytes marshal marshal_typed bytes_or_nil hex_to_compact copy_trie
    cache commit is_clean commit_below store_node add_deleted note_leaf add_node counted is_deleted
    new_node_set
commits_fresh = refl

-- the database after the commit was saved
abbrev pub saved : Bytes → Read
saved k = if bytes_eq blob_hash k then found blob else not_found

pub saved-Saved : Saved (λ b. b) saved committed_fresh.node_set
unfolding bytes_eq
saved-Saved q k x bs e = elim (Bool-cases (bytes_eq [] q)) [
  | inl at ↦
      let same : some (record { hash = blob_hash; blob = blob })
          ≡ some (record { hash = k; blob = x ∷ bs }) =
        (rw at at e) in
      let hash_e : blob_hash ≡ k = ap hash_or_nil same in
      let blob_e : blob ≡ x ∷ bs = ap blob_or_nil same in
      subst (λ h. saved h ≡ found (x ∷ bs)) hash_e (ap found blob_e)
  | inr apart ↦
      let clash : ◌≡◌ {A = Option NodeWrapper} none (some (record { hash = k; blob = x ∷ bs })) =
        (rw apart at e) in
      cc
]
  where
    hash_or_nil : Option NodeWrapper → Bytes
    hash_or_nil none = []
    hash_or_nil (some w) = w.hash

    blob_or_nil : Option NodeWrapper → Bytes
    blob_or_nil none = []
    blob_or_nil (some w) = w.blob

commit_trie-reopens_example :
    (u : MerklePatriciaTrie) × (new_trie hashing_library saved blob_hash false ≡ returned u)
    × Represents hashing_library saved false u fresh_map
    × Canonical hashing_library saved 3 short u.root
unfolding bytes_eq
commit_trie-reopens_example =
    commit_trie-reopens hashing_library no_blobs hashing_library-Laws (λ b. b) (λ a b e. e) false []
      false 2 short fresh_trie fresh_map fresh_trie-Represents fresh_trie-Canonical committed_fresh
      commits_fresh saved (λ k x bs e. cc) saved-Saved (inl refl)

hash_trie-commit_trie_example :
    (h : Bytes) × (u : MerklePatriciaTrie) × (c : Committed) × (hash_trie hashing_library fresh_trie
      ≡ ok (h, u))
    × Represents hashing_library no_blobs false u fresh_map
    × Canonical hashing_library no_blobs 3 short u.root
    × ((commit_trie hashing_library (λ b. b) [] false fresh_trie).0 ≡ ok c)
    × (c.root_hash ≡ h)
    × Represents hashing_library no_blobs false
        (commit_trie hashing_library (λ b. b) [] false fresh_trie).1
        fresh_map
hash_trie-commit_trie_example =
    hash_trie-commit_trie hashing_library no_blobs hashing_library-Laws (λ b. b) (λ a b e. e) false
      [] false 2 short fresh_trie fresh_map fresh_trie-Represents fresh_trie-Canonical

run-InForm_example :
    (u : MerklePatriciaTrie) × Runs hashing_library no_blobs three_writes (empty_trie false) u
    × Represents hashing_library no_blobs false u
        (after_writes hashing_library false three_writes (λ k. none))
    × InForm hashing_library no_blobs 2 u
unfolding hash_key empty_trie
run-InForm_example =
    run-InForm hashing_library no_blobs false 2 three_writes (empty_trie false) (λ k. none)
      (
        ((omega arith, (omega arith, tt)), refl),
        (((omega arith, (omega arith, tt)), refl), (((omega arith, (omega arith, tt)), refl), tt)),
      )
      (empty_trie-Represents hashing_library no_blobs false) (nil, nil_at)

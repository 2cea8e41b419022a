-- ===== src/Trie/Canonical/Root.antt =====
-- `Commit` of pkg/trie/trie.go on a root that is stored on its own: the hashed copy is committed.
use meta_co_sign.Base.{
  ℕ, suc, ◌≡◌, refl, ap, ◌∙◌, ◌⊎◌, inl, inr, Bool, true, false, Option, none, some, List, [],
}
use meta_co_sign.Bytes.{Bytes}
use meta_co_sign.Result.{Result, ok, ◌>>=◌}
use meta_co_sign.Store.{Read}
use meta_co_sign.Trie.Canonical.{
  Shape, nil, stored_alone, occupied, IsHash, Stored, Canonical, nil_at, leaf_at, short_at, full_at,
  hash_at, Laws,
}
use meta_co_sign.Trie.Canonical.Cached.{is_clean-dirty, Sealed-Canonical}
use meta_co_sign.Trie.Canonical.Commit.{Kept, clean-Kept}
use meta_co_sign.Trie.Canonical.Commit.Children.{Sealed-IsHash}
use meta_co_sign.Trie.Canonical.Commit.Full.{Sealed-Commits}
use meta_co_sign.Trie.Canonical.Depth.{stored_alone-occupied}
use meta_co_sign.Trie.Canonical.Hash.{Canonical-Hashes}
use meta_co_sign.Trie.Canonical.Sealed.{
  hash_of, clean_node, Sealed, sealed_nil, sealed_leaf, sealed_hash, sealed_clean, sealed_short,
  sealed_full,
}
use meta_co_sign.Trie.Canonical.Served.{Extends, Serves}
use meta_co_sign.Trie.Committer.{Committed, add_deleted, commit_copy, commit_root}
use meta_co_sign.Trie.Denotes.{Content, Denotes}
use meta_co_sign.Trie.Hasher.{as_hash, hash, hash_root, hash_trie}
use meta_co_sign.Trie.Map.{MerklePatriciaTrie, copy_trie}
use meta_co_sign.Trie.Node.{
  Node, empty, value_node, hash_node, short_node, full_node, cache, TrieLibrary,
}
use meta_co_sign.Trie.NodeSet.{NodeSet, new_node_set}
use meta_co_sign.Trie.Tracer.{Tracer}

-- The database has all nodes of the set, where there is one.
abbrev pub Saved : (Bytes → Bytes) → (Bytes → Read) → Option NodeSet → Type 0
Saved hex_encode after none = Unit {0}
Saved hex_encode after (some set) = Serves hex_encode after [] set

clean_node-cache : (n : Node) → clean_node n ≡ true → (cache n).1 ≡ false
unfolding clean_node cache
clean_node-cache empty e = cc
clean_node-cache (value_node v) e = cc
clean_node-cache (hash_node h) e = cc
clean_node-cache (short_node key child flags) e = is_clean-dirty flags e
clean_node-cache (full_node children flags) e = is_clean-dirty flags e

module _ (T : TrieLibrary) (get_blob : Bytes → Read) where
  cached :
      {d : ℕ} {s : Shape} {n : Node}
      → Sealed T get_blob d s n
      → stored_alone s ≡ true
      → ((cache n).1 ≡ true)
        ⊎ (((cache n).1 ≡ false)
            × Canonical T get_blob d s n
            × Stored T get_blob (hash_of n) n
            × (clean_node n ≡ true))
  unfolding cache
  cached sealed_nil e = cc
  cached sealed_leaf e = cc
  cached (sealed_hash c) e = inl refl
  cached (sealed_clean {n = n} e c st clean) _ = inr (clean_node-cache n clean, c, st, clean)
  cached (sealed_short b path len sealed is dirty) e = inl dirty
  cached (sealed_full shape len each last two is dirty) e = inl dirty

  commit_root-eq :
      (hex_encode : Bytes → Bytes) (paths : List Bytes) (collect_leaf : Bool) {d : ℕ} {s : Shape}
      {n : Node} (t : MerklePatriciaTrie)
      → Canonical T get_blob d s n
      → occupied s ≡ true
      → commit_root T hex_encode paths collect_leaf n t
        ≡ (hash_trie T (copy_trie t) >>= commit_copy T hex_encode paths collect_leaf t.tracer)
  unfolding commit_root
  commit_root-eq hex_encode paths collect_leaf t nil_at o = cc
  commit_root-eq hex_encode paths collect_leaf t leaf_at o = refl
  commit_root-eq hex_encode paths collect_leaf t (short_at e path len c flag) o = refl
  commit_root-eq hex_encode paths collect_leaf t (full_at shape e each last two flag) o = refl
  commit_root-eq hex_encode paths collect_leaf t (hash_at e st c) o = refl

  hash_root-eq :
      {d : ℕ} {s : Shape} {n : Node}
      → Canonical T get_blob d s n
      → occupied s ≡ true
      → hash_root T n ≡ hash T n
  unfolding hash_root
  hash_root-eq nil_at o = cc
  hash_root-eq leaf_at o = refl
  hash_root-eq (short_at e path len c flag) o = refl
  hash_root-eq (full_at shape e each last two flag) o = refl
  hash_root-eq (hash_at e st c) o = refl

  -- Over keys that are not empty there is nothing at the root, or a node that is stored on its own.
  pub root-cases :
      {d : ℕ} {s : Shape} {n : Node}
      → Canonical T get_blob (suc d) s n
      → (stored_alone s ≡ true) ⊎ ((s ≡ nil) × (n ≡ empty))
  root-cases nil_at = inr (refl, refl)
  root-cases (short_at e path len c flag) = inl refl
  root-cases (full_at shape e each last two flag) = inl refl
  root-cases (hash_at e st c) = inl e

module _ (T : TrieLibrary) (get_blob : Bytes → Read) (laws : Laws T) (hex_encode : Bytes → Bytes)
    (hex_injective : (a b : Bytes) → hex_encode a ≡ hex_encode b → a ≡ b) where
  -- A commit ends with this root hash, and what it returns lets a database keep the node under the root hash.
  abbrev pub CommitsTo : ℕ → Shape → Node → Bytes → Result Committed → Type 0
  CommitsTo d s n h r =
      (c : Committed) × (r ≡ ok c)
      × (c.root_hash ≡ h)
      × IsHash T c.root_hash
      × ((after : Bytes → Read)
          → Extends get_blob after
          → Saved hex_encode after c.node_set
          → Kept T get_blob after d s n (hash_node c.root_hash))

  copy-CommitsTo :
      (paths : List Bytes) (collect_leaf : Bool) (tracer : Tracer) (d : ℕ) (s : Shape)
      (copy : MerklePatriciaTrie)
      → Sealed T get_blob d s copy.root
      → stored_alone s ≡ true
      → CommitsTo d s copy.root
          (hash_of copy.root)
          (commit_copy T hex_encode paths collect_leaf tracer (hash_of copy.root, copy))
  unfolding commit_copy as_hash
  copy-CommitsTo paths collect_leaf tracer d s copy sealed alone =
      let is = Sealed-IsHash T get_blob sealed alone in
      elim (cached T get_blob sealed alone) [
        | inl dirty ↦
            let (next, runs, frame, kept) =
              Sealed-Commits T get_blob laws hex_encode hex_injective tracer collect_leaf sealed
                alone [] (add_deleted T hex_encode paths new_node_set) in
            (
              record {
                root_hash = hash_of copy.root;
                node_set = some next;
                old_keys = tracer.old_keys;
              },
              rw (dirty, runs) refl,
              refl,
              is,
              kept,
            )
        | inr (rest, c, st, clean) ↦ (
          record { root_hash = hash_of copy.root; node_set = none; old_keys = tracer.old_keys },
          rw rest refl,
          refl,
          is,
          λ after extends saved. clean-Kept T get_blob after alone c st clean extends,
        )
      ]

  -- Such a root is hashed to a sealed node, which stands for the same map.
  pub root-hash_trie :
      {d : ℕ} {s : Shape} {n : Node}
      → Canonical T get_blob d s n
      → stored_alone s ≡ true
      → (kept : Node) × ((t : MerklePatriciaTrie)
          → hash_trie T (record t { root = n }) ≡ ok (hash_of kept, record t { root = kept }))
        × Sealed T get_blob d s kept
        × ((b : Bool) (f : Content) → Denotes T get_blob b n f → Denotes T get_blob b kept f)
  unfolding hash_trie as_hash
  root-hash_trie c alone =
      let there = stored_alone-occupied _ alone in
      let (new, kept, runs, (sealed, same, written), is) =
        Canonical-Hashes T get_blob laws c there in
      (
        kept,
        λ t.
            rw
              (
                hash_root-eq T get_blob c there,
                runs,
                is alone,
                (Sealed-IsHash T get_blob sealed alone).normal,
              )
              refl,
        sealed,
        same,
      )

  pub root-CommitsTo :
      (paths : List Bytes) (collect_leaf : Bool) (d : ℕ) (s : Shape) (t : MerklePatriciaTrie)
      → Canonical T get_blob d s t.root
      → stored_alone s ≡ true
      → (kept : Node) × (hash_trie T t ≡ ok (hash_of kept, record t { root = kept }))
        × ((b : Bool) (f : Content) → Denotes T get_blob b t.root f → Denotes T get_blob b kept f)
        × Canonical T get_blob d s kept
        × CommitsTo d s t.root (hash_of kept) (commit_root T hex_encode paths collect_leaf t.root t)
  unfolding copy_trie
  root-CommitsTo paths collect_leaf d s t c alone =
      let (kept, hashes, sealed, same) = root-hash_trie c alone in
      let copy : MerklePatriciaTrie = record (copy_trie t) { root = kept } in
      let (done, commits, h, is_hash, keeps) =
        copy-CommitsTo paths collect_leaf t.tracer d s copy sealed alone in
      (
        kept,
        hashes t,
        same,
        (Sealed-Canonical T get_blob sealed).0,
        (
          done,
          commit_root-eq T get_blob hex_encode paths collect_leaf t c
                (stored_alone-occupied s alone)
              ∙ ap (λ r. r >>= commit_copy T hex_encode paths collect_leaf t.tracer)
                  (hashes (copy_trie t))
              ∙ commits,
          h,
          is_hash,
          λ after extends saved.
              let (denotes, canonical) = keeps after extends saved in
              (λ b f den. denotes b f (same b f den), canonical),
        ),
      )

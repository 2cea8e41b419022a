-- ===== src/Trie/Map/Errors.antt =====
-- `Update` of a trie whose root the database does not give.
use meta_co_sign.Base.{
  ℕ, suc, ◌≡◌, refl, ◌⊎◌, inl, inr, Bool, false, none, some, [], ◌∷◌, arith, subst, sym,
}
use meta_co_sign.Bytes.{Bytes}
use meta_co_sign.Store.{Read, not_found, read_failed}
use meta_co_sign.Trie.Denotes.{put, nothing}
use meta_co_sign.Trie.Map.{
  MerklePatriciaTrie, Outcome, returned, with_root, hash_key, update_hashed, update,
}
use meta_co_sign.Trie.Map.Keys.{IsBytes}
use meta_co_sign.Trie.Map.Refinement.{Represents, update-Represents}
use meta_co_sign.Trie.Nibbles.{keybytes_to_hex}
use meta_co_sign.Trie.Node.{Node, empty, hash_node, value_node, TrieLibrary}
use meta_co_sign.Trie.Operations.{insert}
use meta_co_sign.Trie.Tracer.{Tracer}

-- a trie in use with this root
abbrev pub with_node : Bool → Tracer → Node → MerklePatriciaTrie
with_node is_hash tracer n = record {
  root = n;
  committed = false;
  tracer = tracer;
  is_hash = is_hash;
}

module _ (T : TrieLibrary) (get_blob : Bytes → Read) where
  module _ (h : Bytes)
      (missing : (get_blob (T.bytes_to_hash h) ≡ not_found)
        ⊎ (get_blob (T.bytes_to_hash h) ≡ read_failed))
      (is_hash : Bool) (tracer : Tracer) where
    insert-missing :
        (fuel other : ℕ) (x : ℕ) (key : Bytes) (value : Node)
        → insert T get_blob (suc fuel) (hash_node h) [] (x ∷ key) value tracer
          ≡ insert T get_blob (suc other) empty [] (x ∷ key) value tracer
    unfolding insert
    insert-missing fuel other x key value = elim missing [
      | inl none_there ↦ rw none_there refl
      | inr failed ↦ rw failed refl
    ]

    update_hashed-missing :
        (fuel other v : ℕ) (key vs : Bytes)
        → update_hashed T get_blob (suc fuel) key (v ∷ vs) (with_node is_hash tracer (hash_node h))
          ≡ update_hashed T get_blob (suc other) key (v ∷ vs) (with_node is_hash tracer empty)
    unfolding update_hashed insert keybytes_to_hex with_root
    update_hashed-missing fuel other v [] vs =
        rw (insert-missing fuel other 16 [] (value_node (v ∷ vs))) refl
    update_hashed-missing fuel other v (b ∷ key) vs =
        rw (insert-missing fuel other _ _ (value_node (v ∷ vs))) refl

    update-blank :
        (fuel other v : ℕ) (key vs : Bytes)
        → update T get_blob (suc fuel) key (v ∷ vs) (with_node is_hash tracer (hash_node h))
          ≡ update T get_blob (suc other) key (v ∷ vs) (with_node is_hash tracer empty)
    unfolding update
    update-blank fuel other v key vs =
        update_hashed-missing fuel other v (hash_key T is_hash key) vs

    -- Where the database does not give the root of a trie in use, or reading it fails, `Update` with
    -- a value and a hashed key of bytes succeeds, on any fuel but none, and leaves a trie that holds this
    -- value and nothing else.
    pub update-missing :
        (fuel v : ℕ) (key vs : Bytes)
        → IsBytes (hash_key T is_hash key)
        → ((update T get_blob (suc fuel) key (v ∷ vs) (with_node is_hash tracer (hash_node h))).0
            ≡ returned tt)
          × Represents T get_blob is_hash
              (update T get_blob (suc fuel) key (v ∷ vs) (with_node is_hash tracer (hash_node h))).1
              (put (hash_key T is_hash key) (some (v ∷ vs)) (λ k. none))
    update-missing fuel v key vs bytes =
        let held : Represents T get_blob is_hash (with_node is_hash tracer empty) (λ k. none) =
          record {
            open_to_use = refl;
            hashing = refl;
            content = λ k. none;
            denotes = nothing λ k h. refl;
            agrees = λ k h. refl;
            only_keys = λ p v path e. cc;
          } in
        let (enough, does) =
          update-Represents T get_blob is_hash (with_node is_hash tracer empty) (λ k. none) held key
            (v ∷ vs) bytes in
        subst {A = Outcome (Unit {0}) × MerklePatriciaTrie}
          (λ r.
            (r.0 ≡ returned tt)
            × Represents T get_blob is_hash r.1
                (put (hash_key T is_hash key) (some (v ∷ vs)) (λ k. none)))
          (sym (update-blank fuel enough v key vs)) (does (suc enough) (omega arith))

-- ===== src/Examples/Sessions.antt =====
-- A session at a concrete input: a value is put into an empty trie, which is committed, saved and
-- opened again.
use meta_co_sign.Base.{◌≡◌, refl, inl, true, false, none, some, [], ◌∷◌, arith}
use meta_co_sign.Bytes.{bytes_eq}
use meta_co_sign.Examples.Commits.{
  hashing_library, hashing_library-Laws, no_blobs, blob, blob_hash, committed_fresh, saved,
  saved-Saved,
}
use meta_co_sign.Result.{ok}
use meta_co_sign.Trie.Canonical.Sessions.{opened, updated, hashed, reopened, session-Represents}
use meta_co_sign.Trie.Canonical.Updates.{InForm}
use meta_co_sign.Trie.Committer.{
  commit_trie, is_clean, commit_root, commit_copy, commit, store_node, add_deleted, note_leaf,
  commit_below,
}
use meta_co_sign.Trie.Denotes.{put}
use meta_co_sign.Trie.Hasher.{
  hash_trie, hash_root, hash, as_hash, cached_or, hash_below, hash_short, node_hash,
}
use meta_co_sign.Trie.Map.{
  empty_trie, hash_key, MerklePatriciaTrie, returned, new_trie, copy_trie, update, update_hashed,
  with_root, trie_at,
}
use meta_co_sign.Trie.Map.Refinement.{Represents}
use meta_co_sign.Trie.Map.Runs.{updates}
use meta_co_sign.Trie.Marshal.{node_to_bytes, marshal, marshal_typed, bytes_or_nil}
use meta_co_sign.Trie.Nibbles.{keybytes_to_hex, hex_to_compact}
use meta_co_sign.Trie.Node.{short_node, value_node, new_flag, cache, decode_node}
use meta_co_sign.Trie.NodeSet.{new_node_set, add_node, counted, is_deleted}
use meta_co_sign.Trie.Operations.{insert, insert_new, resolve_and_track}
use meta_co_sign.Trie.Operations.Steps.{reply_of}
use meta_co_sign.Trie.Tracer.{new_tracer, on_insert, on_read, store}
use meta_co_sign.Examples.Messages.{parts}

abbrev written_trie : MerklePatriciaTrie
written_trie = record {
  root = short_node (0 ∷ 1 ∷ 16 ∷ []) (value_node (5 ∷ [])) (record { hash = []; dirty = true });
  committed = false;
  tracer = record {
    inserts = store [] true (λ p. false);
    deletes = λ p. false;
    old_keys = [];
    access_list = λ p. none;
  };
  is_hash = false;
}

abbrev opened_trie : MerklePatriciaTrie
opened_trie = record {
  root =
      short_node (0 ∷ 1 ∷ 16 ∷ []) (value_node (5 ∷ []))
        (record { hash = blob_hash; dirty = false });
  committed = false;
  tracer = record {
    inserts = λ p. false;
    deletes = λ p. false;
    old_keys = [];
    access_list = store [] (some blob) (λ p. none);
  };
  is_hash = false;
}

-- the trie after `Hash`
abbrev hashed_trie : MerklePatriciaTrie
hashed_trie = record written_trie {
  root =
      short_node (0 ∷ 1 ∷ 16 ∷ []) (value_node (5 ∷ []))
        (record { hash = blob_hash; dirty = true });
}

writes_value :
    update hashing_library no_blobs 1 (1 ∷ []) (5 ∷ []) (empty_trie false)
    ≡ (returned tt, written_trie)
unfolding update update_hashed with_root insert insert_new keybytes_to_hex hash_key on_insert
    new_tracer empty_trie new_flag
writes_value = refl

hashes_value : hash_trie hashing_library written_trie ≡ ok (blob_hash, hashed_trie)
unfolding hash_trie hash_root hash as_hash cached_or hash_below hash_short node_hash node_to_bytes
    marshal marshal_typed bytes_or_nil hex_to_compact
hashes_value = refl

commits_value : (commit_trie hashing_library (λ b. b) [] false hashed_trie).0 ≡ ok committed_fresh
unfolding commit_trie commit_root commit_copy hash_trie hash_root hash as_hash cached_or hash_below
    hash_short node_hash node_to_bytes marshal marshal_typed bytes_or_nil hex_to_compact copy_trie
    cache commit is_clean commit_below store_node add_deleted note_leaf add_node counted is_deleted
    new_node_set
commits_value = refl

opens_value : new_trie hashing_library saved blob_hash false ≡ returned opened_trie
unfolding new_trie trie_at resolve_and_track decode_node on_read bytes_eq parts new_tracer reply_of
opens_value = refl

session-Represents_example :
    Represents hashing_library saved false opened_trie (put (1 ∷ []) (some (5 ∷ [])) (λ k. none))
    × InForm hashing_library saved 1 opened_trie
unfolding hash_key bytes_eq
session-Represents_example =
    session-Represents hashing_library hashing_library-Laws (λ b. b) (λ a b e. e) false 1
      (reopened {get_blob = no_blobs} {after = saved} {t = hashed_trie} {c = committed_fresh} []
        false
        (hashed {t = written_trie}
          (updated {key = 1 ∷ []} {value = 5 ∷ []} opened (omega arith, tt) refl
            (updates 1 writes_value))
          hashes_value)
        commits_value (λ k x bs e. cc) saved-Saved (inl refl) opens_value)

-- ===== src/Trie/Map/Runs.antt =====
-- Sequences of updates on a trie.
use meta_co_sign.Base.{ℕ, ◌≡◌, refl, ap, Bool, none, List, [], ◌∷◌, arith, All}
use meta_co_sign.Bytes.{Bytes}
use meta_co_sign.Store.{Read}
use meta_co_sign.Trie.Denotes.{Content, put, nothing}
use meta_co_sign.Trie.Map.{MerklePatriciaTrie, returned, empty_trie, hash_key, update}
use meta_co_sign.Trie.Map.Keys.{IsBytes}
use meta_co_sign.Trie.Map.Refinement.{written, Represents, update-Represents}
use meta_co_sign.Trie.Node.{TrieLibrary}

-- a key and a value
abbrev pub Write : Type 0
Write = Bytes × Bytes

module _ (T : TrieLibrary) (get_blob : Bytes → Read) where
  -- `Update` takes the one trie to the other without an error.
  pub data Updates (write : Write) (t u : MerklePatriciaTrie) : Type 0 where
    updates :
        (fuel : ℕ) → update T get_blob fuel write.0 write.1 t ≡ (returned tt, u) → Updates write t u

  pub data Runs : List Write → MerklePatriciaTrie → MerklePatriciaTrie → Type 0 where
    no_more : {t : MerklePatriciaTrie} → Runs [] t t
    one_more :
        {write : Write} {writes : List Write} {t u v : MerklePatriciaTrie}
        → Updates write t u
        → Runs writes u v
        → Runs (write ∷ writes) t v

-- The map after the writes: the last one to a key counts, and an empty value removes the key.
abbrev pub after_writes : TrieLibrary → Bool → List Write → Content → Content
after_writes T is_hash [] m = m
after_writes T is_hash ((key, value) ∷ writes) m =
    after_writes T is_hash writes (put (hash_key T is_hash key) (written value) m)

module _ (T : TrieLibrary) (get_blob : Bytes → Read) (is_hash : Bool) where
  run-Represents :
      (writes : List Write) (t : MerklePatriciaTrie) (m : Content)
      → All (λ w. IsBytes (hash_key T is_hash w.0)) writes
      → Represents T get_blob is_hash t m
      → (u : MerklePatriciaTrie) × Runs T get_blob writes t u
        × Represents T get_blob is_hash u (after_writes T is_hash writes m)
  run-Represents [] t m bytes held = (t, no_more, held)
  run-Represents ((key, value) ∷ writes) t m bytes held =
      let (enough, does) = update-Represents T get_blob is_hash t m held key value bytes.0 in
      let (ok, after) = does enough (omega arith) in
      let (u, runs, later) =
        run-Represents writes _ (put (hash_key T is_hash key) (written value) m) bytes.1 after in
      (
        u,
        one_more (updates enough (ap (λ r. (r, (update T get_blob enough key value t).1)) ok)) runs,
        later,
      )

  pub empty_trie-Represents : Represents T get_blob is_hash (empty_trie is_hash) (λ k. none)
  unfolding empty_trie
  empty_trie-Represents = record {
    open_to_use = refl;
    hashing = refl;
    content = λ k. none;
    denotes = nothing λ k h. refl;
    agrees = λ k h. refl;
    only_keys = λ p v path e. cc;
  }

  -- From an empty trie every sequence of updates with hashed keys of bytes can be made without an error,
  -- and ends in a trie that holds, at each hashed key, the last value written, or nothing if that
  -- was empty or there was none.
  pub run-empty_trie :
      (writes : List Write)
      → All (λ w. IsBytes (hash_key T is_hash w.0)) writes
      → (u : MerklePatriciaTrie) × Runs T get_blob writes (empty_trie is_hash) u
        × Represents T get_blob is_hash u (after_writes T is_hash writes (λ k. none))
  run-empty_trie writes bytes =
      run-Represents writes (empty_trie is_hash) (λ k. none) bytes empty_trie-Represents

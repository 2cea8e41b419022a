-- ===== src/Trie/Map/Refinement.antt =====
-- A trie is a map from keys to values: `Update` writes and deletes, and `Get` reads.
use meta_co_sign.Base.{
  Bool-cases, inl, inr, ℕ, ◌≤◌, ◌≡◌, refl, sym, ap, ◌∙◌, Bool, true, false, Option, none, some, [],
  ◌∷◌, if◌then◌else◌,
}
use meta_co_sign.Bytes.{Bytes, bytes_eq, bytes_eq_iff}
use meta_co_sign.Trie.Paths.{Ends}
use meta_co_sign.Store.{Read}
use meta_co_sign.Trie.Denotes.{Content, put, Denotes}
use meta_co_sign.Trie.Denotes.Deletion.{Gone, Denotes-Deletes}
use meta_co_sign.Trie.Denotes.Insertion.{Put, Denotes-Inserts}
use meta_co_sign.Trie.Denotes.Lookup.{Denotes-Finds}
use meta_co_sign.Trie.Map.{
  MerklePatriciaTrie, returned, err_committed, with_root, value_got, hash_key, get_value,
  update_hashed, update,
}
use meta_co_sign.Trie.Map.Keys.{IsBytes, keybytes_to_hex-Ends, bytes_eq-keybytes_to_hex}
use meta_co_sign.Trie.Nibbles.{keybytes_to_hex}
use meta_co_sign.Trie.Node.{Node, TrieLibrary}
use meta_co_sign.Trie.Operations.{get, Got}
use meta_co_sign.Trie.Operations.Steps.{
  Reply, done, missing_node, crashed, unfinished, Returns, Returns-imp,
}
use meta_co_sign.Trie.Tracer.{Tracer}

-- the value that an update leaves
abbrev pub written : Bytes → Option Bytes
written [] = none
written (v ∷ vs) = some (v ∷ vs)

module _ (T : TrieLibrary) (get_blob : Bytes → Read) where
  -- The trie, hashing its keys or not, holds the map `m` from hashed keys to values.
  pub record Represents (is_hash : Bool) (t : MerklePatriciaTrie) (m : Content) : Type 0 where
    pub open_to_use : t.committed ≡ false
    pub hashing : t.is_hash ≡ is_hash
    pub content : Content
    pub denotes : Denotes T get_blob false t.root content
    pub agrees : (k : Bytes) → IsBytes k → content (keybytes_to_hex k) ≡ m k
    pub only_keys :
        (p v : Bytes)
        → Ends false p true
        → content p ≡ some v
        → (k : Bytes) × IsBytes k × (p ≡ keybytes_to_hex k)

module _ (T : TrieLibrary) (get_blob : Bytes → Read) (is_hash : Bool) (t : MerklePatriciaTrie)
    (m : Content) (held : Represents T get_blob is_hash t m) where
  pub tracer-Represents : (u : Tracer) → Represents T get_blob is_hash (record t { tracer = u }) m
  tracer-Represents u = record {
    open_to_use = held.open_to_use;
    hashing = held.hashing;
    content = held.content;
    denotes = held.denotes;
    agrees = held.agrees;
    only_keys = held.only_keys;
  }

  value_got-Represents :
      (o : Option Bytes) (r : Reply Got × Tracer)
      → Returns (λ g. g.0 ≡ o) r
      → ((value_got t r).0 ≡ returned o) × Represents T get_blob is_hash (value_got t r).1 m
  unfolding value_got
  value_got-Represents o (done g, tracer) h = (ap returned h, tracer-Represents tracer)
  value_got-Represents o (missing_node, tracer) h = absurd h
  value_got-Represents o (crashed, tracer) h = absurd h
  value_got-Represents o (unfinished, tracer) h = absurd h

  put-agrees :
      (key : Bytes) (o : Option Bytes) (k : Bytes)
      → IsBytes k
      → put (keybytes_to_hex key) o held.content (keybytes_to_hex k) ≡ put key o m k
  put-agrees key o k h = rw (bytes_eq-keybytes_to_hex key k, held.agrees k h) refl

  put-only_keys :
      (key : Bytes) (o : Option Bytes)
      → IsBytes key
      → (p v : Bytes) → Ends false p true
      → put (keybytes_to_hex key) o held.content p ≡ some v
      → (k : Bytes) × IsBytes k × (p ≡ keybytes_to_hex k)
  put-only_keys key o bytes p v path e = elim (Bool-cases (bytes_eq (keybytes_to_hex key) p)) [
    | inl same ↦ (key, bytes, sym ((bytes_eq_iff (keybytes_to_hex key) p).0 same))
    | inr differ ↦ held.only_keys p v path (rw differ at e)
  ]

  with_root-Represents :
      (key : Bytes) (o : Option Bytes) (bytes : IsBytes key) (r : Reply (Bool × Node) × Tracer)
      → Returns (λ a. Denotes T get_blob false a.1 (put (keybytes_to_hex key) o held.content)) r
      → ((with_root t r).0 ≡ returned tt)
        × Represents T get_blob is_hash (with_root t r).1 (put key o m)
  unfolding with_root
  with_root-Represents key o bytes (done a, tracer) h = (
    refl,
    record {
      open_to_use = held.open_to_use;
      hashing = held.hashing;
      content = put (keybytes_to_hex key) o held.content;
      denotes = h;
      agrees = put-agrees key o;
      only_keys = put-only_keys key o bytes;
    },
  )
  with_root-Represents key o bytes (missing_node, tracer) h = absurd h
  with_root-Represents key o bytes (crashed, tracer) h = absurd h
  with_root-Represents key o bytes (unfinished, tracer) h = absurd h

  -- The two methods, once the trie is known to be in use and how it hashes.
  get_value-eq :
      (fuel : ℕ) (key : Bytes)
      → get_value T get_blob fuel key t
        ≡ value_got t
            (get T get_blob fuel t.root [] (keybytes_to_hex (hash_key T is_hash key)) t.tracer)
  unfolding get_value
  get_value-eq fuel key =
      ap
        (λ b.
          if b
          then (err_committed, t)
          else value_got t
              (get T get_blob fuel t.root [] (keybytes_to_hex (hash_key T t.is_hash key)) t.tracer))
        held.open_to_use
      ∙ ap
          (λ b.
            value_got t
              (get T get_blob fuel t.root [] (keybytes_to_hex (hash_key T b key)) t.tracer))
          held.hashing

  update-eq :
      (fuel : ℕ) (key value : Bytes)
      → update T get_blob fuel key value t
        ≡ update_hashed T get_blob fuel (hash_key T is_hash key) value t
  unfolding update
  update-eq fuel key value =
      ap
        (λ b.
          if b
          then (err_committed, t)
          else update_hashed T get_blob fuel (hash_key T t.is_hash key) value t)
        held.open_to_use
      ∙ ap (λ b. update_hashed T get_blob fuel (hash_key T b key) value t) held.hashing

  -- Over a trie that holds a map, with enough fuel and a hashed key of bytes, `Get` returns what the
  -- map has at the hashed key, and the trie still holds the map.
  pub get_value-Represents :
      (key : Bytes)
      → IsBytes (hash_key T is_hash key)
      → (enough : ℕ) × ((fuel : ℕ)
          → enough ≤ fuel
          → ((get_value T get_blob fuel key t).0 ≡ returned (m (hash_key T is_hash key)))
            × Represents T get_blob is_hash (get_value T get_blob fuel key t).1 m)
  get_value-Represents key bytes =
      let hashed = hash_key T is_hash key in
      let (enough, finds) =
        Denotes-Finds T get_blob held.denotes (keybytes_to_hex hashed)
          (keybytes_to_hex-Ends hashed bytes) in
      (
        enough,
        λ fuel le.
            rw (get_value-eq fuel key, sym (held.agrees hashed bytes))
              (value_got-Represents (held.content (keybytes_to_hex hashed)) _
                (finds fuel le [] t.tracer)),
      )

  -- Over a trie that holds a map, with enough fuel and a hashed key of bytes, `Update` ends without
  -- an error in a trie that holds the map with the value at the hashed key, or without that key if the value is empty.
  pub update-Represents :
      (key value : Bytes)
      → IsBytes (hash_key T is_hash key)
      → (enough : ℕ) × ((fuel : ℕ)
          → enough ≤ fuel
          → ((update T get_blob fuel key value t).0 ≡ returned tt)
            × Represents T get_blob is_hash
                (update T get_blob fuel key value t).1
                (put (hash_key T is_hash key) (written value) m))
  unfolding update_hashed
  update-Represents key [] bytes =
      let hashed = hash_key T is_hash key in
      let (enough, deletes) =
        Denotes-Deletes T get_blob held.denotes (keybytes_to_hex hashed)
          (keybytes_to_hex-Ends hashed bytes) in
      (
        enough,
        λ fuel le. rw (update-eq fuel key []) (
            with_root-Represents hashed none bytes _ (
              Returns-imp (Gone T get_blob false (keybytes_to_hex hashed) held.content) _ _
                (deletes fuel le [] t.tracer) (λ a done. done.0))),
      )
  update-Represents key (v ∷ vs) bytes =
      let hashed = hash_key T is_hash key in
      let (enough, inserts) =
        Denotes-Inserts T get_blob (v ∷ vs) held.denotes (keybytes_to_hex hashed)
          (keybytes_to_hex-Ends hashed bytes) in
      (
        enough,
        λ fuel le. rw (update-eq fuel key (v ∷ vs)) (
            with_root-Represents hashed (some (v ∷ vs)) bytes _ (
              Returns-imp (Put T get_blob (v ∷ vs) false (keybytes_to_hex hashed) held.content) _ _
                (inserts fuel le [] t.tracer) (λ a done. done.0))),
      )

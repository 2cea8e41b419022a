-- ===== src/Trie/Canonical/Updates.antt =====
-- `Update` of pkg/trie/trie.go keeps the canonical form of a trie whose keys have one length.
use meta_co_sign.Base.{
  ℕ, suc, ◌*◌, ◌≡◌, refl, sym, ap, ◌∙◌, subst, inl, inr, Bool-cases, Bool, false, List, [], ◌∷◌,
  ◌==◌, arith, length, length-append, All, if◌then◌else◌,
}
use meta_co_sign.Bytes.{Bytes}
use meta_co_sign.Store.{Read}
use meta_co_sign.Trie.Canonical.{Shape, Canonical}
use meta_co_sign.Trie.Canonical.Growth.{Grows}
use meta_co_sign.Trie.Canonical.Deletion.{Canonical-Shrinks}
use meta_co_sign.Trie.Canonical.Depth.{IsPath}
use meta_co_sign.Trie.Canonical.Insertion.{Canonical-KeepsForm}
use meta_co_sign.Trie.Canonical.Reduction.{Shrunk}
use meta_co_sign.Trie.Denotes.{Content, put}
use meta_co_sign.Trie.Map.{
  Outcome, MerklePatriciaTrie, err_committed, with_root, hash_key, update, update_hashed,
}
use meta_co_sign.Trie.Map.Keys.{IsBytes, keybytes_to_hex-Ends}
use meta_co_sign.Trie.Map.Refinement.{written, Represents, update-Represents}
use meta_co_sign.Trie.Map.Runs.{Updates, Write, updates, Runs, no_more, one_more, after_writes}
use meta_co_sign.Trie.Nibbles.{keybytes_to_hex, nibbles_of}
use meta_co_sign.Trie.Node.{Node, TrieLibrary}
use meta_co_sign.Trie.Operations.Steps.{Reply, done, missing_node, crashed, unfinished, IfDone}
use meta_co_sign.Trie.Tracer.{Tracer}

length-nibbles_of : (k : Bytes) → length (nibbles_of k) ≡ 2 * length k
unfolding nibbles_of
length-nibbles_of [] = refl
length-nibbles_of (b ∷ k) = omega (arith, length-nibbles_of k)

length-keybytes_to_hex : (k : Bytes) → length (keybytes_to_hex k) ≡ suc (2 * length k)
unfolding keybytes_to_hex
length-keybytes_to_hex k =
    omega (arith, length-append (nibbles_of k) (16 ∷ []), length-nibbles_of k)

keybytes_to_hex-IsPath :
    (l : ℕ) (k : Bytes) → IsBytes k → length k ≡ l → IsPath (suc (2 * l)) (keybytes_to_hex k)
keybytes_to_hex-IsPath l k bytes e =
    let deep : (suc (2 * l) == 0) ≡ false = ground arith in
    (omega (arith, e, length-keybytes_to_hex k), rw deep (keybytes_to_hex-Ends k bytes))

module _ (T : TrieLibrary) (get_blob : Bytes → Read) where
  -- The nodes of a trie whose hashed keys have this length are in canonical form.
  abbrev pub InForm : ℕ → MerklePatriciaTrie → Type 0
  InForm l t = (s : Shape) × Canonical T get_blob (suc (2 * l)) s t.root

  with_root-InForm :
      (l : ℕ) (t : MerklePatriciaTrie) (P : Bool × Node → Type 0) (r : Reply (Bool × Node) × Tracer)
      → InForm l t
      → ((a : Bool × Node) → P a → (s : Shape) × Canonical T get_blob (suc (2 * l)) s a.1)
      → IfDone P r
      → InForm l (with_root t r).1
  unfolding with_root
  with_root-InForm l t P (done (dirty, n), tracer) form f h = f (dirty, n) h
  with_root-InForm l t P (missing_node, tracer) form f h = form
  with_root-InForm l t P (crashed, tracer) form f h = form
  with_root-InForm l t P (unfinished, tracer) form f h = form

  update_hashed-InForm :
      (l fuel : ℕ) (key value : Bytes) (t : MerklePatriciaTrie)
      → InForm l t
      → IsBytes key
      → length key ≡ l
      → InForm l (update_hashed T get_blob fuel key value t).1
  unfolding update_hashed
  update_hashed-InForm l fuel key [] t (s, c) bytes len =
      with_root-InForm l t (Shrunk T get_blob (suc (2 * l)) s) _ (s, c)
        (λ a (s', there, direct, c'). (s', c'))
        (Canonical-Shrinks T get_blob fuel c (keybytes_to_hex key)
          (keybytes_to_hex-IsPath l key bytes len) [] t.tracer)
  update_hashed-InForm l fuel key (v ∷ vs) t (s, c) bytes len =
      with_root-InForm l t (Grows T get_blob (suc (2 * l)) s) _ (s, c)
        (λ a (s', there, still, c'). (s', c'))
        (Canonical-KeepsForm T get_blob (v ∷ vs) fuel c (keybytes_to_hex key)
          (keybytes_to_hex-IsPath l key bytes len) [] t.tracer)

  update-InForm :
      (l fuel : ℕ) (key value : Bytes) (t : MerklePatriciaTrie)
      → InForm l t
      → IsBytes (hash_key T t.is_hash key)
      → length (hash_key T t.is_hash key) ≡ l
      → InForm l (update T get_blob fuel key value t).1
  unfolding update
  update-InForm l fuel key value t form bytes len = elim (Bool-cases t.committed) [
    | inl closed ↦ subst result (sym closed) form
    | inr open_to_use ↦
        subst result (sym open_to_use)
          (update_hashed-InForm l fuel (hash_key T t.is_hash key) value t form bytes len)
  ]
    where
      result : Bool → Type 0
      result b =
          InForm l
            (if b
              then (err_committed, t)
              else update_hashed T get_blob fuel (hash_key T t.is_hash key) value t).1

  pub Updates-InForm :
      (is_hash : Bool) (l : ℕ) (key value : Bytes) (t u : MerklePatriciaTrie)
      → t.is_hash ≡ is_hash
      → InForm l t
      → IsBytes (hash_key T is_hash key)
      → length (hash_key T is_hash key) ≡ l
      → Updates T get_blob (key, value) t u
      → InForm l u
  Updates-InForm is_hash l key value t u hashing form bytes len (updates fuel runs) =
      subst (λ (r : Outcome (Unit {0}) × MerklePatriciaTrie). InForm l r.1) runs
        (update-InForm l fuel key value t form
          (subst (λ b. IsBytes (hash_key T b key)) (sym hashing) bytes)
          (ap (λ b. length (hash_key T b key)) hashing ∙ len))

  -- From a trie in canonical form that holds a map, every sequence of updates with hashed keys of bytes
  -- of the one length can be made without an error, and ends in a trie in canonical form that holds, at each
  -- hashed key, the last value written, or nothing if that was empty, and elsewhere what was there before.
  pub run-InForm :
      (is_hash : Bool) (l : ℕ) (writes : List Write) (t : MerklePatriciaTrie) (m : Content)
      → All (λ w. IsBytes (hash_key T is_hash w.0) × (length (hash_key T is_hash w.0) ≡ l)) writes
      → Represents T get_blob is_hash t m
      → InForm l t
      → (u : MerklePatriciaTrie) × Runs T get_blob writes t u
        × Represents T get_blob is_hash u (after_writes T is_hash writes m)
        × InForm l u
  run-InForm is_hash l [] t m keys held form = (t, no_more, held, form)
  run-InForm is_hash l ((key, value) ∷ writes) t m ((bytes, len), keys) held form =
      let (enough, does) = update-Represents T get_blob is_hash t m held key value bytes in
      let (ok, after) = does enough (omega arith) in
      let (u, runs, later, last) =
        run-InForm is_hash l writes _ (put (hash_key T is_hash key) (written value) m) keys after (
          update-InForm l enough key value t form
            (subst (λ b. IsBytes (hash_key T b key)) (sym held.hashing) bytes)
            (ap (λ b. length (hash_key T b key)) held.hashing ∙ len)) in
      (
        u,
        one_more (updates enough (ap (λ r. (r, (update T get_blob enough key value t).1)) ok)) runs,
        later,
        last,
      )

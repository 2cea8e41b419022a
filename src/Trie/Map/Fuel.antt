-- ===== src/Trie/Map/Fuel.antt =====
-- `Update` of pkg/trie/trie.go gives the same with more fuel.
use meta_co_sign.Base.{
  ℕ, zero, suc, ◌+◌, ◌≡◌, ◌≢◌, refl, sym, ap, ◌∙◌, subst, Bool, true, false, [], ◌∷◌, arith,
  if◌then◌else◌,
}
use meta_co_sign.Bytes.{Bytes}
use meta_co_sign.Store.{Read}
use meta_co_sign.Trie.Denotes.{Content, put}
use meta_co_sign.Trie.Map.{
  MerklePatriciaTrie, Outcome, returned, no_fuel, err_committed, hash_key, update, update_hashed,
  with_root,
}
use meta_co_sign.Trie.Map.Keys.{IsBytes}
use meta_co_sign.Trie.Map.Refinement.{written, Represents, update-Represents}
use meta_co_sign.Trie.Map.Runs.{Updates, updates}
use meta_co_sign.Trie.Node.{Node, value_node, TrieLibrary}
use meta_co_sign.Trie.Nibbles.{keybytes_to_hex}
use meta_co_sign.Trie.Operations.Fuel.{More, insert-More, delete-More}
use meta_co_sign.Trie.Operations.Steps.{Reply, done, missing_node, crashed, unfinished}
use meta_co_sign.Trie.Tracer.{Tracer}

with_root-More :
    (t : MerklePatriciaTrie) (r r' : Reply (Bool × Node) × Tracer)
    → More r r'
    → (with_root t r).0 ≢ no_fuel
    → with_root t r' ≡ with_root t r
unfolding with_root
with_root-More t (done a, tracer) r' more over = ap (with_root t) (more (λ e. cc))
with_root-More t (missing_node, tracer) r' more over = ap (with_root t) (more (λ e. cc))
with_root-More t (crashed, tracer) r' more over = ap (with_root t) (more (λ e. cc))
with_root-More t (unfinished, tracer) r' more over = absurd (over refl)

module _ (T : TrieLibrary) (get_blob : Bytes → Read) where
  update_hashed-More :
      (fuel : ℕ) (key value : Bytes) (t : MerklePatriciaTrie)
      → (update_hashed T get_blob fuel key value t).0 ≢ no_fuel
      → update_hashed T get_blob (suc fuel) key value t ≡ update_hashed T get_blob fuel key value t
  unfolding update_hashed
  update_hashed-More fuel key [] t over =
      with_root-More t _ _ (delete-More T get_blob fuel t.root [] (keybytes_to_hex key) t.tracer)
        over
  update_hashed-More fuel key (v ∷ vs) t over =
      with_root-More t _ _
        (insert-More T get_blob fuel t.root [] (keybytes_to_hex key) (value_node (v ∷ vs)) t.tracer)
        over

  -- A run of `Update` that succeeded is the same with more fuel.
  update-suc :
      (fuel : ℕ) (key value : Bytes) (t u : MerklePatriciaTrie)
      → update T get_blob fuel key value t ≡ (returned tt, u)
      → update T get_blob (suc fuel) key value t ≡ (returned tt, u)
  unfolding update
  update-suc fuel key value t u e = grows t.committed e ∙ e
    where
      grows :
          (b : Bool)
          → (if b
              then (err_committed, t)
              else update_hashed T get_blob fuel (hash_key T t.is_hash key) value t)
            ≡ (returned tt, u)
          → (if b
              then (err_committed, t)
              else update_hashed T get_blob (suc fuel) (hash_key T t.is_hash key) value t)
            ≡ (if b
                then (err_committed, t)
                else update_hashed T get_blob fuel (hash_key T t.is_hash key) value t)
      grows true e = refl
      grows false e =
          update_hashed-More fuel (hash_key T t.is_hash key) value t
            (λ lacks. let clash : returned tt ≡ no_fuel = sym (ap (λ r. r.0) e) ∙ lacks in cc)

  update-more :
      (extra fuel total : ℕ) (key value : Bytes) (t u : MerklePatriciaTrie)
      → extra + fuel ≡ total
      → update T get_blob fuel key value t ≡ (returned tt, u)
      → update T get_blob total key value t ≡ (returned tt, u)
  update-more zero fuel total key value t u e runs =
      let same : fuel ≡ total = omega (arith, e) in
      subst (λ f. update T get_blob f key value t ≡ (returned tt, u)) same runs
  update-more (suc extra) fuel total key value t u e runs =
      update-more extra (suc fuel) total key value t u (omega (arith, e))
        (update-suc fuel key value t u runs)

  -- Whatever fuel it took, the trie after an update holds the changed map.
  pub Updates-Represents :
      (is_hash : Bool) (key value : Bytes) (t u : MerklePatriciaTrie) (m : Content)
      → Represents T get_blob is_hash t m
      → IsBytes (hash_key T is_hash key)
      → Updates T get_blob (key, value) t u
      → Represents T get_blob is_hash u (put (hash_key T is_hash key) (written value) m)
  Updates-Represents is_hash key value t u m held bytes (updates fuel runs) =
      let (enough, does) = update-Represents T get_blob is_hash t m held key value bytes in
      subst
        (λ (r : Outcome (Unit {0}) × MerklePatriciaTrie).
          Represents T get_blob is_hash r.1 (put (hash_key T is_hash key) (written value) m))
        (update-more enough fuel (enough + fuel) key value t u refl runs)
        (does (enough + fuel) (omega arith)).1

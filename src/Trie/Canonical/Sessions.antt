-- ===== src/Trie/Canonical/Sessions.antt =====
-- The life of a `MerklePatriciaTrie` of pkg/trie/trie.go: updates, and commits after which the trie
-- goes on in use, or another is opened over the database with the nodes that were saved.
use meta_co_sign.Base.{
  if_either, Option, refl, ap, [], ℕ, suc, ◌*◌, ◌≡◌, sym, ◌∙◌, subst, ◌⊎◌, inl, inr, Bool, false,
  none, List, length,
}
use meta_co_sign.Bytes.{Bytes, bytes_eq}
use meta_co_sign.Result.{ok}
use meta_co_sign.Store.{Read}
use meta_co_sign.Trie.Canonical.{Shape, nil, Canonical, nil_at, Laws}
use meta_co_sign.Trie.Canonical.Depth.{stored_alone-occupied}
use meta_co_sign.Trie.Canonical.Reduction.{occupied-there}
use meta_co_sign.Trie.Canonical.Reopen.{
  ok_injective, hash_trie-commit_trie, commit_trie-reopens, root-Represents,
}
use meta_co_sign.Trie.Canonical.Root.{Saved, root-cases}
use meta_co_sign.Trie.Canonical.Served.{Extends, extends-Denotes, extends-Canonical}
use meta_co_sign.Trie.Canonical.Updates.{InForm, Updates-InForm}
use meta_co_sign.Trie.Committer.{Committed, commit_trie}
use meta_co_sign.Trie.Denotes.{Content, put}
use meta_co_sign.Trie.Hasher.{hash_trie}
use meta_co_sign.Trie.Operations.{Got}
use meta_co_sign.Trie.Operations.Steps.{Reply, done, missing_node, crashed, unfinished}
use meta_co_sign.Trie.Map.{
  Outcome, get_value, value_got, MerklePatriciaTrie, returned, empty_trie, empty_root_hash,
  hash_key, new_trie,
}
use meta_co_sign.Trie.Map.Fuel.{Updates-Represents}
use meta_co_sign.Trie.Map.Keys.{IsBytes}
use meta_co_sign.Trie.Map.Refinement.{written, Represents, tracer-Represents}
use meta_co_sign.Trie.Map.Runs.{Updates, empty_trie-Represents}
use meta_co_sign.Trie.Node.{empty, TrieLibrary}
use meta_co_sign.Trie.Tracer.{Tracer}

returned_injective : {A : Type 0} {x y : A} → returned x ≡ returned y → x ≡ y
returned_injective e = cc

module _ (T : TrieLibrary) (hex_encode : Bytes → Bytes) (is_hash : Bool) (l : ℕ) where
  -- `Session get_blob t m`: over this database now, with the writes of `m`, a trie is in this state. All
  -- hashed keys have the length `l`.
  pub data Session : (Bytes → Read) → MerklePatriciaTrie → Content → Type 0 where
    opened : {get_blob : Bytes → Read} → Session get_blob (empty_trie is_hash) (λ k. none)
    updated :
        {get_blob : Bytes → Read} {t u : MerklePatriciaTrie} {m : Content} {key value : Bytes}
        → Session get_blob t m
        → IsBytes (hash_key T is_hash key)
        → length (hash_key T is_hash key) ≡ l
        → Updates T get_blob (key, value) t u
        → Session get_blob u (put (hash_key T is_hash key) (written value) m)
    looked_up :
        {get_blob : Bytes → Read} {t : MerklePatriciaTrie} {m : Content} (fuel : ℕ) (key : Bytes)
        → Session get_blob t m
        → Session get_blob (get_value T get_blob fuel key t).1 m
    hashed :
        {get_blob : Bytes → Read} {t u : MerklePatriciaTrie} {m : Content} {h : Bytes}
        → Session get_blob t m
        → hash_trie T t ≡ ok (h, u)
        → Session get_blob u m
    went_on :
        {get_blob after : Bytes → Read} {t : MerklePatriciaTrie} {m : Content} (paths : List Bytes)
        (collect_leaf : Bool)
        → Session get_blob t m
        → Extends get_blob after
        → Session after (commit_trie T hex_encode paths collect_leaf t).1 m
    reopened :
        {get_blob after : Bytes → Read} {t u : MerklePatriciaTrie} {m : Content} {c : Committed}
        (paths : List Bytes) (collect_leaf : Bool)
        → Session get_blob t m
        → (commit_trie T hex_encode paths collect_leaf t).0 ≡ ok c
        → Extends get_blob after
        → Saved hex_encode after c.node_set
        → (bytes_eq c.root_hash empty_root_hash ≡ false) ⊎ (t.root ≡ empty)
        → new_trie T after c.root_hash is_hash ≡ returned u
        → Session after u m

-- `Get` changes the tracer at most.
value_got-tracer :
    (t : MerklePatriciaTrie) (r : Reply Got × Tracer)
    → (value_got t r).1 ≡ record t { tracer = r.1 }
unfolding value_got
value_got-tracer t (done (value, new_node, did_resolve), tracer) = refl
value_got-tracer t (missing_node, tracer) = refl
value_got-tracer t (crashed, tracer) = refl
value_got-tracer t (unfinished, tracer) = refl

get_value-tracer :
    (T : TrieLibrary) (get_blob : Bytes → Read) (fuel : ℕ) (key : Bytes) (t : MerklePatriciaTrie)
    → (u : Tracer) × (record t { tracer = u } ≡ (get_value T get_blob fuel key t).1)
unfolding get_value
get_value-tracer T get_blob fuel key t =
    if_either {A = Outcome (Option Bytes) × MerklePatriciaTrie} t.committed
      (λ r. (u : Tracer) × (record t { tracer = u } ≡ r.1)) _ _ (t.tracer, refl)
      (_, sym (value_got-tracer t _))

module _ (T : TrieLibrary) (get_blob after : Bytes → Read) (is_hash : Bool) (l : ℕ)
    (extends : Extends get_blob after) where
  grown-Represents :
      (t : MerklePatriciaTrie) (m : Content) (u : Tracer)
      → Represents T get_blob is_hash t m
      → Represents T after is_hash (record t { tracer = u }) m
  grown-Represents t m u held =
      root-Represents T get_blob is_hash t m after (record t { tracer = u }) held held.open_to_use
        held.hashing (extends-Denotes T get_blob after extends held.denotes)

  empty-nil :
      {s : Shape} (t : MerklePatriciaTrie)
      → Canonical T get_blob (suc (2 * l)) s t.root
      → t.root ≡ empty
      → s ≡ nil
  empty-nil t c e = elim (root-cases T get_blob c) [
    | inl alone ↦ absurd (occupied-there T get_blob c (stored_alone-occupied _ alone) e)
    | inr (none_left, _) ↦ none_left
  ]

module _ (T : TrieLibrary) (laws : Laws T) (hex_encode : Bytes → Bytes)
    (hex_injective : (a b : Bytes) → hex_encode a ≡ hex_encode b → a ≡ b) (is_hash : Bool)
    (l : ℕ) where
  -- Under the laws of the hash and of the encodings, and with an injective text for paths: in
  -- every session, of updates with hashed keys of bytes of one length, of calls of `Get` and `Hash`, of
  -- commits, and of new tries that are opened by the root hash of a commit once its nodes are saved,
  -- with a hash that is not that of the empty trie unless the trie has no nodes, the trie holds
  -- the last value written to each hashed key and nothing else, and is in canonical form.
  pub session-Represents :
      {get_blob : Bytes → Read} {t : MerklePatriciaTrie} {m : Content}
      → Session T hex_encode is_hash l get_blob t m
      → Represents T get_blob is_hash t m × InForm T get_blob l t
  unfolding empty_trie commit_trie
  session-Represents (opened {get_blob = get_blob}) =
      (empty_trie-Represents T get_blob is_hash, (nil, nil_at))
  session-Represents
        (updated {get_blob = get_blob} {t = t} {u = u} {m = m} {key = key} {value = value} before
          bytes len does) =
      let (held, form) = session-Represents before in
      (
        Updates-Represents T get_blob is_hash key value t u m held bytes does,
        Updates-InForm T get_blob is_hash l key value t u held.hashing form bytes len does,
      )
  session-Represents (looked_up {get_blob = get_blob} {t = t} {m = m} fuel key before) =
      let (held, form) = session-Represents before in
      let (u, same) = get_value-tracer T get_blob fuel key t in
      subst (λ v. Represents T get_blob is_hash v m × InForm T get_blob l v) same
        (tracer-Represents T get_blob is_hash t m held u, form)
  session-Represents (hashed {get_blob = get_blob} {t = t} {u = u} {m = m} before hashes) =
      let (held, (s, c)) = session-Represents before in
      let (h, v, c', hashes', holds, form, commits, same_hash, still) =
        hash_trie-commit_trie T get_blob laws hex_encode hex_injective is_hash [] false (2 * l) s t
          m held c in
      let same : v ≡ u = ap (λ r. r.1) (ok_injective (sym hashes' ∙ hashes)) in
      subst (λ v. Represents T get_blob is_hash v m × InForm T get_blob l v) same (holds, (s, form))
  session-Represents
        (went_on {get_blob = get_blob} {after = after} {t = t} {m = m} paths collect_leaf before
          extends) =
      let (held, (s, c)) = session-Represents before in
      (
        grown-Represents T get_blob after is_hash l extends t m _ held,
        (s, extends-Canonical T get_blob after extends c),
      )
  session-Represents
        (reopened {get_blob = get_blob} {after = after} {t = t} {u = u} {m = m} {c = c} paths
          collect_leaf before commits extends saved differs opens) =
      let (held, (s, form)) = session-Represents before in
      let differs : (bytes_eq c.root_hash empty_root_hash ≡ false) ⊎ (s ≡ nil) = elim differs [
        | inl apart ↦ inl apart
        | inr no_root ↦ inr (empty-nil T get_blob after is_hash l extends t form no_root)
      ] in
      let (w, opens', holds, kept) =
        commit_trie-reopens T get_blob laws hex_encode hex_injective is_hash paths collect_leaf
          (2 * l) s t m held form c commits after extends saved differs in
      let same : w ≡ u = returned_injective (sym opens' ∙ opens) in
      subst (λ w. Represents T after is_hash w m × InForm T after l w) same (holds, (s, kept))

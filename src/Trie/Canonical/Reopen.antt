-- ===== src/Trie/Canonical/Reopen.antt =====
-- `Commit` and `New` of pkg/trie/trie.go: a trie that was committed is opened again by its root hash.
use meta_co_sign.Base.{
  ℕ, suc, ◌≡◌, refl, sym, ap, ◌∙◌, subst, ◌⊎◌, inl, inr, Bool, true, false, List, [], ◌∷◌,
}
use meta_co_sign.Bytes.{Bytes, bytes_eq}
use meta_co_sign.Result.{ok}
use meta_co_sign.Store.{Read, found}
use meta_co_sign.Trie.Canonical.{
  Shape, nil, stored_alone, IsHash, Stored, Canonical, nil_at, hash_at, Laws,
}
use meta_co_sign.Trie.Canonical.Commit.{Kept}
use meta_co_sign.Trie.Canonical.Sealed.{hash_of}
use meta_co_sign.Trie.Canonical.Root.{Saved, root-cases, root-CommitsTo}
use meta_co_sign.Trie.Canonical.Served.{Extends}
use meta_co_sign.Trie.Committer.{Committed, commit_empty, commit_root, commit_trie}
use meta_co_sign.Trie.Denotes.{Content, Denotes, nothing, at_hash, resolve_and_track-found}
use meta_co_sign.Trie.Hasher.{as_hash, hash_root, hash_trie}
use meta_co_sign.Trie.Map.{
  MerklePatriciaTrie, returned, empty_root_hash, empty_trie, trie_at, new_trie,
}
use meta_co_sign.Trie.Map.Refinement.{Represents, tracer-Represents}
use meta_co_sign.Trie.Node.{Node, empty, hash_node, TrieLibrary, decode_node}
use meta_co_sign.Trie.Tracer.{new_tracer, on_read}

pub ok_injective : {A : Type 0} {x y : A} → ok x ≡ ok y → x ≡ y
ok_injective e = cc

module _ (T : TrieLibrary) (get_blob : Bytes → Read) where
  -- what is in the database under a hash
  loaded :
      {d : ℕ} {s : Shape} (h : Bytes)
      → Canonical T get_blob d s (hash_node h)
      → (n : Node) × Stored T get_blob h n
        × Canonical T get_blob d s n
        × ((f : Content) → Denotes T get_blob false (hash_node h) f → Denotes T get_blob false n f)
  loaded h (hash_at {n = n} e st c) = (n, st, c, same)
    where
      same : (f : Content) → Denotes T get_blob false (hash_node h) f → Denotes T get_blob false n f
      same f (at_hash {n = other} x bs stored decoded den) =
          let bytes : x ∷ bs ≡ st.head ∷ st.tail =
            (let both : found (x ∷ bs) ≡ found (st.head ∷ st.tail) = sym stored ∙ st.there in cc) in
          let both : ok other ≡ ok n = sym decoded ∙ ap (decode_node T h) bytes ∙ st.decodes in
          let e : other ≡ n = cc in subst (λ n. Denotes T get_blob false n f) e den

  new_trie-found :
      (h : Bytes) (n : Node) (is_hash : Bool) (st : Stored T get_blob h n)
      → bytes_eq h empty_root_hash ≡ false
      → new_trie T get_blob h is_hash
        ≡ returned (record {
          root = n;
          committed = false;
          tracer = on_read [] (st.head ∷ st.tail) new_tracer;
          is_hash = is_hash;
        })
  unfolding new_trie trie_at
  new_trie-found h n is_hash st differs =
      rw
        (
          st.is_hash.not_zero,
          differs,
          resolve_and_track-found T get_blob h st.head st.tail n [] new_tracer st.there st.decodes,
        )
        refl

  empty-Denotes :
      (after : Bytes → Read) (f : Content)
      → Denotes T get_blob false empty f
      → Denotes T after false empty f
  empty-Denotes after f (nothing absent) = nothing absent

  commit_empty-root_hash :
      (hex_encode : Bytes → Bytes) (paths keys : List Bytes)
      → (commit_empty T hex_encode paths keys).root_hash ≡ empty_root_hash
  unfolding commit_empty
  commit_empty-root_hash hex_encode [] keys = refl
  commit_empty-root_hash hex_encode (path ∷ paths) keys = refl

  new_trie-empty :
      (is_hash : Bool) → new_trie T get_blob empty_root_hash is_hash ≡ returned (empty_trie is_hash)
  unfolding new_trie bytes_eq
  new_trie-empty is_hash = refl

  pub root-Represents :
      (is_hash : Bool) (t : MerklePatriciaTrie) (m : Content) (after : Bytes → Read)
      (u : MerklePatriciaTrie) (held : Represents T get_blob is_hash t m)
      → u.committed ≡ false
      → u.is_hash ≡ is_hash
      → Denotes T after false u.root held.content
      → Represents T after is_hash u m
  root-Represents is_hash t m after u held open_to_use hashing den = record {
    open_to_use = open_to_use;
    hashing = hashing;
    content = held.content;
    denotes = den;
    agrees = held.agrees;
    only_keys = held.only_keys;
  }

module _ (T : TrieLibrary) (get_blob : Bytes → Read) (laws : Laws T) (hex_encode : Bytes → Bytes)
    (hex_injective : (a b : Bytes) → hex_encode a ≡ hex_encode b → a ≡ b) where
  module _ (is_hash : Bool) (paths : List Bytes) (collect_leaf : Bool) (d : ℕ) (s : Shape)
      (t : MerklePatriciaTrie) (m : Content) (held : Represents T get_blob is_hash t m)
      (canonical : Canonical T get_blob (suc d) s t.root) where
    hash_trie-empty : t.root ≡ empty → hash_trie T t ≡ ok (empty_root_hash, t)
    unfolding hash_trie hash_root as_hash
    hash_trie-empty e =
        let whole : t ≡ record t { root = empty } = ap (λ n. record t { root = n }) e in
        ap (hash_trie T) whole
        ∙ rw (laws.hash_of_32 empty_root_hash refl) (ap (λ u. ok (empty_root_hash, u)) (sym whole))

    -- Under the laws of the hash and of the encodings, and with an injective text for paths: a
    -- trie in canonical form holds a map. `Hash` and `Commit` return the same root hash, the trie
    -- holds the same map after either, and after `Hash` it is in canonical form.
    pub hash_trie-commit_trie :
        (h : Bytes) × (u : MerklePatriciaTrie) × (c : Committed) × (hash_trie T t ≡ ok (h, u))
        × Represents T get_blob is_hash u m
        × Canonical T get_blob (suc d) s u.root
        × ((commit_trie T hex_encode paths collect_leaf t).0 ≡ ok c)
        × (c.root_hash ≡ h)
        × Represents T get_blob is_hash (commit_trie T hex_encode paths collect_leaf t).1 m
    unfolding commit_trie hash_of
    hash_trie-commit_trie = elim (root-cases T get_blob canonical) [
      | inl alone ↦
          let (kept, hashes, same, form, (c, commits, h, is, keeps)) =
            root-CommitsTo T get_blob laws hex_encode hex_injective paths collect_leaf (suc d) s t
              canonical alone in
          (
            hash_of kept,
            record t { root = kept },
            c,
            hashes,
            root-Represents T get_blob is_hash t m get_blob (record t { root = kept }) held
                held.open_to_use held.hashing (same false held.content held.denotes),
            form,
            commits,
            h,
            tracer-Represents T get_blob is_hash t m held _,
          )
      | inr (_, e) ↦ (
        empty_root_hash,
        t,
        commit_empty T hex_encode paths t.tracer.old_keys,
        hash_trie-empty e,
        held,
        canonical,
        ap (λ n. commit_root T hex_encode paths collect_leaf n t) e,
        commit_empty-root_hash T get_blob hex_encode paths t.tracer.old_keys,
        tracer-Represents T get_blob is_hash t m held _,
      )
    ]

    abbrev Reopens : Committed → Type 0
    Reopens c =
        (after : Bytes → Read)
        → Extends get_blob after
        → Saved hex_encode after c.node_set
        → bytes_eq c.root_hash empty_root_hash ≡ false ⊎ (s ≡ nil)
        → (u : MerklePatriciaTrie) × (new_trie T after c.root_hash is_hash ≡ returned u)
          × Represents T after is_hash u m
          × Canonical T after (suc d) s u.root

    alone-Reopens :
        (c : Committed)
        → IsHash T c.root_hash
        → ((after : Bytes → Read)
            → Extends get_blob after
            → Saved hex_encode after c.node_set
            → Kept T get_blob after (suc d) s t.root (hash_node c.root_hash))
        → stored_alone s ≡ true
        → Reopens c
    alone-Reopens c is keeps alone after extends saved differs =
        let differs : bytes_eq c.root_hash empty_root_hash ≡ false = elim differs [
          | inl apart ↦ apart
          | inr no_root ↦
              let clash : true ≡ stored_alone nil = sym alone ∙ ap stored_alone no_root in cc
        ] in
        let (denotes, canonical) = keeps after extends saved in
        let (n, st, form, same) = loaded T after c.root_hash canonical in
        let u : MerklePatriciaTrie = record {
          root = n;
          committed = false;
          tracer = on_read [] (st.head ∷ st.tail) new_tracer;
          is_hash = is_hash;
        } in
        (
          u,
          new_trie-found T after c.root_hash n is_hash st differs,
          root-Represents T get_blob is_hash t m after u held refl refl
              (same held.content (denotes false held.content held.denotes)),
          form,
        )

    nil-Reopens :
        (c : Committed) → c.root_hash ≡ empty_root_hash → s ≡ nil → t.root ≡ empty → Reopens c
    unfolding empty_trie
    nil-Reopens c hash_e s_e root_e after extends saved differs = (
      empty_trie is_hash,
      ap (λ h. new_trie T after h is_hash) hash_e ∙ new_trie-empty T after is_hash,
      root-Represents T get_blob is_hash t m after (empty_trie is_hash) held refl refl (
          empty-Denotes T get_blob after held.content
            (subst (λ n. Denotes T get_blob false n held.content) root_e held.denotes)),
      subst (λ s. Canonical T after (suc d) s empty) (sym s_e) nil_at,
    )

    -- Under the laws of the hash and of the encodings, and with an injective text for paths: a
    -- trie in canonical form holds a map and was committed, and a database has all that the old
    -- one had and the nodes of the node set. Then `New` opens it with the root hash, which is not
    -- that of the empty trie unless the trie has no nodes, in a trie that holds the same map and
    -- is in canonical form.
    pub commit_trie-reopens :
        (c : Committed)
        → (commit_trie T hex_encode paths collect_leaf t).0 ≡ ok c
        → (after : Bytes → Read) → Extends get_blob after
        → Saved hex_encode after c.node_set
        → (bytes_eq c.root_hash empty_root_hash ≡ false) ⊎ (s ≡ nil)
        → (u : MerklePatriciaTrie) × (new_trie T after c.root_hash is_hash ≡ returned u)
          × Represents T after is_hash u m
          × Canonical T after (suc d) s u.root
    unfolding commit_trie commit_root
    commit_trie-reopens c returns = elim (root-cases T get_blob canonical) [
      | inl alone ↦
          let (kept, hashes, same, form, (other, commits, h, is, keeps)) =
            root-CommitsTo T get_blob laws hex_encode hex_injective paths collect_leaf (suc d) s t
              canonical alone in
          subst Reopens (ok_injective (sym commits ∙ returns)) (alone-Reopens other is keeps alone)
      | inr (s_e, root_e) ↦
          let is : commit_empty T hex_encode paths t.tracer.old_keys ≡ c =
            ok_injective
              (sym (ap (λ n. commit_root T hex_encode paths collect_leaf n t) root_e) ∙ returns) in
          nil-Reopens c
            (ap (λ c. c.root_hash) (sym is)
              ∙ commit_empty-root_hash T get_blob hex_encode paths t.tracer.old_keys)
            s_e root_e
    ]

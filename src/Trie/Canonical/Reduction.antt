-- ===== src/Trie/Canonical/Reduction.antt =====
-- The shortest forms that `delete` of pkg/trie/trie.go makes are canonical.
use meta_co_sign.Base.{
  ℕ, suc, ◌+◌, ◌<◌, ◌≡◌, ◌≢◌, refl, sym, ◌∙◌, subst, inl, Bool, true, false, [], ◌∷◌, ◌++◌, ◌==◌,
  arith, length, length-append,
}
use meta_co_sign.Bytes.{Bytes}
use meta_co_sign.Store.{Read}
use meta_co_sign.Trie.Canonical.{
  is_direct, Shape, short, full, below, occupied, Canonical, nil_at, leaf_at, short_at, full_at,
  hash_at,
}
use meta_co_sign.Trie.Canonical.Depth.{stored_alone-occupied}
use meta_co_sign.Trie.Deletion.{merge_short, join_child}
use meta_co_sign.Trie.Denotes.{resolve_and_track-found}
use meta_co_sign.Trie.Node.{Node, empty, hash_node, short_node, new_flag, TrieLibrary}
use meta_co_sign.Trie.Operations.{resolve}
use meta_co_sign.Trie.Operations.Steps.{Returns, ◌>>=◌}
use meta_co_sign.Trie.Paths.{Ends, append-Ends}
use meta_co_sign.Trie.Tracer.{Tracer, on_read}

module _ (T : TrieLibrary) (get_blob : Bytes → Read) where
  -- The result stands where a node of this shape stood: a full node leaves something, and a changed
  -- node is not a hash.
  abbrev pub Shrunk : ℕ → Shape → Bool × Node → Type 0
  Shrunk d s a =
      (s' : Shape) × (s ≡ full → occupied s' ≡ true)
      × (a.0 ≡ true → is_direct a.1 ≡ true)
      × Canonical T get_blob d s' a.1

  pub Canonical-occupied :
      {d : ℕ} {s : Shape} {n : Node} → Canonical T get_blob d s n → n ≢ empty → occupied s ≡ true
  Canonical-occupied nil_at h = absurd (h refl)
  Canonical-occupied leaf_at h = refl
  Canonical-occupied (short_at b path len c flag) h = refl
  Canonical-occupied (full_at shape e each last two flag) h = refl
  Canonical-occupied (hash_at a st c) h = stored_alone-occupied _ a

  pub occupied-there :
      {d : ℕ} {s : Shape} {n : Node} → Canonical T get_blob d s n → occupied s ≡ true → n ≢ empty
  occupied-there nil_at o e = cc
  occupied-there leaf_at o e = cc
  occupied-there (short_at b path len c flag) o e = cc
  occupied-there (full_at shape len each last two flag) o e = cc
  occupied-there (hash_at a st c) o e = cc

  -- A short node over a short node is one short node.
  joined :
      (d m r : ℕ) (s : Shape) (x : ℕ) (key : Bytes) (y : ℕ) (ck : Bytes) (grandchild : Node)
      → below s ≡ true
      → Ends false (x ∷ key) false
      → length (x ∷ key) + d ≡ m
      → Ends false (y ∷ ck) (r == 0)
      → length (y ∷ ck) + r ≡ d
      → Canonical T get_blob r s grandchild
      → Canonical T get_blob m short (short_node ((x ∷ key) ++ (y ∷ ck)) grandchild new_flag)
  joined d m r s x key y ck grandchild b path len path' len' c =
      short_at b (append-Ends false false (x ∷ key) (y ∷ ck) (r == 0) path path')
        (omega (arith, len, len', length-append (x ∷ key) (y ∷ ck))) c (inl refl)

  pub merge_short-Shrunk :
      {d : ℕ} {s : Shape} {n : Node}
      → Canonical T get_blob d s n
      → (m x : ℕ) (key prefix : Bytes) (t : Tracer) → occupied s ≡ true
      → is_direct n ≡ true
      → Ends false (x ∷ key) (d == 0)
      → length (x ∷ key) + d ≡ m
      → Returns (Shrunk m short) (merge_short prefix (x ∷ key) n t)
  unfolding merge_short
  merge_short-Shrunk nil_at m x key prefix t o direct path len = cc
  merge_short-Shrunk leaf_at m x key prefix t o direct path len =
      (short, λ e. cc, λ e. refl, short_at refl path len leaf_at (inl refl))
  merge_short-Shrunk
        (short_at {d = r} {m = d} {s = s} {x = y} {key = ck} {child = grandchild} b path' len' c
          flag)
        m x key prefix t o direct path len =
      let deep : (d == 0) ≡ false = ground (arith, len') in
      (
        short,
        λ e. cc,
        λ e. refl,
        joined d m r s x key y ck grandchild b (subst (λ b. Ends false (x ∷ key) b) deep path) len
            path' len' c,
      )
  merge_short-Shrunk (full_at shape e each last two flag) m x key prefix t o direct path len = (
    short,
    λ e. cc,
    λ e. refl,
    short_at refl path len (full_at shape e each last two flag) (inl refl),
  )
  merge_short-Shrunk (hash_at a st c) m x key prefix t o direct path len = cc

  -- The last child, and what it is loaded as.
  join_child-Shrunk :
      {d : ℕ} {s : Shape} {n : Node}
      → Canonical T get_blob d s n
      → (m pos : ℕ) (child : Node) (prefix : Bytes) (t : Tracer) → occupied s ≡ true
      → is_direct n ≡ true
      → Canonical T get_blob d s child
      → pos < 16
      → (d == 0) ≡ false
      → suc d ≡ m
      → Returns (Shrunk m full) (join_child prefix child pos n t)
  unfolding join_child
  join_child-Shrunk nil_at m pos child prefix t o direct c small deep e = cc
  join_child-Shrunk leaf_at m pos child prefix t o direct c small deep e = cc
  join_child-Shrunk
        (short_at {d = r} {m = d} {s = s} {x = y} {key = ck} {child = grandchild} b path' len' c'
          flag)
        m pos child prefix t o direct c small deep e =
      (
        short,
        λ e. refl,
        λ e. refl,
        joined d m r s pos [] y ck grandchild b (omega arith, ground arith) (omega (arith, e)) path'
            len' c',
      )
  join_child-Shrunk (full_at {m = d} shape len each last two flag) m pos child prefix t o direct c
        small deep e =
      let not_last : (pos == 16) ≡ false = ground arith in
      (
        short,
        λ e. refl,
        λ e. refl,
        short_at refl (omega arith, not_last ∙ sym deep) (omega (arith, e)) c (inl refl),
      )
  join_child-Shrunk (hash_at a st c') m pos child prefix t o direct c small deep e = cc

  pub resolve-join_child :
      {d : ℕ} {s : Shape} {n : Node}
      → Canonical T get_blob d s n
      → (m pos : ℕ) (prefix path_to : Bytes) (t : Tracer) → occupied s ≡ true
      → pos < 16
      → (d == 0) ≡ false
      → suc d ≡ m
      → Returns (Shrunk m full) ((resolve T get_blob n path_to >>= join_child prefix n pos) t)
  unfolding resolve
  resolve-join_child nil_at m pos prefix path_to t o small deep e = cc
  resolve-join_child leaf_at m pos prefix path_to t o small deep e = cc
  resolve-join_child (short_at b path len c flag) m pos prefix path_to t o small deep e =
      join_child-Shrunk (short_at b path len c flag) m pos _ prefix t o refl
        (short_at b path len c flag) small deep e
  resolve-join_child (full_at shape len each last two flag) m pos prefix path_to t o small deep e =
      join_child-Shrunk (full_at shape len each last two flag) m pos _ prefix t o refl
        (full_at shape len each last two flag) small deep e
  resolve-join_child (hash_at {h = h} {n = n} a st c) m pos prefix path_to t o small deep e =
      rw (resolve_and_track-found T get_blob h st.head st.tail n path_to t st.there st.decodes) (
        join_child-Shrunk c m pos (hash_node h) prefix (on_read path_to (st.head ∷ st.tail) t) o
          st.direct (hash_at a st c) small deep e)

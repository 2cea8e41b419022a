-- ===== src/Trie/Canonical/Commit/Short.antt =====
-- `commit` of pkg/trie/committer.go on a short node, and on what stands below it.
use meta_co_sign.Base.{
  ℕ, ◌+◌, ◌≡◌, refl, ap, ◌∙◌, subst, inl, inr, Bool, true, false, ◌∷◌, ◌++◌, ◌==◌, length, arith,
}
use meta_co_sign.Bytes.{Bytes}
use meta_co_sign.Store.{Read}
use meta_co_sign.Trie.Canonical.{
  Shape, short, full, below, stored_alone, IsHash, Stored, Canonical, nil_at, leaf_at, short_at,
  full_at, hash_at, Laws,
}
use meta_co_sign.Trie.Canonical.Commit.{
  Kept, Commits, CommitsBelow, stored, entry-Stored, hash-Kept,
}
use meta_co_sign.Trie.Canonical.Compact.{compact_key, Ends-has_term}
use meta_co_sign.Trie.Canonical.Depth.{Canonical-depth}
use meta_co_sign.Trie.Canonical.Decode.{loaded_flag, short-Writes}
use meta_co_sign.Trie.Canonical.Sealed.{
  hash_of, clean_node, dirty-is_clean, Sealed, sealed_nil, sealed_leaf, sealed_hash, sealed_clean,
  sealed_short, sealed_full,
}
use meta_co_sign.Trie.Canonical.Served.{
  extends-Denotes, Agree-Serves, below-Serves, store-Agree, store-Frame,
}
use meta_co_sign.Trie.Committer.{Fills, commit_below, commit}
use meta_co_sign.Trie.Denotes.{Content, Denotes, at_short, at_hash}
use meta_co_sign.Trie.Marshal.{marshal}
use meta_co_sign.Trie.Node.{
  Node, value_node, hash_node, short_node, full_node, NodeFlag, TrieLibrary, short_value_node,
}
use meta_co_sign.Trie.NodeSet.{NodeSet}
use meta_co_sign.Trie.Paths.{Ends, strip_longer}
use meta_co_sign.Trie.Tracer.{Tracer}

module _ (T : TrieLibrary) (get_blob : Bytes → Read) where
  commit_below-clean :
      {d : ℕ} {s : Shape} {n : Node}
      → Canonical T get_blob d s n
      → below s ≡ true
      → clean_node n ≡ true
      → (path : Bytes) (f : Fills) (set : NodeSet) → commit_below n path f set ≡ f path set
  unfolding commit_below clean_node
  commit_below-clean nil_at b e path f set = cc
  commit_below-clean leaf_at b e path f set = cc
  commit_below-clean (short_at _ way len c flag) b e path f set = cc
  commit_below-clean (full_at shape len each last two flag) b e path f set = refl
  commit_below-clean (hash_at _ st c) b e path f set = cc

  -- The node that was stored stands for the map of the old one.
  short-Kept :
      (after : Bytes → Read) (d m : ℕ) (s : Shape) (x : ℕ) (key : Bytes) (child new : Node)
      (flags : NodeFlag)
      → below s ≡ true
      → Ends false (x ∷ key) (d == 0)
      → length (x ∷ key) + d ≡ m
      → Kept T get_blob after d s child new
      → Stored T after flags.hash (short_node (x ∷ key) new (loaded_flag flags.hash))
      → Kept T get_blob after m short (short_node (x ∷ key) child flags) (hash_node flags.hash)
  short-Kept after d m s x key child new flags e path len (same, c) st =
      (keeps, hash_at refl st (short_at e path len c (inr (inl (refl, st)))))
    where
      keeps :
          (b : Bool) (f : Content)
          → Denotes T get_blob b (short_node (x ∷ key) child flags) f
          → Denotes T after b (hash_node flags.hash) f
      keeps b f (at_short way den miss) =
          at_hash st.head st.tail st.there st.decodes (at_short way (same _ _ den) miss)

module _ (T : TrieLibrary) (get_blob : Bytes → Read) (hex_encode : Bytes → Bytes) (tracer : Tracer)
    (collect_leaf : Bool) where
  alone-CommitsBelow :
      (d : ℕ) (s : Shape) (n : Node)
      → (d == 0) ≡ false
      → ((path : Bytes) (f : Fills) (set : NodeSet) → commit_below n path f set ≡ f path set)
      → Commits T get_blob hex_encode tracer collect_leaf d s n
      → CommitsBelow T get_blob hex_encode tracer collect_leaf d s n
  unfolding marshal short_value_node
  alone-CommitsBelow d s n deep taken commits path set =
      let (next, runs, frame, kept) = commits path set in
      (
        hash_node (hash_of n),
        hash_of n,
        next,
        taken path (λ p r. commit T hex_encode tracer collect_leaf n p r) set ∙ runs,
        refl,
        λ key term. rw (term, deep) refl,
        frame,
        kept,
      )

  pub Sealed-CommitsBelow :
      {d : ℕ} {s : Shape} {n : Node}
      → Sealed T get_blob d s n
      → below s ≡ true
      → (stored_alone s ≡ true → Commits T get_blob hex_encode tracer collect_leaf d s n)
      → CommitsBelow T get_blob hex_encode tracer collect_leaf d s n
  unfolding commit_below marshal short_value_node
  Sealed-CommitsBelow sealed_nil b commits = cc
  Sealed-CommitsBelow (sealed_leaf {v = v}) b commits = λ path set. (
    value_node v,
    v,
    set,
    refl,
    refl,
    λ key term. rw term refl,
    λ q apart. refl,
    λ after extends serves. (λ b f den. extends-Denotes T get_blob after extends den, leaf_at),
  )
  Sealed-CommitsBelow (sealed_hash {d = d} {s = s} {h = h} c) b commits = λ path set. (
    hash_node h,
    h,
    set,
    refl,
    refl,
    λ key term. rw (term, hash-depth d s h c) refl,
    λ q apart. refl,
    λ after extends serves. hash-Kept T get_blob after d s h c extends,
  )
    where
      hash-depth :
          (d : ℕ) (s : Shape) (h : Bytes)
          → Canonical T get_blob d s (hash_node h)
          → (d == 0) ≡ false
      hash-depth d s h (hash_at e st c) = Canonical-depth T get_blob c e
  Sealed-CommitsBelow (sealed_clean {d = d} {s = s} {n = n} e c st clean) b commits =
      alone-CommitsBelow d s n (Canonical-depth T get_blob c e)
        (commit_below-clean T get_blob c b clean) (commits e)
  Sealed-CommitsBelow (sealed_short e path len sealed is dirty) b commits = cc
  Sealed-CommitsBelow
        (sealed_full {m = m} {children = children} {flags = flags} shape len each last two is dirty)
        b commits =
      alone-CommitsBelow m full (full_node children flags) (ground (arith, len))
        (λ path f set. refl) (commits refl)

module _ (T : TrieLibrary) (get_blob : Bytes → Read) (laws : Laws T) (hex_encode : Bytes → Bytes)
    (hex_injective : (a b : Bytes) → hex_encode a ≡ hex_encode b → a ≡ b) (tracer : Tracer)
    (collect_leaf : Bool) where
  pub short-Commits :
      (d m : ℕ) (s : Shape) (x : ℕ) (key : Bytes) (child : Node) (flags : NodeFlag)
      → below s ≡ true
      → Ends false (x ∷ key) (d == 0)
      → length (x ∷ key) + d ≡ m
      → CommitsBelow T get_blob hex_encode tracer collect_leaf d s child
      → IsHash T flags.hash
      → flags.dirty ≡ true
      → Commits T get_blob hex_encode tracer collect_leaf m short (short_node (x ∷ key) child flags)
  unfolding commit hash_of
  short-Commits d m s x key child flags e path len below is dirty p set =
      let (new, b, next, runs, bytes, back, frame, kept) = below (p ++ x ∷ key) set in
      let (y, ys, made, unhex) = compact_key x key (d == 0) path in
      let (head, tail, written, decoded) = short-Writes T laws y ys new flags b bytes in
      let (last, stores, entry) =
        stored T get_blob hex_encode tracer collect_leaf flags.hash p
          (short_node (y ∷ ys) new flags) next (head ∷ tail) is written in
      let at : (q : Bytes) → last.nodes (hex_encode q) ≡ _ =
        λ q. ap (λ nodes. nodes (hex_encode q)) entry in
      (
        last,
        rw (dirty-is_clean flags dirty, runs, made, stores) refl,
        λ q apart.
            store-Frame hex_encode hex_injective p _ next last at q apart
            ∙ frame q (strip_longer p (x ∷ key) q apart),
        λ after extends serves.
            let st =
              entry-Stored T get_blob hex_encode tracer collect_leaf after flags.hash p next last _
                head tail is decoded refl entry serves in
            short-Kept T get_blob after d m s x key child new flags e path len
              (kept after extends (
                Agree-Serves hex_encode after (p ++ x ∷ key) next last
                  (store-Agree hex_encode hex_injective p x key _ next last at)
                  (below-Serves hex_encode after p (x ∷ key) last serves)))
              (subst (λ n. Stored T after flags.hash n)
                (ap (λ k. short_node k (short_value_node T k b) (loaded_flag flags.hash)) unhex
                  ∙ ap (λ n. short_node (x ∷ key) n (loaded_flag flags.hash))
                      (back (x ∷ key) (Ends-has_term (x ∷ key) (d == 0) path)))
                st),
      )

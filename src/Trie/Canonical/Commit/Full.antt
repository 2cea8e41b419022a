-- ===== src/Trie/Canonical/Commit/Full.antt =====
-- `commit` of pkg/trie/committer.go on a full node, and so on every sealed node that is stored on
-- its own.
use meta_co_sign.Base.{
  ℕ, suc, ◌<◌, ◌≡◌, refl, sym, ap, ◌∙◌, subst, inl, inr, Bool, true, false, [], ◌∷◌, ◌++◌, ◌==◌,
  ==_iff, Bool-cases, arith,
}
use meta_co_sign.Bytes.{Bytes}
use meta_co_sign.Store.{Read}
use meta_co_sign.Trie.Canonical.{
  Shape, full, stored_alone, Two, IsHash, Stored, full_at, hash_at, Laws,
}
use meta_co_sign.Trie.Canonical.Commit.{
  Kept, Commits, stored, entry-Stored, clean-Commits, commit_full-eq, hash-Kept,
}
use meta_co_sign.Trie.Canonical.Commit.Children.{FillsKid, Sealed-FillsKid, commit_children-all}
use meta_co_sign.Trie.Canonical.Commit.Short.{Sealed-CommitsBelow, short-Commits}
use meta_co_sign.Trie.Canonical.Decode.{loaded_flag, IsKid, full-Writes}
use meta_co_sign.Trie.Canonical.Sealed.{
  hash_of, dirty-is_clean, Sealed, sealed_nil, sealed_leaf, sealed_hash, sealed_clean, sealed_short,
  sealed_full,
}
use meta_co_sign.Trie.Canonical.Served.{
  Extends, extends-Denotes, Agree-Serves, below-Serves, store-Agree, store-Frame,
}
use meta_co_sign.Trie.Committer.{commit_child, commit}
use meta_co_sign.Trie.Denotes.{Content, Denotes, at_full, at_hash}
use meta_co_sign.Trie.Node.{Node, empty, hash_node, full_node, NodeFlag, set_child, TrieLibrary}
use meta_co_sign.Trie.Paths.{strip_longer}
use meta_co_sign.Trie.Tracer.{Tracer}

-- A property of the child 16 and of the others is one of all.
up_to_16 : (P : ℕ → Type 0) → P 16 → ((i : ℕ) → i < 16 → P i) → (i : ℕ) → i < 17 → P i
up_to_16 P last before i small = elim (Bool-cases (i == 16)) [
  | inl at ↦ subst P (sym ((==_iff i 16).0 at)) last
  | inr apart ↦ before i (ground arith)
]

module _ (T : TrieLibrary) (get_blob : Bytes → Read) where
  full-Kept :
      (after : Bytes → Read) (d m : ℕ) (shape : ℕ → Shape) (children all : ℕ → Node)
      (flags : NodeFlag)
      → suc (suc d) ≡ m
      → Two shape
      → children 16 ≡ empty
      → all 16 ≡ empty
      → Extends get_blob after
      → ((i : ℕ) → i < 16 → Kept T get_blob after (suc d) (shape i) (children i) (all i))
      → Stored T after flags.hash (full_node all (loaded_flag flags.hash))
      → Kept T get_blob after m full (full_node children flags) (hash_node flags.hash)
  full-Kept after d m shape children all flags e two last all_last extends each st = (
    keeps,
    hash_at refl st
        (full_at shape e (λ i small. (each i small).1) all_last two (inr (inl (refl, st)))),
  )
    where
      child :
          (i : ℕ)
          → i < 17
          → (b : Bool) (f : Content) → Denotes T get_blob b (children i) f
          → Denotes T after b (all i) f
      child =
          up_to_16
            (λ i.
              (b : Bool) (f : Content)
              → Denotes T get_blob b (children i) f
              → Denotes T after b (all i) f)
            (λ b f den.
              subst (λ n. Denotes T after b n f) (last ∙ sym all_last)
                (extends-Denotes T get_blob after extends den))
            (λ i small. (each i small).0)

      keeps :
          (b : Bool) (f : Content)
          → Denotes T get_blob b (full_node children flags) f
          → Denotes T after b (hash_node flags.hash) f
      keeps b f (at_full den) =
          at_hash st.head st.tail st.there st.decodes
            (at_full λ i small. child i small _ _ (den i small))

module _ (T : TrieLibrary) (get_blob : Bytes → Read) (laws : Laws T) (hex_encode : Bytes → Bytes)
    (hex_injective : (a b : Bytes) → hex_encode a ≡ hex_encode b → a ≡ b) (tracer : Tracer)
    (collect_leaf : Bool) where
  full-Commits :
      (d m : ℕ) (shape : ℕ → Shape) (children : ℕ → Node) (flags : NodeFlag)
      → suc (suc d) ≡ m
      → Two shape
      → children 16 ≡ empty
      → ((i : ℕ)
          → i < 16
          → FillsKid T get_blob hex_encode tracer collect_leaf (suc d) (shape i) (children i) (
              commit_child
                (children i)
                (λ p s. commit T hex_encode tracer collect_leaf (children i) p s)))
      → IsHash T flags.hash
      → flags.dirty ≡ true
      → Commits T get_blob hex_encode tracer collect_leaf m full (full_node children flags)
  unfolding hash_of
  full-Commits d m shape children flags e two last each is dirty p set =
      let (kids, next, runs, frame, inside, _) =
        commit_children-all T get_blob hex_encode tracer collect_leaf (suc d) shape children
          (λ i.
            commit_child (children i)
              (λ p s. commit T hex_encode tracer collect_leaf (children i) p s))
          p 16 0 (λ i. empty) set (λ j low high. each j high) in
      let collapsed : ℕ → Node = set_child kids 16 (children 16) in
      let (all, (head, tail, written, decoded), same) =
        full-Writes T laws collapsed
          (up_to_16 (λ i. IsKid T (collapsed i)) (inl last)
            (λ i small.
              let apart : (16 == i) ≡ false = ground arith in
              rw apart (inside i (omega arith) small).0))
          flags in
      let (final, stores, entry) =
        stored T get_blob hex_encode tracer collect_leaf flags.hash p (full_node collapsed flags)
          next (head ∷ tail) is written in
      let at : (q : Bytes) → final.nodes (hex_encode q) ≡ _ =
        λ q. ap (λ nodes. nodes (hex_encode q)) entry in
      let all_kids : (i : ℕ) → i < 16 → kids i ≡ all i = λ i small.
        let apart : (16 == i) ≡ false = ground arith in
        sym (same i (omega arith) ∙ rw apart refl) in
      (
        final,
        commit_full-eq T get_blob hex_encode tracer collect_leaf children flags p set
            ∙ rw (dirty-is_clean flags dirty, runs, stores) refl,
        λ q apart.
            store-Frame hex_encode hex_injective p _ next final at q apart
            ∙ frame q (λ j low high. strip_longer p (j ∷ []) q apart),
        λ after extends serves.
            full-Kept T get_blob after d m shape children all flags e two last
              (same 16 (omega arith) ∙ last) extends
              (λ i small.
                subst (λ n. Kept T get_blob after (suc d) (shape i) (children i) n)
                  (all_kids i small)
                  ((inside i (omega arith) small).1 after extends (
                    Agree-Serves hex_encode after (p ++ i ∷ []) next final
                      (store-Agree hex_encode hex_injective p i [] _ next final at)
                      (below-Serves hex_encode after p (i ∷ []) final serves))))
              (entry-Stored T get_blob hex_encode tracer collect_leaf after flags.hash p next final
                _ head tail is decoded refl entry serves),
      )

  -- A sealed node that is stored on its own is committed.
  pub Sealed-Commits :
      {d : ℕ} {s : Shape} {n : Node}
      → Sealed T get_blob d s n
      → stored_alone s ≡ true
      → Commits T get_blob hex_encode tracer collect_leaf d s n
  unfolding hash_of commit
  Sealed-Commits sealed_nil a = cc
  Sealed-Commits sealed_leaf a = cc
  Sealed-Commits (sealed_hash {d = d} {s = s} {h = h} c) a = λ path set. (
    set,
    refl,
    λ q apart. refl,
    λ after extends serves. hash-Kept T get_blob after d s h c extends,
  )
  Sealed-Commits (sealed_clean e c st clean) a =
      clean-Commits T get_blob hex_encode tracer collect_leaf e c st clean
  Sealed-Commits
        (sealed_short {d = d} {m = m} {s = s} {x = x} {key = key} {child = child} {flags = flags} e
          path len sealed is dirty)
        a =
      short-Commits T get_blob laws hex_encode hex_injective tracer collect_leaf d m s x key child
        flags e path len
        (Sealed-CommitsBelow T get_blob hex_encode tracer collect_leaf sealed e
          (λ alone. Sealed-Commits sealed alone))
        is dirty
  Sealed-Commits
        (sealed_full {d = d} {m = m} {children = children} {flags = flags} shape e each last two is
          dirty)
        a =
      full-Commits d m shape children flags e two last
        (λ i small.
          Sealed-FillsKid T get_blob hex_encode tracer collect_leaf (each i small) (ground arith)
            (λ alone. Sealed-Commits (each i small) alone))
        is dirty

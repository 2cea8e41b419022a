-- ===== src/Trie/Canonical/Commit/Children.antt =====
-- `commitChildren` of pkg/trie/committer.go: what is left of each child, and in the node set behind
-- the paths of the children.
use meta_co_sign.Base.{
  ℕ, zero, suc, ◌+◌, ◌<◌, ◌≤◌, ◌≡◌, refl, sym, ap, ◌∙◌, subst, inl, inr, Bool, true, false, none,
  [], ◌∷◌, ◌++◌, ◌==◌, ==_iff, Bool-cases, arith, replicate,
}
use meta_co_sign.Bytes.{Bytes, bytes_eq}
use meta_co_sign.Result.{ok}
use meta_co_sign.Store.{Read}
use meta_co_sign.Trie.Canonical.{
  Shape, short, full, stored_alone, IsHash, Canonical, nil_at, hash_at,
}
use meta_co_sign.Trie.Canonical.Commit.{KeptBy, Commits, hash-Kept}
use meta_co_sign.Trie.Canonical.Decode.{IsKid}
use meta_co_sign.Trie.Canonical.Sealed.{
  hash_of, clean_node, Sealed, sealed_nil, sealed_leaf, sealed_hash, sealed_clean, sealed_short,
  sealed_full,
}
use meta_co_sign.Trie.Canonical.Served.{extends-Denotes, Frame, Agree-Serves, sibling}
use meta_co_sign.Trie.Committer.{Fills, commit_child, commit_children, commit}
use meta_co_sign.Trie.Node.{
  Node, empty, value_node, hash_node, short_node, full_node, set_child, TrieLibrary,
}
use meta_co_sign.Trie.NodeSet.{NodeSet}
use meta_co_sign.Trie.Paths.{strip}
use meta_co_sign.Trie.Tracer.{Tracer}

commit_child-clean : (n : Node) (f : Fills) → clean_node n ≡ true → commit_child n f ≡ f
unfolding commit_child clean_node
commit_child-clean empty f e = cc
commit_child-clean (value_node v) f e = cc
commit_child-clean (hash_node h) f e = cc
commit_child-clean (short_node key child flags) f e = refl
commit_child-clean (full_node children flags) f e = refl

module _ (T : TrieLibrary) (get_blob : Bytes → Read) where
  pub Sealed-IsHash :
      {d : ℕ} {s : Shape} {n : Node}
      → Sealed T get_blob d s n
      → stored_alone s ≡ true
      → IsHash T (hash_of n)
  unfolding hash_of
  Sealed-IsHash sealed_nil e = cc
  Sealed-IsHash sealed_leaf e = cc
  Sealed-IsHash (sealed_hash (hash_at e st c)) _ = st.is_hash
  Sealed-IsHash (sealed_clean e c st clean) _ = st.is_hash
  Sealed-IsHash (sealed_short b path len sealed is dirty) _ = is
  Sealed-IsHash (sealed_full shape e each last two is dirty) _ = is

  hash-IsKid : (h : Bytes) → IsHash T h → IsKid T (hash_node h)
  hash-IsKid h is = inr (h, refl, ap (λ b. bytes_eq b (replicate 32 0)) is.normal ∙ is.not_zero)

module _ (T : TrieLibrary) (get_blob : Bytes → Read) (hex_encode : Bytes → Bytes) (tracer : Tracer)
    (collect_leaf : Bool) where
  -- A call leaves nil or a hash, which stands for the child.
  abbrev pub FillsKid : ℕ → Shape → Node → Fills → Type 0
  FillsKid d s n fill =
      (path : Bytes) (set : NodeSet)
      → (new : Node) × (next : NodeSet) × (fill path set ≡ ok (new, next))
        × Frame hex_encode path set next
        × IsKid T new
        × KeptBy T get_blob hex_encode tracer collect_leaf path next d s n new

  alone-FillsKid :
      (d : ℕ) (s : Shape) (n : Node) (fill : Fills)
      → IsHash T (hash_of n)
      → fill ≡ (λ p r. commit T hex_encode tracer collect_leaf n p r)
      → Commits T get_blob hex_encode tracer collect_leaf d s n
      → FillsKid d s n fill
  alone-FillsKid d s n fill is e commits path set =
      let (next, runs, frame, kept) = commits path set in
      (
        hash_node (hash_of n),
        next,
        ap (λ f. f path set) e ∙ runs,
        frame,
        hash-IsKid T get_blob (hash_of n) is,
        kept,
      )

  pub Sealed-FillsKid :
      {d : ℕ} {s : Shape} {n : Node}
      → Sealed T get_blob d s n
      → (d == 0) ≡ false
      → (stored_alone s ≡ true → Commits T get_blob hex_encode tracer collect_leaf d s n)
      → FillsKid d s n (commit_child n (λ p r. commit T hex_encode tracer collect_leaf n p r))
  unfolding commit_child hash_of
  Sealed-FillsKid sealed_nil deep commits = λ path set. (
    empty,
    set,
    refl,
    λ q apart. refl,
    inl refl,
    λ after extends serves. (λ b f den. extends-Denotes T get_blob after extends den, nil_at),
  )
  Sealed-FillsKid sealed_leaf deep commits = cc
  Sealed-FillsKid (sealed_hash {d = d} {s = s} {h = h} c) deep commits = λ path set. (
    hash_node h,
    set,
    refl,
    λ q apart. refl,
    hash-IsKid T get_blob h (is_hash d s h c),
    λ after extends serves. hash-Kept T get_blob after d s h c extends,
  )
    where
      is_hash :
          (d : ℕ) (s : Shape) (h : Bytes) → Canonical T get_blob d s (hash_node h) → IsHash T h
      is_hash d s h (hash_at e st c) = st.is_hash
  Sealed-FillsKid (sealed_clean {d = d} {s = s} {n = n} e c st clean) deep commits =
      alone-FillsKid d s n _ st.is_hash (commit_child-clean n _ clean) (commits e)
  Sealed-FillsKid
        (sealed_short {m = m} {x = x} {key = key} {child = child} {flags = flags} e path len sealed
          is dirty)
        deep commits =
      alone-FillsKid m short (short_node (x ∷ key) child flags) _ is refl (commits refl)
  Sealed-FillsKid
        (sealed_full {m = m} {children = children} {flags = flags} shape len each last two is dirty)
        deep commits =
      alone-FillsKid m full (full_node children flags) _ is refl (commits refl)

  -- Nothing else changes than what is behind one of the children.
  abbrev pub FrameAll : Bytes → ℕ → ℕ → NodeSet → NodeSet → Type 0
  FrameAll path i stop set last =
      (q : Bytes)
      → ((j : ℕ) → i ≤ j → j < stop → strip (path ++ j ∷ []) q ≡ none)
      → last.nodes (hex_encode q) ≡ set.nodes (hex_encode q)

  module _ (d : ℕ) (shape : ℕ → Shape) (children : ℕ → Node) (fill : ℕ → Fills) (path : Bytes) where
    abbrev pub IsFilled : NodeSet → ℕ → Node → Type 0
    IsFilled last j kid =
        IsKid T kid
        × KeptBy T get_blob hex_encode tracer collect_leaf (path ++ j ∷ []) last d (shape j)
            (children j) kid

    pub commit_children-all :
        (rounds i : ℕ) (hashed : ℕ → Node) (set : NodeSet)
        → ((j : ℕ) → i ≤ j → j < i + rounds → FillsKid d (shape j) (children j) (fill j))
        → (kids : ℕ → Node) × (last : NodeSet) × (commit_children rounds i fill path hashed set
            ≡ ok (kids, last))
          × FrameAll path i (i + rounds) set last
          × ((j : ℕ) → i ≤ j → j < i + rounds → IsFilled last j (kids j))
          × ((j : ℕ) → j < i → kids j ≡ hashed j)
    unfolding commit_children
    commit_children-all zero i hashed set each =
        (hashed, set, refl, λ q apart. refl, λ j low high. absurd (omega arith), λ j low. refl)
    commit_children-all (suc rounds) i hashed set each =
        let (new, next, first, frame, is_kid, kept) =
          each i (omega arith) (omega arith) (path ++ i ∷ []) set in
        let (kids, last, rest, frames, inside, outside) =
          commit_children-all rounds (suc i) (set_child hashed i new) next
            (λ j low high. each j (omega arith) (omega arith)) in
        let same : (i == i) ≡ true = (==_iff i i).1 refl in
        let here : kids i ≡ new = outside i (omega arith) ∙ rw same refl in
        (
          kids,
          last,
          rw first rest,
          λ q apart.
              frames q (λ j low high. apart j (omega arith) (omega arith))
              ∙ frame q (apart i (omega arith) (omega arith)),
          λ j low high. elim (Bool-cases (i == j)) [
            | inl at ↦
                subst (λ j. IsFilled last j (kids j)) ((==_iff i j).0 at)
                  (subst (IsFilled last i) (sym here) (
                    is_kid,
                    λ after extends serves. kept after extends (
                        Agree-Serves hex_encode after (path ++ i ∷ []) next last
                          (λ q.
                            frames ((path ++ i ∷ []) ++ q)
                              (λ j low high. sibling hex_encode path j i q (ground arith)))
                          serves),
                  ))
            | inr apart ↦ inside j (ground arith) (omega arith)
          ],
          λ j low.
              outside j (omega arith)
              ∙ (let apart : (i == j) ≡ false = ground arith in rw apart refl),
        )

-- ===== src/Trie/Canonical/Decode.antt =====
-- A collapsed node that was written is decoded again: pkg/trie/node/short_node.go and full_node.go.
use meta_co_sign.Base.{
  ℕ, zero, suc, ◌+◌, ◌<◌, ◌≤◌, ◌≡◌, refl, sym, ap, ◌∙◌, subst, ◌⊎◌, inl, inr, true, false, some,
  List, [], ◌∷◌, ◌==◌, ==_iff, Bool-cases, replicate, arith, lt→ltb,
}
use meta_co_sign.Bytes.{Bytes, bytes_eq, bytes_eq_refl}
use meta_co_sign.Result.{ok}
use meta_co_sign.Trie.Canonical.{Laws}
use meta_co_sign.Trie.Marshal.{
  marshal, marshal_typed, marshal_children, child_bytes, bytes_or_nil, node_to_bytes,
}
use meta_co_sign.Trie.Nibbles.{compact_to_hex}
use meta_co_sign.Trie.Node.{
  Node, empty, value_node, hash_node, short_node, full_node, NodeFlag, set_child, TrieLibrary,
  MptNodeType, short_type, full_type, unmarshal_child, unmarshal_children, unmarshal_full,
  unmarshal_short, short_value_node, decode_parts, decode_message, decode_node, MptShortNode,
}

-- the flag of a node that was loaded by this hash
abbrev pub loaded_flag : Bytes → NodeFlag
loaded_flag h = record { hash = h; dirty = false }

-- The bytes of a node are not empty, and give `back` for any hash.
abbrev pub Writes : TrieLibrary → Node → (Bytes → Node) → Type 0
Writes T n back =
    (head : ℕ) × (tail : Bytes) × (node_to_bytes T n ≡ ok (head ∷ tail))
    × ((h : Bytes) → decode_node T h (head ∷ tail) ≡ ok (back h))

-- what a full node has after its children were collapsed
abbrev pub IsKid : TrieLibrary → Node → Type 0
IsKid T n =
    (n ≡ empty)
    ⊎ ((h : Bytes) × (n ≡ hash_node h) × (bytes_eq (T.bytes_to_hash h) (replicate 32 0) ≡ false))

module _ (T : TrieLibrary) (laws : Laws T) where
  typed :
      (t : MptNodeType) (b : ℕ) (bs : Bytes)
      → (head : ℕ) × (tail : Bytes) × (marshal_typed T t (some (b ∷ bs)) ≡ ok (head ∷ tail))
        × ((h : Bytes) → decode_node T h (head ∷ tail) ≡ decode_parts T h t (b ∷ bs))
  unfolding marshal_typed decode_node decode_message
  typed t b bs =
      let (head, tail, e) =
        laws.marshals_node (record { node_type = t; node_bytes = b ∷ bs }) b bs refl in
      (
        head,
        tail,
        rw e refl,
        λ h.
            rw
              (T.mpt_node.unmarshal-marshal (record { node_type = t; node_bytes = b ∷ bs })
                (head ∷ tail) e)
              refl,
      )

  pub short-Writes :
      (y : ℕ) (ys : Bytes) (child : Node) (flags : NodeFlag) (b : Bytes)
      → marshal T child ≡ ok b
      → Writes T (short_node (y ∷ ys) child flags) (λ h.
        short_node
          (compact_to_hex (y ∷ ys))
          (short_value_node T (compact_to_hex (y ∷ ys)) b)
          (loaded_flag h))
  unfolding node_to_bytes marshal bytes_or_nil decode_parts unmarshal_short
  short-Writes y ys child flags b e =
      let m : MptShortNode = record { short_key = y ∷ ys; short_value = b } in
      let (z, zs, made) = laws.marshals_short m y ys refl in
      let (head, tail, wrapped, back) = typed short_type z zs in
      (
        head,
        tail,
        rw (e, made, wrapped) refl,
        λ h. back h ∙ rw (T.mpt_short_node.unmarshal-marshal m (z ∷ zs) made) refl,
      )

  abbrev buf : Node → Bytes
  buf empty = replicate 32 0
  buf (value_node v) = v
  buf (hash_node h) = h
  buf (short_node key child flags) = []
  buf (full_node children flags) = []

  module _ (kids : ℕ → Node) (is_kid : (i : ℕ) → i < 17 → IsKid T (kids i)) where
    bufs : ℕ → ℕ → List Bytes
    bufs zero i = []
    bufs (suc rounds) i = buf (kids i) ∷ bufs rounds (suc i)

    kid_bytes : (i : ℕ) → i < 17 → child_bytes (kids i) (marshal T (kids i)) ≡ ok (buf (kids i))
    unfolding child_bytes marshal
    kid_bytes i small = elim (is_kid i small) [
      | inl e ↦ rw e refl
      | inr (h, e, nonzero) ↦ rw e refl
    ]

    marshal-bufs :
        (rounds i : ℕ)
        → i + rounds ≡ 17
        → marshal_children rounds i (λ i. child_bytes (kids i) (marshal T (kids i)))
          ≡ ok (bufs rounds i)
    unfolding marshal_children bufs
    marshal-bufs zero i e = refl
    marshal-bufs (suc rounds) i e =
        rw (kid_bytes i (omega arith), marshal-bufs rounds (suc i) (omega arith)) refl

    unmarshal-kid :
        (i : ℕ) (children : ℕ → Node)
        → i < 17
        → children i ≡ empty
        → (next : ℕ → Node) × (unmarshal_child T i (buf (kids i)) children ≡ ok next)
          × (next i ≡ kids i)
          × ((j : ℕ) → (i == j) ≡ false → next j ≡ children j)
    unfolding unmarshal_child
    unmarshal-kid i children small none_yet = elim (is_kid i small) [
      | inl e ↦ (
        children,
        rw (e, laws.hash_of_32 (replicate 32 0) refl, bytes_eq_refl (replicate 32 0)) refl,
        none_yet ∙ sym e,
        λ j apart. refl,
      )
      | inr (h, e, nonzero) ↦
          let same : (i == i) ≡ true = (==_iff i i).1 refl in
          (
            set_child children i (hash_node h),
            rw (e, nonzero, lt→ltb i 17 small) refl,
            rw (same, e) refl,
            λ j apart. rw apart refl,
          )
    ]

    unmarshal-bufs :
        (rounds i : ℕ) (children : ℕ → Node)
        → i + rounds ≡ 17
        → ((j : ℕ) → i ≤ j → children j ≡ empty)
        → (all : ℕ → Node) × (unmarshal_children T i (bufs rounds i) children ≡ ok all)
          × ((j : ℕ) → i ≤ j → j < 17 → all j ≡ kids j)
          × ((j : ℕ) → j < i → all j ≡ children j)
    unfolding unmarshal_children bufs
    unmarshal-bufs zero i children e none_yet =
        (children, refl, λ j low high. absurd (omega arith), λ j low. refl)
    unmarshal-bufs (suc rounds) i children e none_yet =
        let (next, reads, here, others) =
          unmarshal-kid i children (omega arith) (none_yet i (omega arith)) in
        let (all, rest, inside, outside) =
          unmarshal-bufs rounds (suc i) next (omega arith)
            (λ j low. others j (ground arith) ∙ none_yet j (omega arith)) in
        (
          all,
          rw reads rest,
          λ j low high. elim (Bool-cases (i == j)) [
            | inl at ↦
                subst (λ j. all j ≡ kids j) ((==_iff i j).0 at) (outside i (omega arith) ∙ here)
            | inr apart ↦ inside j (ground arith) high
          ],
          λ j low. outside j (omega arith) ∙ others j (ground arith),
        )

    bufs-cons : bufs 17 0 ≡ buf (kids 0) ∷ bufs 16 1
    unfolding bufs
    bufs-cons = refl

    marshal_full :
        (flags : NodeFlag) (z : ℕ) (zs : Bytes)
        → T.mpt_full_node.marshal (bufs 17 0) ≡ some (z ∷ zs)
        → marshal T (full_node kids flags) ≡ marshal_typed T full_type (some (z ∷ zs))
    unfolding marshal
    marshal_full flags z zs made = rw (marshal-bufs 17 0 refl, made) refl

    decode_full :
        (h : Bytes) (z : ℕ) (zs : Bytes) (all : ℕ → Node)
        → T.mpt_full_node.unmarshal (z ∷ zs) ≡ some (bufs 17 0)
        → unmarshal_children T 0 (bufs 17 0) (λ i. empty) ≡ ok all
        → decode_parts T h full_type (z ∷ zs) ≡ ok (full_node all (loaded_flag h))
    unfolding decode_parts unmarshal_full
    decode_full h z zs all read reads = rw (read, reads) refl

    pub full-Writes :
        (flags : NodeFlag)
        → (all : ℕ → Node) × Writes T (full_node kids flags) (λ h. full_node all (loaded_flag h))
          × ((i : ℕ) → i < 17 → all i ≡ kids i)
    unfolding node_to_bytes bytes_or_nil
    full-Writes flags =
        let (z, zs, made) = laws.marshals_full (buf (kids 0)) (bufs 16 1) in
        let made : T.mpt_full_node.marshal (bufs 17 0) ≡ some (z ∷ zs) =
          ap T.mpt_full_node.marshal bufs-cons ∙ made in
        let (head, tail, wrapped, back) = typed full_type z zs in
        let (all, reads, inside, outside) = unmarshal-bufs 17 0 (λ i. empty) refl (λ j low. refl) in
        (
          all,
          (
            head,
            tail,
            rw (marshal_full flags z zs made, wrapped) refl,
            λ h.
                back h
                ∙ decode_full h z zs all
                    (T.mpt_full_node.unmarshal-marshal (bufs 17 0) (z ∷ zs) made) reads,
          ),
          λ i small. inside i (omega arith) small,
        )

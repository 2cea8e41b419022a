-- ===== src/Trie/Canonical/Commit.antt =====
-- `commit` of pkg/trie/committer.go on sealed nodes: with the nodes of the node set a database has
-- the committed node under its hash.
pub mod Children
pub mod Full
pub mod Short
use mathlib.Core.List.{append_assoc, append-nil}
use meta_co_sign.Base.{
  ℕ, zero, suc, ◌+◌, ◌<◌, ◌≤◌, ◌≡◌, ◌≢◌, refl, sym, ap, ◌∙◌, subst, ◌⊎◌, inl, inr, Bool, true,
  false, Option, none, some, List, [], ◌∷◌, ◌++◌, ◌==◌, ==_iff, Bool-cases, length, arith,
  if◌then◌else◌, replicate,
}
use meta_co_sign.Bytes.{Bytes, bytes_eq, bytes_eq_refl}
use meta_co_sign.Result.{Result, ok, panic, ◌>>=◌}
use meta_co_sign.Store.{Read, found}
use meta_co_sign.Trie.Canonical.{
  is_direct, Shape, nil, leaf, short, full, below, stored_alone, occupied, Two, IsHash, Stored,
  Canonical, nil_at, leaf_at, short_at, full_at, hash_at, Laws,
}
use meta_co_sign.Trie.Canonical.Compact.{compact_key, Ends-has_term}
use meta_co_sign.Trie.Canonical.Decode.{loaded_flag, Writes, short-Writes, full-Writes, IsKid}
use meta_co_sign.Trie.Canonical.Sealed.{
  hash_of, clean_node, dirty-is_clean, Sealed, sealed_nil, sealed_leaf, sealed_hash, sealed_clean,
  sealed_short, sealed_full,
}
use meta_co_sign.Trie.Canonical.Served.{
  Extends, extends-Denotes, extends-Canonical, extends-Stored, Serves, Agree, Frame, Agree-Serves,
  below-Serves, sibling, store-Agree, store-Frame,
}
use meta_co_sign.Trie.Committer.{
  Fills, is_clean, commit_below, commit_child, commit_children, note_leaf, store_node, commit,
}
use meta_co_sign.Trie.Denotes.{Content, Denotes, nothing, at_value, at_short, at_full, at_hash}
use meta_co_sign.Trie.Marshal.{marshal, node_to_bytes}
use meta_co_sign.Trie.Nibbles.{compact_to_hex, has_term}
use meta_co_sign.Trie.Node.{
  Node, empty, value_node, hash_node, short_node, full_node, NodeFlag, set_child, TrieLibrary,
  short_value_node, decode_node,
}
use meta_co_sign.Trie.NodeSet.{NodeWrapper, NodeSet, counted, add_node}
use meta_co_sign.Trie.Paths.{Ends, strip, strip_longer}
use meta_co_sign.Trie.Tracer.{Tracer, store}

module _ (T : TrieLibrary) (get_blob : Bytes → Read) where
  -- Over the new database `new` stands for the map of `n`, and is in canonical form.
  abbrev pub Kept : (Bytes → Read) → ℕ → Shape → Node → Node → Type 0
  Kept after d s n new =
      ((b : Bool) (f : Content) → Denotes T get_blob b n f → Denotes T after b new f)
      × Canonical T after d s new

  clean-Denotes :
      {b : Bool} {n : Node} {f : Content}
      → Denotes T get_blob b n f
      → clean_node n ≡ true
      → b ≡ false
  unfolding clean_node
  clean-Denotes (nothing absent) e = cc
  clean-Denotes (at_value v) e = cc
  clean-Denotes (at_short path d miss) e = refl
  clean-Denotes (at_full d) e = refl
  clean-Denotes (at_hash x bs stored decoded d) e = cc

  -- A clean node is in the database already.
  pub clean-Kept :
      {d : ℕ} {s : Shape} {n : Node} (after : Bytes → Read)
      → stored_alone s ≡ true
      → Canonical T get_blob d s n
      → Stored T get_blob (hash_of n) n
      → clean_node n ≡ true
      → Extends get_blob after
      → Kept after d s n (hash_node (hash_of n))
  clean-Kept {d} {s} {n} after e c st clean extends =
      let kept = extends-Stored T get_blob after extends st in
      (
        λ b f den.
            subst (λ b. Denotes T after b (hash_node (hash_of n)) f) (sym (clean-Denotes den clean))
              (at_hash kept.head kept.tail kept.there kept.decodes (
                subst (λ b. Denotes T after b n f) (clean-Denotes den clean)
                  (extends-Denotes T get_blob after extends den))),
        hash_at e kept (extends-Canonical T get_blob after extends c),
      )

  pub hash-Kept :
      (after : Bytes → Read) (d : ℕ) (s : Shape) (h : Bytes)
      → Canonical T get_blob d s (hash_node h)
      → Extends get_blob after
      → Kept after d s (hash_node h) (hash_node h)
  hash-Kept after d s h c extends = (
    λ b f den. extends-Denotes T get_blob after extends den,
    extends-Canonical T get_blob after extends c,
  )

module _ (T : TrieLibrary) (get_blob : Bytes → Read) (hex_encode : Bytes → Bytes) (tracer : Tracer)
    (collect_leaf : Bool) where
  -- Every database that has the old nodes and those of the set behind the path keeps the node.
  abbrev pub KeptBy : Bytes → NodeSet → ℕ → Shape → Node → Node → Type 0
  KeptBy path set d s n new =
      (after : Bytes → Read)
      → Extends get_blob after
      → Serves hex_encode after path set
      → Kept T get_blob after d s n new

  abbrev pub Commits : ℕ → Shape → Node → Type 0
  Commits d s n =
      (path : Bytes) (set : NodeSet)
      → (next : NodeSet) × (commit T hex_encode tracer collect_leaf n path set
          ≡ ok (hash_node (hash_of n), next))
        × Frame hex_encode path set next
        × KeptBy path next d s n (hash_node (hash_of n))

  note_leaf-nodes :
      (parent : Bytes) (n : Node) (set : NodeSet)
      → (note_leaf T hex_encode tracer collect_leaf parent n set).nodes ≡ set.nodes
  unfolding note_leaf
  note_leaf-nodes parent (short_node key (value_node v) flags) set =
      elim (Bool-cases collect_leaf) [ inl on ↦ rw on refl | inr off ↦ rw off refl ]
  note_leaf-nodes parent (short_node key empty flags) set = refl
  note_leaf-nodes parent (short_node key (hash_node h) flags) set = refl
  note_leaf-nodes parent (short_node key (short_node k c f) flags) set = refl
  note_leaf-nodes parent (short_node key (full_node c f) flags) set = refl
  note_leaf-nodes parent empty set = refl
  note_leaf-nodes parent (value_node v) set = refl
  note_leaf-nodes parent (hash_node h) set = refl
  note_leaf-nodes parent (full_node children flags) set = refl

  -- The entry that `store` makes.
  abbrev pub Stores : Bytes → Bytes → Node → NodeSet → Bytes → Type 0
  Stores h path n set blob =
      (next : NodeSet) × (store_node T hex_encode tracer collect_leaf h path n set
        ≡ ok (hash_node h, next))
      × (next.nodes
          ≡ store (hex_encode path) (some (record { hash = T.bytes_to_hash h; blob = blob }))
              set.nodes)

  stored-cons :
      (x : ℕ) (xs path : Bytes) (n : Node) (set : NodeSet) (blob : Bytes)
      → node_to_bytes T n ≡ ok blob
      → Stores (x ∷ xs) path n set blob
  unfolding store_node add_node
  stored-cons x xs path n set blob made =
      let w : NodeWrapper = record { hash = T.bytes_to_hash (x ∷ xs); blob = blob } in
      let added : NodeSet = add_node hex_encode path w set in
      let next : NodeSet =
        note_leaf T hex_encode tracer collect_leaf (T.bytes_to_hash (x ∷ xs)) n added in
      (next, rw made refl, note_leaf-nodes (T.bytes_to_hash (x ∷ xs)) n added)

  pub stored :
      (h path : Bytes) (n : Node) (set : NodeSet) (blob : Bytes)
      → IsHash T h
      → node_to_bytes T n ≡ ok blob
      → Stores h path n set blob
  stored h path n set blob is made =
      subst (λ h. Stores h path n set blob) (sym is.bytes)
        (stored-cons is.first_byte is.rest path n set blob made)

  -- What a database has that got the entry of a collapsed node.
  pub entry-Stored :
      (after : Bytes → Read) (h path : Bytes) (set next : NodeSet) (back : Bytes → Node) (head : ℕ)
      (tail : Bytes)
      → IsHash T h
      → ((h : Bytes) → decode_node T h (head ∷ tail) ≡ ok (back h))
      → is_direct (back h) ≡ true
      → next.nodes
        ≡ store
            (hex_encode path)
            (some (record { hash = T.bytes_to_hash h; blob = head ∷ tail }))
            set.nodes
      → Serves hex_encode after path next
      → Stored T after h (back h)
  entry-Stored after h path set next back head tail is decodes direct e serves = record {
    is_hash = is;
    head = head;
    tail = tail;
    there = serves [] (T.bytes_to_hash h) head tail (
        ap (λ nodes. nodes (hex_encode (path ++ []))) e
        ∙ rw (append-nil path, bytes_eq_refl (hex_encode path)) refl);
    decodes = decodes h;
    direct = direct;
  }

  pub commit_full-eq :
      (children : ℕ → Node) (flags : NodeFlag) (path : Bytes) (set : NodeSet)
      → commit T hex_encode tracer collect_leaf (full_node children flags) path set ≡ (
          if is_clean flags then ok (hash_node flags.hash, set) else (do
            (kids, next) ←
                commit_children 16 0
                  (λ i.
                    commit_child
                      (children i)
                      (λ p s. commit T hex_encode tracer collect_leaf (children i) p s))
                  path
                  (λ i. empty)
                  set
            store_node T hex_encode tracer collect_leaf flags.hash path
                (full_node (set_child kids 16 (children 16)) flags)
                next))
  unfolding commit
  commit_full-eq children flags path set = refl

  clean-commit :
      (n : Node) (path : Bytes) (set : NodeSet)
      → clean_node n ≡ true
      → commit T hex_encode tracer collect_leaf n path set ≡ ok (hash_node (hash_of n), set)
  unfolding clean_node commit hash_of
  clean-commit empty path set e = cc
  clean-commit (value_node v) path set e = cc
  clean-commit (hash_node h) path set e = cc
  clean-commit (short_node key child flags) path set e = rw e refl
  clean-commit (full_node children flags) path set e =
      commit_full-eq children flags path set ∙ (rw e refl)

  pub clean-Commits :
      {d : ℕ} {s : Shape} {n : Node}
      → stored_alone s ≡ true
      → Canonical T get_blob d s n
      → Stored T get_blob (hash_of n) n
      → clean_node n ≡ true
      → Commits d s n
  clean-Commits {d} {s} {n} e c st clean path set = (
    set,
    clean-commit n path set clean,
    λ q apart. refl,
    λ after extends serves. clean-Kept T get_blob after e c st clean extends,
  )

  -- What is left below a short node, with its bytes, which are read as the same again.
  abbrev pub CommitsBelow : ℕ → Shape → Node → Type 0
  CommitsBelow d s n =
      (path : Bytes) (set : NodeSet)
      → (new : Node) × (b : Bytes) × (next : NodeSet) × (commit_below n path
            (λ p r. commit T hex_encode tracer collect_leaf n p r) set
          ≡ ok (new, next))
        × (marshal T new ≡ ok b)
        × ((key : Bytes) → has_term key ≡ (d == 0) → short_value_node T key b ≡ new)
        × Frame hex_encode path set next
        × KeptBy path next d s n new

-- ===== src/Trie/Canonical/Served.antt =====
-- What a database gives that has the nodes of a node set, by the paths of the nodes.
use mathlib.Core.List.{append_assoc, append-nil}
use meta_co_sign.Base.{
  ℕ, ◌≡◌, refl, sym, ap, ◌∙◌, subst, inl, inr, Bool, false, none, some, [], ◌∷◌, ◌++◌, ◌==◌,
  Bool-cases, length, arith, length-append,
}
use meta_co_sign.Bytes.{Bytes, bytes_eq, bytes_eq_iff}
use meta_co_sign.Store.{Read, found}
use meta_co_sign.Trie.Canonical.{
  Shape, Stored, Flagged, Canonical, nil_at, leaf_at, short_at, full_at, hash_at,
}
use meta_co_sign.Trie.Denotes.{Content, Denotes, nothing, at_value, at_short, at_full, at_hash}
use meta_co_sign.Trie.Node.{Node, NodeFlag, TrieLibrary}
use meta_co_sign.Trie.NodeSet.{NodeWrapper, NodeSet}
use meta_co_sign.Trie.Paths.{strip, strip_apart, strip-append}
use meta_co_sign.Trie.Tracer.{store}

-- The new database gives all that the old one gives.
abbrev pub Extends : (Bytes → Read) → (Bytes → Read) → Type 0
Extends old new = (k : Bytes) (x : ℕ) (bs : Bytes) → old k ≡ found (x ∷ bs) → new k ≡ found (x ∷ bs)

module _ (T : TrieLibrary) (old new : Bytes → Read) (extends : Extends old new) where
  pub extends-Denotes :
      {b : Bool} {n : Node} {f : Content} → Denotes T old b n f → Denotes T new b n f
  extends-Denotes (nothing absent) = nothing absent
  extends-Denotes (at_value e) = at_value e
  extends-Denotes (at_short path d miss) = at_short path (extends-Denotes d) miss
  extends-Denotes (at_full d) = at_full λ i small. extends-Denotes (d i small)
  extends-Denotes (at_hash x bs stored decoded d) =
      at_hash x bs (extends _ x bs stored) decoded (extends-Denotes d)

  pub extends-Stored : {h : Bytes} {n : Node} → Stored T old h n → Stored T new h n
  extends-Stored s = record {
    is_hash = s.is_hash;
    head = s.head;
    tail = s.tail;
    there = extends _ s.head s.tail s.there;
    decodes = s.decodes;
    direct = s.direct;
  }

  extends-flag : (n : Node) (flags : NodeFlag) → Flagged T old n flags → Flagged T new n flags
  extends-flag n flags (inl fresh) = inl fresh
  extends-flag n flags (inr (inl (dirty, stored))) = inr (inl (dirty, extends-Stored stored))
  extends-flag n flags (inr (inr hashed)) = inr (inr hashed)

  pub extends-Canonical :
      {d : ℕ} {s : Shape} {n : Node} → Canonical T old d s n → Canonical T new d s n
  extends-Canonical nil_at = nil_at
  extends-Canonical leaf_at = leaf_at
  extends-Canonical (short_at e path len c flag) =
      short_at e path len (extends-Canonical c) (extends-flag _ _ flag)
  extends-Canonical (full_at shape e each last two flag) =
      full_at shape e (λ i small. extends-Canonical (each i small)) last two (extends-flag _ _ flag)
  extends-Canonical (hash_at e stored c) = hash_at e (extends-Stored stored) (extends-Canonical c)

module _ (hex_encode : Bytes → Bytes) where
  -- The database has the nodes of the set at the paths behind `p`, if they are not deletions.
  abbrev pub Serves : (Bytes → Read) → Bytes → NodeSet → Type 0
  Serves get_blob p set =
      (q k : Bytes) (x : ℕ) (bs : Bytes)
      → set.nodes (hex_encode (p ++ q)) ≡ some (record { hash = k; blob = x ∷ bs })
      → get_blob k ≡ found (x ∷ bs)

  -- The two sets have the same behind `p`.
  abbrev pub Agree : Bytes → NodeSet → NodeSet → Type 0
  Agree p set next =
      (q : Bytes) → next.nodes (hex_encode (p ++ q)) ≡ set.nodes (hex_encode (p ++ q))

  -- The two sets have the same but behind `p`.
  abbrev pub Frame : Bytes → NodeSet → NodeSet → Type 0
  Frame p set next =
      (q : Bytes) → strip p q ≡ none → next.nodes (hex_encode q) ≡ set.nodes (hex_encode q)

  pub Agree-Serves :
      (get_blob : Bytes → Read) (p : Bytes) (set next : NodeSet)
      → Agree p set next
      → Serves get_blob p next
      → Serves get_blob p set
  Agree-Serves get_blob p set next agree serves q k x bs e = serves q k x bs (agree q ∙ e)

  pub below-Serves :
      (get_blob : Bytes → Read) (p r : Bytes) (set : NodeSet)
      → Serves get_blob p set
      → Serves get_blob (p ++ r) set
  below-Serves get_blob p r set serves q k x bs e =
      serves (r ++ q) k x bs (ap (λ j. set.nodes (hex_encode j)) (sym (append_assoc p r q)) ∙ e)

  -- Behind another child nothing changes.
  pub sibling :
      (p : Bytes) (i j : ℕ) (q : Bytes)
      → (i == j) ≡ false
      → strip (p ++ i ∷ []) ((p ++ j ∷ []) ++ q) ≡ none
  sibling p i j q apart =
      ap (strip (p ++ i ∷ [])) (append_assoc p (j ∷ []) q) ∙ strip_apart p i [] j q apart

  module _ (hex_injective : (a b : Bytes) → hex_encode a ≡ hex_encode b → a ≡ b) where
    longer :
        (p : Bytes) (x : ℕ) (q : Bytes) → bytes_eq (hex_encode p) (hex_encode (p ++ x ∷ q)) ≡ false
    longer p x q = elim (Bool-cases (bytes_eq (hex_encode p) (hex_encode (p ++ x ∷ q)))) [
      | inr apart ↦ apart
      | inl same ↦
          let e : p ≡ p ++ x ∷ q = hex_injective _ _ ((bytes_eq_iff _ _).0 same) in
          absurd (omega (arith, ap length e, length-append p (x ∷ q)))
    ]

    -- The entry at `p` itself does not stand behind a child.
    pub store-Agree :
        (p : Bytes) (x : ℕ) (r : Bytes) (w : NodeWrapper) (set next : NodeSet)
        → ((q : Bytes)
            → next.nodes (hex_encode q) ≡ store (hex_encode p) (some w) set.nodes (hex_encode q))
        → Agree (p ++ x ∷ r) set next
    store-Agree p x r w set next e q =
        e ((p ++ x ∷ r) ++ q)
        ∙ ap (λ j. store (hex_encode p) (some w) set.nodes (hex_encode j))
            (append_assoc p (x ∷ r) q)
        ∙ rw (longer p x (r ++ q)) refl
        ∙ ap (λ j. set.nodes (hex_encode j)) (sym (append_assoc p (x ∷ r) q))

    pub store-Frame :
        (p : Bytes) (w : NodeWrapper) (set next : NodeSet)
        → ((q : Bytes)
            → next.nodes (hex_encode q) ≡ store (hex_encode p) (some w) set.nodes (hex_encode q))
        → Frame p set next
    store-Frame p w set next e q apart =
        e q ∙ (elim (Bool-cases (bytes_eq (hex_encode p) (hex_encode q))) [
          | inr differ ↦ rw differ refl
          | inl same ↦
              let at : p ≡ q = hex_injective _ _ ((bytes_eq_iff _ _).0 same) in
              let clash : strip p p ≡ none = subst (λ j. strip p j ≡ none) (sym at) apart in
              let found : strip p p ≡ some [] =
                subst (λ j. strip p j ≡ some []) (append-nil p) (strip-append p []) in
              cc
        ])

-- ===== src/Trie/Canonical/Insertion.antt =====
-- `insert` of pkg/trie/trie.go keeps the canonical form.
use meta_co_sign.Base.{
  ℕ, zero, suc, ◌+◌, ◌<◌, ◌≡◌, refl, sym, ap, subst, inl, true, false, [], ◌∷◌, ◌++◌, ◌==◌, ==_iff,
  arith, length, length-append, lt→ltb, differs,
}
use meta_co_sign.Bytes.{Bytes}
use meta_co_sign.Store.{Read}
use meta_co_sign.Trie.Canonical.{
  Shape, nil, leaf, short, full, below, stored_alone, Two, Canonical, nil_at, leaf_at, short_at,
  full_at, hash_at,
}
use meta_co_sign.Trie.Canonical.Branch.{insert_branch-Grows}
use meta_co_sign.Trie.Canonical.Growth.{Grows, inserted-Grows, inserted_loaded-Grows, full-Grows}
use meta_co_sign.Trie.Canonical.Depth.{
  stored_alone-occupied, Canonical-depth, IsPath, IsPath-rest, IsPath-cons,
}
use meta_co_sign.Trie.Denotes.{resolve_and_track-found}
use meta_co_sign.Trie.Nibbles.{prefix_len}
use meta_co_sign.Trie.Node.{
  Node, empty, value_node, short_node, full_node, NodeFlag, new_flag, set_child, TrieLibrary,
}
use meta_co_sign.Trie.Operations.{insert, insert_end, insert_new}
use meta_co_sign.Trie.Operations.Steps.{IfDone, IfDone-bind, Returns-IfDone}
use meta_co_sign.Trie.Paths.{Ends, take_front, drop_front, covers, parts, ends, common}
use meta_co_sign.Trie.Tracer.{Tracer, on_read}

module _ (T : TrieLibrary) (get_blob : Bytes → Read) (v : Bytes) where
  abbrev pub KeepsForm : ℕ → ℕ → Shape → Node → Bytes → Type 0
  KeepsForm fuel d s n k =
      (prefix : Bytes) (t : Tracer)
      → IfDone (Grows T get_blob d s) (insert T get_blob fuel n prefix k (value_node v) t)

  nil-KeepsForm : (fuel d : ℕ) (k : Bytes) → IsPath d k → KeepsForm (suc fuel) d nil empty k
  unfolding insert insert_end insert_new
  nil-KeepsForm fuel d [] (len, path) prefix t =
      (leaf, refl, λ b. cc, subst (λ d. Canonical T get_blob d leaf (value_node v)) len leaf_at)
  nil-KeepsForm fuel d (x ∷ k) (len, path) prefix t =
      let deep : (d == 0) ≡ false = ground (arith, len) in
      let way : Ends false (x ∷ k) true = (rw deep at path) in
      (short, refl, λ b. cc, short_at {d = 0} refl way (omega (arith, len)) leaf_at (inl refl))

  leaf-KeepsForm :
      (fuel : ℕ) (w k : Bytes) → IsPath 0 k → KeepsForm (suc fuel) 0 leaf (value_node w) k
  unfolding insert insert_end
  leaf-KeepsForm fuel w [] is prefix t = (leaf, refl, λ b. refl, leaf_at)
  leaf-KeepsForm fuel w (x ∷ k) (len, path) prefix t = absurd (omega (arith, len))

  covers-KeepsForm :
      (fuel d m : ℕ) (s : Shape) (nk : Bytes) (child : Node) (flags : NodeFlag) (r : Bytes) (x : ℕ)
      (k : Bytes)
      → below s ≡ true
      → ((s' : Shape) (nn : Node)
          → below s' ≡ true
          → Canonical T get_blob d s' nn
          → Canonical T get_blob m short (short_node nk nn new_flag))
      → Canonical T get_blob m short (short_node nk child flags)
      → x ∷ k ≡ nk ++ r
      → prefix_len (x ∷ k) nk ≡ length nk
      → KeepsForm fuel d s child r
      → KeepsForm (suc fuel) m short (short_node nk child flags) (x ∷ k)
  unfolding insert
  covers-KeepsForm fuel d m s nk child flags r x k b over c e all keeps prefix t =
      let same : (length nk == length nk) ≡ true = (==_iff _ _).1 refl in
      rw (all, same, e, take_front nk r, drop_front nk r)
        (IfDone-bind (Grows T get_blob d s) (Grows T get_blob m short) _ _ (keeps (prefix ++ nk) t)
          (λ a u (s', there, still, c').
            inserted-Grows T get_blob m short (short_node nk child flags) flags.hash
              (λ nn. short_node nk nn new_flag) a u refl c (over s' a.1 (still b) c')))

  parts-KeepsForm :
      (fuel d m : ℕ) (s : Shape) (nk : Bytes) (child : Node) (flags : NodeFlag) (p : Bytes) (u : ℕ)
      (us : Bytes) (y : ℕ) (ys : Bytes) (x : ℕ) (k : Bytes)
      → below s ≡ true
      → Ends false nk (d == 0)
      → length nk + d ≡ m
      → Canonical T get_blob d s child
      → (m == 0) ≡ false
      → IsPath m (x ∷ k)
      → x ∷ k ≡ p ++ u ∷ us
      → nk ≡ p ++ y ∷ ys
      → prefix_len (x ∷ k) nk ≡ length p
      → (u == y) ≡ false
      → KeepsForm (suc fuel) m short (short_node nk child flags) (x ∷ k)
  unfolding insert
  parts-KeepsForm fuel d m s nk child flags p u us y ys x k b path len c deep is e e' same differ
        prefix t =
      let shorter : (length p == length (p ++ y ∷ ys)) ≡ false =
        ground (arith, length-append p (y ∷ ys)) in
      rw (same, e', e, shorter, drop_front p (y ∷ ys), drop_front p (u ∷ us))
        (Returns-IfDone (Grows T get_blob m short) _ (
          insert_branch-Grows T get_blob v m d s p u us y ys child flags prefix t differ
            (subst (IsPath m) e is) deep (subst (λ j. Ends false j (d == 0)) e' path)
            (subst (λ j. length j + d ≡ m) e' len) b c))

  full-KeepsForm :
      (fuel d m : ℕ) (children : ℕ → Node) (flags : NodeFlag) (shape : ℕ → Shape) (x : ℕ)
      (k : Bytes)
      → suc (suc d) ≡ m
      → ((i : ℕ) → i < 16 → Canonical T get_blob (suc d) (shape i) (children i))
      → children 16 ≡ empty
      → Two shape
      → Canonical T get_blob m full (full_node children flags)
      → x < 16
      → KeepsForm fuel (suc d) (shape x) (children x) k
      → KeepsForm (suc fuel) m full (full_node children flags) (x ∷ k)
  unfolding insert
  full-KeepsForm fuel d m children flags shape x k e each last two c small keeps prefix t =
      rw (lt→ltb x 17 (omega arith)) (
        IfDone-bind (Grows T get_blob (suc d) (shape x)) (Grows T get_blob m full) _ _
          (keeps (prefix ++ x ∷ []) t)
          (λ a u (s', there, still, c').
            inserted-Grows T get_blob m full (full_node children flags) flags.hash
              (λ nn. full_node (set_child children x nn) new_flag) a u refl c
              (full-Grows T get_blob d m x children shape s' a.1 e small there c' each last two)))

  -- The path of a node that is stored on its own is not empty.
  no-path :
      {d : ℕ} {s : Shape} {n : Node}
      → Canonical T get_blob d s n
      → stored_alone s ≡ true
      → IsPath d []
      → ⊥
  no-path c alone (len, path) =
      let deep = Canonical-depth T get_blob c alone in ground (arith, len, deep)

  pub Canonical-KeepsForm :
      (fuel : ℕ) {d : ℕ} {s : Shape} {n : Node}
      → Canonical T get_blob d s n
      → (k : Bytes) → IsPath d k
      → KeepsForm fuel d s n k
  unfolding insert
  Canonical-KeepsForm zero c k is = λ prefix t. tt
  Canonical-KeepsForm (suc fuel) (nil_at {d = d}) k is = nil-KeepsForm fuel d k is
  Canonical-KeepsForm (suc fuel) (leaf_at {v = w}) k is = leaf-KeepsForm fuel w k is
  Canonical-KeepsForm (suc fuel) (short_at b path len c flag) [] is =
      absurd (no-path (short_at b path len c flag) refl is)
  Canonical-KeepsForm (suc fuel)
        (short_at {d = d} {m = m} {s = s} {x = y} {key = key} {child = child} {flags = flags} b path
          len c flag)
        (x ∷ k) is =
      elim (common (x ∷ k) (y ∷ key)) [
        | covers r e same ↦
            covers-KeepsForm fuel d m s (y ∷ key) child flags r x k b
              (λ s' nn still c'. short_at still path len c' (inl refl)) (short_at b path len c flag)
              e same
              (Canonical-KeepsForm fuel c r
                (IsPath-rest m d y key r (subst (IsPath m) e is) path len))
        | parts p u us z zs differ e e' same ↦
            parts-KeepsForm fuel d m s (y ∷ key) child flags p u us z zs x k b path len c
              (Canonical-depth T get_blob (short_at b path len c flag) refl) is e e' same
              (differs u z differ)
        | ends z zs e same ↦
            absurd (omega (arith, len, is.0, ap length e, length-append (x ∷ k) (z ∷ zs)))
      ]
  Canonical-KeepsForm (suc fuel) (full_at shape e each last two flag) [] is =
      absurd (no-path (full_at shape e each last two flag) refl is)
  Canonical-KeepsForm (suc fuel)
        (full_at {d = d} {m = m} {children = children} {flags = flags} shape e each last two flag)
        (x ∷ k) is =
      let (small, rest) = IsPath-cons d x k (subst (λ m. IsPath m (x ∷ k)) (sym e) is) in
      full-KeepsForm fuel d m children flags shape x k e each last two
        (full_at shape e each last two flag) small (Canonical-KeepsForm fuel (each x small) k rest)
  Canonical-KeepsForm (suc fuel) (hash_at a st c) [] is = absurd (no-path c a is)
  Canonical-KeepsForm (suc fuel) (hash_at {d = d} {s = s} {h = h} {n = n} a st c) (x ∷ k) is =
      λ prefix t.
        rw (resolve_and_track-found T get_blob h st.head st.tail n prefix t st.there st.decodes) (
          IfDone-bind (Grows T get_blob d s) (Grows T get_blob d s) _ _
            (Canonical-KeepsForm fuel c (x ∷ k) is prefix (on_read prefix (st.head ∷ st.tail) t))
            (λ r u grows.
              inserted_loaded-Grows T get_blob d s n r (stored_alone-occupied s a) c grows))

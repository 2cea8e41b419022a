-- ===== src/Trie/Canonical/Branch.antt =====
-- The nodes that `insert` of pkg/trie/trie.go makes are in canonical form.
use meta_co_sign.Base.{
  ℕ, suc, ◌+◌, ◌<◌, ◌≡◌, refl, sym, subst, true, false, [], ◌∷◌, ◌++◌, ◌==◌, ==_iff, arith, length,
  length-append, Bool-cases, inl, inr, take, lt→ltb,
}
use meta_co_sign.Bytes.{Bytes}
use meta_co_sign.Store.{Read}
use meta_co_sign.Trie.Canonical.{
  Shape, nil, leaf, short, full, below, Canonical, nil_at, leaf_at, short_at, full_at,
}
use meta_co_sign.Trie.Canonical.Depth.{IsPath}
use meta_co_sign.Trie.Node.{Node, value_node, full_node, NodeFlag, new_flag, TrieLibrary}
use meta_co_sign.Trie.Operations.{insert_new, insert_branch, insert_joint, branch_children}
use meta_co_sign.Trie.Operations.Steps.{Returns, Returns-bind}
use meta_co_sign.Trie.Paths.{Ends, Ends-rest, Ends-front, take_front}
use meta_co_sign.Trie.Tracer.{Tracer}
use meta_co_sign.Trie.Canonical.Growth.{set_shape, Grown, Grows, below-occupied}

-- Two keys that part and go on as long as each other part before their terminators.
inner :
    (u y d : ℕ) (us ys : Bytes)
    → (u == y) ≡ false
    → length us ≡ length ys + d
    → Ends (u == 16) us true
    → Ends (y == 16) ys (d == 0)
    → (r : ℕ) × (length us ≡ suc r) × ((u == 16) ≡ false) × ((y == 16) ≡ false)
inner u y d [] [] differ len h k = absurd (ground (arith, len, h, k, differ))
inner u y d [] (b ∷ ys) differ len h k = absurd (omega (arith, len))
inner u y d (a ∷ us) ys differ len h k = elim (Bool-cases (u == 16)) [
  | inl last ↦ absurd (rw last at h)
  | inr more ↦ (length us, refl, more, other ys len k)
]
  where
    other :
        (ys : Bytes)
        → length (a ∷ us) ≡ length ys + d
        → Ends (y == 16) ys (d == 0)
        → (y == 16) ≡ false
    other [] len k = ground (arith, len, k)
    other (b ∷ ys) len k = elim (Bool-cases (y == 16)) [
      | inl last ↦ absurd (rw last at k)
      | inr more ↦ more
    ]

module _ (T : TrieLibrary) (get_blob : Bytes → Read) where
  -- A short node over a node, or the node alone if no key is left.
  pub insert_new-Grown :
      (d m : ℕ) (s : Shape) (ys : Bytes) (child : Node) (prefix : Bytes) (t : Tracer)
      → below s ≡ true
      → length ys + d ≡ m
      → ((y : ℕ) (zs : Bytes) → ys ≡ y ∷ zs → Ends false ys (d == 0))
      → Canonical T get_blob d s child
      → Returns (λ r. Grown T get_blob m r.1) (insert_new prefix ys child t)
  unfolding insert_new
  insert_new-Grown d m s [] child prefix t b e path c =
      let same : d ≡ m = omega (arith, e) in
      (s, below-occupied T get_blob s b, subst (λ m. Canonical T get_blob m s child) same c)
  insert_new-Grown d m s (y ∷ ys) child prefix t b e path c =
      (short, refl, short_at b (path y ys refl) e c (inl refl))

  insert_joint-Grown :
      (d m : ℕ) (p key : Bytes) (branch : Node) (hash prefix : Bytes) (t : Tracer)
      → take (length p) key ≡ p
      → Ends false p false
      → length p + suc d ≡ m
      → Canonical T get_blob (suc d) full branch
      → Returns (Grows T get_blob m short) (insert_joint prefix (length p) key branch hash t)
  unfolding insert_joint
  insert_joint-Grown d m [] key branch hash prefix t front path e c =
      let same : suc d ≡ m = omega (arith, e) in
      (full, refl, λ b. refl, subst (λ m. Canonical T get_blob m full branch) same c)
  insert_joint-Grown d m (x ∷ p) key branch hash prefix t front path e c =
      let nonempty : (suc (length p) == 0) ≡ false = ground arith in
      let deep : (suc d == 0) ≡ false = ground arith in
      rw (nonempty, front)
        (
          short,
          refl,
          λ b. b,
          short_at refl (subst (λ b. Ends false (x ∷ p) b) (sym deep) path) e c (inl refl),
        )

  branch-Canonical :
      (d x y : ℕ) (old new : Node)
      → x < 16
      → y < 16
      → (x == y) ≡ false
      → Grown T get_blob (suc d) old
      → Grown T get_blob (suc d) new
      → Canonical T get_blob (suc (suc d)) full (full_node (branch_children y old x new) new_flag)
  unfolding branch_children
  branch-Canonical d x y old new x_small y_small differ (s, there, c) (r, there', c') =
      let shape : ℕ → Shape = set_shape (set_shape (λ i. nil) y s) x r in
      let x_not : (x == 16) ≡ false = ground arith in
      let y_not : (y == 16) ≡ false = ground arith in
      let x_same : (x == x) ≡ true = (==_iff x x).1 refl in
      let y_same : (y == y) ≡ true = (==_iff y y).1 refl in
      full_at shape refl
        (λ i small. elim (Bool-cases (x == i)) [
          | inl here ↦ rw here c'
          | inr not_x ↦ elim (Bool-cases (y == i)) [
            | inl here ↦ rw (not_x, here) c
            | inr not_y ↦ rw (not_x, not_y) nil_at
          ]
        ])
        (rw (x_not, y_not) refl)
        (record {
          first = x;
          second = y;
          first_small = x_small;
          second_small = y_small;
          apart = λ e. ground arith;
          first_there = rw x_same there';
          second_there = rw (differ, y_same) there;
        })
        (inl refl)

  module _ (v : Bytes) where
    pub insert_branch-Grows :
        (m d : ℕ) (s : Shape) (p : Bytes) (u : ℕ) (us : Bytes) (y : ℕ) (ys : Bytes) (child : Node)
        (flags : NodeFlag) (prefix : Bytes) (t : Tracer)
        → (u == y) ≡ false
        → IsPath m (p ++ u ∷ us)
        → (m == 0) ≡ false
        → Ends false (p ++ y ∷ ys) (d == 0)
        → length (p ++ y ∷ ys) + d ≡ m
        → below s ≡ true
        → Canonical T get_blob d s child
        → Returns (Grows T get_blob m short) (
            insert_branch prefix
              (length p)
              (p ++ y ∷ ys)
              child
              flags
              (p ++ u ∷ us)
              (value_node v)
              (y ∷ ys)
              (u ∷ us)
              t)
    unfolding insert_branch
    insert_branch-Grows m d s p u us y ys child flags prefix t differ (len, path) deep old_path e b
          c =
        let key_path : Ends false (p ++ u ∷ us) true =
          subst (λ b. Ends b (p ++ u ∷ us) true) deep path in
        let front : Ends false p false = Ends-front p u us true key_path in
        let (u_small, u_path) = Ends-rest false false p (u ∷ us) true front key_path in
        let (y_small, y_path) = Ends-rest false false p (y ∷ ys) (d == 0) front old_path in
        let (r, rest, u_not, y_not) =
          inner u y d us ys differ
            (omega (arith, len, e, length-append p (u ∷ us), length-append p (y ∷ ys))) u_path
            y_path in
        rw (lt→ltb y 17 y_small, lt→ltb u 17 u_small)
          (Returns-bind (λ r'. Grown T get_blob (suc r) r'.1) (Grows T get_blob m short) _ _
            (insert_new-Grown d (suc r) s ys child _ t b
              (omega (arith, len, e, rest, length-append p (u ∷ us), length-append p (y ∷ ys)))
              (λ z zs form. rw y_not at y_path) c)
            (λ old w d_old.
              Returns-bind (λ r'. Grown T get_blob (suc r) r'.1) (Grows T get_blob m short) _ _
                (insert_new-Grown 0 (suc r) leaf us (value_node v) _ w refl (omega (arith, rest))
                  (λ z zs form. rw u_not at u_path) leaf_at)
                (λ new w' d_new.
                  insert_joint-Grown (suc r) m p (p ++ u ∷ us)
                    (full_node (branch_children y old.1 u new.1) new_flag) flags.hash prefix w'
                    (take_front p (u ∷ us)) front
                    (omega (arith, len, rest, length-append p (u ∷ us)))
                    (branch-Canonical r u y old.1 new.1 (ground arith) (ground arith) differ d_old
                      d_new))))

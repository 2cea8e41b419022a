-- ===== src/Trie/Denotes/Branch.antt =====
-- The nodes that `insert` of pkg/trie/trie.go makes: a short node where there was nothing, and a
-- branch where two keys part.
use meta_co_sign.Base.{
  ℕ, suc, ◌<◌, ◌≡◌, refl, sym, ◌∙◌, subst, inl, inr, Bool, true, false, Option, none, some, [], ◌∷◌,
  ◌++◌, arith, ◌==◌, ==_iff, length, take, Bool-cases, lt→ltb,
}
use mathlib.Core.List.{append-nil}
use mathlib.Core.Path.{fun_ext}
use meta_co_sign.Bytes.{Bytes, bytes_eq_refl, bytes_eq-append}
use meta_co_sign.Store.{Read}
use meta_co_sign.Trie.Denotes.{
  Content, put, put-append, put_ne, Denotes, nothing, at_value, at_short, at_full,
}
use meta_co_sign.Trie.Node.{
  Node, empty, NodeFlag, new_flag, set_child, full_node, value_node, TrieLibrary,
}
use meta_co_sign.Trie.Operations.{insert_new, insert_branch, insert_joint, branch_children}
use meta_co_sign.Trie.Operations.Steps.{Returns, Returns-bind}
use meta_co_sign.Trie.Paths.{
  Ends, Ends-rest, Ends-front, append-Ends, strip, strip_longer, strip_apart, bytes_eq-strip,
  strip_behind, bytes_eq_of_strip, ==_false_comm, bytes_eq_heads, take_front,
}
use meta_co_sign.Trie.Tracer.{Tracer}

module _ (T : TrieLibrary) (get_blob : Bytes → Read) where
  -- A full node with one child replaced.
  pub set_child-child :
      (children : ℕ → Node) (x : ℕ) (k : Bytes) (o : Option Bytes) (f : Content) (nn : Node)
      → ((i : ℕ) → i < 17 → Denotes T get_blob (i == 16) (children i) (λ r. f (i ∷ r)))
      → Denotes T get_blob (x == 16) nn (put k o (λ r. f (x ∷ r)))
      → (i : ℕ) → i < 17
      → Denotes T get_blob (i == 16) (set_child children x nn i) (λ r. put (x ∷ k) o f (i ∷ r))
  set_child-child children x k o f nn d new i h = elim (Bool-cases (x == i)) [
    | inl here ↦ rw here (
        subst (λ j. Denotes T get_blob (j == 16) nn (λ r. put (x ∷ k) o f (j ∷ r)))
          ((==_iff x i).0 here)
          (subst (λ g. Denotes T get_blob (x == 16) nn g) (sym (put-append (x ∷ []) k o f)) new))
    | inr other ↦ rw other (
        subst (λ g. Denotes T get_blob (i == 16) (children i) g) (sym (put_ne x i k o f other))
          (d i h))
  ]

  -- A node below a front of the path, where nothing else stands.
  pub insert_new-Denotes :
      (b c : Bool) (p : Bytes) (child : Node) (f : Content) (prefix : Bytes) (t : Tracer)
      → Ends b p c
      → Denotes T get_blob c child (λ r. f (p ++ r))
      → ((k : Bytes) → Ends b k true → strip p k ≡ none → f k ≡ none)
      → Returns (λ r. Denotes T get_blob b r.1 f) (insert_new prefix p child t)
  unfolding insert_new
  insert_new-Denotes b c [] child f prefix t h d miss =
      subst (λ e. Denotes T get_blob e child f) (sym h) d
  insert_new-Denotes true c (x ∷ p) child f prefix t h d miss = absurd h
  insert_new-Denotes false c (x ∷ p) child f prefix t h d miss = at_short h d miss

  insert_joint-Denotes :
      (p key : Bytes) (branch : Node) (f : Content) (hash prefix : Bytes) (t : Tracer)
      → take (length p) key ≡ p
      → Ends false p false
      → Denotes T get_blob false branch (λ r. f (p ++ r))
      → ((k : Bytes) → Ends false k true → strip p k ≡ none → f k ≡ none)
      → Returns
          (λ r. Denotes T get_blob false r.1 f × (r.0 ≡ true))
          (insert_joint prefix (length p) key branch hash t)
  unfolding insert_joint
  insert_joint-Denotes [] key branch f hash prefix t e path d miss = (d, refl)
  insert_joint-Denotes (x ∷ p) key branch f hash prefix t e path d miss =
      let nonempty : (suc (length p) == 0) ≡ false = ground arith in
      rw (nonempty, e) (at_short path d miss, refl)

  module _ (v : Bytes) where
    pub put-value :
        (p : Bytes) (f : Content)
        → Denotes T get_blob true (value_node v) (λ r. put p (some v) f (p ++ r))
    put-value p f = at_value (rw (append-nil p, bytes_eq_refl p) refl)

    -- the two short nodes' keys part at `x` and `y`, behind `p`
    module _ (p : Bytes) (x : ℕ) (xs : Bytes) (y : ℕ) (ys : Bytes) (differ : (x == y) ≡ false)
        (f : Content) (key_path : Ends false (p ++ x ∷ xs) true)
        (miss : (k : Bytes) → Ends false k true → strip (p ++ y ∷ ys) k ≡ none → f k ≡ none) where
      abbrev pub after : Content
      after = put (p ++ x ∷ xs) (some v) f

      -- where the path goes on from the branch
      front : Ends false p false
      front = Ends-front p x xs true key_path

      after_other :
          (i : ℕ)
          → (x == i) ≡ false
          → ◌≡◌ {A = Content} (λ r. after (p ++ i ∷ r)) (λ r. f (p ++ i ∷ r))
      after_other i h =
          fun_ext λ r. rw (bytes_eq-append p (x ∷ xs) (i ∷ r), bytes_eq_heads x xs i r h) refl

      absent :
          (i : ℕ)
          → i < 17
          → (r : Bytes) → (y == i) ≡ false
          → Ends (i == 16) r true
          → f (p ++ i ∷ r) ≡ none
      absent i small r h e =
          miss (p ++ i ∷ r) (append-Ends false false p (i ∷ r) true front (small, e))
            (strip_apart p y ys i r h)

      branch-Denotes :
          (old new : Node)
          → Denotes T get_blob (y == 16) old (λ r. f (p ++ y ∷ r))
          → Denotes T get_blob (x == 16) new (λ r. after (p ++ x ∷ r))
          → Denotes T get_blob false
              (full_node (branch_children y old x new) new_flag)
              (λ r. after (p ++ r))
      unfolding branch_children
      branch-Denotes old new d_old d_new = at_full λ i h. elim (Bool-cases (x == i)) [
        | inl here ↦ rw here (
            subst (λ j. Denotes T get_blob (j == 16) new (λ r. after (p ++ j ∷ r)))
              ((==_iff x i).0 here) d_new)
        | inr not_x ↦ elim (Bool-cases (y == i)) [
          | inl here ↦
              rw (not_x, here)
                (subst (λ g. Denotes T get_blob (i == 16) old g) (sym (after_other i not_x))
                  (subst (λ j. Denotes T get_blob (j == 16) old (λ r. f (p ++ j ∷ r)))
                    ((==_iff y i).0 here) d_old))
          | inr not_y ↦
              rw (not_x, not_y)
                (subst (λ g. Denotes T get_blob (i == 16) empty g) (sym (after_other i not_x))
                  (nothing λ r e. absent i h r not_y e))
        ]
      ]

      -- Behind no other front there is anything.
      after-miss : (k : Bytes) → Ends false k true → strip p k ≡ none → after k ≡ none
      after-miss k h e = rw (bytes_eq-strip p (x ∷ xs) k e) (miss k h (strip_longer p (y ∷ ys) k e))

      pub insert_branch-Denotes :
          (c : Bool) (child : Node) (flags : NodeFlag) (prefix : Bytes) (t : Tracer)
          → Ends false (p ++ y ∷ ys) c
          → Denotes T get_blob c child (λ r. f (p ++ y ∷ (ys ++ r)))
          → Returns
              (λ r. Denotes T get_blob false r.1 after × (r.0 ≡ true))
              (insert_branch prefix
                (length p)
                (p ++ y ∷ ys)
                child
                flags
                (p ++ x ∷ xs)
                (value_node v)
                (y ∷ ys)
                (x ∷ xs)
                t)
      unfolding insert_branch
      insert_branch-Denotes c child flags prefix t old_path d =
          let (y_small, y_path) = Ends-rest false false p (y ∷ ys) c front old_path in
          let (x_small, x_path) = Ends-rest false false p (x ∷ xs) true front key_path in
          rw (lt→ltb y 17 y_small, lt→ltb x 17 x_small)
            (Returns-bind (λ r. Denotes T get_blob (y == 16) r.1 (λ s. f (p ++ y ∷ s)))
              (λ r. Denotes T get_blob false r.1 after × (r.0 ≡ true)) _ _
              (insert_new-Denotes (y == 16) c ys child (λ s. f (p ++ y ∷ s)) _ t y_path d
                (λ k e n.
                  miss (p ++ y ∷ k) (append-Ends false false p (y ∷ k) true front (y_small, e))
                    (strip_behind p y ys k ∙ n)))
              (λ old u d_old.
                Returns-bind (λ r. Denotes T get_blob (x == 16) r.1 (λ s. after (p ++ x ∷ s)))
                  (λ r. Denotes T get_blob false r.1 after × (r.0 ≡ true)) _ _
                  (insert_new-Denotes (x == 16) true xs (value_node v) (λ s. after (p ++ x ∷ s)) _ u
                    x_path (at_value (rw (append-nil xs, bytes_eq_refl (p ++ x ∷ xs)) refl))
                    (λ k e n.
                      rw (bytes_eq_of_strip (p ++ x ∷ xs) (p ++ x ∷ k) (strip_behind p x xs k ∙ n))
                        (absent x x_small k (==_false_comm x y differ) e)))
                  (λ new w d_new.
                    insert_joint-Denotes p (p ++ x ∷ xs)
                      (full_node (branch_children y old.1 x new.1) new_flag) after flags.hash prefix
                      w (take_front p (x ∷ xs)) front (branch-Denotes old.1 new.1 d_old d_new)
                      after-miss)))

-- ===== src/Trie/Operations/Fuel.antt =====
-- More fuel changes nothing of what `insert` and `delete` of pkg/trie/trie.go return once they are
-- over.
use meta_co_sign.Base.{
  ℕ, zero, suc, ◌≡◌, ◌≢◌, refl, ap, ◌∙◌, Bool, true, false, [], ◌∷◌, ◌++◌, ◌==◌, ltb, if◌then◌else◌,
  length, take, drop,
}
use meta_co_sign.Bytes.{Bytes}
use meta_co_sign.Store.{Read}
use meta_co_sign.Trie.Deletion.{delete}
use meta_co_sign.Trie.Nibbles.{prefix_len}
use meta_co_sign.Trie.Node.{Node, empty, value_node, hash_node, short_node, full_node, TrieLibrary}
use meta_co_sign.Trie.Operations.{insert, resolve_and_track}
use meta_co_sign.Trie.Operations.Steps.{
  Reply, done, missing_node, crashed, unfinished, Access, next, rescue,
}
use meta_co_sign.Trie.Tracer.{Tracer}

-- The second run gives the same as the first, if that is over.
abbrev pub More : {A : Type 0} → Reply A × Tracer → Reply A × Tracer → Type 0
More r r' = r.0 ≢ unfinished → r' ≡ r

if-More :
    {A : Type 0} (b : Bool) (f f' g g' : Access A) (t : Tracer)
    → More (f t) (f' t)
    → More (g t) (g' t)
    → More ((if b then f else g) t) ((if b then f' else g') t)
if-More true f f' g g' t h k = h
if-More false f f' g g' t h k = k

next-More :
    {A B : Type 0} (k k' : A → Access B) (r r' : Reply A × Tracer)
    → More r r'
    → ((a : A) (t : Tracer) → More (k a t) (k' a t))
    → More (next k r.0 r.1) (next k' r'.0 r'.1)
next-More k k' (done a, t) r' same f over = ap (λ r. next k' r.0 r.1) (same (λ e. cc)) ∙ f a t over
next-More k k' (missing_node, t) r' same f over = ap (λ r. next k' r.0 r.1) (same (λ e. cc))
next-More k k' (crashed, t) r' same f over = ap (λ r. next k' r.0 r.1) (same (λ e. cc))
next-More k k' (unfinished, t) r' same f over = absurd (over refl)

rescue-More :
    {A B : Type 0} (k k' : A → Access B) (otherwise : Access B) (r : Reply A × Tracer)
    → ((a : A) (t : Tracer) → More (k a t) (k' a t))
    → More (rescue k otherwise r.0 r.1) (rescue k' otherwise r.0 r.1)
rescue-More k k' otherwise (done a, t) f over = f a t over
rescue-More k k' otherwise (missing_node, t) f over = refl
rescue-More k k' otherwise (crashed, t) f over = refl
rescue-More k k' otherwise (unfinished, t) f over = refl

module _ (T : TrieLibrary) (get_blob : Bytes → Read) where
  pub insert-More :
      (fuel : ℕ) (n : Node) (prefix k : Bytes) (value : Node) (t : Tracer)
      → More
          (insert T get_blob fuel n prefix k value t)
          (insert T get_blob (suc fuel) n prefix k value t)
  unfolding insert
  insert-More zero n prefix k value t over = absurd (over refl)
  insert-More (suc fuel) n prefix [] value t over = refl
  insert-More (suc fuel) empty prefix (x ∷ k) value t over = refl
  insert-More (suc fuel) (value_node v) prefix (x ∷ k) value t over = refl
  insert-More (suc fuel) (short_node nk child flags) prefix (x ∷ k) value t over =
      let m = prefix_len (x ∷ k) nk in
      if-More (m == length nk) _ _ _ _ t
        (next-More _ _ _ _
          (insert-More fuel child (prefix ++ take m (x ∷ k)) (drop m (x ∷ k)) value t)
          (λ a u over. refl))
        (λ over. refl) over
  insert-More (suc fuel) (full_node children flags) prefix (x ∷ k) value t over =
      if-More (ltb x 17) _ _ _ _ t
        (next-More _ _ _ _ (insert-More fuel (children x) (prefix ++ x ∷ []) k value t)
          (λ a u over. refl))
        (λ over. refl) over
  insert-More (suc fuel) (hash_node h) prefix (x ∷ k) value t over =
      rescue-More _ _ _ (resolve_and_track T get_blob h prefix t)
        (λ loaded u.
          next-More _ _ _ _ (insert-More fuel loaded prefix (x ∷ k) value u) (λ a w over. refl))
        over

  pub delete-More :
      (fuel : ℕ) (n : Node) (prefix k : Bytes) (t : Tracer)
      → More (delete T get_blob fuel n prefix k t) (delete T get_blob (suc fuel) n prefix k t)
  unfolding delete
  delete-More zero n prefix k t over = absurd (over refl)
  delete-More (suc fuel) empty prefix k t over = refl
  delete-More (suc fuel) (value_node v) prefix k t over = refl
  delete-More (suc fuel) (short_node nk child flags) prefix k t over =
      let m = prefix_len k nk in
      if-More (ltb m (length nk)) _ _ _ _ t (λ over. refl)
        (if-More (m == length k) _ _ _ _ t (λ over. refl)
          (next-More _ _ _ _
            (delete-More fuel child (prefix ++ take (length nk) k) (drop (length nk) k) t)
            (λ a u over. refl)))
        over
  delete-More (suc fuel) (full_node children flags) prefix [] t over = refl
  delete-More (suc fuel) (full_node children flags) prefix (x ∷ k) t over =
      if-More (ltb x 17) _ _ _ _ t
        (next-More _ _ _ _ (delete-More fuel (children x) (prefix ++ x ∷ []) k t)
          (λ a u over. refl))
        (λ over. refl) over
  delete-More (suc fuel) (hash_node h) prefix k t over =
      next-More _ _ (resolve_and_track T get_blob h prefix t) _ (λ over. refl)
        (λ loaded u. next-More _ _ _ _ (delete-More fuel loaded prefix k u) (λ a w over. refl)) over

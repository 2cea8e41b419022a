-- ===== src/Trie/Denotes/Insertion.antt =====
-- `insert` of pkg/trie/trie.go gives a node that stands for the map with the value put in.
use meta_co_sign.Base.{
  ℕ, suc, ◌<◌, ◌≤◌, ◌≡◌, refl, sym, ap, ◌∙◌, subst, Bool, true, false, not, none, some, [], ◌∷◌,
  ◌++◌, arith, ◌==◌, ==_iff, length, lt→ltb, length-append, differs,
}
use mathlib.Core.List.{append_assoc}
use mathlib.Core.Path.{fun_ext}
use meta_co_sign.Bytes.{Bytes, bytes_eq, bytes_eq_iff}
use meta_co_sign.Store.{Read}
use meta_co_sign.Trie.Denotes.{
  Content, put, put-append, put_same, Denotes, nothing, at_value, at_short, at_full, at_hash,
  resolve_and_track-found, from_suc,
}
use meta_co_sign.Trie.Denotes.Branch.{
  set_child-child, insert_new-Denotes, put-value, insert_branch-Denotes,
}
use meta_co_sign.Trie.Nibbles.{prefix_len}
use meta_co_sign.Trie.Node.{
  Node, empty, NodeFlag, new_flag, set_child, short_node, full_node, value_node, TrieLibrary,
}
use meta_co_sign.Trie.Operations.{insert, insert_new, insert_end, inserted, inserted_loaded}
use meta_co_sign.Trie.Operations.Steps.{Returns, Returns-bind, Returns-imp}
use meta_co_sign.Trie.Paths.{
  Ends, Ends-rest, strip, bytes_eq-strip, bytes_eq_of_strip, take_front, drop_front, covers, parts,
  ends, common,
}
use meta_co_sign.Trie.Tracer.{Tracer, on_read}

module _ (T : TrieLibrary) (get_blob : Bytes → Read) (v : Bytes) where
  -- what `insert` returns: a node for the changed map, and "not dirty" only if nothing changed
  abbrev pub Put : Bool → Bytes → Content → Bool × Node → Type 0
  Put b k f (dirty, n) = Denotes T get_blob b n (put k (some v) f) × (dirty ≡ false → f k ≡ some v)

  abbrev pub Puts : Bool → Node → Bytes → Content → ℕ → Type 0
  Puts b n k f fuel =
      (prefix : Bytes) (t : Tracer)
      → Returns (Put b k f) (insert T get_blob fuel n prefix k (value_node v) t)

  abbrev pub Inserts : Bool → Node → Bytes → Content → Type 0
  Inserts b n k f = (enough : ℕ) × ((fuel : ℕ) → enough ≤ fuel → Puts b n k f fuel)

  -- The node above one that was inserted into.
  inserted-Put :
      (old : Node) (hash : Bytes) (rebuild : Node → Node) (k : Bytes) (f : Content)
      (a : Bool × Node) (t : Tracer)
      → Denotes T get_blob false old f
      → Denotes T get_blob false (rebuild a.1) (put k (some v) f)
      → (a.0 ≡ false → f k ≡ some v)
      → Returns (Put false k f) (inserted old hash rebuild a t)
  unfolding inserted
  inserted-Put old hash rebuild k f (true, nn) t d new same = (new, λ e. cc)
  inserted-Put old hash rebuild k f (false, nn) t d new same = (
    subst (λ g. Denotes T get_blob false old g) (sym (put_same k (some v) f (same refl))) d,
    same,
  )

  covers-Inserts :
      (nk : Bytes) (child : Node) (flags : NodeFlag) (r : Bytes) (x : ℕ) (k : Bytes) (c : Bool)
      (f : Content)
      → x ∷ k ≡ nk ++ r
      → prefix_len (x ∷ k) nk ≡ length nk
      → Ends false nk c
      → Denotes T get_blob c child (λ s. f (nk ++ s))
      → ((k : Bytes) → Ends false k true → strip nk k ≡ none → f k ≡ none)
      → Inserts c child r (λ s. f (nk ++ s))
      → Inserts false (short_node nk child flags) (x ∷ k) f
  unfolding insert
  covers-Inserts nk child flags r x k c f e len path d miss (enough, inserts) = (
    suc enough,
    from_suc _ enough λ fuel le prefix t.
        let same : (length nk == length nk) ≡ true = (==_iff _ _).1 refl in
        rw (len, same, e, take_front nk r, drop_front nk r)
          (Returns-bind (Put c r (λ s. f (nk ++ s))) (Put false (nk ++ r) f) _ _
            (inserts fuel le (prefix ++ nk) t)
            (λ a u done.
              inserted-Put (short_node nk child flags) flags.hash (λ nn. short_node nk nn new_flag)
                (nk ++ r) f a u (at_short path d miss)
                (at_short path
                  (subst (λ g. Denotes T get_blob c a.1 g) (sym (put-append nk r (some v) f))
                    done.0)
                  (λ k' h n. rw (bytes_eq-strip nk r k' n) (miss k' h n)))
                done.1)),
  )

  parts-Inserts :
      (nk : Bytes) (child : Node) (flags : NodeFlag) (p : Bytes) (u : ℕ) (us : Bytes) (y : ℕ)
      (ys : Bytes) (x : ℕ) (k : Bytes) (c : Bool) (f : Content)
      → x ∷ k ≡ p ++ u ∷ us
      → nk ≡ p ++ y ∷ ys
      → prefix_len (x ∷ k) nk ≡ length p
      → (u == y) ≡ false
      → Ends false (x ∷ k) true
      → Ends false nk c
      → Denotes T get_blob c child (λ s. f (nk ++ s))
      → ((k : Bytes) → Ends false k true → strip nk k ≡ none → f k ≡ none)
      → Inserts false (short_node nk child flags) (x ∷ k) f
  unfolding insert
  parts-Inserts nk child flags p u us y ys x k c f e e' len differ h path d miss = (
    1,
    from_suc _ 0 λ fuel le prefix t.
        let shorter : (length p == length (p ++ y ∷ ys)) ≡ false =
          ground (arith, length-append p (y ∷ ys)) in
        let key_path : Ends false (p ++ u ∷ us) true = subst (λ j. Ends false j true) e h in
        rw (len, e', e, shorter, drop_front p (y ∷ ys), drop_front p (u ∷ us))
          (Returns-imp _ (Put false (p ++ u ∷ us) f) _
            (insert_branch-Denotes T get_blob v p u us y ys differ f key_path
              (subst (λ j. (k : Bytes) → Ends false k true → strip j k ≡ none → f k ≡ none) e' miss)
              c child flags prefix t (subst (λ j. Ends false j c) e' path)
              (subst (λ g. Denotes T get_blob c child g)
                (fun_ext λ s. ap f (append_assoc p (y ∷ ys) s))
                (subst (λ j. Denotes T get_blob c child (λ s. f (j ++ s))) e' d)))
            (λ a done. (done.0, λ same. cc))),
  )

  full-Inserts :
      (children : ℕ → Node) (flags : NodeFlag) (x : ℕ) (k : Bytes) (f : Content)
      → x < 17
      → ((i : ℕ) → i < 17 → Denotes T get_blob (i == 16) (children i) (λ r. f (i ∷ r)))
      → Inserts (x == 16) (children x) k (λ r. f (x ∷ r))
      → Inserts false (full_node children flags) (x ∷ k) f
  unfolding insert
  full-Inserts children flags x k f small d (enough, inserts) = (
    suc enough,
    from_suc _ enough λ fuel le prefix t. rw (lt→ltb x 17 small) (
        Returns-bind (Put (x == 16) k (λ r. f (x ∷ r))) (Put false (x ∷ k) f) _ _
          (inserts fuel le (prefix ++ x ∷ []) t)
          (λ a u done.
            inserted-Put (full_node children flags) flags.hash
              (λ nn. full_node (set_child children x nn) new_flag) (x ∷ k) f a u (at_full d)
              (at_full (set_child-child T get_blob children x k (some v) f a.1 d done.0)) done.1)),
  )

  inserted_loaded-Put :
      (loaded : Node) (k : Bytes) (f : Content) (a : Bool × Node)
      → Denotes T get_blob false loaded f
      → Put false k f a
      → Put false k f (inserted_loaded loaded a)
  unfolding inserted_loaded
  inserted_loaded-Put loaded k f (true, nn) d done = done
  inserted_loaded-Put loaded k f (false, nn) d (new, same) = (
    subst (λ g. Denotes T get_blob false loaded g) (sym (put_same k (some v) f (same refl))) d,
    same,
  )

  insert_end-Put :
      (w : Bytes) (f : Content) (t : Tracer)
      → f [] ≡ some w
      → Returns (Put true [] f) (insert_end (value_node w) (value_node v) t)
  unfolding insert_end
  insert_end-Put w f t e = (put-value T get_blob v [] f, λ same. e ∙ ap some (equal same))
    where
      equal : not (bytes_eq w v) ≡ false → w ≡ v
      equal h = (bytes_eq_iff w v).0 (ground arith)

  nothing-Inserts :
      (b : Bool) (x : ℕ) (k : Bytes) (f : Content)
      → ((k : Bytes) → Ends b k true → f k ≡ none)
      → Ends b (x ∷ k) true
      → Inserts b empty (x ∷ k) f
  unfolding insert insert_new
  nothing-Inserts b x k f absent h = (
    1,
    from_suc _ 0 λ fuel le prefix t. (
      insert_new-Denotes T get_blob b true (x ∷ k) (value_node v) (put (x ∷ k) (some v) f) prefix t
          h (put-value T get_blob v (x ∷ k) f)
          (λ j e n. rw (bytes_eq_of_strip (x ∷ k) j n) (absent j e)),
      λ e. cc,
    ),
  )

  pub Denotes-Inserts :
      {b : Bool} {n : Node} {f : Content}
      → Denotes T get_blob b n f
      → (k : Bytes) → Ends b k true
      → Inserts b n k f
  unfolding insert insert_end
  Denotes-Inserts (nothing {b = b} {f = f} absent) [] h =
      (1, from_suc _ 0 λ fuel le prefix t. (rw h (put-value T get_blob v [] f), λ e. cc))
  Denotes-Inserts (nothing {b = b} {f = f} absent) (x ∷ k) h = nothing-Inserts b x k f absent h
  Denotes-Inserts (at_value {v = w} {f = f} e) [] h =
      (1, from_suc _ 0 λ fuel le prefix t. insert_end-Put w f t e)
  Denotes-Inserts (at_value e) (x ∷ k) h = absurd h
  Denotes-Inserts (at_short path d miss) [] h = cc
  Denotes-Inserts (at_short {c = c} {key = nk} {child = child} {flags = flags} {f = f} path d miss)
        (x ∷ k) h =
      elim (common (x ∷ k) nk) [
        | covers r e len ↦ covers-Inserts nk child flags r x k c f e len path d miss (
            Denotes-Inserts d r
              (Ends-rest false c nk r true path (subst (λ j. Ends false j true) e h)))
        | parts p u us y ys differ e e' len ↦
            parts-Inserts nk child flags p u us y ys x k c f e e' len (differs u y differ) h path d
              miss
        | ends y ys e len ↦
            absurd (Ends-rest false true (x ∷ k) (y ∷ ys) c h (subst (λ j. Ends false j c) e path))
      ]
  Denotes-Inserts (at_full d) [] h = cc
  Denotes-Inserts (at_full {children = children} {flags = flags} {f = f} d) (x ∷ k) h =
      full-Inserts children flags x k f h.0 d (Denotes-Inserts (d x h.0) k h.1)
  Denotes-Inserts (at_hash x bs stored decoded d) [] h = cc
  Denotes-Inserts (at_hash {h = hash} {n = n} {f = f} y bs stored decoded d) (x ∷ k) h =
      let (enough, inserts) = Denotes-Inserts d (x ∷ k) h in
      (
        suc enough,
        from_suc _ enough λ fuel le prefix t.
            rw (resolve_and_track-found T get_blob hash y bs n prefix t stored decoded) (
              Returns-bind (Put false (x ∷ k) f) (Put false (x ∷ k) f) _ _
                (inserts fuel le prefix (on_read prefix (y ∷ bs) t))
                (λ a u done. inserted_loaded-Put n (x ∷ k) f a d done)),
      )

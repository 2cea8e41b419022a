-- ===== src/Trie/Denotes/Deletion.antt =====
-- `delete` of pkg/trie/trie.go gives a node that stands for the map without the path.
use meta_co_sign.Base.{
  ℕ, suc, ◌<◌, ◌≤◌, ◌≡◌, refl, sym, ap, ◌∙◌, subst, inl, inr, Bool, true, false, none, [], ◌∷◌,
  ◌++◌, arith, ltb, ◌==◌, ==_iff, length, length-append, Bool-cases, Option-cases, lt→ltb, differs,
}
use mathlib.Core.List.{append-nil}
use meta_co_sign.Bytes.{Bytes, bytes_eq, bytes_eq_refl}
use meta_co_sign.Store.{Read}
use meta_co_sign.Trie.Deletion.{delete, deleted_short, deleted_full}
use meta_co_sign.Trie.Denotes.{
  Content, put, put-append, put_same, Denotes, nothing, at_value, at_short, at_full, at_hash,
  resolve_and_track-found, from_suc,
}
use meta_co_sign.Trie.Denotes.Branch.{set_child-child}
use meta_co_sign.Trie.Denotes.Reduction.{Same, merge_short-Same, shrink_full-Same}
use meta_co_sign.Trie.Nibbles.{prefix_len}
use meta_co_sign.Trie.Node.{Node, empty, NodeFlag, set_child, short_node, full_node, TrieLibrary}
use meta_co_sign.Trie.Operations.{inserted_loaded}
use meta_co_sign.Trie.Operations.Steps.{Returns, Returns-bind, Returns-imp}
use meta_co_sign.Trie.Paths.{
  Ends, Ends-rest, Ends-nil, strip, strip-some, strip_apart, take_front, drop_front, covers, parts,
  ends, common, ==_false_comm,
}
use meta_co_sign.Trie.Tracer.{Tracer, on_read}

module _ (T : TrieLibrary) (get_blob : Bytes → Read) where
  -- what `delete` returns: a node for the changed map, and "not dirty" only if nothing changed
  abbrev pub Gone : Bool → Bytes → Content → Bool × Node → Type 0
  Gone b k f (dirty, n) = Denotes T get_blob b n (put k none f) × (dirty ≡ false → f k ≡ none)

  abbrev pub Deletes : Bool → Node → Bytes → Content → Type 0
  Deletes b n k f =
      (enough : ℕ) × ((fuel : ℕ)
        → enough ≤ fuel
        → (prefix : Bytes) (t : Tracer)
        → Returns (Gone b k f) (delete T get_blob fuel n prefix k t))

  Same-Gone :
      (k : Bytes) (f : Content) (a : Bool × Node)
      → Same T get_blob (put k none f) a
      → Gone false k f a
  Same-Gone k f a (d, dirty) = (d, λ e. cc)

  -- A path that is not there is deleted by leaving the node.
  kept :
      (b : Bool) (n : Node) (k : Bytes) (f : Content)
      → Denotes T get_blob b n f
      → f k ≡ none
      → Gone b k f (false, n)
  kept b n k f d e =
      (subst (λ g. Denotes T get_blob b n g) (sym (put_same k none f e)) d, λ same. e)

  none-put : (k : Bytes) (f : Content) (j : Bytes) → f j ≡ none → put k none f j ≡ none
  none-put k f j e = elim (Bool-cases (bytes_eq k j)) [
    | inl same ↦ rw same refl
    | inr other ↦ rw (other, e) refl
  ]

  deleted_short-Gone :
      (nk : Bytes) (child : Node) (flags : NodeFlag) (r : Bytes) (c : Bool) (f : Content)
      (prefix : Bytes) (a : Bool × Node) (t : Tracer)
      → Ends false nk c
      → Denotes T get_blob c child (λ s. f (nk ++ s))
      → ((k : Bytes) → Ends false k true → strip nk k ≡ none → f k ≡ none)
      → Gone c r (λ s. f (nk ++ s)) a
      → Returns (Gone false (nk ++ r) f) (deleted_short prefix nk (short_node nk child flags) a t)
  unfolding deleted_short
  deleted_short-Gone nk child flags r c f prefix (true, nn) t path d miss (new, same) =
      Returns-imp (Same T get_blob (put (nk ++ r) none f)) (Gone false (nk ++ r) f) _
        (merge_short-Same T get_blob new nk prefix (put (nk ++ r) none f) t
          (sym (put-append nk r none f)) path (λ k h n. none-put (nk ++ r) f k (miss k h n)))
        (Same-Gone (nk ++ r) f)
  deleted_short-Gone nk child flags r c f prefix (false, nn) t path d miss (new, same) =
      kept false (short_node nk child flags) (nk ++ r) f (at_short path d miss) (same refl)

  -- The whole short node is removed if its key is the rest of the path.
  removed-Gone :
      (nk : Bytes) (f : Content)
      → Ends false nk true
      → ((k : Bytes) → Ends false k true → strip nk k ≡ none → f k ≡ none)
      → Gone false nk f (true, empty)
  removed-Gone nk f path miss = (
    nothing λ k h. elim (Option-cases (strip nk k)) [
      | inl apart ↦ none-put nk f k (miss k h apart)
      | inr (s, e) ↦
          let front : k ≡ nk ++ s = strip-some nk k s e in
          let end : s ≡ [] =
            Ends-nil s true
              (Ends-rest false true nk s true path (subst (λ j. Ends false j true) front h)) in
          rw (front, end, append-nil nk, bytes_eq_refl nk) refl
    ],
    λ e. cc,
  )

  covers-Deletes :
      (nk : Bytes) (child : Node) (flags : NodeFlag) (r k : Bytes) (c : Bool) (f : Content)
      → k ≡ nk ++ r
      → prefix_len k nk ≡ length nk
      → Ends false k true
      → Ends false nk c
      → Denotes T get_blob c child (λ s. f (nk ++ s))
      → ((k : Bytes) → Ends false k true → strip nk k ≡ none → f k ≡ none)
      → Deletes c child r (λ s. f (nk ++ s))
      → Deletes false (short_node nk child flags) k f
  unfolding delete
  covers-Deletes nk child flags [] k c f e len h path d miss (enough, deletes) = (
    1,
    from_suc _ 0 λ fuel le prefix t.
        let whole : k ≡ nk = e ∙ append-nil nk in
        let long : ltb (length nk) (length nk) ≡ false = ground arith in
        let all : (length nk == length nk) ≡ true = (==_iff _ _).1 refl in
        let len' : prefix_len nk nk ≡ length nk =
          subst (λ j. prefix_len j nk ≡ length nk) whole len in
        rw (whole, len', long, all)
          (removed-Gone nk f (subst (λ j. Ends false j true) whole h) miss),
  )
  covers-Deletes nk child flags (z ∷ zs) k c f e len h path d miss (enough, deletes) = (
    suc enough,
    from_suc _ enough λ fuel le prefix t.
        let long : ltb (length nk) (length nk) ≡ false = ground arith in
        let more : (length nk == length (nk ++ z ∷ zs)) ≡ false =
          ground (arith, length-append nk (z ∷ zs)) in
        let len' : prefix_len (nk ++ z ∷ zs) nk ≡ length nk =
          subst (λ j. prefix_len j nk ≡ length nk) e len in
        rw (e, len', long, more, take_front nk (z ∷ zs), drop_front nk (z ∷ zs))
          (Returns-bind (Gone c (z ∷ zs) (λ s. f (nk ++ s))) (Gone false (nk ++ z ∷ zs) f) _ _
            (deletes fuel le (prefix ++ nk) t)
            (λ a u done.
              deleted_short-Gone nk child flags (z ∷ zs) c f prefix a u path d miss done)),
  )

  -- The path leaves the short node's key before its end.
  apart-Deletes :
      (nk : Bytes) (child : Node) (flags : NodeFlag) (k : Bytes) (m : ℕ) (f : Content)
      → prefix_len k nk ≡ m
      → m < length nk
      → Denotes T get_blob false (short_node nk child flags) f
      → f k ≡ none
      → Deletes false (short_node nk child flags) k f
  unfolding delete
  apart-Deletes nk child flags k m f len short d e = (
    1,
    from_suc _ 0 λ fuel le prefix t.
        rw (len, lt→ltb m (length nk) short) (kept false (short_node nk child flags) k f d e),
  )

  -- Behind the terminator nothing is left.
  value-removed :
      (k : Bytes) (f : Content)
      → Ends true k true
      → (j : Bytes) → Ends true j true
      → put k none f j ≡ none
  value-removed k f h j e = rw (Ends-nil k true h, Ends-nil j true e, bytes_eq_refl []) refl

  deleted_full-Gone :
      (children : ℕ → Node) (flags : NodeFlag) (x : ℕ) (k : Bytes) (f : Content) (prefix : Bytes)
      (a : Bool × Node) (t : Tracer)
      → ((i : ℕ) → i < 17 → Denotes T get_blob (i == 16) (children i) (λ r. f (i ∷ r)))
      → Gone (x == 16) k (λ r. f (x ∷ r)) a
      → Returns (Gone false (x ∷ k) f) (deleted_full T get_blob prefix children flags x a t)
  unfolding deleted_full
  deleted_full-Gone children flags x k f prefix (true, nn) t d (new, same) =
      Returns-imp (Same T get_blob (put (x ∷ k) none f)) (Gone false (x ∷ k) f) _
        (shrink_full-Same T get_blob (set_child children x nn) (put (x ∷ k) none f)
          (set_child-child T get_blob children x k none f nn d new) prefix t nn)
        (Same-Gone (x ∷ k) f)
  deleted_full-Gone children flags x k f prefix (false, nn) t d (new, same) =
      kept false (full_node children flags) (x ∷ k) f (at_full d) (same refl)

  inserted_loaded-Gone :
      (loaded : Node) (k : Bytes) (f : Content) (a : Bool × Node)
      → Denotes T get_blob false loaded f
      → Gone false k f a
      → Gone false k f (inserted_loaded loaded a)
  unfolding inserted_loaded
  inserted_loaded-Gone loaded k f (true, nn) d done = done
  inserted_loaded-Gone loaded k f (false, nn) d (new, same) = kept false loaded k f d (same refl)

  pub Denotes-Deletes :
      {b : Bool} {n : Node} {f : Content}
      → Denotes T get_blob b n f
      → (k : Bytes) → Ends b k true
      → Deletes b n k f
  unfolding delete
  Denotes-Deletes (nothing {b = b} {f = f} absent) k h =
      (1, from_suc _ 0 λ fuel le prefix t. kept b empty k f (nothing absent) (absent k h))
  Denotes-Deletes (at_value {f = f} e) k h =
      (1, from_suc _ 0 λ fuel le prefix t. (nothing (value-removed k f h), λ e. cc))
  Denotes-Deletes (at_short {c = c} {key = nk} {child = child} {flags = flags} {f = f} path d miss)
        k h =
      elim (common k nk) [
        | covers r e len ↦ covers-Deletes nk child flags r k c f e len h path d miss (
            Denotes-Deletes d r
              (Ends-rest false c nk r true path (subst (λ j. Ends false j true) e h)))
        | parts p u us y ys differ e e' len ↦
            apart-Deletes nk child flags k (length p) f len
              (ground (arith, length-append p (y ∷ ys), ap length e')) (at_short path d miss)
              (miss k h
                (rw (e, e') (strip_apart p y ys u us (==_false_comm u y (differs u y differ)))))
        | ends y ys e len ↦
            absurd (Ends-rest false true k (y ∷ ys) c h (subst (λ j. Ends false j c) e path))
      ]
  Denotes-Deletes (at_full d) [] h = cc
  Denotes-Deletes (at_full {children = children} {flags = flags} {f = f} d) (x ∷ k) h =
      let (enough, deletes) = Denotes-Deletes (d x h.0) k h.1 in
      (
        suc enough,
        from_suc _ enough λ fuel le prefix t. rw (lt→ltb x 17 h.0) (
            Returns-bind (Gone (x == 16) k (λ r. f (x ∷ r))) (Gone false (x ∷ k) f) _ _
              (deletes fuel le (prefix ++ x ∷ []) t)
              (λ a u done. deleted_full-Gone children flags x k f prefix a u d done)),
      )
  Denotes-Deletes (at_hash {h = hash} {n = n} {f = f} x bs stored decoded d) k h =
      let (enough, deletes) = Denotes-Deletes d k h in
      (
        suc enough,
        from_suc _ enough λ fuel le prefix t.
            rw (resolve_and_track-found T get_blob hash x bs n prefix t stored decoded) (
              Returns-bind (Gone false k f) (Gone false k f) _ _
                (deletes fuel le prefix (on_read prefix (x ∷ bs) t))
                (λ a u done. inserted_loaded-Gone n k f a d done)),
      )

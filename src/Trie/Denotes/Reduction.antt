-- ===== src/Trie/Denotes/Reduction.antt =====
-- The shortest forms that `delete` of pkg/trie/trie.go makes: a short node over a short node is
-- joined with it, and a full node with a single child becomes a short node.
use meta_co_sign.Base.{
  ℕ, ◌<◌, ◌≡◌, ◌≢◌, refl, sym, ap, ◌∙◌, subst, inl, inr, Bool, true, false, none, [], ◌∷◌, ◌++◌,
  arith, ◌==◌, Option-cases, Bool-cases,
}
use mathlib.Core.List.{append_assoc}
use mathlib.Core.Path.{fun_ext}
use meta_co_sign.Bytes.{Bytes}
use meta_co_sign.Store.{Read}
use meta_co_sign.Trie.Deletion.{
  Position, nothing_left, only, several, scan_children, merge_short, join_child, reduce_full,
  shrink_full,
}
use meta_co_sign.Trie.Denotes.{
  Content, Denotes, nothing, at_value, at_short, at_full, at_hash, resolve_and_track-found,
}
use meta_co_sign.Trie.Node.{
  Node, empty, value_node, hash_node, NodeFlag, new_flag, short_node, full_node, TrieLibrary,
}
use meta_co_sign.Trie.Operations.{resolve}
use meta_co_sign.Trie.Operations.Steps.{Returns, ◌>>=◌}
use meta_co_sign.Trie.Paths.{Ends, Ends-rest, append-Ends, strip, strip-some, strip-front}
use meta_co_sign.Trie.Tracer.{Tracer, on_read}
use meta_co_sign.Trie.Denotes.Scan.{scan-nothing_left}

module _ (T : TrieLibrary) (get_blob : Bytes → Read) where
  pub empty-none :
      {b : Bool} {n : Node} {f : Content}
      → Denotes T get_blob b n f
      → n ≡ empty
      → (k : Bytes) → Ends b k true
      → f k ≡ none
  empty-none (nothing absent) e k h = absent k h
  empty-none (at_value v) e k h = cc
  empty-none (at_short path d miss) e k h = cc
  empty-none (at_full d) e k h = cc
  empty-none (at_hash x bs stored decoded d) e k h = cc

  -- what a reduction returns: a changed node for the same map
  abbrev pub Same : Content → Bool × Node → Type 0
  Same g (dirty, n) = Denotes T get_blob false n g × (dirty ≡ true)

  -- A short node whose key goes on with that of a short node below it.
  short-short :
      (nk ck : Bytes) (e : Bool) (grandchild : Node) (flags : NodeFlag) (g : Content)
      → Ends false nk false
      → Ends false ck e
      → Denotes T get_blob e grandchild (λ r. g (nk ++ (ck ++ r)))
      → ((k : Bytes) → Ends false k true → strip ck k ≡ none → g (nk ++ k) ≡ none)
      → ((k : Bytes) → Ends false k true → strip nk k ≡ none → g k ≡ none)
      → Denotes T get_blob false (short_node (nk ++ ck) grandchild flags) g
  short-short nk ck e grandchild flags g path path' d miss' miss =
      at_short (append-Ends false false nk ck e path path')
        (subst (λ h. Denotes T get_blob e grandchild h)
          (fun_ext λ r. ap g (sym (append_assoc nk ck r))) d)
        (λ k h n. elim (Option-cases (strip nk k)) [
          | inl apart ↦ miss k h apart
          | inr (s, e') ↦
              let front : k ≡ nk ++ s = strip-some nk k s e' in
              rw front (
                miss' s
                  (Ends-rest false false nk s true path (subst (λ j. Ends false j true) front h))
                  (sym (strip-front nk ck s) ∙ subst (λ j. strip (nk ++ ck) j ≡ none) front n))
        ])

  -- A short node over what stands behind its key.
  short-over :
      {c : Bool} {child : Node} {h : Content}
      → Denotes T get_blob c child h
      → (nk : Bytes) (flags : NodeFlag) (g : Content) → ◌≡◌ {A = Content} h (λ s. g (nk ++ s))
      → Ends false nk c
      → ((k : Bytes) → Ends false k true → strip nk k ≡ none → g k ≡ none)
      → Denotes T get_blob false (short_node nk child flags) g
  short-over {c} {child} {h} d nk flags g e path miss =
      at_short path (subst (λ h. Denotes T get_blob c child h) e d) miss

  -- The short node over the short node `ck`, if the inner one holds `h` behind `nk`.
  joined :
      {c : Bool} {h : Content} (ck : Bytes) (grandchild : Node) (nk : Bytes) (g : Content)
      → ◌≡◌ {A = Content} h (λ s. g (nk ++ s))
      → Ends false nk false
      → Ends false ck c
      → Denotes T get_blob c grandchild (λ r. h (ck ++ r))
      → ((k : Bytes) → Ends false k true → strip ck k ≡ none → h k ≡ none)
      → ((k : Bytes) → Ends false k true → strip nk k ≡ none → g k ≡ none)
      → Denotes T get_blob false (short_node (nk ++ ck) grandchild new_flag) g
  joined {c} ck grandchild nk g e path path' d miss' miss =
      short-short nk ck c grandchild new_flag g path path'
        (subst (λ h. Denotes T get_blob c grandchild (λ r. h (ck ++ r))) e d)
        (subst (λ (h : Content). (k : Bytes) → Ends false k true → strip ck k ≡ none → h k ≡ none) e
          miss')
        miss

  pub merge_short-Same :
      {c : Bool} {child : Node} {h : Content}
      → Denotes T get_blob c child h
      → (nk prefix : Bytes) (g : Content) (t : Tracer) → ◌≡◌ {A = Content} h (λ s. g (nk ++ s))
      → Ends false nk c
      → ((k : Bytes) → Ends false k true → strip nk k ≡ none → g k ≡ none)
      → Returns (Same g) (merge_short prefix nk child t)
  unfolding merge_short
  merge_short-Same (nothing absent) nk prefix g t e path miss =
      (short-over (nothing absent) nk new_flag g e path miss, refl)
  merge_short-Same (at_value v) nk prefix g t e path miss =
      (short-over (at_value v) nk new_flag g e path miss, refl)
  merge_short-Same (at_short {key = ck} {child = grandchild} path' d miss') nk prefix g t e path
        miss =
      (joined ck grandchild nk g e path path' d miss' miss, refl)
  merge_short-Same (at_full d) nk prefix g t e path miss =
      (short-over (at_full d) nk new_flag g e path miss, refl)
  merge_short-Same (at_hash x bs stored decoded d) nk prefix g t e path miss =
      (short-over (at_hash x bs stored decoded d) nk new_flag g e path miss, refl)

  -- what the last child of a full node gives, where `n` is that child or what it is loaded as
  join_child-Same :
      {n : Node} {h : Content}
      → Denotes T get_blob false n h
      → (child : Node) (pos : ℕ) (prefix : Bytes) (g : Content) (t : Tracer)
      → Denotes T get_blob false (short_node (pos ∷ []) child new_flag) g
      → ◌≡◌ {A = Content} h (λ s. g (pos ∷ s))
      → Ends false (pos ∷ []) false
      → ((k : Bytes) → Ends false k true → strip (pos ∷ []) k ≡ none → g k ≡ none)
      → Returns (Same g) (join_child prefix child pos n t)
  unfolding join_child
  join_child-Same (nothing absent) child pos prefix g t plain e path miss = (plain, refl)
  join_child-Same (at_short {key = ck} {child = grandchild} path' d miss') child pos prefix g t
        plain e path miss =
      (joined ck grandchild (pos ∷ []) g e path path' d miss' miss, refl)
  join_child-Same (at_full d) child pos prefix g t plain e path miss = (plain, refl)
  join_child-Same (at_hash x bs stored decoded d) child pos prefix g t plain e path miss =
      (plain, refl)

  -- The last child is loaded before it is looked at.
  resolve-join_child :
      {child : Node} {h : Content}
      → Denotes T get_blob false child h
      → (pos : ℕ) (prefix path_to : Bytes) (g : Content) (t : Tracer)
      → Denotes T get_blob false (short_node (pos ∷ []) child new_flag) g
      → ◌≡◌ {A = Content} h (λ s. g (pos ∷ s))
      → Ends false (pos ∷ []) false
      → ((k : Bytes) → Ends false k true → strip (pos ∷ []) k ≡ none → g k ≡ none)
      → Returns (Same g) ((resolve T get_blob child path_to >>= join_child prefix child pos) t)
  unfolding resolve
  resolve-join_child (nothing absent) pos prefix path_to g t plain e path miss =
      join_child-Same (nothing absent) _ pos prefix g t plain e path miss
  resolve-join_child (at_short path' d miss') pos prefix path_to g t plain e path miss =
      join_child-Same (at_short path' d miss') _ pos prefix g t plain e path miss
  resolve-join_child (at_full d) pos prefix path_to g t plain e path miss =
      join_child-Same (at_full d) _ pos prefix g t plain e path miss
  resolve-join_child (at_hash {h = hash} {n = n} x bs stored decoded d) pos prefix path_to g t plain
        e path miss =
      rw (resolve_and_track-found T get_blob hash x bs n path_to t stored decoded) (
        join_child-Same d (hash_node hash) pos prefix g (on_read path_to (x ∷ bs) t) plain e path
          miss)

  module _ (children : ℕ → Node) (g : Content)
      (d : (i : ℕ) → i < 17 → Denotes T get_blob (i == 16) (children i) (λ r. g (i ∷ r))) where
    module _ (pos : ℕ) (small : pos < 17)
        (alone : (l : ℕ) → l < 17 → l ≢ pos → children l ≡ empty) where
      -- Behind the other children there is nothing.
      only-miss : (k : Bytes) → Ends false k true → strip (pos ∷ []) k ≡ none → g k ≡ none
      unfolding strip
      only-miss [] h n = cc
      only-miss (i ∷ k) h n = elim (Bool-cases (pos == i)) [
        | inl here ↦ cc (rw here at n)
        | inr there ↦ empty-none (d i h.0) (alone i h.0 (λ e. ground arith)) k h.1
      ]

      only-short : Denotes T get_blob false (short_node (pos ∷ []) (children pos) new_flag) g
      only-short = short-over (d pos small) (pos ∷ []) new_flag g refl (small, refl) only-miss

      reduce-only :
          (prefix : Bytes) (t : Tracer)
          → Returns (Same g) (reduce_full T get_blob prefix children (only pos) t)
      unfolding reduce_full
      reduce-only prefix t = elim (Bool-cases (pos == 16)) [
        | inl last ↦ rw last (only-short, refl)
        | inr inner ↦ rw inner (
            resolve-join_child
              (subst (λ b. Denotes T get_blob b (children pos) (λ r. g (pos ∷ r))) inner
                (d pos small))
              pos prefix (prefix ++ pos ∷ []) g t only-short refl (small, inner) only-miss)
      ]

    pub reduce_full-Same :
        (prefix : Bytes) (t : Tracer) (pos : Position)
        → scan_children 17 0 children nothing_left ≡ pos
        → Returns (Same g) (reduce_full T get_blob prefix children pos t)
    unfolding reduce_full
    reduce_full-Same prefix t nothing_left h = (at_full d, refl)
    reduce_full-Same prefix t several h = (at_full d, refl)
    reduce_full-Same prefix t (only pos) h =
        let (low, high, alone) = scan-nothing_left children 17 0 pos h in
        reduce-only pos (omega arith) (λ l lt ne. alone l (omega arith) (omega arith) ne) prefix t

    pub shrink_full-Same :
        (prefix : Bytes) (t : Tracer) (nn : Node)
        → Returns (Same g) (shrink_full T get_blob prefix children nn t)
    unfolding shrink_full
    shrink_full-Same prefix t empty =
        reduce_full-Same prefix t (scan_children 17 0 children nothing_left) refl
    shrink_full-Same prefix t (value_node v) = (at_full d, refl)
    shrink_full-Same prefix t (hash_node h) = (at_full d, refl)
    shrink_full-Same prefix t (short_node key child fl) = (at_full d, refl)
    shrink_full-Same prefix t (full_node ch fl) = (at_full d, refl)

-- ===== src/Trie/Denotes/Lookup.antt =====
-- `get` of pkg/trie/trie.go finds what the node stands for.
use meta_co_sign.Base.{
  ℕ, suc, ◌≤◌, ◌≡◌, sym, inl, inr, Bool, true, false, not, Option, none, [], ◌∷◌, ◌++◌, arith, ltb,
  ◌||◌, length, length-append, take, Option-cases, lt→ltb,
}
use meta_co_sign.Bytes.{Bytes, bytes_eq, bytes_eq_refl}
use meta_co_sign.Store.{Read}
use meta_co_sign.Trie.Denotes.{
  Content, Denotes, nothing, at_value, at_short, at_full, at_hash, resolve_and_track-found,
  from_suc,
}
use meta_co_sign.Trie.Node.{Node, NodeFlag, short_node, TrieLibrary}
use meta_co_sign.Trie.Operations.{get, got_short, got_full, got_hash}
use meta_co_sign.Trie.Operations.Steps.{Returns, Returns-bind}
use meta_co_sign.Trie.Paths.{Ends, Ends-rest, Ends-nil, strip, strip-some, take_front, drop_front}
use meta_co_sign.Trie.Tracer.{Tracer, on_read}

mismatch :
    (p k : Bytes)
    → strip p k ≡ none
    → (ltb (length k) (length p) || not (bytes_eq p (take (length p) k))) ≡ true
unfolding strip bytes_eq
mismatch [] k h = cc
mismatch (x ∷ p) [] h = ground arith
mismatch (x ∷ p) (y ∷ k) h = ground (arith, mismatch p k)

match :
    (p r : Bytes)
    → (ltb (length (p ++ r)) (length p) || not (bytes_eq p (take (length p) (p ++ r)))) ≡ false
match p r = ground (arith, length-append p r, take_front p r, bytes_eq_refl p)

module _ (T : TrieLibrary) (get_blob : Bytes → Read) where
  -- With enough fuel `get` ends with this value, whatever the path and the tracer.
  abbrev pub Gets : Node → Bytes → Option Bytes → ℕ → Type 0
  Gets n k o fuel =
      (prefix : Bytes) (t : Tracer) → Returns (λ r. r.0 ≡ o) (get T get_blob fuel n prefix k t)

  abbrev pub Finds : Node → Bytes → Option Bytes → Type 0
  Finds n k o = (enough : ℕ) × ((fuel : ℕ) → enough ≤ fuel → Gets n k o fuel)

  short-Finds :
      (nk : Bytes) (child : Node) (flags : NodeFlag) (r : Bytes) (o : Option Bytes)
      → Finds child r o
      → Finds (short_node nk child flags) (nk ++ r) o
  unfolding get got_short
  short-Finds nk child flags r o (enough, finds) = (
    suc enough,
    from_suc _ enough λ fuel le prefix t.
        rw (match nk r, drop_front nk r)
          (Returns-bind (λ g. g.0 ≡ o) (λ g. g.0 ≡ o) (get T get_blob fuel child (prefix ++ nk) r t)
            _ (finds fuel le (prefix ++ nk) t) (λ g u e. e)),
  )

  pub Denotes-Finds :
      {b : Bool} {n : Node} {f : Content}
      → Denotes T get_blob b n f
      → (k : Bytes) → Ends b k true
      → Finds n k (f k)
  unfolding get got_full got_hash
  Denotes-Finds (nothing e) k h = (1, from_suc _ 0 λ fuel le prefix t. sym (e k h))
  Denotes-Finds (at_value {f = f} e) k h =
      (1, from_suc _ 0 λ fuel le prefix t. rw (Ends-nil k true h) (sym e))
  Denotes-Finds (at_short {c = c} {key = key} {child = child} {flags = flags} {f = f} path d miss) k
        h =
      elim (Option-cases (strip key k)) [
        | inl e ↦ (1, from_suc _ 0 λ fuel le prefix t. rw (mismatch key k e) (sym (miss k h e)))
        | inr (r, e) ↦
            let front : k ≡ key ++ r = strip-some key k r e in
            rw front (
              short-Finds key child flags r (f (key ++ r))
                (Denotes-Finds d r (Ends-rest false c key r true path (rw front at h))))
      ]
  Denotes-Finds (at_full children) [] h = cc
  Denotes-Finds (at_full {children = children} {f = f} d) (x ∷ k) h =
      let (enough, finds) = Denotes-Finds (d x h.0) k h.1 in
      (
        suc enough,
        from_suc _ enough λ fuel le prefix t. rw (lt→ltb x 17 h.0) (
            Returns-bind (λ g. g.0 ≡ f (x ∷ k)) (λ g. g.0 ≡ f (x ∷ k))
              (get T get_blob fuel (children x) (prefix ++ x ∷ []) k t) _
              (finds fuel le (prefix ++ x ∷ []) t) (λ g u e. e)),
      )
  Denotes-Finds (at_hash {h = hash} {n = n} {f = f} x bs stored decoded d) k h =
      let (enough, finds) = Denotes-Finds d k h in
      (
        suc enough,
        from_suc _ enough λ fuel le prefix t.
            rw (resolve_and_track-found T get_blob hash x bs n prefix t stored decoded) (
              Returns-bind (λ g. g.0 ≡ f k) (λ g. g.0 ≡ f k)
                (get T get_blob fuel n prefix k (on_read prefix (x ∷ bs) t)) _
                (finds fuel le prefix (on_read prefix (x ∷ bs) t)) (λ g u e. e)),
      )

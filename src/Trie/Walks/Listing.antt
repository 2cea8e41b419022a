-- ===== src/Trie/Walks/Listing.antt =====
-- A walk of pkg/trie/trie.go visits every value behind a node once.
use mathlib.Core.List.{append-nil}
use meta_co_sign.Base.{
  ℕ, zero, suc, ◌+◌, ◌<◌, ◌≤◌, ◌≡◌, inl, inr, refl, sym, ap, ◌∙◌, subst, Bool, true, false, none,
  some, List, [], ◌∷◌, ◌++◌, if◌then◌else◌, All, arith, ltb, ◌==◌, ==_iff, Bool-cases, Option-cases,
}
use meta_co_sign.Bytes.{Bytes, bytes_eq}
use meta_co_sign.Store.{Read}
use meta_co_sign.Trie.Denotes.{
  Content, Denotes, nothing, at_value, at_short, at_full, at_hash, resolve_and_track-found,
  from_suc,
}
use meta_co_sign.Trie.Node.{Node, empty, value_node, hash_node, short_node, full_node, TrieLibrary}
use meta_co_sign.Trie.Operations.Steps.{Returns, Returns-bind}
use meta_co_sign.Trie.Paths.{Ends, Ends-rest, Ends-nil, strip, strip-some}
use meta_co_sign.Trie.Tracer.{Tracer, on_read}
use meta_co_sign.Trie.Walks.{walk, walk_children, walk_child}
use meta_co_sign.Trie.Walks.Entries.{
  Entry, values_at, behind, to_list, Lists, values_at-append, values_at-behind, values_at-elsewhere,
  behind-Held, Held, All-append, visits, visits-append, visits-behind,
}

empty-Lists : (b : Bool) (f : Content) → ((k : Bytes) → Ends b k true → f k ≡ none) → Lists b [] f
unfolding values_at
empty-Lists b f h = record { entries = tt; values = λ k e. rw (h k e) refl }

value-Lists : (v : Bytes) (f : Content) → f [] ≡ some v → Lists true (([], v) ∷ []) f
unfolding values_at bytes_eq
value-Lists v f h = record {
  entries = ((refl, h), tt);
  values = λ k e. rw (Ends-nil k true e, h) refl;
}

behind-Lists :
    (c : Bool) (p : Bytes) (es : List Entry) (f : Content)
    → Ends false p c
    → ((k : Bytes) → Ends false k true → strip p k ≡ none → f k ≡ none)
    → Lists c es (λ r. f (p ++ r))
    → Lists false (behind p es) f
behind-Lists c p es f path miss listed = record {
  entries = behind-Held false c p es f path listed.entries;
  values = λ k e. elim (Option-cases (strip p k)) [
    | inl apart ↦ values_at-elsewhere p k es apart ∙ sym (ap to_list (miss k e apart))
    | inr (r, at) ↦
        let front : k ≡ p ++ r = strip-some p k r at in
        rw front (
          values_at-behind p r es
          ∙ listed.values r (Ends-rest false c p r true path (rw front at e)))
  ];
}

-- the values at the children from `i` on
abbrev From : ℕ → List Entry → Content → Type 0
From i es f =
    All (Held false f) es
    × ((j : ℕ) (r : Bytes)
        → j < 17
        → Ends (j == 16) r true
        → values_at (j ∷ r) es ≡ (if ltb j i then [] else to_list (f (j ∷ r))))

From-none : (f : Content) → From 17 [] f
unfolding values_at
From-none f = (tt, λ j r h e. ground (arith, h))

From-child :
    (i : ℕ) (es fs : List Entry) (f : Content)
    → i < 17
    → Lists (i == 16) es (λ r. f (i ∷ r))
    → From (suc i) fs f
    → From i (behind (i ∷ []) es ++ fs) f
unfolding strip
From-child i es fs f small listed later = (
  All-append _ (behind (i ∷ []) es) fs
      (behind-Held false (i == 16) (i ∷ []) es f (small, refl) listed.entries) later.0,
  λ j r h e. values_at-append (j ∷ r) (behind (i ∷ []) es) fs ∙ (elim (Bool-cases (i == j)) [
    | inl same ↦
        let here : i ≡ j = (==_iff i j).0 same in
        let at_i : values_at (j ∷ r) (behind (i ∷ []) es) ≡ to_list (f (j ∷ r)) =
          rw (sym here) (values_at-behind (i ∷ []) r es ∙ listed.values r (rw (sym here) at e)) in
        let past : ltb j (suc i) ≡ true = ground (arith, here) in
        let not_past : ltb j i ≡ false = ground (arith, here) in
        rw (at_i, later.1 j r h e, past, not_past) (append-nil (to_list (f (j ∷ r))))
    | inr differ ↦
        let apart : strip (i ∷ []) (j ∷ r) ≡ none = rw differ refl in
        let next : ltb j (suc i) ≡ ltb j i = ground (arith, differ) in
        rw (values_at-elsewhere (i ∷ []) (j ∷ r) es apart, later.1 j r h e, next) refl
  ]),
)

From-Lists : (es : List Entry) (f : Content) → From 0 es f → Lists false es f
From-Lists es f (entries, values) = record {
  entries = entries;
  values = λ k. elim k as (λ k. Ends false k true → values_at k es ≡ to_list (f k)) [
    | [] ↦ λ e. cc
    | j ∷ r ↦ λ e.
        let first : ltb j 0 ≡ false = ground arith in
        values j r e.0 e.1 ∙ ap (λ b. if b then [] else to_list (f (j ∷ r))) first
  ];
}

module _ (T : TrieLibrary) (get_blob : Bytes → Read) (S : Type 0)
    (visit : Bytes → Bytes → S → S) where
  -- With enough fuel the walk visits these entries, whatever the path and the tracer.
  abbrev pub Visits : Node → List Entry → ℕ → Type 0
  Visits n es fuel =
      (prefix : Bytes) (s : S) (t : Tracer)
      → Returns (λ r. r ≡ visits visit prefix es s) (walk T get_blob visit fuel n prefix s t)

  abbrev pub Walks : Bool → Node → Content → Type 0
  Walks b n f =
      (es : List Entry) × Lists b es f
      × (enough : ℕ) × ((fuel : ℕ) → enough ≤ fuel → Visits n es fuel)

  empty-Visits :
      (fuel : ℕ) (es : List Entry) (prefix : Bytes) (s : S) (t : Tracer)
      → Visits empty es fuel
      → s ≡ visits visit prefix es s
  unfolding walk
  empty-Visits zero es prefix s t h = absurd (h prefix s t)
  empty-Visits (suc fuel) es prefix s t h = h prefix s t

  child-Visits :
      (i fuel : ℕ) (n : Node) (es : List Entry) (prefix : Bytes) (s : S) (t : Tracer)
      → Visits n es fuel
      → Returns
          (λ r. r ≡ visits visit prefix (behind (i ∷ []) es) s)
          (walk_child (λ m p r. walk T get_blob visit fuel m p r) i n prefix s t)
  unfolding walk_child
  child-Visits i fuel empty es prefix s t h =
      rw (visits-behind visit prefix (i ∷ []) es s) (empty-Visits fuel es (prefix ++ i ∷ []) s t h)
  child-Visits i fuel (value_node v) es prefix s t h =
      rw (visits-behind visit prefix (i ∷ []) es s) (h (prefix ++ i ∷ []) s t)
  child-Visits i fuel (hash_node v) es prefix s t h =
      rw (visits-behind visit prefix (i ∷ []) es s) (h (prefix ++ i ∷ []) s t)
  child-Visits i fuel (short_node key child flags) es prefix s t h =
      rw (visits-behind visit prefix (i ∷ []) es s) (h (prefix ++ i ∷ []) s t)
  child-Visits i fuel (full_node children flags) es prefix s t h =
      rw (visits-behind visit prefix (i ∷ []) es s) (h (prefix ++ i ∷ []) s t)

  -- The loop over the children from `i` on.
  children-Visits :
      (children : ℕ → Node) (f : Content)
      → ((i : ℕ) → i < 17 → Walks (i == 16) (children i) (λ r. f (i ∷ r)))
      → (rounds i : ℕ) → i + rounds ≡ 17
      → (es : List Entry) × From i es f
        × (enough : ℕ) × ((fuel : ℕ)
            → enough ≤ fuel
            → (prefix : Bytes) (s : S) (t : Tracer)
            → Returns
                (λ r. r ≡ visits visit prefix es s)
                (walk_children
                  (λ m p r. walk T get_blob visit fuel m p r)
                  rounds
                  i
                  children
                  prefix
                  s
                  t))
  unfolding walk_children visits
  children-Visits children f all zero i e =
      let last : 17 ≡ i = omega arith in
      ([], subst (λ i. From i [] f) last (From-none f), 0, λ fuel le prefix s t. refl)
  children-Visits children f all (suc rounds) i e =
      let (es, listed, enough, walks) = all i (omega arith) in
      let (fs, from, more, later) = children-Visits children f all rounds (suc i) (omega arith) in
      (
        behind (i ∷ []) es ++ fs,
        From-child i es fs f (omega arith) listed from,
        enough + more,
        λ fuel le prefix s t. rw (visits-append visit prefix (behind (i ∷ []) es) fs s) (
            Returns-bind (λ r. r ≡ visits visit prefix (behind (i ∷ []) es) s) _ _ _
              (child-Visits i fuel (children i) es prefix s t (walks fuel (omega arith)))
              (λ next u made. rw made (later fuel (omega arith) prefix _ u))),
      )

  pub Denotes-Walks : {b : Bool} {n : Node} {f : Content} → Denotes T get_blob b n f → Walks b n f
  unfolding walk visits
  Denotes-Walks (nothing {b = b} {f = f} none_there) =
      ([], empty-Lists b f none_there, 1, from_suc _ 0 λ fuel le prefix s t. refl)
  Denotes-Walks (at_value {v = v} {f = f} e) = (
    ([], v) ∷ [],
    value-Lists v f e,
    1,
    from_suc _ 0 λ fuel le prefix s t. rw (append-nil prefix) refl,
  )
  Denotes-Walks (at_short {c = c} {key = key} {child = child} {f = f} path d miss) =
      let (es, listed, enough, walks) = Denotes-Walks d in
      (
        behind key es,
        behind-Lists c key es f path miss listed,
        suc enough,
        from_suc _ enough λ fuel le prefix s t.
            rw (visits-behind visit prefix key es s) (walks fuel le (prefix ++ key) s t),
      )
  Denotes-Walks (at_full {children = children} {f = f} d) =
      let (es, from, enough, walks) =
        children-Visits children f (λ i small. Denotes-Walks (d i small)) 17 0 refl in
      (
        es,
        From-Lists es f from,
        suc enough,
        from_suc _ enough λ fuel le prefix s t. walks fuel le prefix s t,
      )
  Denotes-Walks (at_hash {h = hash} {n = n} {f = f} x bs stored decoded d) =
      let (es, listed, enough, walks) = Denotes-Walks d in
      (
        es,
        listed,
        suc enough,
        from_suc _ enough λ fuel le prefix s t.
            rw (resolve_and_track-found T get_blob hash x bs n prefix t stored decoded)
              (walks fuel le prefix s (on_read prefix (x ∷ bs) t)),
      )

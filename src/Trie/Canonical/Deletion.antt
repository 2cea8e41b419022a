-- ===== src/Trie/Canonical/Deletion.antt =====
-- `delete` of pkg/trie/trie.go keeps the canonical form.
use meta_co_sign.Base.{
  ℕ, zero, suc, ◌+◌, ◌<◌, ◌≡◌, refl, sym, ap, ◌∙◌, subst, Bool, true, false, [], ◌∷◌, ◌++◌, ◌==◌,
  ==_iff, arith, length, length-append, ltb, lt→ltb,
}
use mathlib.Core.List.{append-nil}
use meta_co_sign.Bytes.{Bytes}
use meta_co_sign.Store.{Read}
use meta_co_sign.Trie.Canonical.{
  Shape, nil, short, full, below, occupied, Canonical, nil_at, leaf_at, short_at, full_at, hash_at,
}
use meta_co_sign.Trie.Canonical.Depth.{stored_alone-occupied, IsPath, IsPath-rest, IsPath-cons}
use meta_co_sign.Trie.Canonical.Reduction.{Shrunk, merge_short-Shrunk}
use meta_co_sign.Trie.Canonical.Shrinking.{deleted_full-Shrunk}
use meta_co_sign.Trie.Deletion.{delete, deleted_short}
use meta_co_sign.Trie.Denotes.{resolve_and_track-found}
use meta_co_sign.Trie.Nibbles.{prefix_len}
use meta_co_sign.Trie.Node.{Node, NodeFlag, short_node, TrieLibrary}
use meta_co_sign.Trie.Operations.{inserted_loaded}
use meta_co_sign.Trie.Operations.Steps.{IfDone, IfDone-bind, Returns, Returns-IfDone}
use meta_co_sign.Trie.Paths.{Ends, take_front, drop_front, covers, parts, ends, common}
use meta_co_sign.Trie.Tracer.{Tracer, on_read}

module _ (T : TrieLibrary) (get_blob : Bytes → Read) where
  abbrev pub Shrinks : ℕ → ℕ → Shape → Node → Bytes → Type 0
  Shrinks fuel d s n k =
      (prefix : Bytes) (t : Tracer)
      → IfDone (Shrunk T get_blob d s) (delete T get_blob fuel n prefix k t)

  -- Below a short node and above the end of the path there is a full node.
  deep-full :
      {d : ℕ} {s : Shape} {n : Node}
      → Canonical T get_blob d s n
      → below s ≡ true
      → (d == 0) ≡ false
      → s ≡ full
  deep-full nil_at b deep = cc
  deep-full leaf_at b deep = cc
  deep-full (short_at b' path len c flag) b deep = cc
  deep-full (full_at shape e each last two flag) b deep = refl
  deep-full (hash_at a st c) b deep = deep-full c b deep

  deleted_short-Shrunk :
      (d m : ℕ) (s : Shape) (x : ℕ) (key prefix : Bytes) (old : Node) (a : Bool × Node) (t : Tracer)
      → s ≡ full
      → Ends false (x ∷ key) (d == 0)
      → length (x ∷ key) + d ≡ m
      → Canonical T get_blob m short old
      → Shrunk T get_blob d s a
      → Returns (Shrunk T get_blob m short) (deleted_short prefix (x ∷ key) old a t)
  unfolding deleted_short
  deleted_short-Shrunk d m s x key prefix old (false, nn) t e path len c shrunk =
      (short, λ e. cc, λ e. cc, c)
  deleted_short-Shrunk d m s x key prefix old (true, nn) t e path len c (s', there, direct, c') =
      merge_short-Shrunk T get_blob c' m x key prefix t (there e) (direct refl) path len

  inserted_loaded-Shrunk :
      (d : ℕ) (s : Shape) (loaded : Node) (a : Bool × Node)
      → occupied s ≡ true
      → Canonical T get_blob d s loaded
      → Shrunk T get_blob d s a
      → Shrunk T get_blob d s (inserted_loaded loaded a)
  unfolding inserted_loaded
  inserted_loaded-Shrunk d s loaded (true, nn) there c shrunk = shrunk
  inserted_loaded-Shrunk d s loaded (false, nn) there c shrunk = (s, λ e. there, λ e. cc, c)

  covers-Shrinks :
      (fuel d m : ℕ) (s : Shape) (nk : Bytes) (child : Node) (flags : NodeFlag) (r k : Bytes)
      → k ≡ nk ++ r
      → prefix_len k nk ≡ length nk
      → ((prefix : Bytes) (a : Bool × Node) (t : Tracer)
          → (length r == 0) ≡ false
          → Shrunk T get_blob d s a
          → Returns
              (Shrunk T get_blob m short)
              (deleted_short prefix nk (short_node nk child flags) a t))
      → Shrinks fuel d s child r
      → Shrinks (suc fuel) m short (short_node nk child flags) k
  unfolding delete
  covers-Shrinks fuel d m s nk child flags [] k e len over shrinks prefix t =
      let whole : k ≡ nk = e ∙ append-nil nk in
      let long : ltb (length nk) (length nk) ≡ false = ground arith in
      let all : (length nk == length nk) ≡ true = (==_iff _ _).1 refl in
      let len' : prefix_len nk nk ≡ length nk =
        subst (λ j. prefix_len j nk ≡ length nk) whole len in
      rw (whole, len', long, all) (nil, λ e. cc, λ e. refl, nil_at)
  covers-Shrinks fuel d m s nk child flags (z ∷ zs) k e len over shrinks prefix t =
      let long : ltb (length nk) (length nk) ≡ false = ground arith in
      let more : (length nk == length (nk ++ z ∷ zs)) ≡ false =
        ground (arith, length-append nk (z ∷ zs)) in
      let len' : prefix_len (nk ++ z ∷ zs) nk ≡ length nk =
        subst (λ j. prefix_len j nk ≡ length nk) e len in
      rw (e, len', long, more, take_front nk (z ∷ zs), drop_front nk (z ∷ zs))
        (IfDone-bind (Shrunk T get_blob d s) (Shrunk T get_blob m short) _ _
          (shrinks (prefix ++ nk) t)
          (λ a u shrunk.
            Returns-IfDone (Shrunk T get_blob m short) _ (over prefix a u (ground arith) shrunk)))

  apart-Shrinks :
      (fuel m : ℕ) (nk : Bytes) (child : Node) (flags : NodeFlag) (k : Bytes) (l : ℕ)
      → prefix_len k nk ≡ l
      → l < length nk
      → Canonical T get_blob m short (short_node nk child flags)
      → Shrinks (suc fuel) m short (short_node nk child flags) k
  unfolding delete
  apart-Shrinks fuel m nk child flags k l len less c prefix t =
      rw (len, lt→ltb l (length nk) less) (short, λ e. cc, λ e. cc, c)

  pub Canonical-Shrinks :
      (fuel : ℕ) {d : ℕ} {s : Shape} {n : Node}
      → Canonical T get_blob d s n
      → (k : Bytes) → IsPath d k
      → Shrinks fuel d s n k
  unfolding delete
  Canonical-Shrinks zero c k is = λ prefix t. tt
  Canonical-Shrinks (suc fuel) nil_at k is = λ prefix t. (nil, λ e. cc, λ e. cc, nil_at)
  Canonical-Shrinks (suc fuel) leaf_at k is = λ prefix t. (nil, λ e. cc, λ e. refl, nil_at)
  Canonical-Shrinks (suc fuel)
        (short_at {d = d} {m = m} {s = s} {x = y} {key = key} {child = child} {flags = flags} b path
          len c flag)
        k is =
      elim (common k (y ∷ key)) [
        | covers r e same ↦
            let is_rest : IsPath d r = IsPath-rest m d y key r (subst (IsPath m) e is) path len in
            covers-Shrinks fuel d m s (y ∷ key) child flags r k e same
              (λ prefix a t more shrunk.
                let deep : (d == 0) ≡ false = ground (arith, more, is_rest.0) in
                deleted_short-Shrunk d m s y key prefix (short_node (y ∷ key) child flags) a t
                  (deep-full c b deep) path len (short_at b path len c flag) shrunk)
              (Canonical-Shrinks fuel c r is_rest)
        | parts p u us z zs differ e e' same ↦
            apart-Shrinks fuel m (y ∷ key) child flags k (length p) same
              (ground (arith, length-append p (z ∷ zs), ap length e')) (short_at b path len c flag)
        | ends z zs e same ↦
            absurd (omega (arith, len, is.0, ap length e, length-append k (z ∷ zs)))
      ]
  Canonical-Shrinks (suc fuel) (full_at {m = m} shape e each last two flag) [] is =
      absurd (omega (arith, e, is.0))
  Canonical-Shrinks (suc fuel)
        (full_at {d = d} {m = m} {children = children} {flags = flags} shape e each last two flag)
        (x ∷ k) is =
      λ prefix t.
        let (small, rest) = IsPath-cons d x k (subst (λ m. IsPath m (x ∷ k)) (sym e) is) in
        rw (lt→ltb x 17 (omega arith)) (
          IfDone-bind (Shrunk T get_blob (suc d) (shape x)) (Shrunk T get_blob m full) _ _
            (Canonical-Shrinks fuel (each x small) k rest (prefix ++ x ∷ []) t)
            (λ a u shrunk. Returns-IfDone (Shrunk T get_blob m full) _ (
              deleted_full-Shrunk T get_blob d m x shape children e small each last two flags a
                prefix u (full_at shape e each last two flag) shrunk)))
  Canonical-Shrinks (suc fuel) (hash_at {d = d} {s = s} {h = h} {n = n} a st c) k is = λ prefix t.
      rw (resolve_and_track-found T get_blob h st.head st.tail n prefix t st.there st.decodes) (
        IfDone-bind (Shrunk T get_blob d s) (Shrunk T get_blob d s) _ _
          (Canonical-Shrinks fuel c k is prefix (on_read prefix (st.head ∷ st.tail) t))
          (λ r u shrunk. inserted_loaded-Shrunk d s n r (stored_alone-occupied s a) c shrunk))

-- ===== src/Trie/Canonical/Shrinking.antt =====
-- What `delete` of pkg/trie/trie.go makes of a full node whose child was deleted from.
use meta_co_sign.Base.{
  ℕ, suc, ◌<◌, ◌≡◌, ◌≢◌, refl, sym, ap, ◌∙◌, subst, inl, inr, Bool, true, false, [], ◌∷◌, ◌++◌,
  ◌==◌, ==_iff, arith, Bool-cases, if◌then◌else◌,
}
use meta_co_sign.Bytes.{Bytes}
use meta_co_sign.Store.{Read}
use meta_co_sign.Trie.Canonical.{
  Shape, nil, full, occupied, Two, Canonical, nil_at, leaf_at, short_at, full_at, hash_at,
}
use meta_co_sign.Trie.Canonical.Growth.{full-Grows}
use meta_co_sign.Trie.Canonical.Depth.{stored_alone-occupied}
use meta_co_sign.Trie.Canonical.Reduction.{
  Shrunk, Canonical-occupied, occupied-there, resolve-join_child,
}
use meta_co_sign.Trie.Deletion.{
  Position, nothing_left, only, several, scan_children, reduce_full, shrink_full, deleted_full,
}
use meta_co_sign.Trie.Denotes.Scan.{scan-nothing_left, scan-all, scan-two}
use meta_co_sign.Trie.Node.{Node, empty, full_node, NodeFlag, new_flag, set_child, TrieLibrary}
use meta_co_sign.Trie.Operations.Steps.{Returns}
use meta_co_sign.Trie.Tracer.{Tracer}

module _ (T : TrieLibrary) (get_blob : Bytes → Read) where
  -- the children after one of them was lost
  module _ (d m : ℕ) (e : suc (suc d) ≡ m) (shape : ℕ → Shape) (children : ℕ → Node)
      (each : (i : ℕ) → i < 16 → Canonical T get_blob (suc d) (shape i) (children i))
      (last : children 16 ≡ empty) (w : ℕ) (w_small : w < 16)
      (there : occupied (shape w) ≡ true) where
    inner_child : (i : ℕ) → i < 17 → children i ≢ empty → i < 16
    inner_child i high filled = elim (Bool-cases (i == 16)) [
      | inl at ↦ absurd (filled (ap children ((==_iff i 16).0 at) ∙ last))
      | inr apart ↦ ground arith
    ]

    reduce_full-Shrunk :
        (prefix : Bytes) (t : Tracer) (pos : Position)
        → scan_children 17 0 children nothing_left ≡ pos
        → Returns (Shrunk T get_blob m full) (reduce_full T get_blob prefix children pos t)
    unfolding reduce_full
    reduce_full-Shrunk prefix t nothing_left h = absurd (
        occupied-there T get_blob (each w w_small) there
          (scan-all children 17 0 h w (omega arith) (omega arith)))
    reduce_full-Shrunk prefix t several h =
        let (l, k, less, high, l_there, k_there) = scan-two children 17 0 h in
        let l_small = inner_child l (omega arith) l_there in
        let k_small = inner_child k (omega arith) k_there in
        (
          full,
          λ e. refl,
          λ e. refl,
          full_at shape e each last
              (record {
                first = l;
                second = k;
                first_small = l_small;
                second_small = k_small;
                apart = λ same. absurd (omega (arith, same));
                first_there = Canonical-occupied T get_blob (each l l_small) l_there;
                second_there = Canonical-occupied T get_blob (each k k_small) k_there;
              })
              (inl refl),
        )
    reduce_full-Shrunk prefix t (only pos) h =
        let (low, high, alone) = scan-nothing_left children 17 0 pos h in
        let at : w ≡ pos = elim (Bool-cases (w == pos)) [
          | inl same ↦ (==_iff w pos).0 same
          | inr apart ↦ absurd (
              occupied-there T get_blob (each w w_small) there
                (alone w (omega arith) (omega arith) (λ same. ground arith)))
        ] in
        let not_last : (pos == 16) ≡ false = ground (arith, at) in
        let pos_small : pos < 16 = subst (λ i. i < 16) at w_small in
        rw not_last (
          resolve-join_child T get_blob (each pos pos_small) m pos prefix (prefix ++ pos ∷ []) t
            (subst (λ i. occupied (shape i) ≡ true) at there) pos_small (ground arith) e)

  lose : (ℕ → Shape) → ℕ → ℕ → Shape
  lose shape x j = if x == j then nil else shape j

  lost-child :
      (d m x : ℕ) (shape : ℕ → Shape) (children : ℕ → Node) (prefix : Bytes) (t : Tracer)
      → suc (suc d) ≡ m
      → x < 16
      → ((i : ℕ) → i < 16 → Canonical T get_blob (suc d) (shape i) (children i))
      → children 16 ≡ empty
      → Two shape
      → Returns (Shrunk T get_blob m full) (
          reduce_full T get_blob prefix
            (set_child children x empty)
            (scan_children 17 0 (set_child children x empty) nothing_left)
            t)
  unfolding lose
  lost-child d m x shape children prefix t e small each last two =
      let x_not : (x == 16) ≡ false = ground arith in
      let all : (i : ℕ)
          → i < 16
          → Canonical T get_blob (suc d) (lose shape x i) (set_child children x empty i) =
        λ i i_small. elim (Bool-cases (x == i)) [
          | inl here ↦ rw here nil_at
          | inr other ↦ rw other (each i i_small)
        ] in
      let left : (i : ℕ)
          → (x == i) ≡ false
          → occupied (shape i) ≡ true
          → occupied (lose shape x i) ≡ true =
        λ i other o. rw other o in
      elim (Bool-cases (x == two.first)) [
        | inl first ↦
            let other : (x == two.second) ≡ false = (elim (Bool-cases (x == two.second)) [
              | inl second ↦
                  absurd (
                    two.apart (sym ((==_iff x two.first).0 first) ∙ (==_iff x two.second).0 second))
              | inr apart ↦ apart
            ]) in
            reduce_full-Shrunk d m e (lose shape x) (set_child children x empty) all (rw x_not last)
              two.second two.second_small (left two.second other two.second_there) prefix t _ refl
        | inr other ↦
            reduce_full-Shrunk d m e (lose shape x) (set_child children x empty) all (rw x_not last)
              two.first two.first_small (left two.first other two.first_there) prefix t _ refl
      ]

  module _ (d m x : ℕ) (shape : ℕ → Shape) (children : ℕ → Node) (e : suc (suc d) ≡ m)
      (small : x < 16)
      (each : (i : ℕ) → i < 16 → Canonical T get_blob (suc d) (shape i) (children i))
      (last : children 16 ≡ empty) (two : Two shape) where
    stays :
        {r : ℕ} {s : Shape} {nn : Node}
        → Canonical T get_blob r s nn
        → r ≡ suc d
        → occupied s ≡ true
        → Shrunk T get_blob m full (true, full_node (set_child children x nn) new_flag)
    stays {s = s} {nn = nn} c len o = (
      full,
      λ e. refl,
      λ e. refl,
      full-Grows T get_blob d m x children shape s nn e small o
          (subst (λ r. Canonical T get_blob r s nn) len c) each last two,
    )

    shrink_full-Shrunk :
        {r : ℕ} {s : Shape} {nn : Node}
        → Canonical T get_blob r s nn
        → r ≡ suc d
        → (prefix : Bytes) (t : Tracer)
        → Returns
            (Shrunk T get_blob m full)
            (shrink_full T get_blob prefix (set_child children x nn) nn t)
    unfolding shrink_full
    shrink_full-Shrunk nil_at len prefix t =
        lost-child d m x shape children prefix t e small each last two
    shrink_full-Shrunk leaf_at len prefix t = absurd (omega (arith, len))
    shrink_full-Shrunk (short_at b path l c flag) len prefix t =
        stays (short_at b path l c flag) len refl
    shrink_full-Shrunk (full_at kinds l all end both flag) len prefix t =
        stays (full_at kinds l all end both flag) len refl
    shrink_full-Shrunk (hash_at a st c) len prefix t =
        stays (hash_at a st c) len (stored_alone-occupied _ a)

    pub deleted_full-Shrunk :
        (flags : NodeFlag) (a : Bool × Node) (prefix : Bytes) (t : Tracer)
        → Canonical T get_blob m full (full_node children flags)
        → Shrunk T get_blob (suc d) (shape x) a
        → Returns (Shrunk T get_blob m full) (deleted_full T get_blob prefix children flags x a t)
    unfolding deleted_full
    deleted_full-Shrunk flags (false, nn) prefix t c shrunk = (full, λ e. refl, λ e. cc, c)
    deleted_full-Shrunk flags (true, nn) prefix t c (s', there, direct, c') =
        shrink_full-Shrunk c' refl prefix t

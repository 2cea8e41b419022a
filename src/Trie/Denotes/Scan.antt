-- ===== src/Trie/Denotes/Scan.antt =====
-- The loop of `delete` of pkg/trie/trie.go that looks for the last child of a full node.
use meta_co_sign.Base.{
  ℕ, zero, suc, ◌+◌, ◌<◌, ◌≤◌, ◌≡◌, ◌≢◌, refl, sym, ◌∙◌, subst, ◌⊎◌, inl, inr, arith, ◌==◌, ==_iff,
  Bool-cases,
}
use meta_co_sign.Trie.Deletion.{
  Position, nothing_left, only, several, seen, note_child, scan_children,
}
use meta_co_sign.Trie.Node.{Node, empty, value_node, hash_node, short_node, full_node}

-- a node is nil, or the loop sees it
Node-cases : (n : Node) → (n ≡ empty) ⊎ ((i : ℕ) (pos : Position) → note_child i n pos ≡ seen i pos)
unfolding note_child
Node-cases empty = inl refl
Node-cases (value_node v) = inr (λ i pos. refl)
Node-cases (hash_node h) = inr (λ i pos. refl)
Node-cases (short_node key child flags) = inr (λ i pos. refl)
Node-cases (full_node children flags) = inr (λ i pos. refl)

module _ (children : ℕ → Node) where
  scan-several : (rounds i : ℕ) → scan_children rounds i children several ≡ several
  unfolding scan_children note_child seen
  scan-several zero i = refl
  scan-several (suc rounds) i = elim (Node-cases (children i)) [
    | inl nil ↦ rw nil (scan-several rounds (suc i))
    | inr sees ↦ rw (sees i several) (scan-several rounds (suc i))
  ]

  -- From a first child on, the loop ends at it only if there is no other.
  scan-only :
      (rounds i p j : ℕ)
      → scan_children rounds i children (only p) ≡ only j
      → (p ≡ j) × ((l : ℕ) → i ≤ l → l < i + rounds → children l ≡ empty)
  unfolding scan_children note_child seen
  scan-only zero i p j h = (ground arith, λ l le lt. absurd (omega arith))
  scan-only (suc rounds) i p j h = elim (Node-cases (children i)) [
    | inl nil ↦
        let (same, rest) = scan-only rounds (suc i) p j (rw nil at h) in
        (
          same,
          λ l le lt. elim (Bool-cases (i == l)) [
            | inl here ↦ subst (λ l. children l ≡ empty) ((==_iff i l).0 here) nil
            | inr there ↦ rest l (ground arith) (omega arith)
          ],
        )
    | inr sees ↦
        let clash : several ≡ only j =
          sym (scan-several rounds (suc i)) ∙ (rw (sees i (only p)) at h) in
        cc
  ]

  -- The loop ends at a child only if no other child is there.
  pub scan-nothing_left :
      (rounds i j : ℕ)
      → scan_children rounds i children nothing_left ≡ only j
      → (i ≤ j) × (j < i + rounds) × ((l : ℕ) → i ≤ l → l < i + rounds → l ≢ j → children l ≡ empty)
  unfolding scan_children note_child seen
  scan-nothing_left zero i j h = cc
  scan-nothing_left (suc rounds) i j h = elim (Node-cases (children i)) [
    | inl nil ↦
        let (low, high, rest) = scan-nothing_left rounds (suc i) j (rw nil at h) in
        (
          omega arith,
          omega arith,
          λ l le lt ne. elim (Bool-cases (i == l)) [
            | inl here ↦ subst (λ l. children l ≡ empty) ((==_iff i l).0 here) nil
            | inr there ↦ rest l (ground arith) (omega arith) ne
          ],
        )
    | inr sees ↦
        let (same, rest) = scan-only rounds (suc i) i j (rw (sees i nothing_left) at h) in
        (omega arith, omega arith, λ l le lt ne. rest l (ground arith) (omega arith))
  ]

  scan-stays : (rounds i p : ℕ) → scan_children rounds i children (only p) ≢ nothing_left
  unfolding scan_children note_child seen
  scan-stays zero i p h = cc
  scan-stays (suc rounds) i p h = elim (Node-cases (children i)) [
    | inl nil ↦ scan-stays rounds (suc i) p (rw nil at h)
    | inr sees ↦
        let clash : several ≡ nothing_left =
          sym (scan-several rounds (suc i)) ∙ (rw (sees i (only p)) at h) in
        cc
  ]

  -- The loop ends with nothing only if no child is there.
  pub scan-all :
      (rounds i : ℕ)
      → scan_children rounds i children nothing_left ≡ nothing_left
      → (l : ℕ) → i ≤ l
      → l < i + rounds
      → children l ≡ empty
  unfolding scan_children note_child seen
  scan-all zero i h l le lt = absurd (omega arith)
  scan-all (suc rounds) i h l le lt = elim (Node-cases (children i)) [
    | inl nil ↦ elim (Bool-cases (i == l)) [
      | inl here ↦ subst (λ l. children l ≡ empty) ((==_iff i l).0 here) nil
      | inr there ↦ scan-all rounds (suc i) (rw nil at h) l (ground arith) (omega arith)
    ]
    | inr sees ↦ absurd (scan-stays rounds (suc i) i (rw (sees i nothing_left) at h))
  ]

  sees-there :
      (i : ℕ)
      → ((j : ℕ) (pos : Position) → note_child j (children i) pos ≡ seen j pos)
      → children i ≢ empty
  unfolding note_child seen
  sees-there i sees e = let clash : nothing_left ≡ only i = (rw e at (sees i nothing_left)) in cc

  scan-second :
      (rounds i p : ℕ)
      → scan_children rounds i children (only p) ≡ several
      → (l : ℕ) × (i ≤ l) × (l < i + rounds) × (children l ≢ empty)
  unfolding scan_children note_child seen
  scan-second zero i p h = cc
  scan-second (suc rounds) i p h = elim (Node-cases (children i)) [
    | inl nil ↦
        let (l, low, high, there) = scan-second rounds (suc i) p (rw nil at h) in
        (l, omega arith, omega arith, there)
    | inr sees ↦ (i, omega arith, omega arith, sees-there i sees)
  ]

  -- The loop ends with several only if two children are there.
  pub scan-two :
      (rounds i : ℕ)
      → scan_children rounds i children nothing_left ≡ several
      → (l : ℕ) × (k : ℕ) × (l < k) × (k < i + rounds) × (children l ≢ empty) × (children k ≢ empty)
  unfolding scan_children note_child seen
  scan-two zero i h = cc
  scan-two (suc rounds) i h = elim (Node-cases (children i)) [
    | inl nil ↦
        let (l, k, less, high, there, there') = scan-two rounds (suc i) (rw nil at h) in
        (l, k, less, omega arith, there, there')
    | inr sees ↦
        let (k, low, high, there) = scan-second rounds (suc i) i (rw (sees i nothing_left) at h) in
        (i, k, omega arith, omega arith, sees-there i sees, there)
  ]

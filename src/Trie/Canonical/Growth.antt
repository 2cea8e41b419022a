-- ===== src/Trie/Canonical/Growth.antt =====
-- What a node may become when `insert` of pkg/trie/trie.go puts a value below it.
use meta_co_sign.Base.{
  ℕ, suc, ◌<◌, ◌≡◌, refl, Bool, true, false, ◌==◌, arith, Bool-cases, inl, inr, if◌then◌else◌,
}
use meta_co_sign.Bytes.{Bytes}
use meta_co_sign.Store.{Read}
use meta_co_sign.Trie.Canonical.{
  Shape, nil, leaf, short, full, below, occupied, Two, Canonical, full_at,
}
use meta_co_sign.Trie.Node.{Node, empty, full_node, new_flag, set_child, TrieLibrary}
use meta_co_sign.Trie.Operations.{inserted, inserted_loaded}
use meta_co_sign.Trie.Operations.Steps.{IfDone}
use meta_co_sign.Trie.Tracer.{Tracer}

abbrev pub set_shape : {A : Type 0} → (ℕ → A) → ℕ → A → ℕ → A
set_shape shape i s j = if i == j then s else shape j

module _ (T : TrieLibrary) (get_blob : Bytes → Read) where
  -- something is there, in canonical form
  abbrev pub Grown : ℕ → Node → Type 0
  Grown d n = (s : Shape) × (occupied s ≡ true) × Canonical T get_blob d s n

  -- The result stands where a node of this shape stood.
  abbrev pub Grows : ℕ → Shape → Bool × Node → Type 0
  Grows d s a =
      (s' : Shape) × (occupied s' ≡ true)
      × (below s ≡ true → below s' ≡ true)
      × Canonical T get_blob d s' a.1

  pub below-occupied : (s : Shape) → below s ≡ true → occupied s ≡ true
  below-occupied nil e = cc
  below-occupied leaf e = refl
  below-occupied short e = refl
  below-occupied full e = refl

  -- The node above one that was inserted into.
  pub inserted-Grows :
      (d : ℕ) (s : Shape) (old : Node) (hash : Bytes) (rebuild : Node → Node) (a : Bool × Node)
      (t : Tracer)
      → occupied s ≡ true
      → Canonical T get_blob d s old
      → Canonical T get_blob d s (rebuild a.1)
      → IfDone (Grows d s) (inserted old hash rebuild a t)
  unfolding inserted
  inserted-Grows d s old hash rebuild (true, nn) t there c c' = (s, there, λ b. b, c')
  inserted-Grows d s old hash rebuild (false, nn) t there c c' = (s, there, λ b. b, c)

  pub inserted_loaded-Grows :
      (d : ℕ) (s : Shape) (loaded : Node) (a : Bool × Node)
      → occupied s ≡ true
      → Canonical T get_blob d s loaded
      → Grows d s a
      → Grows d s (inserted_loaded loaded a)
  unfolding inserted_loaded
  inserted_loaded-Grows d s loaded (true, nn) there c g = g
  inserted_loaded-Grows d s loaded (false, nn) there c g = (s, there, λ b. b, c)

  -- A full node with one child grown.
  pub full-Grows :
      (d m x : ℕ) (children : ℕ → Node) (shape : ℕ → Shape) (s : Shape) (nn : Node)
      → suc (suc d) ≡ m
      → x < 16
      → occupied s ≡ true
      → Canonical T get_blob (suc d) s nn
      → ((i : ℕ) → i < 16 → Canonical T get_blob (suc d) (shape i) (children i))
      → children 16 ≡ empty
      → Two shape
      → Canonical T get_blob m full (full_node (set_child children x nn) new_flag)
  full-Grows d m x children shape s nn e small there c each last two =
      let x_not : (x == 16) ≡ false = ground arith in
      full_at (set_shape shape x s) e
        (λ i i_small. elim (Bool-cases (x == i)) [
          | inl here ↦ rw here c
          | inr other ↦ rw other (each i i_small)
        ])
        (rw x_not last)
        (record {
          first = two.first;
          second = two.second;
          first_small = two.first_small;
          second_small = two.second_small;
          apart = two.apart;
          first_there = grown two.first two.first_there;
          second_there = grown two.second two.second_there;
        })
        (inl refl)
    where
      grown : (i : ℕ) → occupied (shape i) ≡ true → occupied (set_shape shape x s i) ≡ true
      grown i e = elim (Bool-cases (x == i)) [ inl here ↦ rw here there | inr other ↦ rw other e ]

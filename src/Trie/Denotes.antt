-- ===== src/Trie/Denotes.antt =====
-- What a node of the trie stands for: a map from the paths behind it to values. The nodes may be in
-- memory, or in the database under their hashes.
pub mod Branch
pub mod Deletion
pub mod Insertion
pub mod Lookup
pub mod Reduction
pub mod Scan
use meta_co_sign.Base.{
  Bool-cases, inl, inr, sym, ℕ, zero, suc, ◌<◌, ◌≤◌, ◌≡◌, refl, ap, ◌∙◌, subst, Bool, true, false,
  Option, none, some, [], ◌∷◌, ◌++◌, arith, ◌==◌, if◌then◌else◌, ◌&&◌,
}
use mathlib.Core.Path.{fun_ext}
use meta_co_sign.Bytes.{Bytes, bytes_eq, bytes_eq_iff, bytes_eq-append}
use meta_co_sign.Result.{ok}
use meta_co_sign.Store.{Read, found}
use meta_co_sign.Trie.Node.{
  Node, empty, value_node, hash_node, short_node, full_node, NodeFlag, TrieLibrary, decode_node,
}
use meta_co_sign.Trie.Operations.{resolve_and_track, load}
use meta_co_sign.Trie.Operations.Steps.{done, reply_of}
use meta_co_sign.Trie.Paths.{Ends, strip}
use meta_co_sign.Trie.Tracer.{Tracer, on_read}

abbrev pub Content : Type 0
Content = Bytes → Option Bytes

-- the map with one path changed
abbrev pub put : Bytes → Option Bytes → Content → Content
put k o f j = if bytes_eq k j then o else f j

-- The values behind a front of the path, after a change behind that front, or elsewhere.
pub put-append :
    (p r : Bytes) (o : Option Bytes) (f : Content)
    → ◌≡◌ {A = Content} (λ s. put (p ++ r) o f (p ++ s)) (put r o (λ s. f (p ++ s)))
put-append p r o f = fun_ext λ s. ap (λ b. if b then o else f (p ++ s)) (bytes_eq-append p r s)

pub put_ne :
    (x y : ℕ) (r : Bytes) (o : Option Bytes) (f : Content)
    → (x == y) ≡ false
    → ◌≡◌ {A = Content} (λ s. put (x ∷ r) o f (y ∷ s)) (λ s. f (y ∷ s))
unfolding bytes_eq
put_ne x y r o f h = fun_ext λ s. rw h refl

-- A change to what is there already is none.
pub put_same :
    (k : Bytes) (o : Option Bytes) (f : Content) → f k ≡ o → ◌≡◌ {A = Content} (put k o f) f
put_same k o f h = fun_ext λ j. elim (Bool-cases (bytes_eq k j)) [
  | inl same ↦ rw same (sym h ∙ ap f ((bytes_eq_iff k j).0 same))
  | inr differ ↦ rw differ refl
]

module _ (T : TrieLibrary) (get_blob : Bytes → Read) where
  -- `Denotes b n f`: behind a path that has met the terminator (`b`) or has not, the node `n` holds
  -- the value `v` at the path `k` exactly if `f k ≡ some v`. A loaded node is decoded from what the
  -- database holds under its hash.
  pub data Denotes : Bool → Node → Content → Type 0 where
    nothing :
        {b : Bool} {f : Content} → ((k : Bytes) → Ends b k true → f k ≡ none) → Denotes b empty f
    at_value : {v : Bytes} {f : Content} → f [] ≡ some v → Denotes true (value_node v) f
    at_short :
        {c : Bool} {key : Bytes} {child : Node} {flags : NodeFlag} {f : Content}
        → Ends false key c
        → Denotes c child (λ r. f (key ++ r))
        → ((k : Bytes) → Ends false k true → strip key k ≡ none → f k ≡ none)
        → Denotes false (short_node key child flags) f
    at_full :
        {children : ℕ → Node} {flags : NodeFlag} {f : Content}
        → ((i : ℕ) → i < 17 → Denotes (i == 16) (children i) (λ r. f (i ∷ r)))
        → Denotes false (full_node children flags) f
    at_hash :
        {h : Bytes} {n : Node} {f : Content} (x : ℕ) (bs : Bytes)
        → get_blob (T.bytes_to_hash h) ≡ found (x ∷ bs)
        → decode_node T h (x ∷ bs) ≡ ok n
        → Denotes false n f
        → Denotes false (hash_node h) f

  pub resolve_and_track-found :
      (h : Bytes) (x : ℕ) (bs : Bytes) (n : Node) (prefix : Bytes) (t : Tracer)
      → get_blob (T.bytes_to_hash h) ≡ found (x ∷ bs)
      → decode_node T h (x ∷ bs) ≡ ok n
      → resolve_and_track T get_blob h prefix t ≡ (done n, on_read prefix (x ∷ bs) t)
  unfolding resolve_and_track load reply_of
  resolve_and_track-found h x bs n prefix t stored decoded = rw (stored, load, decoded) refl

-- A statement for every fuel above a bound, from the statement for successors.
pub from_suc {ℓ} :
    (P : ℕ → Type ℓ) (m : ℕ)
    → ((fuel : ℕ) → m ≤ fuel → P (suc fuel))
    → (fuel : ℕ) → suc m ≤ fuel
    → P fuel
from_suc P m step zero h = absurd (omega arith)
from_suc P m step (suc fuel) h = step fuel (omega arith)

-- ===== src/Trie/Walks/Entries.antt =====
-- Lists of paths with values, as the order in which a walk visits them.
use mathlib.Core.List.{append_assoc}
use meta_co_sign.Base.{
  ◌≡◌, refl, Bool, true, Option, none, some, List, [], ◌∷◌, ◌++◌, if◌then◌else◌, All, arith,
}
use meta_co_sign.Bytes.{Bytes, bytes_eq, bytes_eq-append}
use meta_co_sign.Trie.Denotes.{Content}
use meta_co_sign.Trie.Paths.{Ends, append-Ends, strip, bytes_eq-strip}

-- a path and a value
abbrev pub Entry : Type 0
Entry = Bytes × Bytes

-- the values at one path, in order
unfoldable pub values_at : Bytes → List Entry → List Bytes
values_at k [] = []
values_at k ((j, v) ∷ es) = let rest = values_at k es in if bytes_eq j k then v ∷ rest else rest

unfoldable pub behind : Bytes → List Entry → List Entry
behind p [] = []
behind p ((j, v) ∷ es) = (p ++ j, v) ∷ behind p es

abbrev pub to_list : Option Bytes → List Bytes
to_list none = []
to_list (some v) = v ∷ []

-- an entry of the map `f`
abbrev pub Held : Bool → Content → Entry → Type 0
Held b f e = Ends b e.0 true × (f e.0 ≡ some e.1)

-- every value of the map once, at its path, and nothing else
pub record Lists (b : Bool) (es : List Entry) (f : Content) : Type 0 where
  pub entries : All (Held b f) es
  pub values : (k : Bytes) → Ends b k true → values_at k es ≡ to_list (f k)

pub values_at-append :
    (k : Bytes) (es fs : List Entry) → values_at k (es ++ fs) ≡ values_at k es ++ values_at k fs
unfolding values_at
values_at-append k [] fs = refl
values_at-append k ((j, v) ∷ es) fs = ground (arith, values_at-append k es fs)

pub values_at-behind :
    (p r : Bytes) (es : List Entry) → values_at (p ++ r) (behind p es) ≡ values_at r es
unfolding values_at behind
values_at-behind p r [] = refl
values_at-behind p r ((j, v) ∷ es) = rw (bytes_eq-append p j r, values_at-behind p r es) refl

pub values_at-elsewhere :
    (p k : Bytes) (es : List Entry) → strip p k ≡ none → values_at k (behind p es) ≡ []
unfolding values_at behind
values_at-elsewhere p k [] h = refl
values_at-elsewhere p k ((j, v) ∷ es) h =
    rw (bytes_eq-strip p j k h, values_at-elsewhere p k es h) refl

pub behind-Held :
    (b d : Bool) (p : Bytes) (es : List Entry) (f : Content)
    → Ends b p d
    → All (Held d (λ r. f (p ++ r))) es
    → All (Held b f) (behind p es)
unfolding behind
behind-Held b d p [] f h a = tt
behind-Held b d p ((j, v) ∷ es) f h a =
    ((append-Ends b d p j true h a.0.0, a.0.1), behind-Held b d p es f h a.1)

pub All-append : (P : Entry → Type 0) (es fs : List Entry) → All P es → All P fs → All P (es ++ fs)
All-append P [] fs a b = b
All-append P (e ∷ es) fs a b = (a.0, All-append P es fs a.1 b)

module _ {S : Type 0} (visit : Bytes → Bytes → S → S) where
  -- what the visits make of `s`, one after the other
  unfoldable pub visits : Bytes → List Entry → S → S
  visits prefix [] s = s
  visits prefix ((k, v) ∷ es) s = visits prefix es (visit (prefix ++ k) v s)

  pub visits-append :
      (prefix : Bytes) (es fs : List Entry) (s : S)
      → visits prefix (es ++ fs) s ≡ visits prefix fs (visits prefix es s)
  unfolding visits
  visits-append prefix [] fs s = refl
  visits-append prefix ((k, v) ∷ es) fs s = visits-append prefix es fs (visit (prefix ++ k) v s)

  pub visits-behind :
      (prefix p : Bytes) (es : List Entry) (s : S)
      → visits prefix (behind p es) s ≡ visits (prefix ++ p) es s
  unfolding visits behind
  visits-behind prefix p [] s = refl
  visits-behind prefix p ((k, v) ∷ es) s =
      rw (append_assoc prefix p k) (visits-behind prefix p es (visit (prefix ++ (p ++ k)) v s))

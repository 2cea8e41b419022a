-- ===== src/Trie/Walks/Names.antt =====
-- `GetAll` and `GetKeyValue` of pkg/trie/trie.go on a trie that holds a map: the names under which
-- they give the values.
use meta_co_sign.Base.{
  ℕ, ◌≤◌, ◌≡◌, ◌⊎◌, inl, inr, refl, sym, ap, ◌∙◌, subst, Bool, true, false, Option, none, some,
  List, [], ◌∷◌, ◌++◌, if◌then◌else◌, All, ◌==◌, Bool-cases,
}
use meta_co_sign.Bytes.{Bytes, bytes_eq, bytes_eq_iff}
use meta_co_sign.Store.{Read}
use meta_co_sign.Trie.Denotes.{Content}
use meta_co_sign.Trie.Map.{MerklePatriciaTrie, returned, err_committed}
use meta_co_sign.Trie.Map.Keys.{IsBytes, keybytes_to_hex-Ends}
use meta_co_sign.Trie.Map.Refinement.{Represents}
use meta_co_sign.Trie.Nibbles.{keybytes_to_hex}
use meta_co_sign.Trie.Node.{TrieLibrary}
use meta_co_sign.Trie.Paths.{Ends}
use meta_co_sign.Trie.Walks.{walk, walked, Data, entry_name, keep_value, get_all, get_key_value}
use meta_co_sign.Trie.Walks.Contents.{walked-Represents}
use meta_co_sign.Trie.Walks.Entries.{Entry, values_at, to_list, Held, visits}
use meta_co_sign.Trie.Walks.Listing.{Denotes-Walks}

-- No path goes on behind another.
Ends-append-same :
    (b : Bool) (p q x y : Bytes) → Ends b p true → Ends b q true → p ++ x ≡ q ++ y → p ≡ q
Ends-append-same b [] [] x y h k e = refl
Ends-append-same true [] (d ∷ q) x y h k e = absurd k
Ends-append-same false [] (d ∷ q) x y h k e = cc
Ends-append-same true (c ∷ p) q x y h k e = absurd h
Ends-append-same false (c ∷ p) [] x y h k e = cc
Ends-append-same false (c ∷ p) (d ∷ q) x y h k e =
    let head : c ≡ d = cc in
    let tail : p ++ x ≡ q ++ y = cc in
    let same : p ≡ q =
      Ends-append-same (d == 16) p q x y (subst (λ i. Ends (i == 16) p true) head h.1) k.1 tail in
    rw (head, same) refl

-- the last value, or else what there was
abbrev last_or : Option Bytes → List Bytes → Option Bytes
last_or o [] = o
last_or o (v ∷ vs) = last_or (some v) vs

last_or-to_list : (o : Option Bytes) → last_or none (to_list o) ≡ o
last_or-to_list none = refl
last_or-to_list (some v) = refl

module _ (T : TrieLibrary) (hex_encode : Bytes → Bytes)
    (hex_injective : (a b : Bytes) → hex_encode a ≡ hex_encode b → a ≡ b) where
  bytes_eq-entry_name :
      (p q : Bytes)
      → Ends false p true
      → Ends false q true
      → bytes_eq (entry_name T hex_encode p) (entry_name T hex_encode q) ≡ bytes_eq p q
  unfolding entry_name
  bytes_eq-entry_name p q h k = elim (Bool-cases (bytes_eq p q)) [
    | inl same ↦
        let e : p ≡ q = (bytes_eq_iff p q).0 same in
        (bytes_eq_iff _ _).1 (ap (entry_name T hex_encode) e) ∙ sym same
    | inr differ ↦
        elim (Bool-cases (bytes_eq (entry_name T hex_encode p) (entry_name T hex_encode q))) [
          | inr apart ↦ apart ∙ sym differ
          | inl named ↦
              let e : p ≡ q =
                Ends-append-same false p q _ _ h k
                  (hex_injective _ _ ((bytes_eq_iff (entry_name T hex_encode p) _).0 named)) in
              let clash : bytes_eq p q ≡ true = (bytes_eq_iff p q).1 e in cc
        ]
  ]

  visits-keep_value :
      (f : Content) (es : List Entry) (d : Data) (p : Bytes)
      → All (Held false f) es
      → Ends false p true
      → visits (keep_value T hex_encode) [] es d (entry_name T hex_encode p)
        ≡ last_or (d (entry_name T hex_encode p)) (values_at p es)
  unfolding visits keep_value values_at
  visits-keep_value f [] d p a h = refl
  visits-keep_value f ((j, v) ∷ es) d p a h =
      visits-keep_value f es (keep_value T hex_encode j v d) p a.1 h
      ∙ (elim (Bool-cases (bytes_eq j p)) [
        | inl same ↦ rw (bytes_eq-entry_name j p a.0.0 h, same) refl
        | inr differ ↦ rw (bytes_eq-entry_name j p a.0.0 h, differ) refl
      ])

  -- Every name is that of a path.
  visits-names :
      (f : Content) (es : List Entry) (d : Data) (name v : Bytes)
      → All (Held false f) es
      → visits (keep_value T hex_encode) [] es d name ≡ some v
      → (d name ≡ some v)
        ⊎ ((p : Bytes) × (w : Bytes) × Held false f (p, w) × (entry_name T hex_encode p ≡ name))
  unfolding visits keep_value
  visits-names f [] d name v a e = inl e
  visits-names f ((j, w) ∷ es) d name v a e =
      elim (visits-names f es (keep_value T hex_encode j w d) name v a.1 e) [
        | inr found ↦ inr found
        | inl before ↦ elim (Bool-cases (bytes_eq (entry_name T hex_encode j) name)) [
          | inl same ↦ inr (j, w, a.0, (bytes_eq_iff _ name).0 same)
          | inr differ ↦ inl (rw differ at before)
        ]
      ]

  module _ (get_blob : Bytes → Read) (is_hash : Bool) (t : MerklePatriciaTrie) (m : Content)
      (held : Represents T get_blob is_hash t m) where
    get_all-eq :
        (fuel : ℕ)
        → get_all T get_blob hex_encode fuel t
          ≡ walked t
              (walk T get_blob (keep_value T hex_encode) fuel t.root [] (λ name. none) t.tracer)
    unfolding get_all
    get_all-eq fuel =
        ap
          (λ b.
            if b
            then (err_committed, t)
            else walked t
                (walk T get_blob (keep_value T hex_encode) fuel t.root [] (λ name. none) t.tracer))
          held.open_to_use

    get_key_value-eq :
        (fuel : ℕ)
        → get_key_value T get_blob hex_encode fuel t ≡ get_all T get_blob hex_encode fuel t
    unfolding get_key_value get_all
    get_key_value-eq fuel = refl

    -- Over a trie that holds a map, with enough fuel and an injective text for bytes, `GetAll` and
    -- `GetKeyValue` return the value of each key of bytes under the name of its path, and no other
    -- names; and the trie still holds the map.
    pub get_all-Represents :
        (all_data : Data) × ((k : Bytes)
          → IsBytes k
          → all_data (entry_name T hex_encode (keybytes_to_hex k)) ≡ m k)
        × ((name v : Bytes)
            → all_data name ≡ some v
            → (k : Bytes) × IsBytes k × (name ≡ entry_name T hex_encode (keybytes_to_hex k)))
        × (enough : ℕ) × ((fuel : ℕ)
            → enough ≤ fuel
            → ((get_all T get_blob hex_encode fuel t).0 ≡ returned all_data)
              × (get_key_value T get_blob hex_encode fuel t ≡ get_all T get_blob hex_encode fuel t)
              × Represents T get_blob is_hash (get_all T get_blob hex_encode fuel t).1 m)
    get_all-Represents =
        let (es, listed, enough, walks) =
          Denotes-Walks T get_blob Data (keep_value T hex_encode) held.denotes in
        (
          visits (keep_value T hex_encode) [] es (λ name. none),
          λ k bytes.
              visits-keep_value held.content es (λ name. none) (keybytes_to_hex k) listed.entries
                (keybytes_to_hex-Ends k bytes)
              ∙ ap (last_or none) (listed.values (keybytes_to_hex k) (keybytes_to_hex-Ends k bytes))
              ∙ last_or-to_list (held.content (keybytes_to_hex k))
              ∙ held.agrees k bytes,
          λ name v e. elim (visits-names held.content es (λ name. none) name v listed.entries e) [
            | inl nothing_there ↦ cc
            | inr (p, w, (path, value), named) ↦
                let (k, bytes, at) = held.only_keys p w path value in
                (k, bytes, sym named ∙ ap (entry_name T hex_encode) at)
          ],
          enough,
          λ fuel le.
              let (ok, after) =
                walked-Represents T get_blob is_hash t m held
                  (visits (keep_value T hex_encode) [] es (λ name. none)) _
                  (walks fuel le [] (λ name. none) t.tracer) in
              rw (get_key_value-eq fuel, get_all-eq fuel) (ok, refl, after),
        )

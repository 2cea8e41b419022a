-- ===== src/Trie/Walks/Contents.antt =====
-- `Count` and `GetAll` of pkg/trie/trie.go on a trie that holds a map.
use meta_co_sign.Base.{
  ℕ, suc, ◌+◌, ◌≤◌, ◌≡◌, refl, sym, ap, ◌∙◌, Bool, true, false, some, List, [], ◌∷◌, if◌then◌else◌,
  length, All, arith,
}
use meta_co_sign.Bytes.{Bytes}
use meta_co_sign.Bytes.Word.{u64, int_suc}
use meta_co_sign.Store.{Read}
use meta_co_sign.Trie.Denotes.{Content}
use meta_co_sign.Trie.Map.{MerklePatriciaTrie, returned, err_committed}
use meta_co_sign.Trie.Map.Keys.{IsBytes, keybytes_to_hex-Ends, bytes_eq-keybytes_to_hex}
use meta_co_sign.Trie.Map.Refinement.{Represents, tracer-Represents}
use meta_co_sign.Trie.Nibbles.{keybytes_to_hex}
use meta_co_sign.Trie.Node.{TrieLibrary}
use meta_co_sign.Trie.Operations.Steps.{Reply, done, missing_node, crashed, unfinished, Returns}
use meta_co_sign.Trie.Paths.{Ends}
use meta_co_sign.Trie.Tracer.{Tracer}
use meta_co_sign.Trie.Walks.{walk, walked, count_value, count}
use meta_co_sign.Trie.Walks.Entries.{Entry, values_at, to_list, Held, Lists, visits}
use meta_co_sign.Trie.Walks.Listing.{Denotes-Walks}

-- A list of keys with values that has every key of the map once, with its value, and no other.
pub record Keys (m : Content) (keys : List Entry) : Type 0 where
  pub entries : All (λ e. IsBytes e.0 × (m e.0 ≡ some e.1)) keys
  pub once : (k : Bytes) → IsBytes k → values_at k keys ≡ to_list (m k)

abbrev hexed : List Entry → List Entry
hexed [] = []
hexed ((k, v) ∷ keys) = (keybytes_to_hex k, v) ∷ hexed keys

length-hexed : (keys : List Entry) → length (hexed keys) ≡ length keys
length-hexed [] = refl
length-hexed (e ∷ keys) = ap suc (length-hexed keys)

values_at-hexed :
    (k : Bytes) (keys : List Entry) → values_at (keybytes_to_hex k) (hexed keys) ≡ values_at k keys
unfolding values_at
values_at-hexed k [] = refl
values_at-hexed k ((j, v) ∷ keys) = rw (bytes_eq-keybytes_to_hex j k, values_at-hexed k keys) refl

-- where every entry is at a key in hexadecimal form
unhexed :
    (content m : Content) (es : List Entry)
    → ((k : Bytes) → IsBytes k → content (keybytes_to_hex k) ≡ m k)
    → ((p v : Bytes)
        → Ends false p true
        → content p ≡ some v
        → (k : Bytes) × IsBytes k × (p ≡ keybytes_to_hex k))
    → All (Held false content) es
    → (keys : List Entry) × (hexed keys ≡ es) × All (λ e. IsBytes e.0 × (m e.0 ≡ some e.1)) keys
unhexed content m [] agrees only a = ([], refl, tt)
unhexed content m ((p, v) ∷ es) agrees only a =
    let (k, bytes, e) = only p v a.0.0 a.0.1 in
    let (keys, same, rest) = unhexed content m es agrees only a.1 in
    let here : m k ≡ some v = sym (agrees k bytes) ∙ ap content (sym e) ∙ a.0.1 in
    ((k, v) ∷ keys, rw (sym e, same) refl, ((bytes, here), rest))

module _ (T : TrieLibrary) (get_blob : Bytes → Read) (is_hash : Bool) (t : MerklePatriciaTrie)
    (m : Content) (held : Represents T get_blob is_hash t m) where
  Keys-Lists :
      (es : List Entry)
      → Lists false es held.content
      → (keys : List Entry) × (hexed keys ≡ es) × Keys m keys
  Keys-Lists es listed =
      let (keys, same, entries) =
        unhexed held.content m es held.agrees held.only_keys listed.entries in
      (
        keys,
        same,
        record {
          entries = entries;
          once = λ k bytes.
              sym (values_at-hexed k keys)
              ∙ ap (values_at (keybytes_to_hex k)) same
              ∙ listed.values (keybytes_to_hex k) (keybytes_to_hex-Ends k bytes)
              ∙ ap to_list (held.agrees k bytes);
        },
      )

  pub walked-Represents :
      {S : Type 0} (s : S) (r : Reply S × Tracer)
      → Returns (λ a. a ≡ s) r
      → ((walked t r).0 ≡ returned s) × Represents T get_blob is_hash (walked t r).1 m
  unfolding walked
  walked-Represents s (done a, tracer) h =
      (ap returned h, tracer-Represents T get_blob is_hash t m held tracer)
  walked-Represents s (missing_node, tracer) h = absurd h
  walked-Represents s (crashed, tracer) h = absurd h
  walked-Represents s (unfinished, tracer) h = absurd h

  visits-count :
      (prefix : Bytes) (es : List Entry) (n : ℕ)
      → visits count_value prefix es (u64 n) ≡ u64 (n + length es)
  unfolding visits count_value
  visits-count prefix [] n = ap u64 (omega arith)
  visits-count prefix (e ∷ es) n =
      let next : int_suc (u64 n) ≡ u64 (suc n) = omega arith in
      ap (visits count_value prefix es) next ∙ visits-count prefix es (suc n) ∙ ap u64 (omega arith)

  count-eq :
      (fuel : ℕ)
      → count T get_blob fuel t ≡ walked t (walk T get_blob count_value fuel t.root [] 0 t.tracer)
  unfolding count
  count-eq fuel =
      ap
        (λ b.
          if b
          then (err_committed, t)
          else walked t (walk T get_blob count_value fuel t.root [] 0 t.tracer))
        held.open_to_use

  -- Over a trie that holds a map, with enough fuel, `Count` returns the number of the keys that the
  -- map has, each counted once, as an `int` that wraps; and the trie still holds the map.
  pub count-Represents :
      (keys : List Entry) × Keys m keys
      × (enough : ℕ) × ((fuel : ℕ)
          → enough ≤ fuel
          → ((count T get_blob fuel t).0 ≡ returned (u64 (length keys)))
            × Represents T get_blob is_hash (count T get_blob fuel t).1 m)
  count-Represents =
      let (es, listed, enough, walks) = Denotes-Walks T get_blob ℕ count_value held.denotes in
      let (keys, same, has) = Keys-Lists es listed in
      let total : visits count_value [] es 0 ≡ u64 (length keys) =
        visits-count [] es 0 ∙ ap u64 (omega (arith, ap length same, length-hexed keys)) in
      (
        keys,
        has,
        enough,
        λ fuel le.
            rw (count-eq fuel, sym total)
              (walked-Represents (visits count_value [] es 0) _ (walks fuel le [] 0 t.tracer)),
      )

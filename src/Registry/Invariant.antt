-- ===== src/Registry/Invariant.antt =====
-- When a database holds a list of entries as a family: the abstract view of the registry.
use meta_co_sign.Base.{
  ℕ, suc, ◌-◌, ◌≤◌, ◌<◌, ◌≡◌, refl, ap, ◌⊎◌, inl, inr, ◌≢◌, Option-cases, Option, none, some, List,
  arith, ltb, ◌==◌, if◌then◌else◌, length, get_elem?, set, take, get_elem?-take, get_elem?-set,
  length-take, length-set,
}
use meta_co_sign.Bytes.{Bytes}
use meta_co_sign.Bytes.Word.{two64}
use meta_co_sign.Registry.{Family, pad_entity_id, decode_count, write_batch}
use meta_co_sign.Registry.Keys.{IsSeparated, data_key, index_key}
use meta_co_sign.Result.{Result, ok, fail, write_error}
use meta_co_sign.Store.{found, not_found, Op, LevelDb, Addresses, Codec}

-- What the helpers rely on beyond the key prefixes: the entry's own address is read back from its
-- stored bytes by `getLastAddr`.
pub record IsFamily (E : Addresses) {A : Type 0} (C : Codec A) (f : Family)
    (address_of : A → E.Address) (get_last_addr : Bytes → Option E.Address) : Type 0 where
  pub separated : IsSeparated f
  pub names : (b : Bytes) (x : A) → C.unmarshal b ≡ some x → get_last_addr b ≡ some (address_of x)

module _ (L : LevelDb) (E : Addresses) {A : Type 0} (C : Codec A) (f : Family)
    (address_of : A → E.Address) where
  -- The entry with an address: its place in the list.
  abbrev pub Listed : List A → E.Address → Type 0
  Listed xs a = (i : ℕ) × (x : A) × (get_elem? xs i ≡ some x) × (address_of x ≡ a)

  -- Entry `i` (from 0) is stored under the identifier `i + 1`, nothing is stored above the count,
  -- and the index has exactly the addresses of the list.
  pub record Holds (db : L.Db) (xs : List A) : Type 0 where
    pub counted : decode_count (L.get db f.count_key) ≡ ok (length xs)
    pub small : length xs < two64
    pub stored :
        (i : ℕ) (x : A)
        → get_elem? xs i ≡ some x
        → (b : Bytes) × (L.get db (data_key f (suc i)) ≡ found b) × (C.unmarshal b ≡ some x)
    pub beyond : (i : ℕ) → length xs ≤ i → suc i < two64 → L.get db (data_key f (suc i)) ≡ not_found
    pub indexed :
        (i : ℕ) (x : A)
        → get_elem? xs i ≡ some x
        → L.get db (index_key E f (address_of x)) ≡ found (pad_entity_id (suc i))
    pub listed : (a : E.Address) → (L.get db (index_key E f a) ≡ not_found) ⊎ Listed xs a

-- An operation with one write: the write fails, or the database that it gives has `P`.
abbrev pub WritesTo : {D : Type 0} → (D → Type 0) → Result D → Type 0
WritesTo {D} P r = (r ≡ fail write_error) ⊎ ((after : D) × (r ≡ ok after) × P after)

pub write_batch-WritesTo :
    (L : LevelDb) (P : L.Db → Type 0) (ops : List Op) (db : L.Db)
    → ((after : L.Db) → L.write ops db ≡ some after → P after)
    → WritesTo P (write_batch L ops db)
unfolding write_batch
write_batch-WritesTo L P ops db k = elim (Option-cases (L.write ops db)) [
  | inl failed ↦ inl (rw failed refl)
  | inr (after, wrote) ↦ inr (after, rw wrote refl, k after wrote)
]

-- The list with entry `i` taken out: the last entry moves into its place.
pub swap_remove {ℓ} : {A : Type ℓ} → ℕ → List A → List A
swap_remove i xs = elim (get_elem? xs (length xs - 1)) [
  | none ↦ xs
  | some last ↦ take (length xs - 1) (set xs i last)
]

pub length-swap_remove-le {ℓ} :
    {A : Type ℓ} (i : ℕ) (xs : List A) → length (swap_remove i xs) ≤ length xs
unfolding swap_remove
length-swap_remove-le i xs = elim (Option-cases (get_elem? xs (length xs - 1))) [
  | inl e ↦ rw (e, swap_remove) (omega arith)
  | inr (last, e) ↦
      rw (e, swap_remove)
        (omega (arith, length-take (length xs - 1) (set xs i last), length-set xs i last))
]

module _ {A : Type 0} (xs : List A) (i n : ℕ) (last : A) (size : length xs ≡ suc n)
    (at_end : get_elem? xs n ≡ some last) (inside : i ≤ n) where
  swap_remove_lem : swap_remove i xs ≡ take n (set xs i last)
  unfolding swap_remove
  swap_remove_lem =
      let e : length xs - 1 ≡ n = omega arith in
      rw (e, at_end, swap_remove) (ap (λ k. take k (set xs i last)) e)

  pub length-swap_remove : length (swap_remove i xs) ≡ n
  length-swap_remove =
      rw swap_remove_lem (omega (arith, length-take n (set xs i last), length-set xs i last))

  pub get_elem?-swap_remove :
      (j : ℕ)
      → get_elem? (swap_remove i xs) j
        ≡ (if ltb j n then (if i == j then some last else get_elem? xs j) else none)
  get_elem?-swap_remove j =
      rw
        (
          swap_remove_lem,
          get_elem?-take n (set xs i last) j,
          get_elem?-set xs i j last (omega arith),
        )
        refl

  -- Where an element of the shortened list comes from.
  pub swap_remove_place :
      (j : ℕ) (y : A)
      → get_elem? (swap_remove i xs) j ≡ some y
      → (j < n) × (((i ≡ j) × (last ≡ y)) ⊎ ((i ≢ j) × (get_elem? xs j ≡ some y)))
  swap_remove_place j y p = ground (arith, get_elem?-swap_remove j)

  pub swap_remove_moved : i < n → get_elem? (swap_remove i xs) i ≡ some last
  swap_remove_moved h = ground (arith, get_elem?-swap_remove i)

  pub swap_remove_kept :
      (j : ℕ) (y : A)
      → j < n
      → i ≢ j
      → get_elem? xs j ≡ some y
      → get_elem? (swap_remove i xs) j ≡ some y
  swap_remove_kept j y h k p = ground (arith, get_elem?-swap_remove j)

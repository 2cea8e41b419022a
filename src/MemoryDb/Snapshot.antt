-- ===== src/MemoryDb/Snapshot.antt =====
-- `GetSnapShot` of pkg/storage/memorydb.go gives a database with the same entries.
use mathlib.Core.List.{append_assoc}
use meta_co_sign.Base.{
  ℕ, zero, suc, ◌<◌, ◌≤◌, ◌≡◌, refl, sym, ap, ◌∙◌, subst, ◌⊎◌, ◌↔◌, inl, inr, Bool-cases,
  Option-cases, true, false, some, List, [], ◌∷◌, ◌++◌, map, length, get_elem?, length-append, ◌==◌,
  arith, take, replicate,
}
use meta_co_sign.Bytes.{Bytes, bytes_eq, bytes_eq_iff, bytes_eq_refl}
use meta_co_sign.MemoryDb.{MemoryDb, key32, get, new_memory_db, read_of}
use meta_co_sign.MemoryDb.Iterator.{
  next, before, key, value, copy_entry, copy_entries, new_memory_db_iterator, get_snap_shot,
}
use meta_co_sign.Result.{ok}
use meta_co_sign.Trie.Marshal.{or_nil}
use meta_co_sign.Trie.Paths.{take_front}
use meta_co_sign.Trie.Tracer.{store}

abbrev pub Listed : Bytes → List Bytes → Type 0
Listed x xs = (i : ℕ) × (get_elem? xs i ≡ some x)

-- The list has the keys of the map, which are of 32 bytes.
pub record Ranges (db : MemoryDb) (range : List Bytes) : Type 0 where
  pub there : (k : Bytes) → Listed k range → (length k ≡ 32) × ((v : Bytes) × (db k ≡ some v))
  pub all : (k v : Bytes) → db k ≡ some v → Listed k range

key32_same : (k : Bytes) → length k ≡ 32 → key32 k ≡ k
unfolding key32
key32_same k e = subst (λ n. take n (k ++ replicate 32 0) ≡ k) e (take_front k (replicate 32 0))

get_elem?-middle :
    (pre : List Bytes) (k : Bytes) (rest : List Bytes)
    → get_elem? (pre ++ k ∷ rest) (length pre) ≡ some k
get_elem?-middle [] k rest = refl
get_elem?-middle (p ∷ pre) k rest = get_elem?-middle pre k rest

module _ (from_hex : Bytes → Bytes) (db : MemoryDb) where
  -- what the loop does for the keys that are left
  copied : List Bytes → MemoryDb → MemoryDb
  copied [] new = new
  copied (k ∷ rest) new =
      copied rest (store (key32 (from_hex k)) (some (or_nil (db (key32 (from_hex k))))) new)

  copy_entries-copied :
      (rest pre : List Bytes) (new : MemoryDb) (fuel : ℕ)
      → length rest < fuel
      → copy_entries from_hex fuel (record { keys = pre ++ rest; idx = length pre }) db new
        ≡ some (ok (copied rest new))
  unfolding copy_entries next copy_entry key value before copied
  copy_entries-copied rest pre new zero low = absurd (omega arith)
  copy_entries-copied [] pre new (suc fuel) low =
      let over : (length (pre ++ []) == length pre) ≡ true = ground (arith, length-append pre []) in
      rw over refl
  copy_entries-copied (k ∷ rest) pre new (suc fuel) low =
      let more : (length (pre ++ k ∷ rest) == length pre) ≡ false =
        ground (arith, length-append pre (k ∷ rest)) in
      let added : MemoryDb =
        store (key32 (from_hex k)) (some (or_nil (db (key32 (from_hex k))))) new in
      let later : copy_entries from_hex fuel
            (record { keys = (pre ++ k ∷ []) ++ rest; idx = length (pre ++ k ∷ []) }) db added
          ≡ some (ok (copied rest added)) =
        copy_entries-copied rest (pre ++ k ∷ []) added fuel (omega arith) in
      let step : length (pre ++ k ∷ []) ≡ suc (length pre) =
        omega (arith, length-append pre (k ∷ [])) in
      rw (more, get_elem?-middle pre k rest)
        (subst
          (λ n.
            copy_entries from_hex fuel (record { keys = pre ++ k ∷ rest; idx = n }) db added
            ≡ some (ok (copied rest added)))
          step
          (subst
            (λ ks.
              copy_entries from_hex fuel (record { keys = ks; idx = length (pre ++ k ∷ []) }) db
                added
              ≡ some (ok (copied rest added)))
            (append_assoc pre (k ∷ []) rest) later))

  copied-cases :
      (rest : List Bytes) (new : MemoryDb) (q : Bytes)
      → (((k : Bytes) → Listed k rest → bytes_eq (key32 (from_hex k)) q ≡ false)
          × (copied rest new q ≡ new q))
        ⊎ (((k : Bytes) × Listed k rest × (key32 (from_hex k) ≡ q))
            × (copied rest new q ≡ some (or_nil (db q))))
  unfolding copied
  copied-cases [] new q = inl ((λ k (i, e). cc), refl)
  copied-cases (k ∷ rest) new q =
      elim (copied-cases rest
        (store (key32 (from_hex k)) (some (or_nil (db (key32 (from_hex k))))) new) q) [
          | inr ((j, (i, at), e), done) ↦ inr ((j, (suc i, at), e), done)
          | inl (apart, same) ↦ elim (Bool-cases (bytes_eq (key32 (from_hex k)) q)) [
            | inl here ↦
                let e : key32 (from_hex k) ≡ q = (bytes_eq_iff _ q).0 here in
                inr ((k, (0, refl), e), same ∙ rw here (ap (λ j. some (or_nil (db j))) e))
            | inr other ↦ inl (λ j (i, e). none_listed i j e other apart, same ∙ rw other refl)
          ]
        ]
    where
      some_injective : {j : Bytes} → some k ≡ some j → k ≡ j
      some_injective e = cc

      none_listed :
          (i : ℕ) (j : Bytes)
          → get_elem? (k ∷ rest) i ≡ some j
          → bytes_eq (key32 (from_hex k)) q ≡ false
          → ((k : Bytes) → Listed k rest → bytes_eq (key32 (from_hex k)) q ≡ false)
          → bytes_eq (key32 (from_hex j)) q ≡ false
      none_listed zero j e other apart =
          subst (λ j. bytes_eq (key32 (from_hex j)) q ≡ false) (some_injective e) other
      none_listed (suc i) j e other apart = apart j (i, e)

Listed-map :
    (f : Bytes → Bytes) (x : Bytes) (xs : List Bytes) → Listed x xs → Listed (f x) (map f xs)
Listed-map f x [] (i, e) = cc
Listed-map f x (y ∷ xs) (zero, e) = let same : y ≡ x = cc in (0, ap (λ z. some (f z)) same)
Listed-map f x (y ∷ xs) (suc i, e) = let (j, e') = Listed-map f x xs (i, e) in (suc j, e')

map-Listed :
    (f : Bytes → Bytes) (y : Bytes) (xs : List Bytes)
    → Listed y (map f xs)
    → (x : Bytes) × Listed x xs × (f x ≡ y)
map-Listed f y [] (i, e) = cc
map-Listed f y (x ∷ xs) (zero, e) = (x, (0, refl), cc)
map-Listed f y (x ∷ xs) (suc i, e) =
    let (z, (j, e'), same) = map-Listed f y xs (i, e) in (z, (suc j, e'), same)

module _ (hex_encode from_hex : Bytes → Bytes) (sort_strings : List Bytes → List Bytes)
    (reads_back : (b : Bytes) → from_hex (hex_encode b) ≡ b)
    (sorts : (xs : List Bytes) (x : Bytes) → Listed x (sort_strings xs) ↔ Listed x xs) where
  copied-same :
      (range : List Bytes) (db : MemoryDb) (q : Bytes)
      → Ranges db range
      → copied from_hex db (sort_strings (map hex_encode range)) new_memory_db q ≡ db q
  unfolding new_memory_db
  copied-same range db q lists =
      elim (copied-cases from_hex db (sort_strings (map hex_encode range)) new_memory_db q) [
        | inr ((k, at, e), done) ↦
            let (x, listed, same) =
              map-Listed hex_encode k range ((sorts (map hex_encode range) k).0 at) in
            let (len, (v, has)) = lists.there x listed in
            let here : x ≡ q =
              sym (key32_same x len) ∙ ap key32 (sym (reads_back x) ∙ ap from_hex same) ∙ e in
            let filled : db q ≡ some v = ap db (sym here) ∙ has in done ∙ rw filled refl
        | inl (apart, same) ↦ elim (Option-cases (db q)) [
          | inl missing ↦ same ∙ sym missing
          | inr (v, has) ↦
              let listed = lists.all q v has in
              let text : Listed (hex_encode q) (sort_strings (map hex_encode range)) =
                (sorts (map hex_encode range) (hex_encode q)).1
                  (Listed-map hex_encode q range listed) in
              let back : key32 (from_hex (hex_encode q)) ≡ q =
                ap key32 (reads_back q) ∙ key32_same q (lists.there q listed).0 in
              let clash : bytes_eq q q ≡ false =
                ap (λ j. bytes_eq j q) (sym back) ∙ apart (hex_encode q) text in
              let equal : bytes_eq q q ≡ true = bytes_eq_refl q in cc
        ]
      ]

  -- Where the loop over a map has its keys, of 32 bytes, sorting keeps the elements of a list, and a text
  -- is read back, `GetSnapShot` ends with enough fuel in a database that gives the same for every key.
  pub get_snap_shot-get :
      (range : List Bytes) (db : MemoryDb)
      → Ranges db range
      → (enough : ℕ) × ((fuel : ℕ)
          → enough ≤ fuel
          → (snap : MemoryDb) × (get_snap_shot hex_encode sort_strings from_hex fuel range db
              ≡ some (ok snap))
            × ((k : Bytes) → get k snap ≡ get k db))
  unfolding get_snap_shot new_memory_db_iterator get
  get_snap_shot-get range db lists =
      let keys = sort_strings (map hex_encode range) in
      (
        suc (length keys),
        λ fuel le. (
          copied from_hex db keys new_memory_db,
          copy_entries-copied from_hex db keys [] new_memory_db fuel (omega arith),
          λ k. ap read_of (copied-same range db (key32 k) lists),
        ),
      )

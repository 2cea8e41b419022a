-- ===== src/Registry/Removed.antt =====
-- What a database must read for its list to be the old one without an entry, with the last one in
-- its place.
use meta_co_sign.Base.{
  ℕ, suc, ◌≤◌, ◌<◌, ◌≡◌, ◌≢◌, refl, sym, ap, ◌∙◌, ◌⊎◌, inl, inr, Option, some, List, arith, ◌==◌,
  if◌then◌else◌, length, get_elem?, lt_of_get_elem?, Bool-cases,
}
use meta_co_sign.Bytes.{Bytes}
use meta_co_sign.Bytes.Word.{two64, u64_pred, put_uint64, read_uint64-put_uint64}
use meta_co_sign.Registry.{Family, pad_entity_id, decode_count}
use meta_co_sign.Registry.Invariant.{
  IsFamily, Listed, Holds, swap_remove, length-swap_remove, swap_remove_place, swap_remove_moved,
  swap_remove_kept,
}
use meta_co_sign.Registry.Keys.{data_key, index_key, address_eq_refl, pad_entity_id_injective}
use meta_co_sign.Result.{ok}
use meta_co_sign.Store.{found, not_found, found_injective, LevelDb, Addresses, Codec}

module _ (L : LevelDb) (E : Addresses) {A : Type 0} (C : Codec A) (f : Family)
    (address_of : A → E.Address) (get_last_addr : Bytes → Option E.Address)
    (family : IsFamily E C f address_of get_last_addr) where
  module _ (db : L.Db) (xs : List A) (h : Holds L E C f address_of db xs) where
    -- No two entries have one address.
    pub distinct :
        (i j : ℕ) (x y : A)
        → get_elem? xs i ≡ some x
        → get_elem? xs j ≡ some y
        → address_of x ≡ address_of y
        → i ≡ j
    distinct i j x y p q e =
        let small = h.small in
        let hi = lt_of_get_elem? xs i x p in
        let hj = lt_of_get_elem? xs j y q in
        let same : pad_entity_id (suc i) ≡ pad_entity_id (suc j) =
          found_injective
            (sym (h.indexed i x p) ∙ (ap (λ a. L.get db (index_key E f a)) e ∙ h.indexed j y q)) in
        omega (arith, pad_entity_id_injective (suc i) (suc j) (omega arith) (omega arith) same)

    -- What the database after a removal must read, on every key of the family.
    module _ (after : L.Db) (i n : ℕ) (x last : A) (size : length xs ≡ suc n)
        (here : get_elem? xs i ≡ some x) (at_end : get_elem? xs n ≡ some last)
        (reads_count : L.get after f.count_key ≡ found (put_uint64 (u64_pred (suc n))))
        (reads_data : (j : ℕ)
          → j < two64
          → L.get after (data_key f j) ≡ (
              if suc n == j
              then not_found
              else if suc i == j
              then L.get db (data_key f (suc n))
              else L.get db (data_key f j)))
        (reads_index : (a : E.Address)
          → L.get after (index_key E f a) ≡ (
              if E.address_eq (address_of x) a
              then not_found
              else if E.address_eq (address_of last) a
              then found (pad_entity_id (suc i))
              else L.get db (index_key E f a))) where
      inside : i ≤ n
      inside = omega (arith, lt_of_get_elem? xs i x here)

      small : suc n < two64
      small = omega (arith, h.small)

      stored-after :
          (j : ℕ) (y : A)
          → get_elem? (swap_remove i xs) j ≡ some y
          → (b : Bytes) × (L.get after (data_key f (suc j)) ≡ found b) × (C.unmarshal b ≡ some y)
      stored-after j y p =
          let (h', came) = swap_remove_place xs i n last size at_end inside j y p in
          elim came [
            | inl (here', same) ↦
                let (b, held, decoded) = h.stored n last at_end in
                (b, ground (arith, reads_data (suc j), small), decoded ∙ ap some same)
            | inr (other, old) ↦
                let (b, held, decoded) = h.stored j y old in
                (b, ground (arith, reads_data (suc j), small), decoded)
          ]

      indexed-after :
          (j : ℕ) (y : A)
          → get_elem? (swap_remove i xs) j ≡ some y
          → L.get after (index_key E f (address_of y)) ≡ found (pad_entity_id (suc j))
      indexed-after j y p =
          let (h', came) = swap_remove_place xs i n last size at_end inside j y p in
          elim came [
            | inl (here', same) ↦ rw (← same) (
                ground (
                  arith,
                  reads_index (address_of last),
                  address_eq_refl E (address_of last),
                  (E.address_eq_iff (address_of x) (address_of last)).0,
                  distinct i n x last here at_end,
                ))
            | inr (other, old) ↦ ground (
              arith,
              reads_index (address_of y),
              h.indexed j y old,
              (E.address_eq_iff (address_of x) (address_of y)).0,
              (E.address_eq_iff (address_of last) (address_of y)).0,
              distinct i j x y here old,
              distinct n j last y at_end old,
            )
          ]

      Listed-after :
          (a : E.Address)
          → (L.get after (index_key E f a) ≡ not_found)
            ⊎ Listed L E C f address_of (swap_remove i xs) a
      Listed-after a = elim (Bool-cases (E.address_eq (address_of x) a)) [
        | inl gone ↦ inl (reads_index a ∙ rw gone refl)
        | inr other ↦ elim (Bool-cases (E.address_eq (address_of last) a)) [
          | inl moved ↦
              let same = (E.address_eq_iff (address_of last) a).0 moved in
              let below : i < n =
                ground (arith, inside, here, at_end, E.address_eq_iff (address_of x) a) in
              inr (i, last, swap_remove_moved xs i n last size at_end inside below, same)
          | inr apart ↦ elim (h.listed a) [
            | inl absent ↦ inl (reads_index a ∙ rw (other, apart) absent)
            | inr (k, y, p, e) ↦
                let bound : k < suc n = omega (arith, lt_of_get_elem? xs k y p) in
                let below : k < n = ground (arith, E.address_eq_iff (address_of last) a) in
                let differs : i ≢ k = λ q. ground (arith, E.address_eq_iff (address_of x) a) in
                inr (k, y, swap_remove_kept xs i n last size at_end inside k y below differs p, e)
          ]
        ]
      ]

      pub removed-Holds : Holds L E C f address_of after (swap_remove i xs)
      removed-Holds =
          let size' = length-swap_remove xs i n last size at_end inside in
          record {
            counted =
                let less : u64_pred (suc n) ≡ n = omega (arith, small) in
                rw reads_count (
                  unfold decode_count in
                  rw (less, read_uint64-put_uint64 n (omega (arith, small))) (ap ok (sym size')));
            small = omega (arith, small);
            stored = stored-after;
            beyond = λ j p q. ground (arith, reads_data (suc j) q, h.beyond j, inside);
            indexed = indexed-after;
            listed = Listed-after;
          }

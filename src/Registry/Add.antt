-- ===== src/Registry/Add.antt =====
-- `genericAdd` appends an entry.
use meta_co_sign.Base.{
  ℕ, suc, ◌+◌, ◌≤◌, ◌<◌, ◌≡◌, refl, ap, ◌∙◌, inl, inr, some, List, [], ◌∷◌, ◌++◌, arith, ◌==◌,
  if◌then◌else◌, length, get_elem?, length-append, get_elem?-append_one, get_elem?-append_left,
  get_elem?-append_last, lt_of_get_elem?, Bool-cases,
}
use meta_co_sign.Bytes.{Bytes}
use meta_co_sign.Bytes.Word.{two64, u64, put_uint64, read_uint64-put_uint64}
use meta_co_sign.Registry.{
  Family, pad_entity_id, decode_count, generic_get_count, write_batch, generic_add,
}
use meta_co_sign.Registry.Batches.{add_ops, add-data, add-index, add-count}
use meta_co_sign.Registry.Invariant.{Holds, WritesTo, write_batch-WritesTo}
use meta_co_sign.Registry.Keys.{IsSeparated, data_key, index_key, address_eq_refl}
use meta_co_sign.Result.{ok}
use meta_co_sign.Store.{found, not_found, LevelDb, Addresses, Codec}

module _ (L : LevelDb) (E : Addresses) {A : Type 0} (C : Codec A) (f : Family)
    (address_of : A → E.Address) (separated : IsSeparated f) where
  -- The count and the identifier that `genericAdd` computes are those of the list.
  generic_add-add_ops :
      (db : L.Db) (xs : List A) (x : A) (a : E.Address) (b : Bytes)
      → Holds L E C f address_of db xs
      → suc (length xs) < two64
      → C.marshal x ≡ some b
      → generic_add L C f (E.hex a) x db
        ≡ write_batch L (add_ops f (E.hex a) (suc (length xs)) b) db
  unfolding generic_add generic_get_count add_ops
  generic_add-add_ops db xs x a b h room e =
      rw (h.counted, e)
        (ap (λ n. write_batch L (add_ops f (E.hex a) n b) db)
          (let same : u64 (length xs + 1) ≡ suc (length xs) = omega arith in same))

  module _ (db after : L.Db) (xs : List A) (x : A) (b : Bytes) (h : Holds L E C f address_of db xs)
      (room : suc (length xs) < two64) (encoded : C.marshal x ≡ some b)
      (wrote : L.write (add_ops f (E.hex (address_of x)) (suc (length xs)) b) db ≡ some after) where
    abbrev new_id : ℕ
    new_id = suc (length xs)

    get-data :
        (j : ℕ)
        → j < two64
        → L.get after (data_key f j) ≡ (if new_id == j then found b else L.get db (data_key f j))
    get-data j hj =
        L.get-write _ db after _ wrote ∙ add-data E f separated (address_of x) new_id room b _ j hj

    get-index :
        (a : E.Address)
        → L.get after (index_key E f a) ≡ (
            if E.address_eq (address_of x) a
            then found (pad_entity_id new_id)
            else L.get db (index_key E f a))
    get-index a =
        L.get-write _ db after _ wrote ∙ add-index E f separated (address_of x) new_id room b _ a

    get-count : L.get after f.count_key ≡ found (put_uint64 new_id)
    get-count =
        L.get-write _ db after _ wrote ∙ add-count E f separated (address_of x) new_id room b _

    stored-old :
        (i : ℕ) (y : A)
        → get_elem? xs i ≡ some y
        → (v : Bytes) × (L.get after (data_key f (suc i)) ≡ found v) × (C.unmarshal v ≡ some y)
    stored-old i y p =
        let (v, held, decoded) = h.stored i y p in
        let inside = lt_of_get_elem? xs i y p in (v, ground (arith, get-data (suc i)), decoded)

    stored-new :
        (v : Bytes) × (L.get after (data_key f new_id) ≡ found v) × (C.unmarshal v ≡ some x)
    stored-new = (b, ground (arith, get-data new_id room), C.unmarshal-marshal x b encoded)

    -- The database after the write holds the list with the entry at its end.
    pub add-Holds :
        (L.get db (index_key E f (address_of x)) ≡ not_found)
        → Holds L E C f address_of after (xs ++ x ∷ [])
    add-Holds fresh = record {
      counted = rw get-count (
          unfold decode_count in
          rw (read_uint64-put_uint64 new_id room)
            (ap ok (omega (arith, length-append xs (x ∷ [])))));
      small = omega (arith, length-append xs (x ∷ []));
      stored = λ i y p. elim (get_elem?-append_one xs x i y p) [
        | inl old ↦ stored-old i y old
        | inr (here, same) ↦ rw (here, ← same) stored-new
      ];
      beyond = λ i p q.
          let above : suc (length xs) ≤ i = omega (arith, length-append xs (x ∷ [])) in
          ground (arith, get-data (suc i) q, h.beyond i (omega arith) q);
      indexed = λ i y p. elim (get_elem?-append_one xs x i y p) [
        | inl old ↦ ground (
          arith,
          get-index (address_of y),
          h.indexed i y old,
          (E.address_eq_iff (address_of x) (address_of y)).0,
        )
        | inr (here, same) ↦
            rw (here, ← same) (rw get-index (rw (address_eq_refl E (address_of x)) refl))
      ];
      listed = λ a. elim (Bool-cases (E.address_eq (address_of x) a)) [
        | inl same ↦
            inr
              (length xs, x, get_elem?-append_last xs x, (E.address_eq_iff (address_of x) a).0 same)
        | inr other ↦ elim (h.listed a) [
          | inl absent ↦ inl (get-index a ∙ rw other absent)
          | inr (i, y, p, e) ↦ inr (i, y, get_elem?-append_left xs x i y p, e)
        ]
      ];
    }

  -- Over a registry with room for one more entry, adding an entry that encodes and whose address is
  -- not listed either fails to write, or gives a database that holds the list with the entry at
  -- its end.
  pub generic_add-Holds :
      (db : L.Db) (xs : List A) (x : A) (b : Bytes)
      → Holds L E C f address_of db xs
      → suc (length xs) < two64
      → C.marshal x ≡ some b
      → L.get db (index_key E f (address_of x)) ≡ not_found
      → WritesTo
          (λ after. Holds L E C f address_of after (xs ++ x ∷ []))
          (generic_add L C f (E.hex (address_of x)) x db)
  generic_add-Holds db xs x b h room e fresh =
      rw (generic_add-add_ops db xs x (address_of x) b h room e) (
        write_batch-WritesTo L _ _ db λ after wrote. add-Holds db after xs x b h room e wrote fresh)

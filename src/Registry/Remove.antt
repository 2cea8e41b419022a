-- ===== src/Registry/Remove.antt =====
-- `genericRemove` takes an entry out and moves the last one into its place.
use native.Mathlib.Decide.{ℕ_discrete}
use meta_co_sign.Base.{
  ℕ, suc, ◌-◌, ◌<◌, ◌≡◌, ◌≢◌, refl, sym, ap, ◌∙◌, false, Option, some, List, arith, ◌==◌, length,
  get_elem?, get_elem?-some, lt_of_get_elem?,
}
use meta_co_sign.Bytes.{Bytes}
use meta_co_sign.Bytes.Word.{two64}
use meta_co_sign.Registry.{
  Family, pad_entity_id, generic_get_count, generic_get_reverse_index, write_batch, swap_ops,
  drop_ops, remove_ops, generic_remove,
}
use meta_co_sign.Registry.Batches.{
  drop-data, drop-index, drop-count, swap-data, swap-index, swap-count,
}
use meta_co_sign.Registry.Invariant.{IsFamily, Holds, WritesTo, write_batch-WritesTo, swap_remove}
use meta_co_sign.Registry.Keys.{data_key, index_key, unpad_entity_id-pad_entity_id}
use meta_co_sign.Result.{ok, fail, entry_not_found, ◌>>=◌}
use meta_co_sign.Store.{found, not_found, LevelDb, Addresses, Codec}
use meta_co_sign.Registry.Removed.{distinct, removed-Holds}

module _ (L : LevelDb) (E : Addresses) {A : Type 0} (C : Codec A) (f : Family)
    (address_of : A → E.Address) (get_last_addr : Bytes → Option E.Address)
    (family : IsFamily E C f address_of get_last_addr) where
  module _ (db : L.Db) (xs : List A) (h : Holds L E C f address_of db xs) where
    -- The identifier and the count that `genericRemove` reads are those of the list.
    generic_remove-remove_ops :
        (i : ℕ) (x : A)
        → get_elem? xs i ≡ some x
        → generic_remove L E f (address_of x) get_last_addr db ≡ (
            remove_ops L E f get_last_addr
              (address_of x)
              (pad_entity_id (suc i))
              (suc i)
              (length xs)
              db
            >>= λ ops. write_batch L ops db)
    unfolding generic_remove generic_get_reverse_index generic_get_count
    generic_remove-remove_ops i x p =
        let small : suc i < two64 = omega (arith, h.small, lt_of_get_elem? xs i x p) in
        rw (h.indexed i x p, unpad_entity_id-pad_entity_id (suc i) small, h.counted) refl

    drop-Holds :
        (after : L.Db) (i : ℕ) (x : A)
        → length xs ≡ suc i
        → get_elem? xs i ≡ some x
        → L.write (drop_ops E f (address_of x) (pad_entity_id (suc i)) (suc i)) db ≡ some after
        → Holds L E C f address_of after (swap_remove i xs)
    drop-Holds after i x size here wrote =
        let separated = family.separated in
        let a = address_of x in
        let small : suc i < two64 = omega (arith, h.small) in
        let reads = λ (k : Bytes). L.get-write _ db after k wrote in
        removed-Holds L E C f address_of get_last_addr family db xs h after i i x x size here here
          (reads _ ∙ drop-count E f separated a (suc i) (suc i) small small _)
          (λ j hj.
            reads _ ∙ (drop-data E f separated a (suc i) (suc i) small small _ j hj ∙ ground arith))
          (λ b.
            reads _ ∙ (drop-index E f separated a (suc i) (suc i) small small _ b ∙ ground arith))

    swap-Holds :
        (after : L.Db) (i n : ℕ) (x last : A) (v : Bytes)
        → length xs ≡ suc n
        → i ≢ n
        → get_elem? xs i ≡ some x
        → get_elem? xs n ≡ some last
        → L.get db (data_key f (suc n)) ≡ found v
        → L.write
            (swap_ops E f (address_of x) (pad_entity_id (suc i)) (suc n) v (address_of last))
            db
          ≡ some after
        → Holds L E C f address_of after (swap_remove i xs)
    swap-Holds after i n x last v size differs here at_end held wrote =
        let separated = family.separated in
        let a = address_of x in
        let z = address_of last in
        let small : suc n < two64 = omega (arith, h.small) in
        let inside : suc i < two64 = omega (arith, h.small, lt_of_get_elem? xs i x here) in
        let apart =
          distinct L E C f address_of get_last_addr family db xs h i n x last here at_end in
        let reads = λ (k : Bytes). L.get-write _ db after k wrote in
        removed-Holds L E C f address_of get_last_addr family db xs h after i n x last size here
          at_end (reads _ ∙ swap-count E f separated a (suc i) (suc n) inside small _ v z)
          (λ j hj.
            reads _
            ∙ (swap-data E f separated a (suc i) (suc n) inside small _ v z j hj ∙ ground arith))
          (λ b.
            reads _
            ∙ (swap-index E f separated a (suc i) (suc n) inside small _ v z b
                ∙ ground (arith, apart, (E.address_eq_iff a b).0, (E.address_eq_iff z b).0)))

    remove_ops-drop :
        (i : ℕ) (x : A)
        → remove_ops L E f get_last_addr (address_of x) (pad_entity_id (suc i)) (suc i) (suc i) db
          ≡ ok (drop_ops E f (address_of x) (pad_entity_id (suc i)) (suc i))
    unfolding remove_ops
    remove_ops-drop i x = ground arith

    remove_ops-swap :
        (i n : ℕ) (x last : A) (v : Bytes)
        → i ≢ n
        → L.get db (data_key f (suc n)) ≡ found v
        → C.unmarshal v ≡ some last
        → remove_ops L E f get_last_addr (address_of x) (pad_entity_id (suc i)) (suc i) (suc n) db
          ≡ ok (swap_ops E f (address_of x) (pad_entity_id (suc i)) (suc n) v (address_of last))
    unfolding remove_ops
    remove_ops-swap i n x last v differs held decoded =
        let other : (suc i == suc n) ≡ false = ground arith in
        rw (other, held, family.names v last decoded) refl

    -- Removing the address of entry `i` either fails to write, or gives a database that holds the
    -- list with that entry out and the last entry in its place.
    pub generic_remove-Holds :
        (i : ℕ) (x : A)
        → get_elem? xs i ≡ some x
        → WritesTo
            (λ after. Holds L E C f address_of after (swap_remove i xs))
            (generic_remove L E f (address_of x) get_last_addr db)
    generic_remove-Holds i x here =
        let n = length xs - 1 in
        let size : length xs ≡ suc n = omega (arith, lt_of_get_elem? xs i x here) in
        rw (generic_remove-remove_ops i x here, size)
          (elim (ℕ_discrete i n) [
            | yes same ↦ rw (← same) (
                rw remove_ops-drop (
                  write_batch-WritesTo L _ _ db
                    λ after wrote. drop-Holds after i x (size ∙ ap suc (sym same)) here wrote))
            | no differs ↦
                let (last, at_end) = get_elem?-some xs n (omega arith) in
                let (v, held, decoded) = h.stored n last at_end in
                rw (remove_ops-swap i n x last v differs held decoded) (
                  write_batch-WritesTo L _ _ db λ after wrote.
                    swap-Holds after i n x last v size differs here at_end held wrote)
          ])

    -- Removing an address that is not listed fails, and writes nothing.
    pub generic_remove_unlisted :
        (a : E.Address)
        → L.get db (index_key E f a) ≡ not_found
        → generic_remove L E f a get_last_addr db ≡ fail entry_not_found
    unfolding generic_remove generic_get_reverse_index
    generic_remove_unlisted a absent = rw absent refl

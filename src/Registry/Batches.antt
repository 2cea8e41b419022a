-- ===== src/Registry/Batches.antt =====
-- What each key of a family reads after the batches of `genericAdd` and `genericRemove`.
use meta_co_sign.Base.{ℕ, ◌<◌, ◌≡◌, List, [], ◌∷◌, ◌++◌, ◌==◌, if◌then◌else◌}
use meta_co_sign.Bytes.{Bytes, bytes_eq_refl}
use meta_co_sign.Bytes.Word.{two64, put_uint64, u64_pred}
use meta_co_sign.Registry.{Family, pad_entity_id, put_count, swap_ops, drop_ops}
use meta_co_sign.Registry.Keys.{
  IsSeparated, data_key, index_key, data_eq, index_eq, index_ne_data, count_ne_data, count_ne_index,
}
use meta_co_sign.Store.{Read, found, not_found, Op, put, Addresses, overlay}

-- the batch of `genericAdd`
unfoldable pub add_ops : Family → Bytes → ℕ → Bytes → List Op
add_ops f addr_hex new_id value =
    put (f.data_prefix ++ pad_entity_id new_id) value
    ∷ put (f.index_prefix ++ addr_hex) (pad_entity_id new_id)
    ∷ put_count f.count_key new_id
    ∷ []

module _ (E : Addresses) (f : Family) (separated : IsSeparated f) where
  open E use {Address, address_eq, hex}
  open separated use {data_ne_index, data_ne_count, index_ne_count}

  module _ (a : Address) (n : ℕ) (hn : n < two64) (v : Bytes) (r : Read) where
    pub add-data :
        (j : ℕ)
        → j < two64
        → overlay (add_ops f (hex a) n v) (data_key f j) r ≡ (if n == j then found v else r)
    unfolding overlay put_count add_ops
    add-data j hj =
        simp (
          data_eq E f separated n j hn hj,
          index_ne_data E f separated,
          count_ne_data E f separated,
        )

    pub add-index :
        (b : Address)
        → overlay (add_ops f (hex a) n v) (index_key E f b) r
          ≡ (if address_eq a b then found (pad_entity_id n) else r)
    unfolding overlay put_count add_ops
    add-index b = simp (index_eq E f separated a b, data_ne_index, count_ne_index E f separated)

    pub add-count : overlay (add_ops f (hex a) n v) f.count_key r ≡ found (put_uint64 n)
    unfolding overlay put_count add_ops
    add-count = simp (bytes_eq_refl f.count_key, data_ne_count, index_ne_count)

  module _ (a : Address) (i n : ℕ) (hi : i < two64) (hn : n < two64) (r : Read) where
    pub drop-data :
        (j : ℕ)
        → j < two64
        → overlay (drop_ops E f a (pad_entity_id i) n) (data_key f j) r
          ≡ (if i == j then not_found else r)
    unfolding overlay put_count drop_ops
    drop-data j hj =
        simp (
          data_eq E f separated i j hi hj,
          index_ne_data E f separated,
          count_ne_data E f separated,
        )

    pub drop-index :
        (b : Address)
        → overlay (drop_ops E f a (pad_entity_id i) n) (index_key E f b) r
          ≡ (if address_eq a b then not_found else r)
    unfolding overlay put_count drop_ops
    drop-index b = simp (index_eq E f separated a b, data_ne_index, count_ne_index E f separated)

    pub drop-count :
        overlay (drop_ops E f a (pad_entity_id i) n) f.count_key r ≡ found (put_uint64 (u64_pred n))
    unfolding overlay put_count drop_ops
    drop-count = simp (bytes_eq_refl f.count_key, data_ne_count, index_ne_count)

    module _ (v : Bytes) (last : Address) where
      pub swap-data :
          (j : ℕ)
          → j < two64
          → overlay (swap_ops E f a (pad_entity_id i) n v last) (data_key f j) r
            ≡ (if n == j then not_found else if i == j then found v else r)
      unfolding overlay put_count swap_ops
      swap-data j hj = simp (
        data_eq E f separated i j hi hj,
        data_eq E f separated n j hn hj,
        index_ne_data E f separated,
        count_ne_data E f separated,
      )

      pub swap-index :
          (b : Address)
          → overlay (swap_ops E f a (pad_entity_id i) n v last) (index_key E f b) r ≡ (
              if address_eq last b
              then found (pad_entity_id i)
              else if address_eq a b
              then not_found
              else r)
      unfolding overlay put_count swap_ops
      swap-index b = simp (
        index_eq E f separated a b,
        index_eq E f separated last b,
        data_ne_index,
        count_ne_index E f separated,
      )

      pub swap-count :
          overlay (swap_ops E f a (pad_entity_id i) n v last) f.count_key r
          ≡ found (put_uint64 (u64_pred n))
      unfolding overlay put_count swap_ops
      swap-count = simp (bytes_eq_refl f.count_key, data_ne_count, index_ne_count)

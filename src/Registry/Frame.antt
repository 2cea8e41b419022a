-- ===== src/Registry/Frame.antt =====
-- An operation on one family leaves every key outside it alone.
use meta_co_sign.Base.{
  ℕ, suc, ◌≡◌, ◌∙◌, inl, inr, false, Option, List, ◌++◌, arith, ◌==◌, Bool-cases, Option-cases,
}
use meta_co_sign.Bytes.{Bytes, bytes_eq}
use meta_co_sign.Registry.{
  Family, need, pad_entity_id, put_count, swap_ops, drop_ops, remove_ops, write_batch,
  generic_get_count, generic_get_reverse_index, generic_add, generic_remove, unpad_entity_id,
}
use meta_co_sign.Registry.Batches.{add_ops}
use meta_co_sign.Registry.Invariant.{Holds}
use meta_co_sign.Registry.Keys.{data_key, index_key}
use meta_co_sign.Result.{ok, or_fail, >>=-eq-ok}
use meta_co_sign.Store.{Read, Op, LevelDb, Addresses, Codec, overlay}

-- A key that no operation on the family writes.
pub record IsForeign (f : Family) (k : Bytes) : Type 0 where
  pub data_keys : (s : Bytes) → bytes_eq (f.data_prefix ++ s) k ≡ false
  pub index_keys : (s : Bytes) → bytes_eq (f.index_prefix ++ s) k ≡ false
  pub counter : bytes_eq f.count_key k ≡ false

-- Every key of `g` is foreign to `f`.
pub record IsApart (f g : Family) : Type 0 where
  pub data_keys : (s : Bytes) → IsForeign f (g.data_prefix ++ s)
  pub index_keys : (s : Bytes) → IsForeign f (g.index_prefix ++ s)
  pub counter : IsForeign f g.count_key

module _ (L : LevelDb) (E : Addresses) {A : Type 0} (C : Codec A) (f : Family) where
  module _ (k : Bytes) (foreign : IsForeign f k) (r : Read) where
    overlay-add_ops : (hex : Bytes) (n : ℕ) (v : Bytes) → overlay (add_ops f hex n v) k r ≡ r
    unfolding overlay add_ops put_count
    overlay-add_ops hex n v = simp (foreign.data_keys, foreign.index_keys, foreign.counter)

    overlay-drop_ops : (a : E.Address) (p : Bytes) (n : ℕ) → overlay (drop_ops E f a p n) k r ≡ r
    unfolding overlay drop_ops put_count
    overlay-drop_ops a p n = simp (foreign.data_keys, foreign.index_keys, foreign.counter)

    overlay-swap_ops :
        (a : E.Address) (p : Bytes) (n : ℕ) (v : Bytes) (z : E.Address)
        → overlay (swap_ops E f a p n v z) k r ≡ r
    unfolding overlay swap_ops put_count
    overlay-swap_ops a p n v z = simp (foreign.data_keys, foreign.index_keys, foreign.counter)

  module _ (db after : L.Db) (k : Bytes) (foreign : IsForeign f k) where
    write_batch-unchanged :
        (ops : List Op)
        → overlay ops k (L.get db k) ≡ L.get db k
        → write_batch L ops db ≡ ok after
        → L.get after k ≡ L.get db k
    unfolding write_batch
    write_batch-unchanged ops same e = elim (Option-cases (L.write ops db)) [
      | inl failed ↦ ground arith
      | inr (d, wrote) ↦
          let at : d ≡ after = ground arith in rw (← at) (L.get-write ops db d k wrote ∙ same)
    ]

    pub generic_add-unchanged :
        (hex : Bytes) (x : A) → generic_add L C f hex x db ≡ ok after → L.get after k ≡ L.get db k
    unfolding generic_add add_ops
    generic_add-unchanged hex x e =
        let (n, _, e₁) = >>=-eq-ok (generic_get_count L f.count_key db) _ e in
        let (v, _, e₂) = >>=-eq-ok (or_fail _ (C.marshal x)) _ e₁ in
        write_batch-unchanged _ (overlay-add_ops k foreign (L.get db k) hex _ v) e₂

    remove_ops-unchanged :
        (gla : Bytes → Option E.Address) (a : E.Address) (p : Bytes) (i n : ℕ) (ops : List Op)
        → remove_ops L E f gla a p i n db ≡ ok ops
        → overlay ops k (L.get db k) ≡ L.get db k
    unfolding remove_ops
    remove_ops-unchanged gla a p i n ops e = elim (Bool-cases (i == n)) [
      | inl same ↦
          let at : drop_ops E f a p n ≡ ops = ground arith in
          rw (← at) (overlay-drop_ops k foreign (L.get db k) a p n)
      | inr other ↦
          let (v, _, e₁) = >>=-eq-ok (need (L.get db (data_key f n))) _ (rw other at e) in
          let (z, _, e₂) = >>=-eq-ok (or_fail _ (gla v)) _ e₁ in
          let at : swap_ops E f a p n v z ≡ ops = cc e₂ in
          rw (← at) (overlay-swap_ops k foreign (L.get db k) a p n v z)
    ]

    pub generic_remove-unchanged :
        (a : E.Address) (gla : Bytes → Option E.Address)
        → generic_remove L E f a gla db ≡ ok after
        → L.get after k ≡ L.get db k
    unfolding generic_remove
    generic_remove-unchanged a gla e =
        let (o, _, e₁) = >>=-eq-ok (generic_get_reverse_index L E f.index_prefix a db) _ e in
        let (p, _, e₂) = >>=-eq-ok (or_fail _ o) _ e₁ in
        let (i, _, e₃) = >>=-eq-ok (or_fail _ (unpad_entity_id p)) _ e₂ in
        let (n, _, e₄) = >>=-eq-ok (generic_get_count L f.count_key db) _ e₃ in
        let (ops, planned, e₅) = >>=-eq-ok (remove_ops L E f gla a p i n db) _ e₄ in
        write_batch-unchanged ops (remove_ops-unchanged gla a p i n ops planned) e₅

-- A database that agrees on every key of a family holds the same list.
pub Holds-unchanged :
    (L : LevelDb) (E : Addresses) {A : Type 0} (C : Codec A) (f g : Family)
    (address_of : A → E.Address) (before after : L.Db) (xs : List A)
    → IsApart f g
    → ((k : Bytes) → IsForeign f k → L.get after k ≡ L.get before k)
    → Holds L E C g address_of before xs
    → Holds L E C g address_of after xs
Holds-unchanged L E C f g address_of before after xs apart same h =
    let data_same = λ (i : ℕ). same (data_key g i) (apart.data_keys (pad_entity_id i)) in
    let index_same = λ (a : E.Address). same (index_key E g a) (apart.index_keys (E.hex a)) in
    record {
      counted = rw (same g.count_key apart.counter) h.counted;
      small = h.small;
      stored = λ i x p. rw (data_same (suc i)) (h.stored i x p);
      beyond = λ i p q. data_same (suc i) ∙ h.beyond i p q;
      indexed = λ i x p. index_same (address_of x) ∙ h.indexed i x p;
      listed = λ a. rw (index_same a) (h.listed a);
    }

-- ===== src/Registry/Spec.antt =====
-- What a registry promises, over the list alone: entries are found by address, added at the end
-- once, and taken out with the last entry moving into the gap.
use meta_co_sign.Base.{
  ℕ, zero, suc, ◌+◌, ◌≡◌, ◌≢◌, refl, inl, inr, Option, none, some, List, [], ◌∷◌, ◌++◌, arith,
  if◌then◌else◌, length, length-append, ◌≤◌, get_elem?, Bool-cases, Option-cases,
}
use meta_co_sign.Registry.{Family, pad_entity_id}
use meta_co_sign.Registry.Invariant.{Holds, swap_remove, length-swap_remove-le}
use meta_co_sign.Registry.Keys.{index_key}
use meta_co_sign.Result.{Result, ok, fail, already_exists, entry_not_found}
use meta_co_sign.Store.{found, not_found, LevelDb, Addresses, Codec}

abbrev pub later : Option ℕ → Option ℕ
later none = none
later (some i) = some (suc i)

module _ (E : Addresses) {A : Type 0} (address_of : A → E.Address) where
  -- the place of the first entry with the address
  unfoldable pub position : E.Address → List A → Option ℕ
  position a [] = none
  position a (x ∷ xs) = if E.address_eq (address_of x) a then some 0 else later (position a xs)

  unfoldable pub spec_add : A → List A → Result (List A)
  spec_add x xs = elim (position (address_of x) xs) [
    | none ↦ ok (xs ++ x ∷ [])
    | some i ↦ fail already_exists
  ]

  unfoldable pub spec_remove : E.Address → List A → Result (List A)
  spec_remove a xs = elim (position a xs) [
    | none ↦ fail entry_not_found
    | some i ↦ ok (swap_remove i xs)
  ]

  pub spec_add_new :
      (x : A) (xs : List A) → position (address_of x) xs ≡ none → spec_add x xs ≡ ok (xs ++ x ∷ [])
  unfolding spec_add
  spec_add_new x xs e = rw (e, spec_add) refl

  pub spec_add_old :
      (x : A) (xs : List A) (i : ℕ)
      → position (address_of x) xs ≡ some i
      → spec_add x xs ≡ fail already_exists
  unfolding spec_add
  spec_add_old x xs i e = rw (e, spec_add) refl

  pub spec_remove_new :
      (a : E.Address) (xs : List A) → position a xs ≡ none → spec_remove a xs ≡ fail entry_not_found
  unfolding spec_remove
  spec_remove_new a xs e = rw (e, spec_remove) refl

  pub spec_remove_old :
      (a : E.Address) (xs : List A) (i : ℕ)
      → position a xs ≡ some i
      → spec_remove a xs ≡ ok (swap_remove i xs)
  unfolding spec_remove
  spec_remove_old a xs i e = rw (e, spec_remove) refl

  pub position-some :
      (a : E.Address) (xs : List A) (i : ℕ)
      → position a xs ≡ some i
      → (x : A) × (get_elem? xs i ≡ some x) × (address_of x ≡ a)
  unfolding position
  position-some a [] i h = absurd (ground arith)
  position-some a (x ∷ xs) i h = elim (Bool-cases (E.address_eq (address_of x) a)) [
    | inl same ↦ (
      x,
      (let first : i ≡ 0 = ground arith in rw first refl),
      (E.address_eq_iff (address_of x) a).0 same,
    )
    | inr other ↦ elim (Option-cases (position a xs)) [
      | inl e ↦ absurd (ground arith)
      | inr (k, e) ↦
          let (y, p, q) = position-some a xs k e in
          let at : i ≡ suc k = ground arith in rw at (y, p, q)
    ]
  ]

  pub position-none :
      (a : E.Address) (xs : List A) (i : ℕ) (x : A)
      → position a xs ≡ none
      → get_elem? xs i ≡ some x
      → address_of x ≢ a
  unfolding position
  position-none a [] i x h p = absurd (ground arith)
  position-none a (y ∷ xs) zero x h p = λ e. ground (arith, (E.address_eq_iff (address_of y) a).1)
  position-none a (y ∷ xs) (suc i) x h p = position-none a xs i x (ground arith) p

  pub length-spec_add : (x : A) (xs ys : List A) → spec_add x xs ≡ ok ys → length ys ≤ length xs + 1
  length-spec_add x xs ys e = elim (Option-cases (position (address_of x) xs)) [
    | inl new ↦
        let at : xs ++ x ∷ [] ≡ ys = cc (spec_add_new x xs new, e) in
        rw (← at) (omega (arith, length-append xs (x ∷ [])))
    | inr (i, old) ↦ absurd (cc (spec_add_old x xs i old, e))
  ]

  pub length-spec_remove :
      (a : E.Address) (xs ys : List A) → spec_remove a xs ≡ ok ys → length ys ≤ length xs + 1
  length-spec_remove a xs ys e = elim (Option-cases (position a xs)) [
    | inl new ↦ absurd (cc (spec_remove_new a xs new, e))
    | inr (i, old) ↦
        let at : swap_remove i xs ≡ ys = cc (spec_remove_old a xs i old, e) in
        rw (← at) (omega (arith, length-swap_remove-le i xs))
  ]

  -- Over a database that holds the list, the index answers as the position in the list.
  module _ (L : LevelDb) (C : Codec A) (f : Family) (db : L.Db) (xs : List A)
      (h : Holds L E C f address_of db xs) (a : E.Address) where
    pub index-position-none : position a xs ≡ none → L.get db (index_key E f a) ≡ not_found
    index-position-none e = elim (h.listed a) [
      | inl absent ↦ absent
      | inr (i, x, p, q) ↦ absurd (position-none a xs i x e p q)
    ]

    pub index-position-some :
        (i : ℕ)
        → position a xs ≡ some i
        → L.get db (index_key E f a) ≡ found (pad_entity_id (suc i))
    index-position-some i e = let (x, p, q) = position-some a xs i e in rw (← q) (h.indexed i x p)

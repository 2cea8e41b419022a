-- ===== src/Registry/Refine.antt =====
-- `genericAdd` behind the callers' test, and `genericRemove`, refine the specification on lists.
use meta_co_sign.Base.{
  suc, ◌<◌, ◌≡◌, refl, inl, inr, Option, some, List, length, Option-cases, if◌then◌else◌,
}
use meta_co_sign.Bytes.{Bytes}
use meta_co_sign.Bytes.Word.{two64}
use meta_co_sign.Registry.{Family, generic_get_reverse_index, generic_add, generic_remove, is_some}
use meta_co_sign.Registry.Add.{generic_add-Holds}
use meta_co_sign.Registry.Frame.{IsForeign, generic_add-unchanged, generic_remove-unchanged}
use meta_co_sign.Registry.Invariant.{IsFamily, Holds, WritesTo}
use meta_co_sign.Registry.Remove.{generic_remove-Holds, generic_remove_unlisted}
use meta_co_sign.Registry.Spec.{
  position, spec_add, spec_remove, spec_add_new, spec_add_old, spec_remove_new, spec_remove_old,
  position-some, index-position-none, index-position-some,
}
use meta_co_sign.Result.{Result, ok, fail, panic, already_exists, ◌>>=◌}
use meta_co_sign.Store.{LevelDb, Addresses, Codec}

-- The code fails where the specification does, with its error; where the specification succeeds,
-- the code's write fails or its database is related to the specification's state.
abbrev pub Outcome : {D S : Type 0} → (D → S → Type 0) → Result D → Result S → Type 0
Outcome P r (ok s) = WritesTo (λ d. P d s) r
Outcome P r (fail e) = r ≡ fail e
Outcome P r panic = ⊥

pub Outcome-map :
    {D S T : Type 0} (P : D → S → Type 0) (Q : D → T → Type 0) (g : S → T) (r : Result D)
    (s : Result S)
    → ((d : D) (x : S) → P d x → Q d (g x))
    → Outcome P r s
    → Outcome Q r (s >>= λ x. ok (g x))
Outcome-map P Q g r (ok s) k (inl failed) = inl failed
Outcome-map P Q g r (ok s) k (inr (d, e, p)) = inr (d, e, k d s p)
Outcome-map P Q g r (fail e) k h = h
Outcome-map P Q g r panic k h = absurd h

module _ (L : LevelDb) (E : Addresses) {A : Type 0} (C : Codec A) (f : Family)
    (address_of : A → E.Address) (get_last_addr : Bytes → Option E.Address)
    (family : IsFamily E C f address_of get_last_addr) (db : L.Db) (xs : List A)
    (h : Holds L E C f address_of db xs) where
  -- the database after an operation on the family
  abbrev pub Follows : L.Db → List A → Type 0
  Follows after ys =
      Holds L E C f address_of after ys × ((k : Bytes) → IsForeign f k → L.get after k ≡ L.get db k)

  -- The body of `AddContract` and the like.
  unfoldable pub checked_add : E.Address → A → Result L.Db
  checked_add address x = do
    index ← generic_get_reverse_index L E f.index_prefix address db
    if is_some index then fail already_exists else generic_add L C f (E.hex address) x db

  pub checked_add-Outcome :
      (x : A) (b : Bytes)
      → suc (length xs) < two64
      → C.marshal x ≡ some b
      → Outcome Follows (checked_add (address_of x) x) (spec_add E address_of x xs)
  unfolding checked_add generic_get_reverse_index is_some
  checked_add-Outcome x b room encoded =
      elim (Option-cases (position E address_of (address_of x) xs)) [
        | inl new ↦
            let absent = index-position-none E address_of L C f db xs h (address_of x) new in
            rw (spec_add_new E address_of x xs new, absent)
              (elim (generic_add-Holds L E C f address_of family.separated db xs x b h room encoded
                absent) [
                  | inl failed ↦ inl failed
                  | inr (after, e, held) ↦ inr (
                    after,
                    e,
                    (held, λ k foreign. generic_add-unchanged L E C f db after k foreign _ x e),
                  )
                ])
        | inr (i, old) ↦
            rw
              (
                spec_add_old E address_of x xs i old,
                index-position-some E address_of L C f db xs h (address_of x) i old,
              )
              refl
      ]

  pub generic_remove-Outcome :
      (a : E.Address)
      → Outcome Follows (generic_remove L E f a get_last_addr db) (spec_remove E address_of a xs)
  generic_remove-Outcome a = elim (Option-cases (position E address_of a xs)) [
    | inl new ↦ rw (spec_remove_new E address_of a xs new) (
        generic_remove_unlisted L E C f address_of get_last_addr family db xs h a
          (index-position-none E address_of L C f db xs h a new))
    | inr (i, old) ↦
        let (x, here, same) = position-some E address_of a xs i old in
        rw (spec_remove_old E address_of a xs i old, ← same)
          (elim (generic_remove-Holds L E C f address_of get_last_addr family db xs h i x here) [
            | inl failed ↦ inl failed
            | inr (after, e, held) ↦ inr (
              after,
              e,
              (
                held,
                λ k foreign. generic_remove-unchanged L E C f db after k foreign _ get_last_addr e,
              ),
            )
          ])
  ]

-- Where both succeed, the results are related.
pub Outcome-ok :
    {D S : Type 0} (P : D → S → Type 0) (r : Result D) (s : Result S) (d : D) (x : S)
    → Outcome P r s
    → r ≡ ok d
    → s ≡ ok x
    → P d x
Outcome-ok P r (ok y) d x (inl failed) e e' = absurd (cc (failed, e))
Outcome-ok P r (ok y) d x (inr (d', at, p)) e e' =
    let same_d : d' ≡ d = cc (at, e) in let same_x : y ≡ x = cc e' in rw (← same_d, ← same_x) p
Outcome-ok P r (fail z) d x o e e' = absurd (cc e')
Outcome-ok P r panic d x o e e' = absurd o

-- ===== src/Base/Lists.antt =====
-- Lists measured and indexed by native numbers, under the library's names.
use Prim.Native.Nat.{ℕ, zero, suc, ◌+◌, ◌-◌, ◌<◌, ◌≤◌, min}
use mathlib.Core.Path.{◌≡◌, refl, ap}
use mathlib.Core.List.{List, [], ◌∷◌, ◌++◌}
use mathlib.Core.Logic.{◌⊎◌, inl, inr}
use mathlib.Core.Option.{Option, none, some}
use native.Mathlib.Omega.{arith}
use meta_co_sign.Base.Tests.{ltb, ◌==◌, if◌then◌else◌}

module _ {ℓ} {A : Type ℓ} where
  abbrev pub length : List A → ℕ
  length [] = 0
  length (x ∷ xs) = suc (length xs)

  abbrev pub get_elem? : List A → ℕ → Option A
  get_elem? [] i = none
  get_elem? (x ∷ xs) zero = some x
  get_elem? (x ∷ xs) (suc i) = get_elem? xs i

  -- A write out of bounds changes nothing.
  abbrev pub set : List A → ℕ → A → List A
  set [] i v = []
  set (x ∷ xs) zero v = v ∷ xs
  set (x ∷ xs) (suc i) v = x ∷ set xs i v

  abbrev pub take : ℕ → List A → List A
  take zero xs = []
  take (suc n) [] = []
  take (suc n) (x ∷ xs) = x ∷ take n xs

  abbrev pub drop : ℕ → List A → List A
  drop zero xs = xs
  drop (suc n) [] = []
  drop (suc n) (x ∷ xs) = drop n xs

  abbrev pub replicate : ℕ → A → List A
  replicate zero a = []
  replicate (suc n) a = a ∷ replicate n a

module _ {ℓ} {A : Type ℓ} where
  pub length-append : (xs ys : List A) → length (xs ++ ys) ≡ length xs + length ys
  length-append [] ys = omega arith
  length-append (x ∷ xs) ys = omega (arith, length-append xs ys)

  pub length-set : (xs : List A) (i : ℕ) (v : A) → length (set xs i v) ≡ length xs
  length-set [] i v = refl
  length-set (x ∷ xs) zero v = refl
  length-set (x ∷ xs) (suc i) v = ap suc (length-set xs i v)

  pub length-take : (n : ℕ) (xs : List A) → length (take n xs) ≡ min n (length xs)
  length-take zero xs = omega arith
  length-take (suc n) [] = omega arith
  length-take (suc n) (x ∷ xs) = omega (arith, length-take n xs)

  pub length-drop : (n : ℕ) (xs : List A) → length (drop n xs) ≡ length xs - n
  length-drop zero xs = omega arith
  length-drop (suc n) [] = omega arith
  length-drop (suc n) (x ∷ xs) = omega (arith, length-drop n xs)

  pub length-replicate : (n : ℕ) (a : A) → length (replicate n a) ≡ n
  length-replicate zero a = refl
  length-replicate (suc n) a = ap suc (length-replicate n a)

  pub get_elem?-set :
      (xs : List A) (i j : ℕ) (v : A)
      → i < length xs
      → get_elem? (set xs i v) j ≡ (if i == j then some v else get_elem? xs j)
  get_elem?-set [] i j v h = elim h [ ]
  get_elem?-set (x ∷ xs) zero zero v h = refl
  get_elem?-set (x ∷ xs) zero (suc j) v h = ground arith
  get_elem?-set (x ∷ xs) (suc i) zero v h = ground arith
  get_elem?-set (x ∷ xs) (suc i) (suc j) v h = ground (arith, get_elem?-set xs i j v (omega arith))

  pub get_elem?-take :
      (n : ℕ) (xs : List A) (j : ℕ)
      → get_elem? (take n xs) j ≡ (if ltb j n then get_elem? xs j else none)
  get_elem?-take zero xs j = ground arith
  get_elem?-take (suc n) [] j = ground arith
  get_elem?-take (suc n) (x ∷ xs) zero = ground arith
  get_elem?-take (suc n) (x ∷ xs) (suc j) = ground (arith, get_elem?-take n xs j)

  pub get_elem?-append :
      (xs ys : List A) (j : ℕ)
      → get_elem? (xs ++ ys) j
        ≡ (if ltb j (length xs) then get_elem? xs j else get_elem? ys (j - length xs))
  get_elem?-append [] ys j = ground arith
  get_elem?-append (x ∷ xs) ys zero = ground arith
  get_elem?-append (x ∷ xs) ys (suc j) = ground (arith, get_elem?-append xs ys j)

  pub get_elem?-none : (xs : List A) (j : ℕ) → length xs ≤ j → get_elem? xs j ≡ none
  get_elem?-none [] j h = refl
  get_elem?-none (x ∷ xs) zero h = elim h [ ]
  get_elem?-none (x ∷ xs) (suc j) h = get_elem?-none xs j (omega arith)

  pub get_elem?-some : (xs : List A) (j : ℕ) → j < length xs → (x : A) × (get_elem? xs j ≡ some x)
  get_elem?-some [] j h = elim h [ ]
  get_elem?-some (x ∷ xs) zero h = (x, refl)
  get_elem?-some (x ∷ xs) (suc j) h = get_elem?-some xs j (omega arith)

  pub lt_of_get_elem? : (xs : List A) (j : ℕ) (x : A) → get_elem? xs j ≡ some x → j < length xs
  lt_of_get_elem? [] j x h = absurd (ground arith)
  lt_of_get_elem? (y ∷ xs) zero x h = omega arith
  lt_of_get_elem? (y ∷ xs) (suc j) x h = omega (arith, lt_of_get_elem? xs j x h)

  -- An element of a list with one more at the end is one of the list, or that one.
  pub get_elem?-append_one :
      (xs : List A) (x : A) (i : ℕ) (y : A)
      → get_elem? (xs ++ x ∷ []) i ≡ some y
      → (get_elem? xs i ≡ some y) ⊎ ((i ≡ length xs) × (x ≡ y))
  get_elem?-append_one [] x zero y h = inr (refl, ground arith)
  get_elem?-append_one [] x (suc i) y h = absurd (ground arith)
  get_elem?-append_one (z ∷ xs) x zero y h = inl h
  get_elem?-append_one (z ∷ xs) x (suc i) y h = elim (get_elem?-append_one xs x i y h) [
    | inl old ↦ inl old
    | inr (here, same) ↦ inr (ap suc here, same)
  ]

  pub get_elem?-append_left :
      (xs : List A) (x : A) (i : ℕ) (y : A)
      → get_elem? xs i ≡ some y
      → get_elem? (xs ++ x ∷ []) i ≡ some y
  get_elem?-append_left [] x i y h = absurd (ground arith)
  get_elem?-append_left (z ∷ xs) x zero y h = h
  get_elem?-append_left (z ∷ xs) x (suc i) y h = get_elem?-append_left xs x i y h

  pub get_elem?-append_last : (xs : List A) (x : A) → get_elem? (xs ++ x ∷ []) (length xs) ≡ some x
  get_elem?-append_last [] x = refl
  get_elem?-append_last (z ∷ xs) x = get_elem?-append_last xs x

abbrev pub All {ℓ κ} : {A : Type ℓ} → (A → Type κ) → List A → Type κ
All P [] = Unit
All P (x ∷ xs) = P x × All P xs

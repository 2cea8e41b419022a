-- ===== src/Result.antt =====
-- The result of a Go function that returns an `error` or panics.
use meta_co_sign.Base.{◌≡◌, refl, Option, none, some}

-- One constructor for each kind of error that the storage code tells apart by its message.
pub data Error : Type 0 where
  read_error write_error encode_error decode_error : Error
  already_exists entry_not_found invalid_id invalid_index : Error
  status_mismatch already_confirmed no_accounts unauthorized invalid_page invalid_page_size : Error
  invalid_private_key key_store_error : Error

pub data Result {ℓ} (A : Type ℓ) : Type ℓ where
  ok : A → Result A
  fail : Error → Result A
  panic : Result A

infixl 5 ◌>>=◌
abbrev pub ◌>>=◌ {ℓ κ} : {A : Type ℓ} {B : Type κ} → Result A → (A → Result B) → Result B
ok a >>= k = k a
fail e >>= k = fail e
panic >>= k = panic

-- the value, or the error of a call that gave none
abbrev pub or_fail {ℓ} : {A : Type ℓ} → Error → Option A → Result A
or_fail e (some a) = ok a
or_fail e none = fail e

abbrev pub or_panic {ℓ} : {A : Type ℓ} → Option A → Result A
or_panic (some a) = ok a
or_panic none = panic

-- A chain that succeeds: its first call does, and the rest.
pub >>=-eq-ok {ℓ κ} :
    {A : Type ℓ} {B : Type κ} (m : Result A) (k : A → Result B) {b : B}
    → (m >>= k) ≡ ok b
    → (a : A) × (m ≡ ok a) × (k a ≡ ok b)
>>=-eq-ok (ok a) k h = (a, refl, h)
>>=-eq-ok (fail e) k h = cc
>>=-eq-ok panic k h = cc

pub or_fail-ok {ℓ} :
    {A : Type ℓ} (e : Error) (o : Option A) {a : A} → or_fail e o ≡ ok a → o ≡ some a
or_fail-ok e (some a) h = cc
or_fail-ok e none h = cc

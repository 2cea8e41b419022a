-- ===== src/Examples/Memory.antt =====
-- The interfaces to the code outside the repository, met by small concrete functions: a database in
-- memory whose writes succeed, addresses that are their own text, and messages with their fields
-- one after the other.
use meta_co_sign.Base.{
  ℕ, ◌≡◌, refl, sym, ap, subst, Option, none, some, [], ◌∷◌, ◌++◌, length, take, drop,
}
use meta_co_sign.Bytes.{Bytes, bytes_eq, bytes_eq_iff}
use meta_co_sign.FreeGas.{ContractFreeGasData, AuthorizedWalletData, AdminData, Messages}
use meta_co_sign.Store.{Read, overlay, LevelDb, Addresses}

pub read_after : (d after : Bytes → Read) (k : Bytes) → some d ≡ some after → after k ≡ d k
read_after d after k e = sym (ap (λ o. elim o [ none ↦ d k | some f ↦ f k ]) e)

abbrev pub memory : LevelDb
memory = record {
  Db = Bytes → Read;
  get = λ db k. db k;
  write = λ ops db. some (λ k. overlay ops k (db k));
  get-write = λ ops before after k e. read_after (λ j. overlay ops j (before j)) after k e;
}

abbrev pub addresses : Addresses
addresses = record {
  Address = Bytes;
  address_eq = bytes_eq;
  address_eq_iff = bytes_eq_iff;
  hex = λ a. a;
  hex_injective = λ a b e. e;
  to_bytes = λ a. a;
  bytes_to_address = λ a. a;
  bytes_to_address-to_bytes = λ a. refl;
}

-- two byte strings and a number, the first string behind its length
abbrev pub pack : Bytes → ℕ → Bytes → Bytes
pack a t b = length a ∷ t ∷ a ++ b

pub take-pack : (a b : Bytes) → take (length a) (a ++ b) ≡ a
take-pack [] b = refl
take-pack (x ∷ a) b = ap (◌∷◌ x) (take-pack a b)

pub drop-pack : (a b : Bytes) → drop (length a) (a ++ b) ≡ b
drop-pack [] b = refl
drop-pack (x ∷ a) b = drop-pack a b

abbrev pub fields : {A : Type 0} → (Bytes → ℕ → Bytes → A) → Bytes → Option A
fields make [] = none
fields make (n ∷ []) = none
fields make (n ∷ t ∷ rest) = some (make (take n rest) t (drop n rest))

pub fields-pack :
    {A : Type 0} (make : Bytes → ℕ → Bytes → A) (a : Bytes) (t : ℕ) (b bytes : Bytes)
    → some (pack a t b) ≡ some bytes
    → fields make bytes ≡ some (make a t b)
fields-pack make a t b bytes e =
    subst (λ s. fields make s ≡ some (make a t b)) (ap (λ o. elim o [ none ↦ [] | some s ↦ s ]) e)
      (rw (take-pack a b, drop-pack a b) refl)

abbrev pub make_contract : Bytes → ℕ → Bytes → ContractFreeGasData
make_contract a t b = record { contract_address = a; added_at = t; added_by = b }

abbrev pub make_wallet : Bytes → ℕ → Bytes → AuthorizedWalletData
make_wallet a t b = record { wallet_address = a; added_at = t; added_by = b }

abbrev pub make_admin : Bytes → ℕ → Bytes → AdminData
make_admin a t b = record { admin_address = a; added_at = t; added_by = b }

abbrev pub messages : Messages
messages = record {
  contract = record {
    marshal = λ x. some (pack x.contract_address x.added_at x.added_by);
    unmarshal = fields make_contract;
    unmarshal-marshal =
        λ x b e. fields-pack make_contract x.contract_address x.added_at x.added_by b e;
  };
  wallet = record {
    marshal = λ x. some (pack x.wallet_address x.added_at x.added_by);
    unmarshal = fields make_wallet;
    unmarshal-marshal = λ x b e. fields-pack make_wallet x.wallet_address x.added_at x.added_by b e;
  };
  admin = record {
    marshal = λ x. some (pack x.admin_address x.added_at x.added_by);
    unmarshal = fields make_admin;
    unmarshal-marshal = λ x b e. fields-pack make_admin x.admin_address x.added_at x.added_by b e;
  };
}

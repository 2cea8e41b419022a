-- ===== src/Examples/Accounts.antt =====
-- The theorems on account states at concrete inputs. Addresses and hashes are their own bytes.
use meta_co_sign.AccountState.{Primitives}
use meta_co_sign.AccountState.Account.{AccountState}
use meta_co_sign.AccountState.Integer.{pos}
use meta_co_sign.AccountState.Money.{
  Call, credit, debit, debit_total, received, calls, Holds, calls-Holds,
}
use meta_co_sign.Base.{◌+◌, ◌-◌, ◌≤◌, refl, none, List, [], ◌∷◌, replicate}
use meta_co_sign.Bytes.{Bytes}

abbrev pub primitives : Primitives
primitives = record {
  Address = Bytes;
  zero_address = [];
  address_bytes = λ a. a;
  bytes_to_address = λ a. a;
  bytes_to_address-address_bytes = λ a. refl;
  Hash = Bytes;
  zero_hash = [];
  hash_bytes = λ h. h;
  bytes_to_hash = λ h. h;
  bytes_to_hash-hash_bytes = λ h. refl;
  keccak256_hash = λ b. b;
}

abbrev pub sample : AccountState primitives
sample = record {
  address = 1 ∷ 2 ∷ [];
  last_hash = 3 ∷ [];
  balance = pos 70;
  pending_balance = pos 30;
  device_key = 4 ∷ [];
  smart_contract_state = none;
  nonce = 5;
  public_key_bls = replicate 48 6;
  account_type = 0;
}

abbrev payments : List Call
payments = credit 10 ∷ debit 90 ∷ debit_total 95 ∷ []

sample-Holds : Holds primitives 100 sample
sample-Holds = record {
  balance_amount = 70;
  pending_amount = 30;
  balance_eq = refl;
  pending_eq = refl;
  total_eq = refl;
}

calls-Holds_example :
    ((calls primitives payments sample).1 ≤ 100 + received payments)
    × Holds primitives
        (100 + received payments - (calls primitives payments sample).1)
        (calls primitives payments sample).0
calls-Holds_example = calls-Holds primitives payments 100 sample sample-Holds

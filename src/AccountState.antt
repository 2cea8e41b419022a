-- ===== src/AccountState.antt =====
-- pkg/state/account_state.go and pkg/state/smart_contract_state.go: the state of an account. A
-- `*big.Int` is a value here: no method changes one in place.
pub mod Account
pub mod Codec
pub mod Contract
pub mod Integer
pub mod Money
pub mod PublicKey
use meta_co_sign.Base.{◌≡◌}
use meta_co_sign.Bytes.{Bytes}

-- go-ethereum's `common.Address` and `common.Hash`, with `crypto.Keccak256Hash`.
pub record Primitives : Type 1 where
  pub Address : Type 0
  pub zero_address : Address
  pub address_bytes : Address → Bytes
  pub bytes_to_address : Bytes → Address
  pub bytes_to_address-address_bytes : (a : Address) → bytes_to_address (address_bytes a) ≡ a
  pub Hash : Type 0
  pub zero_hash : Hash
  pub hash_bytes : Hash → Bytes
  pub bytes_to_hash : Bytes → Hash
  pub bytes_to_hash-hash_bytes : (h : Hash) → bytes_to_hash (hash_bytes h) ≡ h
  pub keccak256_hash : Bytes → Hash

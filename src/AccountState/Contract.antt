-- ===== src/AccountState/Contract.antt =====
-- pkg/state/smart_contract_state.go: what an account keeps of its contract.
use meta_co_sign.Base.{
  ℕ, ◌-◌, ◌≡◌, refl, arith, zero, suc, Option, none, some, [], ◌∷◌, ◌++◌, if◌then◌else◌, length,
  take, replicate,
}
use meta_co_sign.Bytes.{Bytes, bytes_eq}
use meta_co_sign.AccountState.{Primitives}

-- `common.PublicKey`, 48 bytes
abbrev pub public_key_length : ℕ
public_key_length = 48

-- `copy` into 48 zero bytes
unfoldable pub pubkey_from_bytes : Bytes → Bytes
pubkey_from_bytes bs = take 48 bs ++ replicate (48 - length bs) 0

-- A Go map: a nil one reads as an empty one.
abbrev pub TrieDatabaseMap : Type 0
TrieDatabaseMap = Bytes → Option Bytes

module _ (P : Primitives) where
  open P use {Address, Hash}

  pub record SmartContractState : Type 0 where
    pub create_public_key : Bytes
    pub storage_address : Address
    pub code_hash : Hash
    pub storage_root : Hash
    pub map_full_db_hash : Hash
    pub simple_db_hash : Hash
    pub logs_hash : Hash
    pub trie_database_map : TrieDatabaseMap

  -- the message `pb.SmartContractState`
  pub record SmartContractMessage : Type 0 where
    pub creator_public_key : Bytes
    pub storage_address_bytes : Bytes
    pub code_hash_bytes : Bytes
    pub storage_root_bytes : Bytes
    pub logs_hash_bytes : Bytes
    pub map_full_db_hash_bytes : Bytes
    pub simple_db_hash_bytes : Bytes
    pub trie_database_entries : TrieDatabaseMap

module _ (P : Primitives) where
  open P use {
    Address, Hash, zero_address, zero_hash, address_bytes, bytes_to_address, hash_bytes,
    bytes_to_hash,
  }

  unfoldable pub new_smart_contract_state :
      Bytes → Address → Hash → Hash → Hash → SmartContractState P
  new_smart_contract_state key address code root logs = record {
    create_public_key = key;
    storage_address = address;
    code_hash = code;
    storage_root = root;
    map_full_db_hash = zero_hash;
    simple_db_hash = zero_hash;
    logs_hash = logs;
    trie_database_map = λ k. none;
  }

  unfoldable pub new_empty_smart_contract_state : SmartContractState P
  new_empty_smart_contract_state = record {
    create_public_key = replicate 48 0;
    storage_address = zero_address;
    code_hash = zero_hash;
    storage_root = zero_hash;
    map_full_db_hash = zero_hash;
    simple_db_hash = zero_hash;
    logs_hash = zero_hash;
    trie_database_map = λ k. none;
  }

  unfoldable pub contract_proto : SmartContractState P → SmartContractMessage P
  contract_proto ss = record {
    creator_public_key = ss.create_public_key;
    storage_address_bytes = address_bytes ss.storage_address;
    code_hash_bytes = hash_bytes ss.code_hash;
    storage_root_bytes = hash_bytes ss.storage_root;
    logs_hash_bytes = hash_bytes ss.logs_hash;
    map_full_db_hash_bytes = hash_bytes ss.map_full_db_hash;
    simple_db_hash_bytes = hash_bytes ss.simple_db_hash;
    trie_database_entries = ss.trie_database_map;
  }

  unfoldable pub contract_from_proto : SmartContractMessage P → SmartContractState P
  unfolding pubkey_from_bytes
  contract_from_proto m = record {
    create_public_key = pubkey_from_bytes m.creator_public_key;
    storage_address = bytes_to_address m.storage_address_bytes;
    code_hash = bytes_to_hash m.code_hash_bytes;
    storage_root = bytes_to_hash m.storage_root_bytes;
    logs_hash = bytes_to_hash m.logs_hash_bytes;
    map_full_db_hash = bytes_to_hash m.map_full_db_hash_bytes;
    simple_db_hash = bytes_to_hash m.simple_db_hash_bytes;
    trie_database_map = m.trie_database_entries;
  }

  -- The copy has a map of its own with the same entries.
  unfoldable pub contract_copy : SmartContractState P → SmartContractState P
  contract_copy ss = record {
    create_public_key = ss.create_public_key;
    storage_address = ss.storage_address;
    code_hash = ss.code_hash;
    storage_root = ss.storage_root;
    logs_hash = ss.logs_hash;
    map_full_db_hash = ss.map_full_db_hash;
    simple_db_hash = ss.simple_db_hash;
    trie_database_map = ss.trie_database_map;
  }

  unfoldable pub get_trie_database_map_value : Bytes → SmartContractState P → Option Bytes
  get_trie_database_map_value key ss = ss.trie_database_map key

  unfoldable pub set_trie_database_map_value :
      Bytes → Bytes → SmartContractState P → SmartContractState P
  set_trie_database_map_value key value ss = record ss {
    trie_database_map = λ k. if bytes_eq key k then some value else ss.trie_database_map k;
  }

  unfoldable pub delete_trie_database_map_value :
      Bytes → SmartContractState P → SmartContractState P
  delete_trie_database_map_value key ss = record ss {
    trie_database_map = λ k. if bytes_eq key k then none else ss.trie_database_map k;
  }

take-all : (k : ℕ) (bs : Bytes) → length bs ≡ k → take k bs ++ replicate (k - length bs) 0 ≡ bs
take-all zero [] h = refl
take-all zero (b ∷ bs) h = absurd (omega arith)
take-all (suc k) [] h = absurd (omega arith)
take-all (suc k) (b ∷ bs) h =
    let e : suc k - suc (length bs) ≡ k - length bs = omega arith in
    rw (e, take-all k bs (omega arith)) refl

pub contract_from_proto-contract_proto :
    (P : Primitives) (ss : SmartContractState P)
    → length ss.create_public_key ≡ 48
    → contract_from_proto P (contract_proto P ss) ≡ ss
unfolding contract_from_proto contract_proto pubkey_from_bytes
contract_from_proto-contract_proto P ss h =
    rw
      (
        take-all 48 ss.create_public_key h,
        P.bytes_to_address-address_bytes ss.storage_address,
        P.bytes_to_hash-hash_bytes ss.code_hash,
        P.bytes_to_hash-hash_bytes ss.storage_root,
        P.bytes_to_hash-hash_bytes ss.logs_hash,
        P.bytes_to_hash-hash_bytes ss.map_full_db_hash,
        P.bytes_to_hash-hash_bytes ss.simple_db_hash,
      )
      refl

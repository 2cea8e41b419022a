-- ===== src/AccountState/Account.antt =====
-- pkg/state/account_state.go: the state of an account and the methods that change it.
use meta_co_sign.AccountState.{Primitives}
use meta_co_sign.AccountState.Contract.{
  SmartContractState, SmartContractMessage, new_empty_smart_contract_state, contract_proto,
  contract_from_proto, contract_copy,
}
use meta_co_sign.AccountState.Integer.{ℤ, pos, ◌+ℤ◌, ◌-ℤ◌, greater, bytes, set_bytes}
use meta_co_sign.Base.{
  ℕ, ◌+◌, Option, none, some, [], ◌++◌, ◌==◌, ◌||◌, if◌then◌else◌, length, take, drop,
}
use meta_co_sign.Bytes.{Bytes}
use meta_co_sign.Bytes.Word.{u64, put_uint64, read_uint64}

-- the errors that the methods return
pub data AccountError : Type 0 where
  invalid_sub_pending_amount invalid_sub_balance_amount : AccountError
  invalid_public_key_bls_length public_key_bls_already_set invalid_account_type : AccountError

-- A method that returns an error leaves the state as it is.
pub data Change (A : Type 0) : Type 0 where
  changed : A → Change A
  refused : AccountError → Change A

abbrev pub map_option : {A B : Type 0} → (A → B) → Option A → Option B
map_option f none = none
map_option f (some a) = some (f a)

-- Go's `copy(dst[:], src)`, as `dst` is after it: only what fits is overwritten.
unfoldable pub copy_into : Bytes → Bytes → Bytes
copy_into dst src = take (length dst) src ++ drop (length src) dst

abbrev pub or_zero : Option ℕ → ℕ
or_zero none = 0
or_zero (some n) = n

abbrev pub account_type_regular_account : ℕ
account_type_regular_account = 0

abbrev pub account_type_read_write_strict : ℕ
account_type_read_write_strict = 1

module _ (P : Primitives) where
  open P use {Address, Hash}

  pub record AccountState : Type 0 where
    pub address : Address
    pub last_hash : Hash
    pub balance : ℤ
    pub pending_balance : ℤ
    pub device_key : Hash
    pub smart_contract_state : Option (SmartContractState P)
    pub nonce : ℕ
    pub public_key_bls : Bytes
    pub account_type : ℕ

  -- the message `pb.AccountState`
  pub record AccountMessage : Type 0 where
    pub address_field : Bytes
    pub last_hash_field : Bytes
    pub balance_field : Bytes
    pub pending_balance_field : Bytes
    pub device_key_field : Bytes
    pub smart_contract_state_field : Option (SmartContractMessage P)
    pub nonce_field : Bytes
    pub public_key_bls_field : Bytes
    pub account_type_field : ℕ

module _ (P : Primitives) where
  open P use {
    Address, Hash, zero_hash, address_bytes, bytes_to_address, hash_bytes, bytes_to_hash,
    keccak256_hash,
  }

  unfoldable pub new_account_state : Address → AccountState P
  new_account_state a = record {
    address = a;
    last_hash = zero_hash;
    balance = pos 0;
    pending_balance = pos 0;
    device_key = zero_hash;
    smart_contract_state = none;
    nonce = 0;
    public_key_bls = [];
    account_type = account_type_regular_account;
  }

  unfoldable pub proto : AccountState P → AccountMessage P
  unfolding put_uint64
  proto acc = record {
    address_field = address_bytes acc.address;
    last_hash_field = hash_bytes acc.last_hash;
    balance_field = bytes acc.balance;
    pending_balance_field = bytes acc.pending_balance;
    device_key_field = hash_bytes acc.device_key;
    smart_contract_state_field = map_option (contract_proto P) acc.smart_contract_state;
    nonce_field = put_uint64 acc.nonce;
    public_key_bls_field = acc.public_key_bls;
    account_type_field = acc.account_type;
  }

  unfoldable pub nonce_from : Bytes → ℕ
  nonce_from bs = if length bs == 8 then or_zero (read_uint64 bs) else 0

  -- A message with no contract leaves the one there was.
  unfoldable pub contract_from :
      Option (SmartContractMessage P)
      → Option (SmartContractState P)
      → Option (SmartContractState P)
  contract_from none before = before
  contract_from (some m) before = some (contract_from_proto P m)

  unfoldable pub from_proto : AccountMessage P → AccountState P → AccountState P
  unfolding nonce_from contract_from
  from_proto m acc = record {
    address = bytes_to_address m.address_field;
    last_hash = bytes_to_hash m.last_hash_field;
    balance = set_bytes m.balance_field;
    pending_balance = set_bytes m.pending_balance_field;
    device_key = bytes_to_hash m.device_key_field;
    smart_contract_state = contract_from m.smart_contract_state_field acc.smart_contract_state;
    nonce = nonce_from m.nonce_field;
    public_key_bls = m.public_key_bls_field;
    account_type = m.account_type_field;
  }

  -- The new state's key is a nil slice until `copy` writes into it.
  unfoldable pub copy : AccountState P → AccountState P
  unfolding copy_into
  copy acc = record {
    address = acc.address;
    last_hash = acc.last_hash;
    balance = acc.balance;
    pending_balance = acc.pending_balance;
    device_key = acc.device_key;
    smart_contract_state = map_option (contract_copy P) acc.smart_contract_state;
    nonce = acc.nonce;
    public_key_bls = copy_into [] acc.public_key_bls;
    account_type = acc.account_type;
  }

  unfoldable pub total_balance : AccountState P → ℤ
  total_balance acc = acc.balance +ℤ acc.pending_balance

  unfoldable pub set_balance : ℤ → AccountState P → AccountState P
  set_balance b acc = record acc { balance = b }

  unfoldable pub set_pending_balance : ℤ → AccountState P → AccountState P
  set_pending_balance b acc = record acc { pending_balance = b }

  unfoldable pub set_new_device_key : Hash → AccountState P → AccountState P
  set_new_device_key k acc = record acc { device_key = k }

  unfoldable pub set_last_hash : Hash → AccountState P → AccountState P
  set_last_hash h acc = record acc { last_hash = h }

  unfoldable pub add_pending_balance : ℤ → AccountState P → AccountState P
  add_pending_balance amount acc = record acc { pending_balance = acc.pending_balance +ℤ amount }

  unfoldable pub sub_pending_balance : ℤ → AccountState P → Change (AccountState P)
  sub_pending_balance amount acc =
      if greater amount acc.pending_balance
      then refused invalid_sub_pending_amount
      else changed (record acc { pending_balance = acc.pending_balance -ℤ amount })

  unfoldable pub sub_balance : ℤ → AccountState P → Change (AccountState P)
  sub_balance amount acc =
      if greater amount acc.balance
      then refused invalid_sub_balance_amount
      else changed (record acc { balance = acc.balance -ℤ amount })

  unfoldable pub sub_total_balance : ℤ → AccountState P → Change (AccountState P)
  sub_total_balance amount acc =
      let total = acc.pending_balance +ℤ acc.balance in
      if greater amount total
      then refused invalid_sub_balance_amount
      else changed (record acc { pending_balance = pos 0; balance = total -ℤ amount })

  unfoldable pub add_balance : ℤ → AccountState P → AccountState P
  add_balance amount acc = record acc { balance = acc.balance +ℤ amount }

  unfoldable pub set_smart_contract_state :
      Option (SmartContractState P) → AccountState P → AccountState P
  set_smart_contract_state c acc = record acc { smart_contract_state = c }

  unfoldable pub get_or_create : Option (SmartContractState P) → SmartContractState P
  get_or_create none = new_empty_smart_contract_state P
  get_or_create (some ss) = ss

  -- `GetOrCreateSmartContractState` gives the account its contract, which the caller then changes.
  unfoldable pub with_contract :
      (SmartContractState P → SmartContractState P) → AccountState P → AccountState P
  unfolding get_or_create
  with_contract change acc = record acc {
    smart_contract_state = some (change (get_or_create acc.smart_contract_state));
  }

  unfoldable pub set_code_hash : Hash → AccountState P → AccountState P
  unfolding with_contract
  set_code_hash h = with_contract (λ ss. record ss { code_hash = h })

  unfoldable pub set_storage_root : Hash → AccountState P → AccountState P
  unfolding with_contract
  set_storage_root h = with_contract (λ ss. record ss { storage_root = h })

  unfoldable pub set_storage_address : Address → AccountState P → AccountState P
  unfolding with_contract
  set_storage_address a = with_contract (λ ss. record ss { storage_address = a })

  unfoldable pub set_creator_public_key : Bytes → AccountState P → AccountState P
  unfolding with_contract
  set_creator_public_key k = with_contract (λ ss. record ss { create_public_key = k })

  unfoldable pub add_log_hash : Hash → AccountState P → AccountState P
  unfolding with_contract
  add_log_hash h =
      with_contract
        (λ ss. record ss { logs_hash = keccak256_hash (hash_bytes ss.logs_hash ++ hash_bytes h) })

  unfoldable pub set_nonce : ℕ → AccountState P → AccountState P
  set_nonce n acc = record acc { nonce = n }

  unfoldable pub plus_one_nonce : AccountState P → AccountState P
  plus_one_nonce acc = record acc { nonce = u64 (acc.nonce + 1) }

  unfoldable pub set_public_key_bls : Bytes → AccountState P → Change (AccountState P)
  set_public_key_bls key acc =
      if length key == 48
      then (if length acc.public_key_bls == 0
          then changed (record acc { public_key_bls = key })
          else refused public_key_bls_already_set)
      else refused invalid_public_key_bls_length

  unfoldable pub set_account_type : ℕ → AccountState P → Change (AccountState P)
  set_account_type t acc =
      if (t == account_type_read_write_strict) || (t == account_type_regular_account)
      then changed (record acc { account_type = t })
      else refused invalid_account_type

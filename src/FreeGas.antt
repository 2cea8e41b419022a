-- ===== src/FreeGas.antt =====
-- pkg/storage/contract_free_gas_storage.go: the lists of contracts that need no gas, of authorized
-- wallets, of paying wallets and of administrators, and the configuration values. Each operation
-- runs under the storage's one mutex; `now` is `time.Now().Unix()`.
pub mod Adder
pub mod Apart
pub mod Commands
pub mod Families
pub mod Entries
pub mod Queries
pub mod Refinement
use meta_co_sign.Base.{
  ℕ, zero, suc, ◌+◌, ◌-◌, ◌*◌, ◌%◌, Bool, true, false, ◌&&◌, Option, none, some, List, [], ◌∷◌,
  ◌++◌, ltb, leb, if◌then◌else◌, length, take, drop,
}
use meta_co_sign.Bytes.{Bytes, codes}
use meta_co_sign.Bytes.Word.{u64}
use meta_co_sign.Registry.{
  Family, pad_entity_id, generic_get_count, generic_get_reverse_index, generic_add, generic_remove,
  scan_range, paginate_range, need, write_batch, keep, is_some,
}
use meta_co_sign.Result.{
  Result, ok, fail, panic, read_error, decode_error, already_exists, entry_not_found, ◌>>=◌,
  or_fail,
}
use meta_co_sign.Store.{Read, found, not_found, read_failed, put, LevelDb, Addresses, Codec}
pub use meta_co_sign.FreeGas.Entries.{
  ContractFreeGasData, AuthorizedWalletData, AdminData, Messages, contracts, wallets,
  help_pay_wallets, admins,
}

-- `a < b` on `int`s given by their bits
abbrev pub int_ltb : ℕ → ℕ → Bool
int_ltb a b = ltb (u64 (a + 9223372036854775808)) (u64 (b + 9223372036854775808))

-- `xs[lo:hi]`; a negative bound is above every length as an unsigned number
unfoldable pub slice {ℓ} : {A : Type ℓ} → ℕ → ℕ → List A → Result (List A)
slice lo hi xs = if leb hi (length xs) && leb lo hi then ok (take (hi - lo) (drop lo xs)) else panic

-- `matched[start:end]`, with `start` and `end` computed on `int`s
unfoldable pub adder_page : ℕ → ℕ → List ContractFreeGasData → Result (List ContractFreeGasData × ℕ)
unfolding slice
adder_page page page_size matched =
    let total = length matched in
    let start = u64 (page * page_size) in
    let end = u64 (start + page_size) in
    if int_ltb start total
    then (do
      items ← slice start (if int_ltb total end then total else end) matched
      ok (items, total))
    else ok ([], total)

module _ (L : LevelDb) where
  open L use {Db, get}

  unfoldable pub save_app_config : Bytes → Bytes → Db → Result Db
  save_app_config key value db = write_batch L (put (codes "app_cfg:" ++ key) value ∷ []) db

  unfoldable pub get_app_config : Bytes → Db → Result Bytes
  get_app_config key db = need (get db (codes "app_cfg:" ++ key))

module _ (L : LevelDb) (E : Addresses) (M : Messages) where
  open L use {Db, get}
  open E use {Address, address_eq, hex, to_bytes, bytes_to_address}
  open M use {contract, wallet, admin}

  -- Contracts that need no gas
  unfoldable pub contract_entry : ℕ → Address → Address → ContractFreeGasData
  contract_entry now address added_by = record {
    contract_address = to_bytes address;
    added_at = now;
    added_by = to_bytes added_by;
  }

  unfoldable pub add_contract : ℕ → Address → Address → Db → Result Db
  add_contract now address added_by db = do
    index ← generic_get_reverse_index L E contracts.index_prefix address db
    if is_some index
        then fail already_exists
        else generic_add L contract contracts (hex address) (contract_entry now address added_by) db

  unfoldable pub last_contract : Bytes → Option Address
  last_contract b = elim (contract.unmarshal b) [
    | none ↦ none
    | some d ↦ some (bytes_to_address d.contract_address)
  ]

  unfoldable pub remove_contract : Address → Db → Result Db
  remove_contract address db = generic_remove L E contracts address last_contract db

  unfoldable pub has_contract : Address → Db → Result Bool
  has_contract address db = do
    index ← generic_get_reverse_index L E contracts.index_prefix address db
    ok (is_some index)

  unfoldable pub get_contracts : ℕ → ℕ → Db → Result (List ContractFreeGasData × ℕ)
  get_contracts page page_size db = do
    count ← generic_get_count L contracts.count_key db
    scan_range L contract contracts.data_prefix count (paginate_range page page_size count) db

  unfoldable pub get_contract : Address → Db → Result ContractFreeGasData
  get_contract address db = do
    index ← generic_get_reverse_index L E contracts.index_prefix address db
    padded_id ← or_fail entry_not_found index
    value ← need (get db (contracts.data_prefix ++ padded_id))
    or_fail decode_error (contract.unmarshal value)

  unfoldable pub get_total_count : Db → Result ℕ
  get_total_count db = generic_get_count L contracts.count_key db

  -- one round of the loop of `GetContractsByAdder`
  pub match_entry : Address → Read → Result (Option ContractFreeGasData)
  match_entry adder (found v) = do
    d ← or_fail decode_error (contract.unmarshal v)
    if address_eq (bytes_to_address d.added_by) adder then ok (some d) else ok none
  match_entry adder not_found = ok none
  match_entry adder read_failed = fail read_error

  -- The loop from `id` on, over the identifiers left up to the count.
  unfoldable pub match_from : ℕ → Address → ℕ → Db → Result (List ContractFreeGasData)
  unfolding match_entry
  match_from zero adder id db = ok []
  match_from (suc rounds) adder id db =
      match_entry adder (get db (contracts.data_prefix ++ pad_entity_id id)) >>= λ item.
      match_from rounds adder (id + 1) db >>= λ rest. ok (keep item rest)

  unfoldable pub get_contracts_by_adder :
      Address → ℕ → ℕ → Db → Result (List ContractFreeGasData × ℕ)
  get_contracts_by_adder adder page page_size db = do
    count ← generic_get_count L contracts.count_key db
    matched ← match_from count adder 1 db
    adder_page page page_size matched

  -- Authorized wallets
  unfoldable pub wallet_entry : ℕ → Address → Address → AuthorizedWalletData
  wallet_entry now address added_by = record {
    wallet_address = to_bytes address;
    added_at = now;
    added_by = to_bytes added_by;
  }

  unfoldable pub add_wallet : ℕ → Address → Address → Db → Result Db
  add_wallet now address added_by db = do
    index ← generic_get_reverse_index L E wallets.index_prefix address db
    if is_some index
        then fail already_exists
        else generic_add L wallet wallets (hex address) (wallet_entry now address added_by) db

  unfoldable pub last_wallet : Bytes → Option Address
  last_wallet b = elim (wallet.unmarshal b) [
    | none ↦ none
    | some d ↦ some (bytes_to_address d.wallet_address)
  ]

  unfoldable pub remove_wallet : Address → Db → Result Db
  remove_wallet address db = generic_remove L E wallets address last_wallet db

  unfoldable pub is_authorized : Address → Db → Result Bool
  is_authorized address db = do
    index ← generic_get_reverse_index L E wallets.index_prefix address db
    ok (is_some index)

  unfoldable pub get_wallets : ℕ → ℕ → Db → Result (List AuthorizedWalletData × ℕ)
  get_wallets page page_size db = do
    count ← generic_get_count L wallets.count_key db
    scan_range L wallet wallets.data_prefix count (paginate_range page page_size count) db

  -- Wallets that pay for others
  unfoldable pub help_pay_wallet_entry : ℕ → Address → Address → AuthorizedWalletData
  help_pay_wallet_entry now address added_by = record {
    wallet_address = to_bytes address;
    added_at = now;
    added_by = to_bytes added_by;
  }

  unfoldable pub add_help_pay_wallet : ℕ → Address → Address → Db → Result Db
  add_help_pay_wallet now address added_by db = do
    index ← generic_get_reverse_index L E help_pay_wallets.index_prefix address db
    if is_some index
        then fail already_exists
        else generic_add L wallet help_pay_wallets (hex address)
            (help_pay_wallet_entry now address added_by) db

  unfoldable pub last_help_pay_wallet : Bytes → Option Address
  last_help_pay_wallet b = elim (wallet.unmarshal b) [
    | none ↦ none
    | some d ↦ some (bytes_to_address d.wallet_address)
  ]

  unfoldable pub remove_help_pay_wallet : Address → Db → Result Db
  remove_help_pay_wallet address db =
      generic_remove L E help_pay_wallets address last_help_pay_wallet db

  unfoldable pub is_help_pay_wallet : Address → Db → Result Bool
  is_help_pay_wallet address db = do
    index ← generic_get_reverse_index L E help_pay_wallets.index_prefix address db
    ok (is_some index)

  unfoldable pub get_help_pay_wallets : ℕ → ℕ → Db → Result (List AuthorizedWalletData × ℕ)
  get_help_pay_wallets page page_size db = do
    count ← generic_get_count L help_pay_wallets.count_key db
    scan_range L wallet help_pay_wallets.data_prefix count (paginate_range page page_size count) db

  -- Administrators
  unfoldable pub admin_entry : ℕ → Address → Address → AdminData
  admin_entry now address added_by = record {
    admin_address = to_bytes address;
    added_at = now;
    added_by = to_bytes added_by;
  }

  unfoldable pub add_admin : ℕ → Address → Address → Db → Result Db
  add_admin now address added_by db = do
    index ← generic_get_reverse_index L E admins.index_prefix address db
    if is_some index
        then fail already_exists
        else generic_add L admin admins (hex address) (admin_entry now address added_by) db

  unfoldable pub last_admin : Bytes → Option Address
  last_admin b = elim (admin.unmarshal b) [
    | none ↦ none
    | some d ↦ some (bytes_to_address d.admin_address)
  ]

  unfoldable pub remove_admin : Address → Db → Result Db
  remove_admin address db = generic_remove L E admins address last_admin db

  unfoldable pub is_admin : Address → Db → Result Bool
  is_admin address db = do
    index ← generic_get_reverse_index L E admins.index_prefix address db
    ok (is_some index)

  unfoldable pub get_admins : ℕ → ℕ → Db → Result (List AdminData × ℕ)
  get_admins page page_size db = do
    count ← generic_get_count L admins.count_key db
    scan_range L admin admins.data_prefix count (paginate_range page page_size count) db

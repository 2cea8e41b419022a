-- ===== src/FreeGas/Commands.antt =====
-- The calls on the storage that change a list, and their specification on four lists.
use meta_co_sign.Base.{ℕ, suc, ◌<◌, ◌≡◌, some, List, length}
use meta_co_sign.Bytes.{Bytes}
use meta_co_sign.Bytes.Word.{two64}
use meta_co_sign.FreeGas
use meta_co_sign.FreeGas.{
  ContractFreeGasData, AuthorizedWalletData, AdminData, Messages, contracts, wallets,
  help_pay_wallets, admins, contract_entry, wallet_entry, help_pay_wallet_entry, admin_entry,
}
use meta_co_sign.FreeGas.Families.{contract_of, wallet_of, admin_of}
use meta_co_sign.Registry.Invariant.{Holds}
use meta_co_sign.Registry.Spec.{spec_add, spec_remove}
use meta_co_sign.Result.{Result, ok, ◌>>=◌}
use meta_co_sign.Store.{LevelDb, Addresses}

-- the four lists
pub record Lists : Type 0 where
  pub contracts_list : List ContractFreeGasData
  pub wallets_list : List AuthorizedWalletData
  pub help_pay_wallets_list : List AuthorizedWalletData
  pub admins_list : List AdminData

-- the calls that change one
pub data Command (Address : Type 0) : Type 0 where
  add_contract : ℕ → Address → Address → Command Address
  remove_contract : Address → Command Address
  add_wallet : ℕ → Address → Address → Command Address
  remove_wallet : Address → Command Address
  add_help_pay_wallet : ℕ → Address → Address → Command Address
  remove_help_pay_wallet : Address → Command Address
  add_admin : ℕ → Address → Address → Command Address
  remove_admin : Address → Command Address

module _ (L : LevelDb) (E : Addresses) (M : Messages) where
  open E use {Address, bytes_to_address-to_bytes}

  unfoldable pub execute : Command Address → L.Db → Result L.Db
  execute (Command.add_contract now address added_by) db =
      FreeGas.add_contract L E M now address added_by db
  execute (Command.remove_contract address) db = FreeGas.remove_contract L E M address db
  execute (Command.add_wallet now address added_by) db =
      FreeGas.add_wallet L E M now address added_by db
  execute (Command.remove_wallet address) db = FreeGas.remove_wallet L E M address db
  execute (Command.add_help_pay_wallet now address added_by) db =
      FreeGas.add_help_pay_wallet L E M now address added_by db
  execute (Command.remove_help_pay_wallet address) db =
      FreeGas.remove_help_pay_wallet L E M address db
  execute (Command.add_admin now address added_by) db =
      FreeGas.add_admin L E M now address added_by db
  execute (Command.remove_admin address) db = FreeGas.remove_admin L E M address db

  unfoldable pub spec : Command Address → Lists → Result Lists
  spec (Command.add_contract now address added_by) S = do
    ys ← spec_add E (contract_of E M) (contract_entry L E M now address added_by) S.contracts_list
    ok (record S { contracts_list = ys })
  spec (Command.remove_contract address) S = do
    ys ← spec_remove E (contract_of E M) address S.contracts_list
    ok (record S { contracts_list = ys })
  spec (Command.add_wallet now address added_by) S = do
    ys ← spec_add E (wallet_of E M) (wallet_entry L E M now address added_by) S.wallets_list
    ok (record S { wallets_list = ys })
  spec (Command.remove_wallet address) S = do
    ys ← spec_remove E (wallet_of E M) address S.wallets_list
    ok (record S { wallets_list = ys })
  spec (Command.add_help_pay_wallet now address added_by) S = do
    ys ←
        spec_add E (wallet_of E M) (help_pay_wallet_entry L E M now address added_by)
          S.help_pay_wallets_list
    ok (record S { help_pay_wallets_list = ys })
  spec (Command.remove_help_pay_wallet address) S = do
    ys ← spec_remove E (wallet_of E M) address S.help_pay_wallets_list
    ok (record S { help_pay_wallets_list = ys })
  spec (Command.add_admin now address added_by) S = do
    ys ← spec_add E (admin_of E M) (admin_entry L E M now address added_by) S.admins_list
    ok (record S { admins_list = ys })
  spec (Command.remove_admin address) S = do
    ys ← spec_remove E (admin_of E M) address S.admins_list
    ok (record S { admins_list = ys })

  -- The database holds the four lists.
  pub record Represents (db : L.Db) (S : Lists) : Type 0 where
    pub contracts_held : Holds L E M.contract contracts (contract_of E M) db S.contracts_list
    pub wallets_held : Holds L E M.wallet wallets (wallet_of E M) db S.wallets_list
    pub help_pay_wallets_held :
        Holds L E M.wallet help_pay_wallets (wallet_of E M) db S.help_pay_wallets_list
    pub admins_held : Holds L E M.admin admins (admin_of E M) db S.admins_list

-- Every list has room for one more entry under a `uint64` identifier.
pub record HasRoom (S : Lists) : Type 0 where
  pub contracts_room : suc (length S.contracts_list) < two64
  pub wallets_room : suc (length S.wallets_list) < two64
  pub help_pay_wallets_room : suc (length S.help_pay_wallets_list) < two64
  pub admins_room : suc (length S.admins_list) < two64

-- `proto.Marshal` does not fail on the three messages.
pub record Encodes (M : Messages) : Type 0 where
  pub contract_encodes : (x : ContractFreeGasData) → (b : Bytes) × (M.contract.marshal x ≡ some b)
  pub wallet_encodes : (x : AuthorizedWalletData) → (b : Bytes) × (M.wallet.marshal x ≡ some b)
  pub admin_encodes : (x : AdminData) → (b : Bytes) × (M.admin.marshal x ≡ some b)

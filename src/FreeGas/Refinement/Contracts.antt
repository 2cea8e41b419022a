-- ===== src/FreeGas/Refinement/Contracts.antt =====
-- The commands on the contracts that need no gas refine their specification.
use meta_co_sign.Base.{ℕ, List}
use meta_co_sign.FreeGas.{
  ContractFreeGasData, Messages, contracts, wallets, help_pay_wallets, admins, contract_entry,
  last_contract, add_contract, remove_contract,
}
use meta_co_sign.FreeGas.Apart.{
  contracts-wallets-IsApart, contracts-help_pay_wallets-IsApart, contracts-admins-IsApart,
}
use meta_co_sign.FreeGas.Commands.{Command, Lists, Represents, HasRoom, Encodes, spec}
use meta_co_sign.FreeGas.Families.{contract_of, wallet_of, admin_of, contracts-IsFamily}
use meta_co_sign.Registry.Frame.{Holds-unchanged}
use meta_co_sign.Registry.Refine.{
  Outcome, Outcome-map, Follows, checked_add, checked_add-Outcome, generic_remove-Outcome,
}
use meta_co_sign.Store.{LevelDb, Addresses}

module _ (L : LevelDb) (E : Addresses) (M : Messages) (encodes : Encodes M) (db : L.Db) (S : Lists)
    (held : Represents L E M db S) (room : HasRoom S) where
  open E use {Address, bytes_to_address-to_bytes}

  contracts-Represents :
      (after : L.Db) (ys : List ContractFreeGasData)
      → Follows L E M.contract contracts
          (contract_of E M)
          (last_contract L E M)
          (contracts-IsFamily L E M)
          db
          S.contracts_list
          held.contracts_held
          after
          ys
      → Represents L E M after (record S { contracts_list = ys })
  contracts-Represents after ys (now_held, same) = record {
    contracts_held = now_held;
    wallets_held =
        Holds-unchanged L E M.wallet contracts wallets (wallet_of E M) db after S.wallets_list
          contracts-wallets-IsApart same held.wallets_held;
    help_pay_wallets_held =
        Holds-unchanged L E M.wallet contracts help_pay_wallets (wallet_of E M) db after
          S.help_pay_wallets_list contracts-help_pay_wallets-IsApart same
          held.help_pay_wallets_held;
    admins_held =
        Holds-unchanged L E M.admin contracts admins (admin_of E M) db after S.admins_list
          contracts-admins-IsApart same held.admins_held;
  }

  pub add_contract-Outcome :
      (now : ℕ) (address added_by : Address)
      → Outcome
          (Represents L E M)
          (add_contract L E M now address added_by db)
          (spec L E M (Command.add_contract now address added_by) S)
  unfolding add_contract spec checked_add contract_entry
  add_contract-Outcome now address added_by =
      let x = contract_entry L E M now address added_by in
      let (b, encoded) = encodes.contract_encodes x in
      let step =
        checked_add-Outcome L E M.contract contracts (contract_of E M) (last_contract L E M)
          (contracts-IsFamily L E M) db S.contracts_list held.contracts_held x b room.contracts_room
          encoded in
      Outcome-map _ (Represents L E M) (λ ys. record S { contracts_list = ys }) _ _
        contracts-Represents (rw bytes_to_address-to_bytes at step)

  pub remove_contract-Outcome :
      (address : Address)
      → Outcome
          (Represents L E M)
          (remove_contract L E M address db)
          (spec L E M (Command.remove_contract address) S)
  unfolding remove_contract spec
  remove_contract-Outcome address =
      Outcome-map _ (Represents L E M) (λ ys. record S { contracts_list = ys }) _ _
        contracts-Represents
        (generic_remove-Outcome L E M.contract contracts (contract_of E M) (last_contract L E M)
          (contracts-IsFamily L E M) db S.contracts_list held.contracts_held address)

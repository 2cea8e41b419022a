-- ===== src/FreeGas/Refinement/HelpPayWallets.antt =====
-- The commands on the paying wallets refine their specification.
use meta_co_sign.Base.{ℕ, List}
use meta_co_sign.FreeGas.{
  AuthorizedWalletData, Messages, contracts, wallets, help_pay_wallets, admins,
  help_pay_wallet_entry, last_help_pay_wallet, add_help_pay_wallet, remove_help_pay_wallet,
}
use meta_co_sign.FreeGas.Apart.{
  help_pay_wallets-contracts-IsApart, help_pay_wallets-wallets-IsApart,
  help_pay_wallets-admins-IsApart,
}
use meta_co_sign.FreeGas.Commands.{Command, Lists, Represents, HasRoom, Encodes, spec}
use meta_co_sign.FreeGas.Families.{contract_of, wallet_of, admin_of, help_pay_wallets-IsFamily}
use meta_co_sign.Registry.Frame.{Holds-unchanged}
use meta_co_sign.Registry.Refine.{
  Outcome, Outcome-map, Follows, checked_add, checked_add-Outcome, generic_remove-Outcome,
}
use meta_co_sign.Store.{LevelDb, Addresses}

module _ (L : LevelDb) (E : Addresses) (M : Messages) (encodes : Encodes M) (db : L.Db) (S : Lists)
    (held : Represents L E M db S) (room : HasRoom S) where
  open E use {Address, bytes_to_address-to_bytes}

  help_pay_wallets-Represents :
      (after : L.Db) (ys : List AuthorizedWalletData)
      → Follows L E M.wallet help_pay_wallets
          (wallet_of E M)
          (last_help_pay_wallet L E M)
          (help_pay_wallets-IsFamily L E M)
          db
          S.help_pay_wallets_list
          held.help_pay_wallets_held
          after
          ys
      → Represents L E M after (record S { help_pay_wallets_list = ys })
  help_pay_wallets-Represents after ys (now_held, same) = record {
    help_pay_wallets_held = now_held;
    contracts_held =
        Holds-unchanged L E M.contract help_pay_wallets contracts (contract_of E M) db after
          S.contracts_list help_pay_wallets-contracts-IsApart same held.contracts_held;
    wallets_held =
        Holds-unchanged L E M.wallet help_pay_wallets wallets (wallet_of E M) db after
          S.wallets_list help_pay_wallets-wallets-IsApart same held.wallets_held;
    admins_held =
        Holds-unchanged L E M.admin help_pay_wallets admins (admin_of E M) db after S.admins_list
          help_pay_wallets-admins-IsApart same held.admins_held;
  }

  pub add_help_pay_wallet-Outcome :
      (now : ℕ) (address added_by : Address)
      → Outcome
          (Represents L E M)
          (add_help_pay_wallet L E M now address added_by db)
          (spec L E M (Command.add_help_pay_wallet now address added_by) S)
  unfolding add_help_pay_wallet spec checked_add help_pay_wallet_entry
  add_help_pay_wallet-Outcome now address added_by =
      let x = help_pay_wallet_entry L E M now address added_by in
      let (b, encoded) = encodes.wallet_encodes x in
      let step =
        checked_add-Outcome L E M.wallet help_pay_wallets (wallet_of E M)
          (last_help_pay_wallet L E M) (help_pay_wallets-IsFamily L E M) db S.help_pay_wallets_list
          held.help_pay_wallets_held x b room.help_pay_wallets_room encoded in
      Outcome-map _ (Represents L E M) (λ ys. record S { help_pay_wallets_list = ys }) _ _
        help_pay_wallets-Represents (rw bytes_to_address-to_bytes at step)

  pub remove_help_pay_wallet-Outcome :
      (address : Address)
      → Outcome
          (Represents L E M)
          (remove_help_pay_wallet L E M address db)
          (spec L E M (Command.remove_help_pay_wallet address) S)
  unfolding remove_help_pay_wallet spec
  remove_help_pay_wallet-Outcome address =
      Outcome-map _ (Represents L E M) (λ ys. record S { help_pay_wallets_list = ys }) _ _
        help_pay_wallets-Represents
        (generic_remove-Outcome L E M.wallet help_pay_wallets (wallet_of E M)
          (last_help_pay_wallet L E M) (help_pay_wallets-IsFamily L E M) db S.help_pay_wallets_list
          held.help_pay_wallets_held address)

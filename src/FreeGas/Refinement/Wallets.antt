-- ===== src/FreeGas/Refinement/Wallets.antt =====
-- The commands on the authorized wallets refine their specification.
use meta_co_sign.Base.{ℕ, List}
use meta_co_sign.FreeGas.{
  AuthorizedWalletData, Messages, contracts, wallets, help_pay_wallets, admins, wallet_entry,
  last_wallet, add_wallet, remove_wallet,
}
use meta_co_sign.FreeGas.Apart.{
  wallets-contracts-IsApart, wallets-help_pay_wallets-IsApart, wallets-admins-IsApart,
}
use meta_co_sign.FreeGas.Commands.{Command, Lists, Represents, HasRoom, Encodes, spec}
use meta_co_sign.FreeGas.Families.{contract_of, wallet_of, admin_of, wallets-IsFamily}
use meta_co_sign.Registry.Frame.{Holds-unchanged}
use meta_co_sign.Registry.Refine.{
  Outcome, Outcome-map, Follows, checked_add, checked_add-Outcome, generic_remove-Outcome,
}
use meta_co_sign.Store.{LevelDb, Addresses}

module _ (L : LevelDb) (E : Addresses) (M : Messages) (encodes : Encodes M) (db : L.Db) (S : Lists)
    (held : Represents L E M db S) (room : HasRoom S) where
  open E use {Address, bytes_to_address-to_bytes}

  wallets-Represents :
      (after : L.Db) (ys : List AuthorizedWalletData)
      → Follows L E M.wallet wallets
          (wallet_of E M)
          (last_wallet L E M)
          (wallets-IsFamily L E M)
          db
          S.wallets_list
          held.wallets_held
          after
          ys
      → Represents L E M after (record S { wallets_list = ys })
  wallets-Represents after ys (now_held, same) = record {
    wallets_held = now_held;
    contracts_held =
        Holds-unchanged L E M.contract wallets contracts (contract_of E M) db after S.contracts_list
          wallets-contracts-IsApart same held.contracts_held;
    help_pay_wallets_held =
        Holds-unchanged L E M.wallet wallets help_pay_wallets (wallet_of E M) db after
          S.help_pay_wallets_list wallets-help_pay_wallets-IsApart same held.help_pay_wallets_held;
    admins_held =
        Holds-unchanged L E M.admin wallets admins (admin_of E M) db after S.admins_list
          wallets-admins-IsApart same held.admins_held;
  }

  pub add_wallet-Outcome :
      (now : ℕ) (address added_by : Address)
      → Outcome
          (Represents L E M)
          (add_wallet L E M now address added_by db)
          (spec L E M (Command.add_wallet now address added_by) S)
  unfolding add_wallet spec checked_add wallet_entry
  add_wallet-Outcome now address added_by =
      let x = wallet_entry L E M now address added_by in
      let (b, encoded) = encodes.wallet_encodes x in
      let step =
        checked_add-Outcome L E M.wallet wallets (wallet_of E M) (last_wallet L E M)
          (wallets-IsFamily L E M) db S.wallets_list held.wallets_held x b room.wallets_room
          encoded in
      Outcome-map _ (Represents L E M) (λ ys. record S { wallets_list = ys }) _ _ wallets-Represents
        (rw bytes_to_address-to_bytes at step)

  pub remove_wallet-Outcome :
      (address : Address)
      → Outcome
          (Represents L E M)
          (remove_wallet L E M address db)
          (spec L E M (Command.remove_wallet address) S)
  unfolding remove_wallet spec
  remove_wallet-Outcome address =
      Outcome-map _ (Represents L E M) (λ ys. record S { wallets_list = ys }) _ _ wallets-Represents
        (generic_remove-Outcome L E M.wallet wallets (wallet_of E M) (last_wallet L E M)
          (wallets-IsFamily L E M) db S.wallets_list held.wallets_held address)

-- ===== src/FreeGas/Refinement/Admins.antt =====
-- The commands on the administrators refine their specification.
use meta_co_sign.Base.{ℕ, List}
use meta_co_sign.FreeGas.{
  AdminData, Messages, contracts, wallets, help_pay_wallets, admins, admin_entry, last_admin,
  add_admin, remove_admin,
}
use meta_co_sign.FreeGas.Apart.{
  admins-contracts-IsApart, admins-wallets-IsApart, admins-help_pay_wallets-IsApart,
}
use meta_co_sign.FreeGas.Commands.{Command, Lists, Represents, HasRoom, Encodes, spec}
use meta_co_sign.FreeGas.Families.{contract_of, wallet_of, admin_of, admins-IsFamily}
use meta_co_sign.Registry.Frame.{Holds-unchanged}
use meta_co_sign.Registry.Refine.{
  Outcome, Outcome-map, Follows, checked_add, checked_add-Outcome, generic_remove-Outcome,
}
use meta_co_sign.Store.{LevelDb, Addresses}

module _ (L : LevelDb) (E : Addresses) (M : Messages) (encodes : Encodes M) (db : L.Db) (S : Lists)
    (held : Represents L E M db S) (room : HasRoom S) where
  open E use {Address, bytes_to_address-to_bytes}

  admins-Represents :
      (after : L.Db) (ys : List AdminData)
      → Follows L E M.admin admins
          (admin_of E M)
          (last_admin L E M)
          (admins-IsFamily L E M)
          db
          S.admins_list
          held.admins_held
          after
          ys
      → Represents L E M after (record S { admins_list = ys })
  admins-Represents after ys (now_held, same) = record {
    admins_held = now_held;
    contracts_held =
        Holds-unchanged L E M.contract admins contracts (contract_of E M) db after S.contracts_list
          admins-contracts-IsApart same held.contracts_held;
    wallets_held =
        Holds-unchanged L E M.wallet admins wallets (wallet_of E M) db after S.wallets_list
          admins-wallets-IsApart same held.wallets_held;
    help_pay_wallets_held =
        Holds-unchanged L E M.wallet admins help_pay_wallets (wallet_of E M) db after
          S.help_pay_wallets_list admins-help_pay_wallets-IsApart same held.help_pay_wallets_held;
  }

  pub add_admin-Outcome :
      (now : ℕ) (address added_by : Address)
      → Outcome
          (Represents L E M)
          (add_admin L E M now address added_by db)
          (spec L E M (Command.add_admin now address added_by) S)
  unfolding add_admin spec checked_add admin_entry
  add_admin-Outcome now address added_by =
      let x = admin_entry L E M now address added_by in
      let (b, encoded) = encodes.admin_encodes x in
      let step =
        checked_add-Outcome L E M.admin admins (admin_of E M) (last_admin L E M)
          (admins-IsFamily L E M) db S.admins_list held.admins_held x b room.admins_room encoded in
      Outcome-map _ (Represents L E M) (λ ys. record S { admins_list = ys }) _ _ admins-Represents
        (rw bytes_to_address-to_bytes at step)

  pub remove_admin-Outcome :
      (address : Address)
      → Outcome
          (Represents L E M)
          (remove_admin L E M address db)
          (spec L E M (Command.remove_admin address) S)
  unfolding remove_admin spec
  remove_admin-Outcome address =
      Outcome-map _ (Represents L E M) (λ ys. record S { admins_list = ys }) _ _ admins-Represents
        (generic_remove-Outcome L E M.admin admins (admin_of E M) (last_admin L E M)
          (admins-IsFamily L E M) db S.admins_list held.admins_held address)

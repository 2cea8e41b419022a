-- ===== src/FreeGas/Refinement.antt =====
-- The storage refines four lists: each command does to the database what its specification does to
-- its list, leaves the other lists alone, and fails with the same error.
mod Contracts
mod Wallets
mod HelpPayWallets
mod Admins
use meta_co_sign.FreeGas.{Messages}
use meta_co_sign.FreeGas.Commands.{Command, Lists, Represents, HasRoom, Encodes, execute, spec}
use Contracts.{add_contract-Outcome, remove_contract-Outcome}
use Wallets.{add_wallet-Outcome, remove_wallet-Outcome}
use HelpPayWallets.{add_help_pay_wallet-Outcome, remove_help_pay_wallet-Outcome}
use Admins.{add_admin-Outcome, remove_admin-Outcome}
use meta_co_sign.Registry.Refine.{Outcome}
use meta_co_sign.Store.{LevelDb, Addresses}

module _ (L : LevelDb) (E : Addresses) (M : Messages) (encodes : Encodes M) (db : L.Db) (S : Lists)
    (held : Represents L E M db S) (room : HasRoom S) where
  open E use {Address}

  -- Over a database that holds four lists with room, each of the eight commands fails exactly with
  -- the error of its specification, or fails to write, or gives a database that holds the lists of
  -- the specification.
  pub execute-Outcome :
      (c : Command Address) → Outcome (Represents L E M) (execute L E M c db) (spec L E M c S)
  unfolding execute
  execute-Outcome (Command.add_contract now address added_by) =
      add_contract-Outcome L E M encodes db S held room now address added_by
  execute-Outcome (Command.remove_contract address) =
      remove_contract-Outcome L E M encodes db S held room address
  execute-Outcome (Command.add_wallet now address added_by) =
      add_wallet-Outcome L E M encodes db S held room now address added_by
  execute-Outcome (Command.remove_wallet address) =
      remove_wallet-Outcome L E M encodes db S held room address
  execute-Outcome (Command.add_help_pay_wallet now address added_by) =
      add_help_pay_wallet-Outcome L E M encodes db S held room now address added_by
  execute-Outcome (Command.remove_help_pay_wallet address) =
      remove_help_pay_wallet-Outcome L E M encodes db S held room address
  execute-Outcome (Command.add_admin now address added_by) =
      add_admin-Outcome L E M encodes db S held room now address added_by
  execute-Outcome (Command.remove_admin address) =
      remove_admin-Outcome L E M encodes db S held room address

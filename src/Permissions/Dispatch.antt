-- ===== src/Permissions/Dispatch.antt =====
-- `HandleAccountTransaction` of pkg/account_handler/account_handler.go, for the six calls that change
-- the authorized wallets, the paying wallets and the administrators.
use meta_co_sign.Base.{ℕ, List, [], ◌∷◌}
use meta_co_sign.FreeGas.{Messages}
use meta_co_sign.Permissions.{
  settle, handle_add_authorized_wallet, handle_remove_authorized_wallet, handle_add_admin,
  handle_remove_admin,
}
use meta_co_sign.Permissions.HelpPay.{
  PrivateKeys, Config, WalletArgument, Stores, handle_add_help_pay_wallet,
  handle_remove_help_pay_wallet,
}
use meta_co_sign.Store.{LevelDb, Addresses}

-- the six calls, by their arguments
pub data Call (Address : Type 0) : Type 0 where
  add_authorized_wallet remove_authorized_wallet add_admin_call remove_admin_call :
      Address → Call Address
  add_help_pay_call : WalletArgument Address → Call Address
  remove_help_pay_call : Address → Call Address

pub record Transaction (Address : Type 0) : Type 0 where
  pub from : Address
  pub now : ℕ
  pub call : Call Address

module _ (L : LevelDb) (E : Addresses) (M : Messages) (K : PrivateKeys E.Address)
    (cfg : Config E.Address) where
  open E use {Address}

  unfoldable pub dispatch : Call Address → ℕ → Address → Stores L.Db K.Keys → Stores L.Db K.Keys
  dispatch (add_authorized_wallet a) now from s = record s {
    db = settle s.db (handle_add_authorized_wallet L E M cfg.owner now from a s.db);
  }
  dispatch (remove_authorized_wallet a) now from s = record s {
    db = settle s.db (handle_remove_authorized_wallet L E M cfg.owner from a s.db);
  }
  dispatch (add_help_pay_call arg) now from s =
      (handle_add_help_pay_wallet L E M K cfg now from arg s).1
  dispatch (remove_help_pay_call a) now from s =
      (handle_remove_help_pay_wallet L E M K cfg now from a s).1
  dispatch (add_admin_call a) now from s = record s {
    db = settle s.db (handle_add_admin L E M cfg.owner now from a s.db);
  }
  dispatch (remove_admin_call a) now from s = record s {
    db = settle s.db (handle_remove_admin L E M cfg.owner from a s.db);
  }

  unfoldable pub handle_transaction : Transaction Address → Stores L.Db K.Keys → Stores L.Db K.Keys
  unfolding dispatch
  handle_transaction tx s = dispatch tx.call tx.now tx.from s

  -- after transactions in order
  unfoldable pub run : List (Transaction Address) → Stores L.Db K.Keys → Stores L.Db K.Keys
  unfolding handle_transaction
  run [] s = s
  run (tx ∷ txs) s = run txs (handle_transaction tx s)

-- ===== src/Permissions.antt =====
-- The handlers of pkg/account_handler/account_handler.go that change the authorized wallets and the
-- administrators, from the unpacked arguments on. `owner` is the configured `OwnerRpcAddress` and
-- `from` the sender of the transaction.
pub mod Answers
pub mod Dispatch
pub mod HelpPay
pub mod Owner
pub mod Pages
pub mod Paying
use meta_co_sign.Base.{ℕ, Bool, true, false, List, [], ◌∷◌, if◌then◌else◌}
use meta_co_sign.FreeGas.{Messages, is_admin, add_wallet, remove_wallet, add_admin, remove_admin}
use meta_co_sign.Result.{Result, ok, fail, panic, unauthorized}
use meta_co_sign.Store.{LevelDb, Addresses}

-- `isAdmin, _ := …`: an error counts as "no"
abbrev pub or_false : Result Bool → Bool
or_false (ok b) = b
or_false (fail e) = false
or_false panic = false

-- The database after a transaction: that of the handler, or the old one where it failed.
abbrev pub settle : {D : Type 0} → D → Result D → D
settle db (ok after) = after
settle db (fail e) = db
settle db panic = db

module _ (L : LevelDb) (E : Addresses) (M : Messages) (owner : E.Address) where
  open E use {Address, address_eq}

  -- the sender is the root owner, or in the list of administrators
  unfoldable pub owner_or_admin : Address → L.Db → Bool
  owner_or_admin from db = if address_eq from owner then true else or_false (is_admin L E M from db)

  unfoldable pub handle_add_authorized_wallet : ℕ → Address → Address → L.Db → Result L.Db
  handle_add_authorized_wallet now from wallet db =
      if owner_or_admin from db then add_wallet L E M now wallet from db else fail unauthorized

  unfoldable pub handle_remove_authorized_wallet : Address → Address → L.Db → Result L.Db
  handle_remove_authorized_wallet from wallet db =
      if owner_or_admin from db then remove_wallet L E M wallet db else fail unauthorized

  unfoldable pub handle_add_admin : ℕ → Address → Address → L.Db → Result L.Db
  handle_add_admin now from admin db =
      if address_eq from owner then add_admin L E M now admin from db else fail unauthorized

  unfoldable pub handle_remove_admin : Address → Address → L.Db → Result L.Db
  handle_remove_admin from admin db =
      if address_eq from owner then remove_admin L E M admin db else fail unauthorized

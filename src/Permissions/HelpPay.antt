-- ===== src/Permissions/HelpPay.antt =====
-- The handlers of pkg/account_handler/account_handler.go that change the paying wallets, from the
-- unpacked arguments on, and `syncHelpPayWorkers`, but for the workers that it starts and stops.
use meta_co_sign.Base.{
  ℕ, Bool, true, false, ◌&&◌, ◌||◌, not, Option, none, some, List, [], ◌∷◌, if◌then◌else◌, length,
  ◌==◌,
}
use meta_co_sign.Bytes.{Bytes}
use meta_co_sign.FreeGas.{
  AuthorizedWalletData, Messages, is_admin, add_help_pay_wallet, remove_help_pay_wallet,
  get_help_pay_wallets,
}
use meta_co_sign.Permissions.{settle}
use meta_co_sign.Result.{
  Result, ok, fail, panic, unauthorized, invalid_private_key, key_store_error, ◌>>=◌,
}
use meta_co_sign.Store.{LevelDb, Addresses}

-- The store of private keys, cmd/rpc-client/store/privatekey_store.go, as the handlers use it; one
-- that is nil keeps nothing. Besides, `strings.TrimSpace`, and the address of the key that a
-- hexadecimal text gives, of go-ethereum.
pub record PrivateKeys (Address : Type 0) : Type 1 where
  pub Keys : Type 0
  pub set_private_key : Address → Bytes → Keys → Option Keys
  pub delete_private_key : Address → Keys → Keys
  pub trim_space : Bytes → Bytes
  pub address_of_key : Bytes → Option Address

-- `OwnerRpcAddress` and `PkOwnerRpc` of the configuration, and the zero address
pub record Config (Address : Type 0) : Type 0 where
  pub owner : Address
  pub pk_owner_rpc : Bytes
  pub zero_address : Address

-- the argument of `addHelpPayWallet`
pub data WalletArgument (Address : Type 0) : Type 0 where
  private_key : Bytes → WalletArgument Address
  wallet_address : Address → WalletArgument Address

pub record Stores (Db Keys : Type 0) : Type 0 where
  pub db : Db
  pub keys : Keys

-- `strings.TrimPrefix` at "0x", and at the other "0X"
unfoldable pub trim_0 : ℕ → Bytes → Bytes
trim_0 x [] = []
trim_0 x (b ∷ []) = b ∷ []
trim_0 x (b ∷ c ∷ bs) = if (b == 48) && (c == x) then bs else b ∷ c ∷ bs

-- An error of the store of keys is passed over.
abbrev pub or_kept : {K : Type 0} → K → Option K → K
or_kept keys none = keys
or_kept keys (some after) = after

-- The rest of a handler, which an error ends.
abbrev pub and_then : {S A B : Type 0} → S → Result A → (A → Result B × S) → Result B × S
and_then s (ok a) rest = rest a
and_then s (fail e) rest = (fail e, s)
and_then s panic rest = (panic, s)

module _ (L : LevelDb) (E : Addresses) (M : Messages) (K : PrivateKeys E.Address)
    (cfg : Config E.Address) where
  open E use {Address, address_eq, bytes_to_address}

  -- `foundOwner`
  unfoldable pub found_owner : List AuthorizedWalletData → Bool
  found_owner [] = false
  found_owner (w ∷ ws) =
      let rest = found_owner ws in
      if address_eq (bytes_to_address w.wallet_address) cfg.owner then true else rest

  unfoldable pub add_owner : ℕ → Stores L.Db K.Keys → Stores L.Db K.Keys
  unfolding trim_0
  add_owner now s = record {
    db = settle s.db (add_help_pay_wallet L E M now cfg.owner cfg.owner s.db);
    keys = or_kept s.keys (K.set_private_key cfg.owner (trim_0 120 cfg.pk_owner_rpc) s.keys);
  }

  unfoldable pub sync_from :
      ℕ → Stores L.Db K.Keys → Result (List AuthorizedWalletData × ℕ) → Stores L.Db K.Keys
  unfolding found_owner add_owner
  sync_from now s (ok (wallets, total)) =
      if not (found_owner wallets)
        && (not (length cfg.pk_owner_rpc == 0) && not (address_eq cfg.owner cfg.zero_address))
      then add_owner now s
      else s
  sync_from now s (fail e) = s
  sync_from now s panic = s

  unfoldable pub sync_help_pay_workers : ℕ → Stores L.Db K.Keys → Stores L.Db K.Keys
  unfolding sync_from
  sync_help_pay_workers now s = sync_from now s (get_help_pay_wallets L E M 0 1000 s.db)

  unfoldable pub check_help_pay : Address → L.Db → Result Bool
  check_help_pay from db = do
    admin ← is_admin L E M from db
    if admin || address_eq from cfg.owner then ok true else fail unauthorized

  -- the address of the wallet, and its private key if that was given
  unfoldable pub read_wallet : WalletArgument Address → Result (Address × Bytes)
  unfolding trim_0
  read_wallet (private_key text) =
      let clean_key = trim_0 88 (trim_0 120 (K.trim_space text)) in
      elim (K.address_of_key clean_key) [
        | none ↦ fail invalid_private_key
        | some a ↦ ok (a, clean_key)
      ]
  read_wallet (wallet_address a) = ok (a, [])

  unfoldable pub store_key : Address → Bytes → K.Keys → Result K.Keys
  store_key wallet [] keys = ok keys
  store_key wallet (b ∷ bs) keys = elim (K.set_private_key wallet (b ∷ bs) keys) [
    | none ↦ fail key_store_error
    | some after ↦ ok after
  ]

  unfoldable pub handle_add_help_pay_wallet :
      ℕ
      → Address
      → WalletArgument Address
      → Stores L.Db K.Keys
      → Result Address × Stores L.Db K.Keys
  unfolding read_wallet check_help_pay store_key sync_help_pay_workers
  handle_add_help_pay_wallet now from arg s = and_then s (read_wallet arg) λ (wallet, clean_key).
      and_then s (check_help_pay from s.db) λ allowed.
        and_then s (store_key wallet clean_key s.keys) λ keys.
          and_then (record s { keys = keys }) (add_help_pay_wallet L E M now wallet from s.db)
            λ db. (ok wallet, sync_help_pay_workers now (record { db = db; keys = keys }))

  unfoldable pub handle_remove_help_pay_wallet :
      ℕ → Address → Address → Stores L.Db K.Keys → Result Address × Stores L.Db K.Keys
  unfolding check_help_pay sync_help_pay_workers
  handle_remove_help_pay_wallet now from wallet s = and_then s (check_help_pay from s.db) λ allowed.
      and_then s (remove_help_pay_wallet L E M wallet s.db) λ db. (
        ok wallet,
        sync_help_pay_workers now (record { db = db; keys = K.delete_private_key wallet s.keys }),
      )

-- ===== src/BlsAccounts/Pending.antt =====
-- Pending transactions in pkg/storage/bls_account_storage.go: one for each address.
use meta_co_sign.Base.{◌≡◌, refl, ◌∙◌, ◌++◌}
use meta_co_sign.BlsAccounts.{
  PendingTransaction, save_pending_transaction, get_pending_transaction, delete_pending_transaction,
}
use meta_co_sign.Bytes.{Bytes, codes, bytes_eq_refl}
use meta_co_sign.Registry.{write_batch, need}
use meta_co_sign.Result.{
  ok, fail, read_error, encode_error, write_error, >>=-eq-ok, or_fail, or_fail-ok,
}
use meta_co_sign.Store.{found, not_found, overlay, LevelDb, Addresses, Codec}

module _ (L : LevelDb) (E : Addresses) (hex2 : Bytes → Bytes) (C : Codec PendingTransaction) where
  open L use {Db, get, write, get-write}
  open E use {Address, hex, bytes_to_address}

  -- A transaction that was saved without an error is returned for its address, and once it has
  -- been deleted without an error, reading it is an error.
  pub save-get-delete :
      (tx : PendingTransaction) (before saved deleted : Db)
      → save_pending_transaction L E hex2 C tx before ≡ ok saved
      → delete_pending_transaction L E hex2 (bytes_to_address tx.tx_address) saved ≡ ok deleted
      → (get_pending_transaction L E hex2 C (bytes_to_address tx.tx_address) saved ≡ ok tx)
        × (get_pending_transaction L E hex2 C (bytes_to_address tx.tx_address) deleted
            ≡ fail read_error)
  unfolding save_pending_transaction get_pending_transaction delete_pending_transaction write_batch
      need
  save-get-delete tx before saved deleted h k =
      let key = codes "pt:" ++ hex (bytes_to_address tx.tx_address) in
      let (value, written, h1) = >>=-eq-ok (or_fail encode_error (C.marshal tx)) _ h in
      let stored : get saved key ≡ found value =
        get-write _ before saved key (or_fail-ok write_error (write _ before) h1)
        ∙ unfold overlay in rw (bytes_eq_refl key) refl in
      let gone : get deleted key ≡ not_found =
        get-write _ saved deleted key (or_fail-ok write_error (write _ saved) k)
        ∙ unfold overlay in rw (bytes_eq_refl key) refl in
      (
        rw (stored, C.unmarshal-marshal tx value (or_fail-ok encode_error (C.marshal tx) written))
            refl,
        rw gone refl,
      )

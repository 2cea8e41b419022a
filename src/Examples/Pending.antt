-- ===== src/Examples/Pending.antt =====
-- A pending transaction that is saved in an empty database and deleted again.
use meta_co_sign.Base.{◌≡◌, refl, [], ◌∷◌}
use meta_co_sign.BlsAccounts.{
  PendingTransaction, save_pending_transaction, get_pending_transaction, delete_pending_transaction,
}
use meta_co_sign.BlsAccounts.Pending.{save-get-delete}
use meta_co_sign.Bytes.{codes}
use meta_co_sign.Examples.FreeGas.{empty_db}
use meta_co_sign.Examples.Memory.{memory, addresses}
use meta_co_sign.Examples.Messages.{pendings, write_pending}
use meta_co_sign.Registry.{write_batch}
use meta_co_sign.Result.{ok, fail, read_error}
use meta_co_sign.Store.{put, delete, overlay}

abbrev transfer : PendingTransaction
transfer = record {
  tx_address = codes "0xca";
  tx_bls_public_key = 1 ∷ [];
  raw_transaction_hex = codes "f86b";
  created_at = 11;
  nonce = 2;
  original_gas_price = 3;
  b_tx = [];
  mt_tx_hash = 8 ∷ [];
}

saved : memory.Db
saved k = overlay (put (codes "pt:0xca") (write_pending transfer) ∷ []) k (empty_db k)

deleted : memory.Db
deleted k = overlay (delete (codes "pt:0xca") ∷ []) k (saved k)

save-get-delete_example :
    (get_pending_transaction memory addresses (λ b. b) pendings (codes "0xca") saved ≡ ok transfer)
    × (get_pending_transaction memory addresses (λ b. b) pendings (codes "0xca") deleted
        ≡ fail read_error)
unfolding save_pending_transaction delete_pending_transaction write_batch saved deleted
save-get-delete_example =
    save-get-delete memory addresses (λ b. b) pendings transfer empty_db saved deleted refl refl

-- ===== src/BlsAccounts.antt =====
-- pkg/storage/bls_account_storage.go: for each BLS public key, the confirmed and the unconfirmed
-- accounts that use it, in LevelDB under contiguous identifiers, with a reverse index from an
-- account to its identifier and its flag. Each operation is one step: the callers' mutexes are not
-- modelled, and `removeAccountFromList`, which nothing calls, is its version without a lock.
pub mod Entries
pub mod Keys
pub mod Confirm
pub mod Pending
pub mod Queries
use meta_co_sign.Base.{
  ℕ, zero, suc, ◌+◌, ◌-◌, ◌*◌, Bool, true, false, Option, none, some, List, [], ◌∷◌, ◌++◌, ltb, leb,
  ◌==◌, ◌||◌, if◌then◌else◌,
}
use meta_co_sign.Bytes.{Bytes, codes}
use meta_co_sign.Bytes.Decimal.{format_uint, parse_uint, zero_pad}
use meta_co_sign.Bytes.Word.{u64, u64_pred, put_uint64, read_uint64}
use meta_co_sign.Result.{
  Result, ok, fail, panic, read_error, encode_error, decode_error, entry_not_found, already_exists,
  invalid_id, invalid_index, status_mismatch, already_confirmed, no_accounts, ◌>>=◌, or_fail,
  or_panic,
}
use meta_co_sign.Registry.{write_batch, need, keep}
use meta_co_sign.Store.{
  Read, found, not_found, read_failed, Op, put, delete, LevelDb, Addresses, Codec,
}
pub use meta_co_sign.BlsAccounts.Entries.{BlsAccountData, PendingTransaction}
unfoldable pub use meta_co_sign.BlsAccounts.Entries.{
  pad_id, unpad_id, prepend, split_colon, flag, prefix_of, is_one, parse_index,
  decode_reverse_index, decode_count_or_zero, same_flag,
}

-- `hex2` is `common.Bytes2Hex`.
module _ (L : LevelDb) (E : Addresses) (hex2 : Bytes → Bytes) where
  open L use {Db, get}
  open E use {Address, hex, bytes_to_address}

  unfoldable pub get_reverse_index_key : Address → Bytes → Bytes
  get_reverse_index_key a pk = codes "ba:" ++ hex a ++ 58 ∷ hex2 pk

  unfoldable pub data_key : Bool → Bytes → Bytes → Bytes
  unfolding prefix_of
  data_key c pk padded_id = prefix_of c ++ hex2 pk ++ 58 ∷ padded_id

  unfoldable pub count_key : Bool → Bytes → Bytes
  unfolding prefix_of
  count_key c pk = prefix_of c ++ hex2 pk ++ codes ":count"

  unfoldable pub index_value : Bool → Bytes → Bytes
  unfolding flag
  index_value c padded_id = flag c ++ 58 ∷ padded_id

  unfoldable pub save_reverse_index : Address → Bytes → Bytes → Bool → Db → Result Db
  unfolding get_reverse_index_key index_value write_batch
  save_reverse_index a pk padded_id c db =
      write_batch L (put (get_reverse_index_key a pk) (index_value c padded_id) ∷ []) db

  unfoldable pub get_reverse_index : Address → Bytes → Db → Result (Option (Bytes × Bool))
  unfolding get_reverse_index_key decode_reverse_index
  get_reverse_index a pk db = decode_reverse_index (get db (get_reverse_index_key a pk))

  unfoldable pub delete_reverse_index : Address → Bytes → Db → Result Db
  unfolding get_reverse_index_key write_batch
  delete_reverse_index a pk db = write_batch L (delete (get_reverse_index_key a pk) ∷ []) db

  unfoldable pub get_count : Bytes → Bool → Db → Result ℕ
  unfolding count_key decode_count_or_zero
  get_count pk c db = decode_count_or_zero (get db (count_key c pk))

  unfoldable pub set_count : Bytes → Bool → ℕ → Db → Result Db
  unfolding count_key write_batch
  set_count pk c n db = write_batch L (put (count_key c pk) (put_uint64 n) ∷ []) db

  module _ (C : Codec PendingTransaction) where
    unfoldable pub save_pending_transaction : PendingTransaction → Db → Result Db
    unfolding write_batch
    save_pending_transaction tx db = do
      value ← or_fail encode_error (C.marshal tx)
      write_batch L (put (codes "pt:" ++ hex (bytes_to_address tx.tx_address)) value ∷ []) db

    unfoldable pub get_pending_transaction : Address → Db → Result PendingTransaction
    unfolding need
    get_pending_transaction a db = do
      value ← need (get db (codes "pt:" ++ hex a))
      or_fail decode_error (C.unmarshal value)

  unfoldable pub delete_pending_transaction : Address → Db → Result Db
  unfolding write_batch
  delete_pending_transaction a db = write_batch L (delete (codes "pt:" ++ hex a) ∷ []) db

  module _ (C : Codec BlsAccountData) where
    unfoldable pub add_no_lock : BlsAccountData → Bool → Db → Result Db
    unfolding get_count data_key count_key get_reverse_index_key index_value write_batch
    add_no_lock acc c db = do
      count ← get_count acc.bls_public_key c db
      let new_id = u64 (count + 1)
      let padded_id = pad_id new_id
      value ← or_fail encode_error (C.marshal acc)
      write_batch L
          (put (data_key c acc.bls_public_key padded_id) value
            ∷ put (get_reverse_index_key (bytes_to_address acc.address) acc.bls_public_key)
                (index_value c padded_id)
            ∷ put (count_key c acc.bls_public_key) (put_uint64 new_id)
            ∷ [])
          db

    unfoldable pub add_unless : Option (Bytes × Bool) → BlsAccountData → Bool → Db → Result Db
    add_unless none acc c db = add_no_lock acc c db
    add_unless (some entry) acc c db = fail already_exists

    unfoldable pub add_account_to_bls_public_key : BlsAccountData → Bool → Db → Result Db
    unfolding add_unless get_reverse_index
    add_account_to_bls_public_key acc c db = do
      index ← get_reverse_index (bytes_to_address acc.address) acc.bls_public_key db
      add_unless index acc c db

    -- the batch once the index entry is deleted, from the identifier and the count
    unfoldable pub remove_rest : Bytes → Bool → Bytes → ℕ → ℕ → Db → Result (List Op)
    unfolding data_key get_reverse_index_key index_value need
    remove_rest pk c padded_id found_id count db =
        if found_id == count then ok (delete (data_key c pk padded_id) ∷ []) else do
          last_value ← need (get db (data_key c pk (pad_id count)))
          last ← or_fail decode_error (C.unmarshal last_value)
          ok (
              put (data_key c pk padded_id) last_value
              ∷ put (get_reverse_index_key (bytes_to_address last.address) pk)
                  (index_value c padded_id)
              ∷ delete (data_key c pk (pad_id count))
              ∷ [])

    unfoldable pub remove_entry : Bytes × Bool → Bytes → Address → Bool → Db → Result Db
    unfolding remove_rest same_flag get_count count_key get_reverse_index_key write_batch
    remove_entry (padded_id, index_confirmed) pk a c db =
        if same_flag index_confirmed c
        then (do
          found_id ← or_fail invalid_id (unpad_id padded_id)
          count ← get_count pk c db
          if count == 0 then fail no_accounts else do
            rest ← remove_rest pk c padded_id found_id count db
            write_batch L
                (delete (get_reverse_index_key a pk) ∷ rest
                  ++ put (count_key c pk) (put_uint64 (u64_pred count)) ∷ [])
                db)
        else fail status_mismatch

    unfoldable pub remove_account_from_list_no_lock : Bytes → Address → Bool → Db → Result Db
    unfolding remove_entry get_reverse_index
    remove_account_from_list_no_lock pk a c db = do
      index ← get_reverse_index a pk db
      entry ← or_fail entry_not_found index
      remove_entry entry pk a c db

    -- what `MarkAccountConfirmed` sets, at a time `now`
    abbrev pub confirmed : ℕ → Bytes → BlsAccountData → BlsAccountData
    confirmed now tx_hash acc = record acc {
      is_confirmed = true;
      confirmed_at = now;
      confirm_tx_hash = tx_hash;
    }

    unfoldable pub mark_entry : Bytes × Bool → ℕ → Address → Bytes → Bytes → Db → Result Db
    unfolding data_key need remove_account_from_list_no_lock add_no_lock
    mark_entry (padded_id, true) now a tx_hash pk db = fail already_confirmed
    mark_entry (padded_id, false) now a tx_hash pk db = do
      value ← need (get db (data_key false pk padded_id))
      acc ← or_fail decode_error (C.unmarshal value)
      removed ← remove_account_from_list_no_lock pk a false db
      add_no_lock (confirmed now tx_hash acc) true removed

    unfoldable pub mark_account_confirmed : ℕ → Address → Bytes → Bytes → Db → Result Db
    unfolding mark_entry get_reverse_index
    mark_account_confirmed now a tx_hash pk db = do
      index ← get_reverse_index a pk db
      entry ← or_fail entry_not_found index
      mark_entry entry now a tx_hash pk db

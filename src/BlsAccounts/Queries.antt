-- ===== src/BlsAccounts/Queries.antt =====
-- The reads of pkg/storage/bls_account_storage.go.
use meta_co_sign.Base.{
  ℕ, zero, suc, ◌+◌, ◌-◌, ◌*◌, Bool, Option, none, List, [], ◌==◌, ◌||◌, ltb, leb, if◌then◌else◌,
}
use meta_co_sign.BlsAccounts.{BlsAccountData, pad_id, get_reverse_index, get_count, data_key}
use meta_co_sign.Bytes.{Bytes}
use meta_co_sign.Bytes.Word.{u64}
use meta_co_sign.Registry.{need, keep}
use meta_co_sign.Result.{Result, ok, panic, entry_not_found, decode_error, or_fail, ◌>>=◌}
use meta_co_sign.Store.{Read, found, not_found, read_failed, LevelDb, Addresses, Codec}

module _ (L : LevelDb) (E : Addresses) (hex2 : Bytes → Bytes) (C : Codec BlsAccountData) where
  open L use {Db, get}
  open E use {Address}

  -- a round of the loops: what cannot be read is skipped
  unfoldable pub readable : Read → Option BlsAccountData
  readable (found v) = C.unmarshal v
  readable not_found = none
  readable read_failed = none

  -- The loop from `id` on, over the identifiers left.
  unfoldable pub accounts_from : ℕ → Bool → Bytes → ℕ → Db → List BlsAccountData
  unfolding readable
  accounts_from zero c pk id db = []
  accounts_from (suc rounds) c pk id db =
      keep (readable (get db (data_key L E hex2 c pk (pad_id id))))
        (accounts_from rounds c pk (id + 1) db)

  -- `make` panics at a capacity that is negative as an `int`. The last identifier is at most the
  -- count, taken to be below the largest `uint64`, so that the loop ends.
  unfoldable pub accounts_between : Bool → Bytes → ℕ → ℕ → Db → Result (List BlsAccountData)
  unfolding accounts_from
  accounts_between c pk start_id end_id db =
      if leb 9223372036854775808 (u64 (end_id + 18446744073709551616 - start_id + 1))
      then panic
      else ok (accounts_from (end_id + 1 - start_id) c pk start_id db)

  -- `page` and `pageSize` are given by their 64 bits.
  unfoldable pub get_accounts_by_bls_public_key :
      Bytes → ℕ → ℕ → Bool → Db → Result (List BlsAccountData × ℕ)
  unfolding accounts_between
  get_accounts_by_bls_public_key pk page page_size c db = do
    count ← get_count L E hex2 pk c db
    let start_id = u64 (page * page_size + 1)
    let end_id = u64 ((page + 1) * page_size)
    if ltb count start_id then ok ([], count) else do
      accounts ← accounts_between c pk start_id (if ltb count end_id then count else end_id) db
      ok (accounts, count)

  unfoldable pub get_total_accounts_count : Bytes → Bool → Db → Result ℕ
  get_total_accounts_count pk c db = get_count L E hex2 pk c db

  unfoldable pub get_account_address_by_index : Bytes → ℕ → Bool → Db → Result BlsAccountData
  get_account_address_by_index pk index c db = do
    value ← need (get db (data_key L E hex2 c pk (pad_id index)))
    or_fail decode_error (C.unmarshal value)

  unfoldable pub batch_get_account_addresses :
      Bytes → ℕ → ℕ → Bool → Db → Result (List BlsAccountData)
  unfolding accounts_between
  batch_get_account_addresses pk start_id end_id c db = do
    count ← get_count L E hex2 pk c db
    let last = if ltb count end_id then count else end_id
    if ltb last start_id || (start_id == 0) then ok [] else accounts_between c pk start_id last db

  unfoldable pub account_at : Bytes × Bool → Bytes → Db → Result BlsAccountData
  account_at (padded_id, c) pk db = do
    value ← need (get db (data_key L E hex2 c pk padded_id))
    or_fail decode_error (C.unmarshal value)

  unfoldable pub get_account_by_address : Address → Bytes → Db → Result BlsAccountData
  unfolding account_at
  get_account_by_address a pk db = do
    index ← get_reverse_index L E hex2 a pk db
    entry ← or_fail entry_not_found index
    account_at entry pk db

-- ===== src/Registry.antt =====
-- The generic helpers of pkg/storage/contract_free_gas_storage.go: a list of entries kept in
-- LevelDB under contiguous identifiers 1, 2, …, with a reverse index from an entry's address to its
-- identifier, and a counter. Contracts, wallets, paying wallets and administrators are four
-- families of it. The four take one mutex, and each operation runs under it from start to end.
pub mod Removed
pub mod Add
pub mod Batches
pub mod Frame
pub mod Invariant
pub mod Keys
pub mod Pages
pub mod Refine
pub mod Remove
pub mod Spec
use meta_co_sign.Base.{
  ℕ, zero, suc, ◌+◌, ◌-◌, ◌*◌, ◌%◌, Bool, true, false, Option, none, some, List, [], ◌∷◌, ◌++◌, ltb,
  leb, ◌==◌, if◌then◌else◌, length,
}
use meta_co_sign.Bytes.{Bytes}
use meta_co_sign.Bytes.Decimal.{format_uint, parse_uint, zero_pad}
use meta_co_sign.Bytes.Word.{two64, u64, u64_pred, put_uint64, read_uint64}
use meta_co_sign.Result.{
  Result, ok, fail, panic, read_error, write_error, encode_error, decode_error, entry_not_found,
  invalid_id, ◌>>=◌, or_fail, or_panic,
}
use meta_co_sign.Store.{
  Read, found, not_found, read_failed, Op, put, delete, LevelDb, Addresses, Codec,
}

-- The three key prefixes that the helpers take.
pub record Family : Type 0 where
  pub data_prefix : Bytes
  pub index_prefix : Bytes
  pub count_key : Bytes

abbrev pub contract_id_padding_length : ℕ
contract_id_padding_length = 10

unfoldable pub pad_entity_id : ℕ → Bytes
pad_entity_id id = zero_pad contract_id_padding_length (format_uint id)

unfoldable pub unpad_entity_id : Bytes → Option ℕ
unpad_entity_id s = parse_uint s

unfoldable pub decode_count : Read → Result ℕ
decode_count (found v) = or_panic (read_uint64 v)
decode_count not_found = ok 0
decode_count read_failed = fail read_error

unfoldable pub decode_index : Read → Result (Option Bytes)
decode_index (found v) = ok (some v)
decode_index not_found = ok none
decode_index read_failed = fail read_error

-- the value of a read that must not miss
unfoldable pub need : Read → Result Bytes
need (found v) = ok v
need not_found = fail read_error
need read_failed = fail read_error

-- appended to a batch
unfoldable pub put_count : Bytes → ℕ → Op
put_count count_key count = put count_key (put_uint64 count)

unfoldable pub is_some {ℓ} : {A : Type ℓ} → Option A → Bool
is_some none = false
is_some (some a) = true

abbrev pub keep {ℓ} : {A : Type ℓ} → Option A → List A → List A
keep (some x) xs = x ∷ xs
keep none xs = xs

module _ (L : LevelDb) where
  open L use {Db, get, write}

  unfoldable pub generic_get_count : Bytes → Db → Result ℕ
  unfolding decode_count
  generic_get_count count_key db = decode_count (get db count_key)

  unfoldable pub write_batch : List Op → Db → Result Db
  write_batch ops db = or_fail write_error (write ops db)

module _ (L : LevelDb) (E : Addresses) where
  open L use {Db, get}
  open E use {Address, hex}

  unfoldable pub generic_get_reverse_index : Bytes → Address → Db → Result (Option Bytes)
  unfolding decode_index
  generic_get_reverse_index index_prefix addr db = decode_index (get db (index_prefix ++ hex addr))

module _ (L : LevelDb) {A : Type 0} (C : Codec A) where
  open L use {Db, get}
  open C use {marshal, unmarshal}

  unfoldable pub generic_add : Family → Bytes → A → Db → Result Db
  unfolding write_batch
  generic_add f addr_hex msg db = do
    count ← generic_get_count L f.count_key db
    let new_id = u64 (count + 1)
    let padded_id = pad_entity_id new_id
    value ← or_fail encode_error (marshal msg)
    write_batch L
        (put (f.data_prefix ++ padded_id) value
          ∷ put (f.index_prefix ++ addr_hex) padded_id
          ∷ put_count f.count_key new_id
          ∷ [])
        db

  -- one round of `genericScan`: `none` skips the identifier
  pub scan_entry : Read → Result (Option A)
  scan_entry (found v) = do msg ← or_fail decode_error (unmarshal v); ok (some msg)
  scan_entry not_found = ok none
  scan_entry read_failed = fail read_error

  -- The loop from `id` on, over the identifiers left up to `endID`.
  unfoldable pub scan_from : ℕ → Bytes → ℕ → Db → Result (List A)
  unfolding scan_entry
  scan_from zero data_prefix id db = ok []
  scan_from (suc rounds) data_prefix id db =
      scan_entry (get db (data_prefix ++ pad_entity_id id)) >>= λ item.
      scan_from rounds data_prefix (id + 1) db >>= λ rest. ok (keep item rest)

  -- `make` panics at a capacity that is negative as an `int`. The loop ends, since the callers
  -- have `endID` at most the count, which is below the largest `uint64`.
  unfoldable pub generic_scan : Bytes → ℕ → ℕ → Db → Result (List A)
  unfolding scan_from
  generic_scan data_prefix start_id end_id db =
      if leb 9223372036854775808 (u64 (end_id + 18446744073709551616 - start_id + 1))
      then panic
      else scan_from (end_id + 1 - start_id) data_prefix start_id db

  -- The end of `GetContracts` and the like, from the range that `paginateRange` gave.
  unfoldable pub scan_range : Bytes → ℕ → Option (ℕ × ℕ) → Db → Result (List A × ℕ)
  scan_range data_prefix count none db = ok ([], count)
  scan_range data_prefix count (some (start_id, end_id)) db = do
    items ← generic_scan data_prefix start_id end_id db
    ok (items, count)

module _ (E : Addresses) where
  open E use {Address, hex}

  -- The batch when the entry is not the last: the last one moves into its place.
  pub swap_ops : Family → Address → Bytes → ℕ → Bytes → Address → List Op
  swap_ops f addr padded_id count last_bytes last_addr =
      delete (f.index_prefix ++ hex addr)
      ∷ put (f.data_prefix ++ padded_id) last_bytes
      ∷ put (f.index_prefix ++ hex last_addr) padded_id
      ∷ delete (f.data_prefix ++ pad_entity_id count)
      ∷ put_count f.count_key (u64_pred count)
      ∷ []

  -- The batch when it is the last.
  pub drop_ops : Family → Address → Bytes → ℕ → List Op
  drop_ops f addr padded_id count =
      delete (f.index_prefix ++ hex addr)
      ∷ delete (f.data_prefix ++ padded_id)
      ∷ put_count f.count_key (u64_pred count)
      ∷ []

module _ (L : LevelDb) (E : Addresses) where
  open L use {Db, get}
  open E use {Address}

  pub remove_ops :
      Family → (Bytes → Option Address) → Address → Bytes → ℕ → ℕ → Db → Result (List Op)
  unfolding swap_ops drop_ops need
  remove_ops f get_last_addr addr padded_id found_id count db =
      if found_id == count then ok (drop_ops E f addr padded_id count) else do
        last_bytes ← need (get db (f.data_prefix ++ pad_entity_id count))
        last_addr ← or_fail decode_error (get_last_addr last_bytes)
        ok (swap_ops E f addr padded_id count last_bytes last_addr)

  unfoldable pub generic_remove : Family → Address → (Bytes → Option Address) → Db → Result Db
  unfolding remove_ops
  generic_remove f addr get_last_addr db = do
    index ← generic_get_reverse_index L E f.index_prefix addr db
    padded_id ← or_fail entry_not_found index
    found_id ← or_fail invalid_id (unpad_entity_id padded_id)
    count ← generic_get_count L f.count_key db
    ops ← remove_ops f get_last_addr addr padded_id found_id count db
    write_batch L ops db

-- `page` and `pageSize` are Go `int`s, given by their 64 bits.
unfoldable pub paginate_range : ℕ → ℕ → ℕ → Option (ℕ × ℕ)
paginate_range page page_size count =
    let start_id = u64 (page * page_size + 1) in
    let end_id = u64 ((page + 1) * page_size) in
    if ltb count start_id
    then none
    else if ltb count end_id
    then some (start_id, count)
    else some (start_id, end_id)

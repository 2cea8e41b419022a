-- ===== src/Examples/Registration.antt =====
-- The theorems on registered BLS accounts at concrete inputs: an account is added to an empty
-- database, and then confirmed. Keys are their own hexadecimal text.
use meta_co_sign.Base.{ℕ, ◌≡◌, refl, Bool, false, [], ◌∷◌}
use meta_co_sign.BlsAccounts.{
  BlsAccountData, add_account_to_bls_public_key, mark_account_confirmed, confirmed, add_unless,
  add_no_lock, get_reverse_index, decode_reverse_index, get_count, decode_count_or_zero, data_key,
  count_key, get_reverse_index_key, index_value, prefix_of, flag, pad_id, mark_entry,
  remove_account_from_list_no_lock, remove_entry, remove_rest, parse_index, split_colon, prepend,
  is_one, unpad_id, same_flag,
}
use meta_co_sign.Bytes.Decimal.{format_uint, zero_pad, parse_uint}
use meta_co_sign.Bytes.Word.{big_endian, put_uint64, read_uint64, value_from}
use meta_co_sign.Registry.{write_batch, need}
use meta_co_sign.BlsAccounts.Confirm.{add_account-found, mark_account_confirmed-found}
use meta_co_sign.BlsAccounts.Queries.{get_account_by_address}
use meta_co_sign.Bytes.{Bytes, codes, bytes_eq}
use meta_co_sign.Examples.Memory.{memory, addresses}
use meta_co_sign.Examples.FreeGas.{empty_db}
use meta_co_sign.Examples.Messages.{accounts, parts}
use meta_co_sign.Result.{Result, ok, fail, panic, already_exists, already_confirmed}
use meta_co_sign.Store.{overlay}

abbrev carol : Bytes
carol = codes "0xca"

abbrev key : Bytes
key = codes "b1"

abbrev carol_account : BlsAccountData
carol_account = record {
  address = carol;
  bls_public_key = key;
  registered_at = 4;
  register_tx_hash = 9 ∷ [];
  is_confirmed = false;
  confirmed_at = 0;
  confirm_tx_hash = [];
}

abbrev hex2 : Bytes → Bytes
hex2 b = b

abbrev or_empty : Result memory.Db → memory.Db
or_empty (ok db) = db
or_empty (fail e) = empty_db
or_empty panic = empty_db

-- all that a run of the storage computes
program : Unit {0}
unfolding add_account_to_bls_public_key add_unless add_no_lock get_reverse_index
    decode_reverse_index get_count decode_count_or_zero data_key count_key get_reverse_index_key
    index_value prefix_of flag pad_id format_uint zero_pad put_uint64 big_endian overlay bytes_eq
    write_batch mark_account_confirmed mark_entry remove_account_from_list_no_lock remove_entry
    remove_rest parse_index split_colon prepend is_one same_flag need unpad_id parse_uint
    read_uint64 value_from parts
program = tt

added : memory.Db
unfolding add_account_to_bls_public_key
added =
    or_empty
      (add_account_to_bls_public_key memory addresses hex2 accounts carol_account false empty_db)

added_eq :
    add_account_to_bls_public_key memory addresses hex2 accounts carol_account false empty_db
    ≡ ok added
unfolding program added
added_eq = refl

marked : memory.Db
unfolding mark_account_confirmed
marked = or_empty (mark_account_confirmed memory addresses hex2 accounts 6 carol (5 ∷ []) key added)

marked_eq :
    mark_account_confirmed memory addresses hex2 accounts 6 carol (5 ∷ []) key added ≡ ok marked
unfolding program added marked
marked_eq = refl

add_account-found_example :
    (get_account_by_address memory addresses hex2 accounts carol key added ≡ ok carol_account)
    × ((other : BlsAccountData) (d : Bool)
        → other.address ≡ carol
        → other.bls_public_key ≡ key
        → add_account_to_bls_public_key memory addresses hex2 accounts other d added
          ≡ fail already_exists)
add_account-found_example =
    add_account-found memory addresses hex2 accounts carol_account false empty_db added added_eq

mark_account_confirmed-found_example :
    (get_account_by_address memory addresses hex2 accounts carol key marked
      ≡ ok (confirmed memory addresses hex2 accounts 6 (5 ∷ []) carol_account))
    × ((later : ℕ) (other_hash : Bytes)
        → mark_account_confirmed memory addresses hex2 accounts later carol other_hash key marked
          ≡ fail already_confirmed)
mark_account_confirmed-found_example =
    mark_account_confirmed-found memory addresses hex2 accounts 6 carol (5 ∷ []) key carol_account
      added marked marked_eq
      (add_account-found memory addresses hex2 accounts carol_account false empty_db added
        added_eq).0
      refl refl

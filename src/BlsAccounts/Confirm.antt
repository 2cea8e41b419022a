-- ===== src/BlsAccounts/Confirm.antt =====
-- What a registration and a confirmation leave in the database: the account is found by its
-- address, and neither can be repeated.
use meta_co_sign.Base.{ℕ, ◌+◌, ◌≡◌, subst, refl, ◌∙◌, Bool, true, false, Option, none, some}
use meta_co_sign.BlsAccounts.{
  BlsAccountData, pad_id, get_reverse_index, get_reverse_index_key, data_key, count_key,
  index_value, get_count, add_no_lock, add_unless, add_account_to_bls_public_key, mark_entry,
  mark_account_confirmed, confirmed, remove_account_from_list_no_lock,
}
use meta_co_sign.BlsAccounts.Keys.{
  decode_reverse_index-index_value, data_key-index_key, count_key-index_key, count_key-data_key,
}
use meta_co_sign.BlsAccounts.Queries.{get_account_by_address, account_at}
use meta_co_sign.Bytes.{Bytes, bytes_eq_refl, bytes_eq_comm}
use meta_co_sign.Bytes.Word.{u64}
use meta_co_sign.Registry.{write_batch, need}
use meta_co_sign.Result.{
  ok, fail, entry_not_found, already_exists, already_confirmed, decode_error, encode_error,
  write_error, or_fail, or_fail-ok, >>=-eq-ok,
}
use meta_co_sign.Store.{found, overlay, LevelDb, Addresses, Codec}

module _ (L : LevelDb) (E : Addresses) (hex2 : Bytes → Bytes) (C : Codec BlsAccountData) where
  open L use {Db, get}
  open E use {Address, bytes_to_address}

  -- The account is listed, under `c`, at some identifier, with its index entry.
  pub record IsListed (acc : BlsAccountData) (c : Bool) (db : Db) : Type 0 where
    pub id : ℕ
    pub value : Bytes
    pub value_of : C.unmarshal value ≡ some acc
    pub at_data : get db (data_key L E hex2 c acc.bls_public_key (pad_id id)) ≡ found value
    pub at_index :
        get db (get_reverse_index_key L E hex2 (bytes_to_address acc.address) acc.bls_public_key)
        ≡ found (index_value L E hex2 c (pad_id id))

module _ (L : LevelDb) (E : Addresses) (hex2 : Bytes → Bytes) (C : Codec BlsAccountData) where
  open L use {Db, get, write, get-write}
  open E use {Address, bytes_to_address}

  -- A registration that succeeds lists the account.
  add_no_lock-IsListed :
      (acc : BlsAccountData) (c : Bool) (before after : Db)
      → add_no_lock L E hex2 C acc c before ≡ ok after
      → IsListed L E hex2 C acc c after
  unfolding add_no_lock write_batch
  add_no_lock-IsListed acc c before after h =
      let (count, counted, h1) = >>=-eq-ok (get_count L E hex2 acc.bls_public_key c before) _ h in
      let (value, written, h2) = >>=-eq-ok (or_fail encode_error (C.marshal acc)) _ h1 in
      let pk = acc.bls_public_key in
      let d = data_key L E hex2 c pk (pad_id (u64 (count + 1))) in
      let i = get_reverse_index_key L E hex2 (bytes_to_address acc.address) pk in
      let n = count_key L E hex2 c pk in
      let stored = or_fail-ok write_error (write _ before) h2 in
      record {
        id = u64 (count + 1);
        value = value;
        value_of = C.unmarshal-marshal acc value (or_fail-ok encode_error (C.marshal acc) written);
        at_data =
            get-write _ before after d stored
            ∙ unfold overlay in
              rw
                (
                  bytes_eq_refl d,
                  bytes_eq_comm i d,
                  data_key-index_key L E hex2 c pk (pad_id (u64 (count + 1)))
                      (bytes_to_address acc.address) pk,
                  count_key-data_key L E hex2 c pk (u64 (count + 1)),
                )
                refl;
        at_index =
            get-write _ before after i stored
            ∙ unfold overlay in
              rw
                (
                  bytes_eq_refl i,
                  count_key-index_key L E hex2 c pk (bytes_to_address acc.address) pk,
                )
                refl;
      }

  find-IsListed :
      (acc : BlsAccountData) (c : Bool) (db : Db)
      → IsListed L E hex2 C acc c db
      → get_account_by_address L E hex2 C (bytes_to_address acc.address) acc.bls_public_key db
        ≡ ok acc
  unfolding get_account_by_address account_at get_reverse_index need
  find-IsListed acc c db listed =
      rw
        (
          listed.at_index,
          decode_reverse_index-index_value L E hex2 c listed.id,
          listed.at_data,
          listed.value_of,
        )
        refl

  add_unless-IsListed :
      (index : Option (Bytes × Bool)) (acc : BlsAccountData) (c : Bool) (before after : Db)
      → add_unless L E hex2 C index acc c before ≡ ok after
      → IsListed L E hex2 C acc c after
  unfolding add_unless
  add_unless-IsListed none acc c before after e = add_no_lock-IsListed acc c before after e
  add_unless-IsListed (some x) acc c before after e = cc

  add-IsListed :
      (acc : BlsAccountData) (c : Bool) (before after : Db)
      → add_account_to_bls_public_key L E hex2 C acc c before ≡ ok after
      → IsListed L E hex2 C acc c after
  unfolding add_account_to_bls_public_key
  add-IsListed acc c before after h =
      let (index, indexed, h1) =
        >>=-eq-ok
          (get_reverse_index L E hex2 (bytes_to_address acc.address) acc.bls_public_key before) _
          h in
      add_unless-IsListed index acc c before after h1

  -- After an account has been added without an error, it is found by its address and its BLS public
  -- key as it was added, and adding any account of that address and key is an error.
  pub add_account-found :
      (acc : BlsAccountData) (c : Bool) (before after : Db)
      → add_account_to_bls_public_key L E hex2 C acc c before ≡ ok after
      → (get_account_by_address L E hex2 C (bytes_to_address acc.address) acc.bls_public_key after
          ≡ ok acc)
        × ((other : BlsAccountData) (d : Bool)
            → bytes_to_address other.address ≡ bytes_to_address acc.address
            → other.bls_public_key ≡ acc.bls_public_key
            → add_account_to_bls_public_key L E hex2 C other d after ≡ fail already_exists)
  unfolding add_account_to_bls_public_key add_unless get_reverse_index
  add_account-found acc c before after h =
      let listed = add-IsListed acc c before after h in
      (
        find-IsListed acc c after listed,
        λ other d e f.
            rw (e, f, listed.at_index, decode_reverse_index-index_value L E hex2 c listed.id) refl,
      )

  mark_entry-IsListed :
      (entry : Bytes × Bool) (now : ℕ) (a : Address) (tx_hash pk : Bytes) (acc : BlsAccountData)
      (before after : Db)
      → mark_entry L E hex2 C entry now a tx_hash pk before ≡ ok after
      → account_at L E hex2 C entry pk before ≡ ok acc
      → IsListed L E hex2 C (confirmed L E hex2 C now tx_hash acc) true after
  unfolding mark_entry account_at
  mark_entry-IsListed (padded_id, true) now a tx_hash pk acc before after h k = cc
  mark_entry-IsListed (padded_id, false) now a tx_hash pk acc before after h k =
      let (value, read, k1) =
        >>=-eq-ok (need (get before (data_key L E hex2 false pk padded_id))) _ k in
      let decoded = or_fail-ok decode_error (C.unmarshal value) k1 in
      let (removed, left, h1) =
        >>=-eq-ok (remove_account_from_list_no_lock L E hex2 C pk a false before) _
          (rw (read, decoded) at h) in
      add_no_lock-IsListed (confirmed L E hex2 C now tx_hash acc) true removed after h1

  -- After an account has been marked confirmed without an error, it is found as it was before the
  -- call but for the confirmation, provided that what was stored under its address and key has that
  -- address and key; and marking it again is an error.
  pub mark_account_confirmed-found :
      (now : ℕ) (a : Address) (tx_hash pk : Bytes) (acc : BlsAccountData) (before after : Db)
      → mark_account_confirmed L E hex2 C now a tx_hash pk before ≡ ok after
      → get_account_by_address L E hex2 C a pk before ≡ ok acc
      → bytes_to_address acc.address ≡ a
      → acc.bls_public_key ≡ pk
      → (get_account_by_address L E hex2 C a pk after ≡ ok (confirmed L E hex2 C now tx_hash acc))
        × ((later : ℕ) (other_hash : Bytes)
            → mark_account_confirmed L E hex2 C later a other_hash pk after
              ≡ fail already_confirmed)
  unfolding mark_account_confirmed mark_entry get_account_by_address get_reverse_index
  mark_account_confirmed-found now a tx_hash pk acc before after h before_found e f =
      let (index, indexed, h1) = >>=-eq-ok (get_reverse_index L E hex2 a pk before) _ h in
      let (entry, there, h2) = >>=-eq-ok (or_fail entry_not_found index) _ h1 in
      let listed =
        mark_entry-IsListed entry now a tx_hash pk acc before after h2
          (rw (indexed, there) at before_found) in
      let at_index =
        subst
          (λ k.
            get after (get_reverse_index_key L E hex2 k acc.bls_public_key)
            ≡ found (index_value L E hex2 true (pad_id listed.id)))
          e listed.at_index in
      let at_index' =
        subst
          (λ k.
            get after (get_reverse_index_key L E hex2 a k)
            ≡ found (index_value L E hex2 true (pad_id listed.id)))
          f at_index in
      let at_data =
        subst (λ k. get after (data_key L E hex2 true k (pad_id listed.id)) ≡ found listed.value) f
          listed.at_data in
      (
        rw
            (
              at_index',
              decode_reverse_index-index_value L E hex2 true listed.id,
              at_data,
              listed.value_of,
            )
            refl,
        λ later other_hash.
            rw (at_index', decode_reverse_index-index_value L E hex2 true listed.id) refl,
      )

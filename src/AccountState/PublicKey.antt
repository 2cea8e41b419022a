-- ===== src/AccountState/PublicKey.antt =====
-- The BLS public key of an account: pkg/state/account_state.go accepts 48 bytes, once, unless the
-- account is read from a message.
use meta_co_sign.AccountState.{Primitives}
use meta_co_sign.AccountState.Account.{
  AccountState, AccountMessage, AccountError, Change, changed, refused, from_proto, set_balance,
  set_pending_balance, set_public_key_bls, set_account_type, set_nonce, plus_one_nonce,
  set_code_hash, set_storage_root, set_storage_address, set_creator_public_key, add_log_hash,
  with_contract, set_last_hash, set_new_device_key, set_smart_contract_state, add_balance,
  add_pending_balance, sub_balance, sub_pending_balance, sub_total_balance,
}
use meta_co_sign.AccountState.Codec.{unmarshal}
use meta_co_sign.AccountState.Contract.{SmartContractState}
use meta_co_sign.AccountState.Integer.{ℤ, ◌+ℤ◌, greater}
use meta_co_sign.Base.{
  ℕ, ◌≡◌, refl, ap, List, [], ◌∷◌, length, ◌==◌, ◌||◌, ◌∙◌, inl, inr, Bool, true, false,
  if◌then◌else◌, Bool-cases, Option, none, some, Option-cases, All,
}
use meta_co_sign.Bytes.{Bytes}
use meta_co_sign.Result.{Result, ok, fail, panic}
use meta_co_sign.Store.{Codec}

abbrev pub kept : {A : Type 0} → A → Change A → A
kept before (changed after) = after
kept before (refused e) = before

module _ (P : Primitives) where
  open P use {Address, Hash}

  -- the methods that set fields
  pub data Setter : Type 0 where
    public_key creator : Bytes → Setter
    type_of_account new_nonce : ℕ → Setter
    one_more_nonce : Setter
    code root log last device : Hash → Setter
    storage : Address → Setter
    contract : Option (SmartContractState P) → Setter
    new_balance new_pending credited credited_pending debited debited_pending debited_total :
        ℤ → Setter

module _ (P : Primitives) where
  -- and those that read the account from a message, or from its bytes
  pub data Update : Type 0 where
    set_field : Setter P → Update
    from_message : AccountMessage P → Update
    from_bytes : Bytes → Update

module _ (P : Primitives) where
  unfoldable pub set : Setter P → AccountState P → AccountState P
  unfolding set_public_key_bls set_account_type set_nonce plus_one_nonce set_code_hash
      set_storage_root set_storage_address set_creator_public_key add_log_hash with_contract
      set_last_hash set_new_device_key set_smart_contract_state set_balance set_pending_balance
      add_balance add_pending_balance sub_balance sub_pending_balance sub_total_balance
  set (public_key k) acc = kept acc (set_public_key_bls P k acc)
  set (creator k) acc = set_creator_public_key P k acc
  set (type_of_account t) acc = kept acc (set_account_type P t acc)
  set (new_nonce n) acc = set_nonce P n acc
  set one_more_nonce acc = plus_one_nonce P acc
  set (code h) acc = set_code_hash P h acc
  set (root h) acc = set_storage_root P h acc
  set (log h) acc = add_log_hash P h acc
  set (last h) acc = set_last_hash P h acc
  set (device h) acc = set_new_device_key P h acc
  set (storage a) acc = set_storage_address P a acc
  set (contract c) acc = set_smart_contract_state P c acc
  set (new_balance z) acc = set_balance P z acc
  set (new_pending z) acc = set_pending_balance P z acc
  set (credited z) acc = add_balance P z acc
  set (credited_pending z) acc = add_pending_balance P z acc
  set (debited z) acc = kept acc (sub_balance P z acc)
  set (debited_pending z) acc = kept acc (sub_pending_balance P z acc)
  set (debited_total z) acc = kept acc (sub_total_balance P z acc)

  -- a call that returns an error changes nothing
  if_kept :
      (b : Bool) (e : AccountError) (acc after : AccountState P)
      → after.public_key_bls ≡ acc.public_key_bls
      → (kept acc (if b then refused e else changed after)).public_key_bls ≡ acc.public_key_bls
  if_kept true e acc after h = refl
  if_kept false e acc after h = h

  set-public_key_bls :
      (u : Setter P) (acc : AccountState P)
      → length acc.public_key_bls ≡ 48
      → (set u acc).public_key_bls ≡ acc.public_key_bls
  unfolding set set_account_type set_public_key_bls sub_balance sub_pending_balance
      sub_total_balance
  set-public_key_bls (public_key k) acc h = elim (Bool-cases (length k == 48)) [
    | inl right ↦ rw (right, h) refl
    | inr wrong ↦ rw wrong refl
  ]
  set-public_key_bls (creator k) acc h = refl
  set-public_key_bls (type_of_account t) acc h = elim (Bool-cases ((t == 1) || (t == 0))) [
    | inl right ↦ rw right refl
    | inr wrong ↦ rw wrong refl
  ]
  set-public_key_bls (new_nonce n) acc h = refl
  set-public_key_bls one_more_nonce acc h = refl
  set-public_key_bls (code x) acc h = refl
  set-public_key_bls (root x) acc h = refl
  set-public_key_bls (log x) acc h = refl
  set-public_key_bls (last x) acc h = refl
  set-public_key_bls (device x) acc h = refl
  set-public_key_bls (storage a) acc h = refl
  set-public_key_bls (contract c) acc h = refl
  set-public_key_bls (new_balance z) acc h = refl
  set-public_key_bls (new_pending z) acc h = refl
  set-public_key_bls (credited z) acc h = refl
  set-public_key_bls (credited_pending z) acc h = refl
  set-public_key_bls (debited z) acc h = if_kept (greater z acc.balance) _ acc _ refl
  set-public_key_bls (debited_pending z) acc h =
      if_kept (greater z acc.pending_balance) _ acc _ refl
  set-public_key_bls (debited_total z) acc h =
      if_kept (greater z (acc.pending_balance +ℤ acc.balance)) _ acc _ refl

module _ (P : Primitives) (C : Codec (AccountMessage P)) where
  -- `Unmarshal` of bytes that are no message returns an error, before it changes anything.
  abbrev pub read_or : {A : Type 0} → A → Result A → A
  read_or before (ok after) = after
  read_or before (fail e) = before
  read_or before panic = before

  unfoldable pub update : Update P → AccountState P → AccountState P
  unfolding set from_proto unmarshal
  update (set_field u) acc = set P u acc
  update (from_message m) acc = from_proto P m acc
  update (from_bytes b) acc = read_or acc (unmarshal P C b acc)

  unfoldable pub updates : List (Update P) → AccountState P → AccountState P
  unfolding update
  updates [] acc = acc
  updates (u ∷ us) acc = updates us (update u acc)

  -- the key of the last message read, or the old one
  abbrev pub key_in : Option (AccountMessage P) → Bytes → Bytes
  key_in none key = key
  key_in (some m) key = m.public_key_bls_field

  abbrev pub key_read : Update P → Bytes → Bytes
  key_read (set_field u) key = key
  key_read (from_message m) key = m.public_key_bls_field
  key_read (from_bytes b) key = key_in (C.unmarshal b) key

  abbrev pub last_key : List (Update P) → Bytes → Bytes
  last_key [] key = key
  last_key (u ∷ us) key = last_key us (key_read u key)

  -- what is read has a key of 48 bytes
  abbrev pub ReadsKey : Update P → Type 0
  ReadsKey (set_field u) = Unit
  ReadsKey (from_message m) = length m.public_key_bls_field ≡ 48
  ReadsKey (from_bytes b) =
      (m : AccountMessage P) → C.unmarshal b ≡ some m → length m.public_key_bls_field ≡ 48

  update-public_key_bls :
      (u : Update P) (acc : AccountState P)
      → length acc.public_key_bls ≡ 48
      → (update u acc).public_key_bls ≡ key_read u acc.public_key_bls
  unfolding update from_proto unmarshal
  update-public_key_bls (set_field u) acc h = set-public_key_bls P u acc h
  update-public_key_bls (from_message m) acc h = refl
  update-public_key_bls (from_bytes b) acc h = elim (Option-cases (C.unmarshal b)) [
    | inl bad ↦ rw bad refl
    | inr (m, good) ↦ rw good refl
  ]

  length-key_read :
      (u : Update P) (key : Bytes) → length key ≡ 48 → ReadsKey u → length (key_read u key) ≡ 48
  length-key_read (set_field u) key h reads = h
  length-key_read (from_message m) key h reads = reads
  length-key_read (from_bytes b) key h reads = elim (Option-cases (C.unmarshal b)) [
    | inl bad ↦ rw bad h
    | inr (m, good) ↦ rw good (reads m good)
  ]

  -- An account has a key of 48 bytes. After any calls of its methods, where the messages that are read
  -- have keys of 48 bytes too, the key is that of the last message read, or the old one if none was.
  pub updates-public_key_bls :
      (us : List (Update P)) (acc : AccountState P)
      → length acc.public_key_bls ≡ 48
      → All ReadsKey us
      → (updates us acc).public_key_bls ≡ last_key us acc.public_key_bls
  unfolding updates
  updates-public_key_bls [] acc h reads = refl
  updates-public_key_bls (u ∷ us) acc h (here, rest) =
      let same = update-public_key_bls u acc h in
      let fits : length (update u acc).public_key_bls ≡ 48 =
        ap length same ∙ length-key_read u acc.public_key_bls h here in
      updates-public_key_bls us (update u acc) fits rest ∙ ap (last_key us) same

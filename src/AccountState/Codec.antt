-- ===== src/AccountState/Codec.antt =====
-- pkg/state/account_state.go: account states and the requests about them as protobuf messages, and
-- that what is written is read back.
use meta_co_sign.AccountState.{Primitives}
use meta_co_sign.AccountState.Account.{
  AccountState, AccountMessage, map_option, proto, from_proto, nonce_from, contract_from,
  new_account_state,
}
use meta_co_sign.AccountState.Contract.{
  SmartContractState, contract_proto, contract_from_proto-contract_proto,
}
use meta_co_sign.AccountState.Integer.{ℤ, pos, bytes, set_bytes, set_bytes-bytes}
use meta_co_sign.Base.{ℕ, ◌<◌, ◌≡◌, refl, ap, Option, none, some, length}
use meta_co_sign.Bytes.{Bytes}
use meta_co_sign.Bytes.Word.{two64, put_uint64, read_uint64-put_uint64, length-put_uint64}
use meta_co_sign.Result.{Result, ok, or_fail, or_fail-ok, encode_error, decode_error, ◌>>=◌}
use meta_co_sign.Store.{Codec}

-- the messages of the two requests
pub record AddressRequest : Type 0 where
  pub request_address : Bytes
  pub request_id : Bytes

pub record StateRequest (P : Primitives) : Type 0 where
  pub request_state : AccountMessage P
  pub request_state_id : Bytes

module _ (P : Primitives) where
  open P use {Address, address_bytes, bytes_to_address, zero_address}

  unfoldable pub marshal : Codec (AccountMessage P) → AccountState P → Result Bytes
  marshal C acc = or_fail encode_error (C.marshal (proto P acc))

  unfoldable pub unmarshal :
      Codec (AccountMessage P) → Bytes → AccountState P → Result (AccountState P)
  unmarshal C b acc = do m ← or_fail decode_error (C.unmarshal b); ok (from_proto P m acc)

  unfoldable pub marshal_get_account_state_with_id_request :
      Codec AddressRequest → Address → Bytes → Result Bytes
  marshal_get_account_state_with_id_request C a id =
      or_fail encode_error
        (C.marshal (record { request_address = address_bytes a; request_id = id }))

  unfoldable pub unmarshal_get_account_state_with_id_request :
      Codec AddressRequest → Bytes → Result (Address × Bytes)
  unmarshal_get_account_state_with_id_request C b = do
    m ← or_fail decode_error (C.unmarshal b)
    ok (bytes_to_address m.request_address, m.request_id)

  unfoldable pub marshal_account_state_with_id_request :
      Codec (StateRequest P) → AccountState P → Bytes → Result Bytes
  marshal_account_state_with_id_request C acc id =
      or_fail encode_error
        (C.marshal (record { request_state = proto P acc; request_state_id = id }))

  -- `&AccountState{}`, whose two balances are nil until they are set: no integer stands for them, and
  -- 0 is put here.
  unfoldable pub zero_account_state : AccountState P
  unfolding new_account_state
  zero_account_state = new_account_state P zero_address

  unfoldable pub unmarshal_account_state_with_id_request :
      Codec (StateRequest P) → Bytes → Result (AccountState P × Bytes)
  unmarshal_account_state_with_id_request C b = do
    m ← or_fail decode_error (C.unmarshal b)
    ok (from_proto P m.request_state zero_account_state, m.request_state_id)

  -- what a Go account state is: a `uint64` nonce, a key of 48 bytes for its contract
  pub record IsAccount (acc : AccountState P) : Type 0 where
    pub nonce_fits : acc.nonce < two64
    pub contract_key :
        (ss : SmartContractState P)
        → acc.smart_contract_state ≡ some ss
        → length ss.create_public_key ≡ 48
    pub balance_natural : (n : ℕ) × (acc.balance ≡ pos n)
    pub pending_natural : (n : ℕ) × (acc.pending_balance ≡ pos n)

module _ (P : Primitives) where
  natural_round : (z : ℤ) → ((n : ℕ) × (z ≡ pos n)) → set_bytes (bytes z) ≡ z
  natural_round z (n, e) = rw e (set_bytes-bytes n)

  nonce_round : (n : ℕ) → n < two64 → nonce_from P (put_uint64 n) ≡ n
  unfolding nonce_from
  nonce_round n h = rw (length-put_uint64 n, read_uint64-put_uint64 n h) refl

  contract_round :
      (c : Option (SmartContractState P))
      → ((ss : SmartContractState P) → c ≡ some ss → length ss.create_public_key ≡ 48)
      → contract_from P (map_option (contract_proto P) c) none ≡ c
  unfolding contract_from
  contract_round none h = refl
  contract_round (some ss) h = ap some (contract_from_proto-contract_proto P ss (h ss refl))

  from_proto-proto :
      (acc blank : AccountState P)
      → IsAccount P acc
      → blank.smart_contract_state ≡ none
      → from_proto P (proto P acc) blank ≡ acc
  unfolding proto from_proto
  from_proto-proto acc blank valid e =
      rw
        (
          e,
          P.bytes_to_address-address_bytes acc.address,
          P.bytes_to_hash-hash_bytes acc.last_hash,
          natural_round acc.balance valid.balance_natural,
          natural_round acc.pending_balance valid.pending_natural,
          P.bytes_to_hash-hash_bytes acc.device_key,
          contract_round acc.smart_contract_state valid.contract_key,
          nonce_round acc.nonce valid.nonce_fits,
        )
        refl

  -- An account state with balances that are not negative, which is marshalled without an error, is
  -- unmarshalled as it was into any state that has no contract.
  pub unmarshal-marshal-account :
      (C : Codec (AccountMessage P)) (acc blank : AccountState P) (b : Bytes)
      → IsAccount P acc
      → blank.smart_contract_state ≡ none
      → marshal P C acc ≡ ok b
      → unmarshal P C b blank ≡ ok acc
  unfolding marshal unmarshal
  unmarshal-marshal-account C acc blank b valid e h =
      let written : C.marshal (proto P acc) ≡ some b = or_fail-ok _ (C.marshal (proto P acc)) h in
      rw (C.unmarshal-marshal (proto P acc) b written, from_proto-proto acc blank valid e) refl

  -- Both requests are read back with what they were made of.
  pub unmarshal-marshal-requests :
      (C : Codec AddressRequest) (D : Codec (StateRequest P)) (acc : AccountState P)
      (id b d : Bytes)
      → IsAccount P acc
      → marshal_get_account_state_with_id_request P C acc.address id ≡ ok b
      → marshal_account_state_with_id_request P D acc id ≡ ok d
      → (unmarshal_get_account_state_with_id_request P C b ≡ ok (acc.address, id))
        × (unmarshal_account_state_with_id_request P D d ≡ ok (acc, id))
  unfolding marshal_get_account_state_with_id_request unmarshal_get_account_state_with_id_request
      marshal_account_state_with_id_request unmarshal_account_state_with_id_request
      zero_account_state new_account_state
  unmarshal-marshal-requests C D acc id b d valid h h' = (
    rw
        (
          C.unmarshal-marshal _ b (or_fail-ok _ (C.marshal _) h),
          P.bytes_to_address-address_bytes acc.address,
        )
        refl,
    rw
        (
          D.unmarshal-marshal _ d (or_fail-ok _ (D.marshal _) h'),
          from_proto-proto acc (zero_account_state P) valid refl,
        )
        refl,
  )

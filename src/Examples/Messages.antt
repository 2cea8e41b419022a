-- ===== src/Examples/Messages.antt =====
-- Protobuf messages by small concrete encoders: the fields one after the other, each behind its
-- length.
use meta_co_sign.AccountState.Account.{AccountMessage}
use meta_co_sign.AccountState.Contract.{SmartContractMessage}
use meta_co_sign.AccountState.Codec.{AddressRequest, StateRequest}
use meta_co_sign.Base.{
  ℕ, Bool, true, false, ◌≡◌, refl, subst, inl, inr, Option-cases, Option, none, some, ◌==◌,
}
use meta_co_sign.BlsAccounts.{BlsAccountData, PendingTransaction}
use meta_co_sign.Bytes.{Bytes}
use meta_co_sign.Examples.Accounts.{primitives}
use meta_co_sign.Examples.Memory.{pack, fields, fields-pack}
use meta_co_sign.Store.{Codec}

unfoldable pub parts : Bytes → Option (Bytes × ℕ × Bytes)
parts b = fields (λ a t r. (a, t, r)) b

pub parts-pack : (a : Bytes) (t : ℕ) (r : Bytes) → parts (pack a t r) ≡ some (a, t, r)
unfolding parts
parts-pack a t r = fields-pack (λ a t r. (a, t, r)) a t r (pack a t r) refl

abbrev pub then_parts :
    {B : Type 0} → Option (Bytes × ℕ × Bytes) → (Bytes → ℕ → Bytes → Option B) → Option B
then_parts none k = none
then_parts (some (a, t, r)) k = k a t r

pub some_injective : {x y : Bytes} → some x ≡ some y → x ≡ y
some_injective e = cc

abbrev bit : Bool → ℕ
bit true = 1
bit false = 0

bit_eq : (b : Bool) → (bit b == 1) ≡ b
bit_eq true = refl
bit_eq false = refl

abbrev write_account : BlsAccountData → Bytes
write_account x = pack x.address x.registered_at (
    pack x.bls_public_key x.confirmed_at
      (pack x.register_tx_hash (bit x.is_confirmed) x.confirm_tx_hash))

abbrev read_account : Bytes → Option BlsAccountData
read_account b = then_parts (parts b) (λ a t r. then_parts (parts r) (λ k u s.
    then_parts (parts s) (λ h c f. some (record {
      address = a;
      bls_public_key = k;
      registered_at = t;
      register_tx_hash = h;
      is_confirmed = c == 1;
      confirmed_at = u;
      confirm_tx_hash = f;
    }))))

pub read_account-write_account : (x : BlsAccountData) → read_account (write_account x) ≡ some x
read_account-write_account x =
    rw
      (
        parts-pack x.address x.registered_at (
            pack x.bls_public_key x.confirmed_at
              (pack x.register_tx_hash (bit x.is_confirmed) x.confirm_tx_hash)),
        parts-pack x.bls_public_key x.confirmed_at
            (pack x.register_tx_hash (bit x.is_confirmed) x.confirm_tx_hash),
        parts-pack x.register_tx_hash (bit x.is_confirmed) x.confirm_tx_hash,
        bit_eq x.is_confirmed,
      )
      refl

abbrev pub accounts : Codec BlsAccountData
accounts = record {
  marshal = λ x. some (write_account x);
  unmarshal = read_account;
  unmarshal-marshal = λ x b e.
      subst (λ c. read_account c ≡ some x) (some_injective e) (read_account-write_account x);
}

abbrev pub write_fields : AccountMessage primitives → Bytes
write_fields x = pack x.address_field x.account_type_field (
    pack x.last_hash_field 0 (
      pack x.balance_field 0 (
        pack x.pending_balance_field 0
          (pack x.device_key_field 0 (pack x.nonce_field 0 x.public_key_bls_field)))))

abbrev pub only_without : Option (SmartContractMessage primitives) → Bytes → Option Bytes
only_without none b = some b
only_without (some m) b = none

-- An account's message, unless it has a contract: that is an error of this encoder.
abbrev pub write_state : AccountMessage primitives → Option Bytes
write_state x = only_without x.smart_contract_state_field (write_fields x)

abbrev pub read_state : Bytes → Option (AccountMessage primitives)
read_state b = then_parts (parts b) (λ a t r. then_parts (parts r) (λ l u s.
    then_parts (parts s) (λ c v w. then_parts (parts w) (λ d x y. then_parts (parts y) (λ e z f.
      then_parts (parts f) (λ n o k. some (record {
        address_field = a;
        last_hash_field = l;
        balance_field = c;
        pending_balance_field = d;
        device_key_field = e;
        smart_contract_state_field = none;
        nonce_field = n;
        public_key_bls_field = k;
        account_type_field = t;
      })))))))

read_state-write_fields :
    (x : AccountMessage primitives)
    → x.smart_contract_state_field ≡ none
    → read_state (write_fields x) ≡ some x
read_state-write_fields x h =
    rw
      (
        parts-pack x.address_field x.account_type_field _,
        parts-pack x.last_hash_field 0 _,
        parts-pack x.balance_field 0 _,
        parts-pack x.pending_balance_field 0 _,
        parts-pack x.device_key_field 0 _,
        parts-pack x.nonce_field 0 _,
        h,
      )
      refl

pub read_state-write_state :
    (x : AccountMessage primitives) (b : Bytes) → write_state x ≡ some b → read_state b ≡ some x
read_state-write_state x b e = elim (Option-cases x.smart_contract_state_field) [
  | inl bare ↦
      subst (λ c. read_state c ≡ some x) (some_injective (rw bare at e))
        (read_state-write_fields x bare)
  | inr (m, has) ↦ cc
]

abbrev pub states : Codec (AccountMessage primitives)
states = record {
  marshal = write_state;
  unmarshal = read_state;
  unmarshal-marshal = read_state-write_state;
}

abbrev pub read_request : Bytes → Option AddressRequest
read_request b =
    then_parts (parts b) (λ a t id. some (record { request_address = a; request_id = id }))

pub read_request-pack :
    (x : AddressRequest) (b : Bytes)
    → some (pack x.request_address 0 x.request_id) ≡ some b
    → read_request b ≡ some x
read_request-pack x b e =
    subst (λ c. read_request c ≡ some x) (some_injective e)
      (rw (parts-pack x.request_address 0 x.request_id) refl)

abbrev pub address_requests : Codec AddressRequest
address_requests = record {
  marshal = λ x. some (pack x.request_address 0 x.request_id);
  unmarshal = read_request;
  unmarshal-marshal = read_request-pack;
}

abbrev pub with_id : Bytes → Option Bytes → Option Bytes
with_id id none = none
with_id id (some b) = some (pack id 0 b)

abbrev pub with_state :
    Bytes → Option (AccountMessage primitives) → Option (StateRequest primitives)
with_state id none = none
with_state id (some m) = some (record { request_state = m; request_state_id = id })

abbrev pub read_state_request : Bytes → Option (StateRequest primitives)
read_state_request b = then_parts (parts b) (λ id t r. with_state id (read_state r))

pub read_state_request-with_id :
    (x : StateRequest primitives) (b : Bytes)
    → with_id x.request_state_id (write_state x.request_state) ≡ some b
    → read_state_request b ≡ some x
read_state_request-with_id x b e = elim (Option-cases (write_state x.request_state)) [
  | inl bare ↦ cc
  | inr (m, has) ↦
      subst (λ c. read_state_request c ≡ some x) (some_injective (rw has at e))
        (rw (parts-pack x.request_state_id 0 m, read_state-write_state x.request_state m has) refl)
]

abbrev pub state_requests : Codec (StateRequest primitives)
state_requests = record {
  marshal = λ x. with_id x.request_state_id (write_state x.request_state);
  unmarshal = read_state_request;
  unmarshal-marshal = read_state_request-with_id;
}

abbrev pub write_pending : PendingTransaction → Bytes
write_pending x = pack x.tx_address x.created_at (
    pack x.tx_bls_public_key x.nonce
      (pack x.raw_transaction_hex x.original_gas_price (pack x.b_tx 0 x.mt_tx_hash)))

abbrev pub read_pending : Bytes → Option PendingTransaction
read_pending b = then_parts (parts b) (λ a t r. then_parts (parts r) (λ k n s.
    then_parts (parts s) (λ w g u. then_parts (parts u) (λ x z m. some (record {
      tx_address = a;
      tx_bls_public_key = k;
      raw_transaction_hex = w;
      created_at = t;
      nonce = n;
      original_gas_price = g;
      b_tx = x;
      mt_tx_hash = m;
    })))))

pub read_pending-write_pending : (x : PendingTransaction) → read_pending (write_pending x) ≡ some x
read_pending-write_pending x =
    rw
      (
        parts-pack x.tx_address x.created_at _,
        parts-pack x.tx_bls_public_key x.nonce _,
        parts-pack x.raw_transaction_hex x.original_gas_price _,
        parts-pack x.b_tx 0 _,
      )
      refl

abbrev pub pendings : Codec PendingTransaction
pendings = record {
  marshal = λ x. some (write_pending x);
  unmarshal = read_pending;
  unmarshal-marshal = λ x b e.
      subst (λ c. read_pending c ≡ some x) (some_injective e) (read_pending-write_pending x);
}

-- ===== src/Examples/Requests.antt =====
-- The theorems on the messages of account states at concrete inputs.
use meta_co_sign.AccountState.Account.{AccountState, proto}
use meta_co_sign.AccountState.Codec.{
  IsAccount, marshal, unmarshal, marshal_get_account_state_with_id_request,
  unmarshal_get_account_state_with_id_request, marshal_account_state_with_id_request,
  unmarshal_account_state_with_id_request, unmarshal-marshal-account, unmarshal-marshal-requests,
}
use meta_co_sign.AccountState.PublicKey.{
  Update, set_field, from_message, from_bytes, public_key, one_more_nonce, updates, ReadsKey,
  updates-public_key_bls,
}
use meta_co_sign.Base.{◌≡◌, refl, sym, ap, ◌∙◌, arith, none, some, List, [], ◌∷◌, replicate, length}
use meta_co_sign.Bytes.{Bytes}
use meta_co_sign.Examples.Accounts.{primitives, sample}
use meta_co_sign.Examples.Messages.{states, write_fields, address_requests, state_requests}
use meta_co_sign.Examples.Memory.{pack}
use meta_co_sign.AccountState.Integer.{pos}
use meta_co_sign.Result.{ok}

sample-IsAccount : IsAccount primitives sample
sample-IsAccount = record {
  nonce_fits = omega arith;
  contract_key = λ ss e. absurd (ground arith);
  balance_natural = (70, refl);
  pending_natural = (30, refl);
}

abbrev blank : AccountState primitives
blank = record sample { nonce = 0; balance = pos 1; public_key_bls = [] }

sample_bytes : Bytes
unfolding proto
sample_bytes = write_fields (proto primitives sample)

unmarshal-marshal-account_example : unmarshal primitives states sample_bytes blank ≡ ok sample
unfolding sample_bytes marshal proto
unmarshal-marshal-account_example =
    unmarshal-marshal-account primitives states sample blank sample_bytes sample-IsAccount refl refl

unmarshal-marshal-requests_example :
    (unmarshal_get_account_state_with_id_request primitives address_requests
        (pack sample.address 0 (7 ∷ []))
      ≡ ok (sample.address, 7 ∷ []))
    × (unmarshal_account_state_with_id_request primitives state_requests
          (pack (7 ∷ []) 0 sample_bytes)
        ≡ ok (sample, 7 ∷ []))
unfolding sample_bytes marshal_get_account_state_with_id_request
    marshal_account_state_with_id_request proto
unmarshal-marshal-requests_example =
    unmarshal-marshal-requests primitives address_requests state_requests sample (7 ∷ [])
      (pack sample.address 0 (7 ∷ [])) (pack (7 ∷ []) 0 sample_bytes) sample-IsAccount refl refl

abbrev other_key : AccountState primitives
other_key = record sample { public_key_bls = replicate 48 8 }

abbrev changes : List (Update primitives)
changes =
    set_field (public_key (replicate 48 7))
    ∷ from_bytes sample_bytes
    ∷ from_message (proto primitives other_key)
    ∷ set_field (public_key (replicate 48 7))
    ∷ set_field one_more_nonce
    ∷ []

sample_bytes-ReadsKey : ReadsKey primitives states (from_bytes sample_bytes)
unfolding sample_bytes proto
sample_bytes-ReadsKey m e =
    let read : states.unmarshal sample_bytes ≡ some (proto primitives sample) =
      states.unmarshal-marshal (proto primitives sample) sample_bytes refl in
    let same : some (proto primitives sample) ≡ some m = sym read ∙ e in
    sym (ap (λ o. elim o [ none ↦ 0 | some n ↦ length n.public_key_bls_field ]) same)

updates-public_key_bls_example :
    (updates primitives states changes sample).public_key_bls ≡ replicate 48 8
unfolding proto sample_bytes
updates-public_key_bls_example =
    updates-public_key_bls primitives states changes sample refl
      (tt, (sample_bytes-ReadsKey, (refl, (tt, (tt, tt)))))

-- ===== src/BlsAccounts/Keys.antt =====
-- The keys and the index entries of pkg/storage/bls_account_storage.go: which keys are distinct, and
-- that an index entry is read as it was written.
use meta_co_sign.Base.{
  ℕ, zero, suc, ◌-◌, ◌<◌, ◌≡◌, refl, ◌∙◌, Bool, true, false, inl, inr, some, [], ◌∷◌, ◌++◌, arith,
  ◌==◌, leb, length, All, Bool-cases, replicate,
}
use meta_co_sign.BlsAccounts.{
  pad_id, split_colon, prepend, flag, prefix_of, is_one, parse_index, decode_reverse_index,
  get_reverse_index_key, data_key, count_key, index_value,
}
use meta_co_sign.Bytes.{Bytes, codes, bytes_eq, bytes_eq-append}
use meta_co_sign.Bytes.Decimal.{zero_pad, format_uint, format_uint-digits}
use meta_co_sign.Result.{ok}
use meta_co_sign.Store.{found, LevelDb, Addresses}

All-append :
    (xs ys : Bytes) → All (λ c. c < 58) xs → All (λ c. c < 58) ys → All (λ c. c < 58) (xs ++ ys)
All-append [] ys h k = k
All-append (x ∷ xs) ys h k = (h.0, All-append xs ys h.1 k)

zeros-All : (k : ℕ) → All (λ c. c < 58) (replicate k 48)
zeros-All zero = tt
zeros-All (suc k) = (omega arith, zeros-All k)

-- A padded identifier holds no colon, nor any letter.
pub pad_id-digits : (id : ℕ) → All (λ c. c < 58) (pad_id id)
unfolding pad_id zero_pad
pad_id-digits id = elim (Bool-cases (leb 10 (length (format_uint id)))) [
  | inl long ↦ rw long (format_uint-digits id)
  | inr short ↦ rw short (
      All-append (replicate (10 - length (format_uint id)) 48) (format_uint id) (zeros-All _)
        (format_uint-digits id))
]

split_colon-digits : (s : Bytes) → All (λ c. c < 58) s → split_colon s ≡ s ∷ []
unfolding split_colon prepend
split_colon-digits [] h = refl
split_colon-digits (b ∷ bs) h =
    let e : (b == 58) ≡ false = ground (arith, h.0) in rw (e, split_colon-digits bs h.1) refl

module _ (L : LevelDb) (E : Addresses) (hex2 : Bytes → Bytes) where
  pub decode_reverse_index-index_value :
      (c : Bool) (id : ℕ)
      → decode_reverse_index (found (index_value L E hex2 c (pad_id id))) ≡ ok (some (pad_id id, c))
  unfolding decode_reverse_index index_value flag parse_index is_one split_colon prepend
  decode_reverse_index-index_value true id =
      rw (split_colon-digits (pad_id id) (pad_id-digits id)) refl
  decode_reverse_index-index_value false id =
      rw (split_colon-digits (pad_id id) (pad_id-digits id)) refl

  pub data_key-index_key :
      (c : Bool) (pk padded_id : Bytes) (a : E.Address) (qk : Bytes)
      → bytes_eq (data_key L E hex2 c pk padded_id) (get_reverse_index_key L E hex2 a qk) ≡ false
  unfolding bytes_eq data_key prefix_of get_reverse_index_key
  data_key-index_key true pk padded_id a qk = refl
  data_key-index_key false pk padded_id a qk = refl

  pub count_key-index_key :
      (c : Bool) (pk : Bytes) (a : E.Address) (qk : Bytes)
      → bytes_eq (count_key L E hex2 c pk) (get_reverse_index_key L E hex2 a qk) ≡ false
  unfolding bytes_eq count_key prefix_of get_reverse_index_key
  count_key-index_key true pk a qk = refl
  count_key-index_key false pk a qk = refl

  count_ne_digits : (s : Bytes) → All (λ c. c < 58) s → (t : Bytes) → bytes_eq (99 ∷ t) s ≡ false
  unfolding bytes_eq
  count_ne_digits [] h t = refl
  count_ne_digits (b ∷ bs) h t = let e : (99 == b) ≡ false = ground (arith, h.0) in rw e refl

  pub count_key-data_key :
      (c : Bool) (pk : Bytes) (id : ℕ)
      → bytes_eq (count_key L E hex2 c pk) (data_key L E hex2 c pk (pad_id id)) ≡ false
  unfolding count_key data_key bytes_eq prefix_of
  count_key-data_key true pk id =
      bytes_eq-append (hex2 pk) (58 ∷ codes "count") (58 ∷ pad_id id)
      ∙ count_ne_digits (pad_id id) (pad_id-digits id) (codes "ount")
  count_key-data_key false pk id =
      bytes_eq-append (hex2 pk) (58 ∷ codes "count") (58 ∷ pad_id id)
      ∙ count_ne_digits (pad_id id) (pad_id-digits id) (codes "ount")

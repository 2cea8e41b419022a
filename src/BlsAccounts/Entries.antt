-- ===== src/BlsAccounts/Entries.antt =====
-- The messages of pkg/storage/bls_account_storage.go, and how its identifiers, index entries and
-- counts are written.
use meta_co_sign.Base.{ℕ, Bool, true, false, Option, none, some, List, [], ◌∷◌, ◌==◌, if◌then◌else◌}
use meta_co_sign.Bytes.{Bytes, codes}
use meta_co_sign.Bytes.Decimal.{format_uint, parse_uint, zero_pad}
use meta_co_sign.Bytes.Word.{read_uint64}
use meta_co_sign.Result.{Result, ok, fail, invalid_index, or_panic}
use meta_co_sign.Store.{Read, found, not_found, read_failed}

-- the messages of pkg/proto
pub record BlsAccountData : Type 0 where
  pub address : Bytes
  pub bls_public_key : Bytes
  pub registered_at : ℕ
  pub register_tx_hash : Bytes
  pub is_confirmed : Bool
  pub confirmed_at : ℕ
  pub confirm_tx_hash : Bytes

pub record PendingTransaction : Type 0 where
  pub tx_address : Bytes
  pub tx_bls_public_key : Bytes
  pub raw_transaction_hex : Bytes
  pub created_at : ℕ
  pub nonce : ℕ
  pub original_gas_price : ℕ
  pub b_tx : Bytes
  pub mt_tx_hash : Bytes

abbrev pub id_padding_length : ℕ
id_padding_length = 10

unfoldable pub pad_id : ℕ → Bytes
pad_id id = zero_pad id_padding_length (format_uint id)

unfoldable pub unpad_id : Bytes → Option ℕ
unpad_id s = parse_uint s

-- `strings.Split(s, ":")`
unfoldable pub prepend : ℕ → List Bytes → List Bytes
prepend b [] = (b ∷ []) ∷ []
prepend b (part ∷ parts) = (b ∷ part) ∷ parts

unfoldable pub split_colon : Bytes → List Bytes
unfolding prepend
split_colon [] = [] ∷ []
split_colon (b ∷ bs) = let rest = split_colon bs in if b == 58 then [] ∷ rest else prepend b rest

unfoldable pub flag : Bool → Bytes
flag true = codes "1"
flag false = codes "0"

unfoldable pub prefix_of : Bool → Bytes
prefix_of true = codes "bc:"
prefix_of false = codes "bu:"

unfoldable pub is_one : Bytes → Bool
is_one (b ∷ []) = b == 49
is_one [] = false
is_one (b ∷ c ∷ bs) = false

-- What an index entry says: the padded identifier and whether the account is confirmed.
unfoldable pub parse_index : List Bytes → Result (Option (Bytes × Bool))
unfolding is_one
parse_index (left ∷ right ∷ []) = ok (some (right, is_one left))
parse_index [] = fail invalid_index
parse_index (p ∷ []) = fail invalid_index
parse_index (p ∷ q ∷ r ∷ ps) = fail invalid_index

-- Any error of a read counts as "not there".
unfoldable pub decode_reverse_index : Read → Result (Option (Bytes × Bool))
unfolding parse_index split_colon
decode_reverse_index (found v) = parse_index (split_colon v)
decode_reverse_index not_found = ok none
decode_reverse_index read_failed = ok none

unfoldable pub decode_count_or_zero : Read → Result ℕ
decode_count_or_zero (found v) = or_panic (read_uint64 v)
decode_count_or_zero not_found = ok 0
decode_count_or_zero read_failed = ok 0

-- `a == b` on flags
unfoldable pub same_flag : Bool → Bool → Bool
same_flag true b = b
same_flag false true = false
same_flag false false = true

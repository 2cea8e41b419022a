-- ===== src/Registry/Keys.antt =====
-- The keys of one family: which are equal, and what a batch of writes does at each.
use meta_co_sign.Base.{
  ℕ, ◌<◌, ◌≡◌, refl, ap, ◌∙◌, inl, inr, true, false, some, ◌++◌, arith, ◌==◌, ==_iff, Bool-cases,
}
use meta_co_sign.Bytes.{Bytes, bytes_eq, bytes_eq_iff, bytes_eq_comm, bytes_eq-append}
use meta_co_sign.Bytes.Decimal.{parse_uint-zero_pad-format_uint}
use meta_co_sign.Bytes.Word.{two64}
use meta_co_sign.Registry.{Family, pad_entity_id, unpad_entity_id}
use meta_co_sign.Store.{Addresses}

-- An identifier that was padded is parsed back.
pub unpad_entity_id-pad_entity_id :
    (id : ℕ) → id < two64 → unpad_entity_id (pad_entity_id id) ≡ some id
unfolding unpad_entity_id pad_entity_id
unpad_entity_id-pad_entity_id id h = parse_uint-zero_pad-format_uint 10 id h

pub pad_entity_id_injective :
    (i j : ℕ) → i < two64 → j < two64 → pad_entity_id i ≡ pad_entity_id j → i ≡ j
pad_entity_id_injective i j hi hj e = ground (
  arith,
  unpad_entity_id-pad_entity_id i hi,
  unpad_entity_id-pad_entity_id j hj,
  ap unpad_entity_id e,
)

bytes_eq-pad_entity_id :
    (i j : ℕ) → i < two64 → j < two64 → bytes_eq (pad_entity_id i) (pad_entity_id j) ≡ (i == j)
bytes_eq-pad_entity_id i j hi hj = elim (Bool-cases (i == j)) [
  | inl same ↦ rw same ((bytes_eq_iff _ _).1 (ap pad_entity_id ((==_iff i j).0 same)))
  | inr differ ↦ ground (
    arith,
    (bytes_eq_iff (pad_entity_id i) (pad_entity_id j)).0,
    pad_entity_id_injective i j hi hj,
  )
]

-- No key of one sort is a key of another.
pub record IsSeparated (f : Family) : Type 0 where
  pub data_ne_index : (s t : Bytes) → bytes_eq (f.data_prefix ++ s) (f.index_prefix ++ t) ≡ false
  pub data_ne_count : (s : Bytes) → bytes_eq (f.data_prefix ++ s) f.count_key ≡ false
  pub index_ne_count : (s : Bytes) → bytes_eq (f.index_prefix ++ s) f.count_key ≡ false

module _ (E : Addresses) where
  open E use {Address, address_eq, address_eq_iff, hex, hex_injective}

  pub bytes_eq-hex : (a b : Address) → bytes_eq (hex a) (hex b) ≡ address_eq a b
  bytes_eq-hex a b = elim (Bool-cases (address_eq a b)) [
    | inl same ↦ rw same ((bytes_eq_iff _ _).1 (ap hex ((address_eq_iff a b).0 same)))
    | inr differ ↦ elim (Bool-cases (bytes_eq (hex a) (hex b))) [
      | inl clash ↦ cc ((address_eq_iff a b).1 (hex_injective a b ((bytes_eq_iff _ _).0 clash)))
      | inr apart ↦ rw differ apart
    ]
  ]

  pub address_eq_refl : (a : Address) → address_eq a a ≡ true
  address_eq_refl a = (address_eq_iff a a).1 refl

abbrev pub data_key : Family → ℕ → Bytes
data_key f i = f.data_prefix ++ pad_entity_id i

abbrev pub index_key : (E : Addresses) → Family → E.Address → Bytes
index_key E f a = f.index_prefix ++ E.hex a

module _ (E : Addresses) (f : Family) (separated : IsSeparated f) where
  open E use {Address, address_eq}

  pub data_eq :
      (i j : ℕ) → i < two64 → j < two64 → bytes_eq (data_key f i) (data_key f j) ≡ (i == j)
  data_eq i j hi hj = bytes_eq-append f.data_prefix _ _ ∙ bytes_eq-pad_entity_id i j hi hj

  pub index_eq : (a b : Address) → bytes_eq (index_key E f a) (index_key E f b) ≡ address_eq a b
  index_eq a b = bytes_eq-append f.index_prefix _ _ ∙ bytes_eq-hex E a b

  pub index_ne_data : (s t : Bytes) → bytes_eq (f.index_prefix ++ s) (f.data_prefix ++ t) ≡ false
  index_ne_data s t = bytes_eq_comm _ _ ∙ separated.data_ne_index t s

  pub count_ne_data : (s : Bytes) → bytes_eq f.count_key (f.data_prefix ++ s) ≡ false
  count_ne_data s = bytes_eq_comm _ _ ∙ separated.data_ne_count s

  pub count_ne_index : (s : Bytes) → bytes_eq f.count_key (f.index_prefix ++ s) ≡ false
  count_ne_index s = bytes_eq_comm _ _ ∙ separated.index_ne_count s

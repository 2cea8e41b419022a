-- ===== src/Store.antt =====
-- What the storage code takes from outside the repository, as interfaces: LevelDB (through the
-- wrapper pkg/ldb_storage/storage.go), go-ethereum's addresses, and the protobuf messages.
use meta_co_sign.Base.{◌≡◌, ◌↔◌, Bool, true, Option, some, List, [], ◌∷◌, if◌then◌else◌}
use meta_co_sign.Bytes.{Bytes, bytes_eq}

-- The result of a read: the value, `leveldb.ErrNotFound`, or any other error.
pub data Read : Type 0 where
  found : Bytes → Read
  not_found read_failed : Read

-- An entry of a `leveldb.Batch`.
pub data Op : Type 0 where
  put : Bytes → Bytes → Op
  delete : Bytes → Op

-- What a read of one key returns after a batch, from what it returned before: the entries take
-- effect in order.
unfoldable pub overlay : List Op → Bytes → Read → Read
overlay [] k r = r
overlay (put j v ∷ ops) k r = overlay ops k (if bytes_eq j k then found v else r)
overlay (delete j ∷ ops) k r = overlay ops k (if bytes_eq j k then not_found else r)

-- A LevelDB database. A write is atomic: it fails and changes nothing (`none`), or all of its
-- entries take effect.
pub record LevelDb : Type 1 where
  pub Db : Type 0
  pub get : Db → Bytes → Read
  pub write : List Op → Db → Option Db
  pub get-write :
      (ops : List Op) (before after : Db) (k : Bytes)
      → write ops before ≡ some after
      → get after k ≡ overlay ops k (get before k)

-- `common.Address` with the functions on it that the program calls: `Hex`, `Bytes` and
-- `BytesToAddress`, and `==`.
pub record Addresses : Type 1 where
  pub Address : Type 0
  pub address_eq : Address → Address → Bool
  pub address_eq_iff : (a b : Address) → (address_eq a b ≡ true) ↔ (a ≡ b)
  pub hex : Address → Bytes
  pub hex_injective : (a b : Address) → hex a ≡ hex b → a ≡ b
  pub to_bytes : Address → Bytes
  pub bytes_to_address : Bytes → Address
  pub bytes_to_address-to_bytes : (a : Address) → bytes_to_address (to_bytes a) ≡ a

-- `proto.Marshal` and `proto.Unmarshal` at one message type.
pub record Codec (A : Type 0) : Type 0 where
  pub marshal : A → Option Bytes
  pub unmarshal : Bytes → Option A
  pub unmarshal-marshal : (a : A) (b : Bytes) → marshal a ≡ some b → unmarshal b ≡ some a

pub found_injective : {v w : Bytes} → found v ≡ found w → v ≡ w
found_injective e = cc

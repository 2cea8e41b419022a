-- ===== src/MemoryDb/Iterator.antt =====
-- The iterator of pkg/storage/memorydb.go over the texts of the keys, and `GetSnapShot`. It reads
-- the database as it is now, which the calls take.
use meta_co_sign.Base.{
  ℕ, zero, suc, Bool, true, false, Option, none, some, List, map, length, get_elem?, ◌==◌,
  if◌then◌else◌,
}
use meta_co_sign.Bytes.{Bytes}
use meta_co_sign.MemoryDb.{MemoryDb, key32, new_memory_db}
use meta_co_sign.Result.{Result, ok, fail, panic, or_panic, ◌>>=◌}
use meta_co_sign.Trie.Marshal.{or_nil}
use meta_co_sign.Trie.Tracer.{store}

pub record MemoryDbIterator : Type 0 where
  pub keys : List Bytes
  pub idx : ℕ

unfoldable pub next : MemoryDbIterator → Bool × MemoryDbIterator
next it = if length it.keys == it.idx then (false, it) else (true, record it { idx = suc it.idx })

-- `keys[idx-1]`
unfoldable pub before : List Bytes → ℕ → Result Bytes
before keys zero = panic
before keys (suc i) = or_panic (get_elem? keys i)

-- The loop is over when the call of `Next` says so, and with it a panic.
abbrev pub then_copy :
    Result MemoryDb → (MemoryDb → Option (Result MemoryDb)) → Option (Result MemoryDb)
then_copy (ok db) k = k db
then_copy (fail e) k = some (fail e)
then_copy panic k = some panic

module _ (from_hex : Bytes → Bytes) where
  unfoldable pub key : MemoryDbIterator → Result Bytes
  unfolding before
  key it = do k ← before it.keys it.idx; ok (from_hex k)

  -- A key that is gone gives nil.
  unfoldable pub value : MemoryDbIterator → MemoryDb → Result Bytes
  unfolding before key32
  value it db = do k ← before it.keys it.idx; ok (or_nil (db (key32 (from_hex k))))

  unfoldable pub copy_entry : MemoryDbIterator → MemoryDb → MemoryDb → Result MemoryDb
  unfolding key value key32
  copy_entry it db new = do k ← key it; v ← value it db; ok (store (key32 k) (some v) new)

  unfoldable pub copy_entries :
      ℕ → MemoryDbIterator → MemoryDb → MemoryDb → Option (Result MemoryDb)
  unfolding next copy_entry
  copy_entries zero it db new = none
  copy_entries (suc fuel) it db new =
      let (more, it') = next it in
      let rest = then_copy (copy_entry it' db new) (copy_entries fuel it' db) in
      if more then rest else some (ok new)

-- `range` has the keys as the loop over the map gives them.
module _ (hex_encode : Bytes → Bytes) (sort_strings : List Bytes → List Bytes) where
  unfoldable pub new_memory_db_iterator : List Bytes → MemoryDbIterator
  new_memory_db_iterator range = record { keys = sort_strings (map hex_encode range); idx = 0 }

  unfoldable pub get_snap_shot :
      (Bytes → Bytes) → ℕ → List Bytes → MemoryDb → Option (Result MemoryDb)
  unfolding copy_entries new_memory_db_iterator new_memory_db
  get_snap_shot from_hex fuel range db =
      copy_entries from_hex fuel (new_memory_db_iterator range) db new_memory_db

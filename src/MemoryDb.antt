-- ===== src/MemoryDb.antt =====
-- pkg/storage/memorydb.go: a database in memory, whose keys are 32 bytes. A Go map is a function. A
-- call is one step, as its lock makes it.
pub mod Iterator
pub mod Overlay
pub mod Snapshot
use meta_co_sign.Base.{
  ℕ, Bool, true, false, Option, none, some, List, [], ◌∷◌, ◌++◌, if◌then◌else◌, take, replicate,
}
use meta_co_sign.Bytes.{Bytes}
use meta_co_sign.Registry.{is_some}
use meta_co_sign.Result.{Result, ok, fail, panic, entry_not_found}
use meta_co_sign.Store.{Read, found, not_found}
use meta_co_sign.Trie.Tracer.{store}

abbrev pub MemoryDb : Type 0
MemoryDb = Bytes → Option Bytes

-- `copy(bytes32[:], key)`: the first 32 bytes, filled up with zeros
unfoldable pub key32 : Bytes → Bytes
key32 key = take 32 (key ++ replicate 32 0)

unfoldable pub new_memory_db : MemoryDb
new_memory_db key = none

abbrev pub read_of : Option Bytes → Read
read_of none = not_found
read_of (some v) = found v

unfoldable pub get : Bytes → MemoryDb → Read
unfolding key32
get key db = read_of (db (key32 key))

unfoldable pub put : Bytes → Bytes → MemoryDb → MemoryDb
unfolding key32
put key value db = store (key32 key) (some value) db

unfoldable pub has : Bytes → MemoryDb → Bool
unfolding key32 is_some
has key db = is_some (db (key32 key))

-- An unknown key is an error.
unfoldable pub delete : Bytes → MemoryDb → Result MemoryDb
unfolding key32 is_some
delete key db =
    if is_some (db (key32 key)) then ok (store (key32 key) none db) else fail entry_not_found

unfoldable pub batch_put : List (Bytes × Bytes) → MemoryDb → MemoryDb
unfolding put
batch_put [] db = db
batch_put ((key, value) ∷ kvs) db = batch_put kvs (put key value db)

-- the calls that change the database
pub data Call : Type 0 where
  put_call : Bytes → Bytes → Call
  delete_call : Bytes → Call
  batch_call : List (Bytes × Bytes) → Call

-- the database after a call, also after one that fails
abbrev pub settle : MemoryDb → Result MemoryDb → MemoryDb
settle db (ok after) = after
settle db (fail e) = db
settle db panic = db

unfoldable pub run : List Call → MemoryDb → MemoryDb
unfolding put delete batch_put
run [] db = db
run (put_call key value ∷ calls) db = run calls (put key value db)
run (delete_call key ∷ calls) db = run calls (settle db (delete key db))
run (batch_call kvs ∷ calls) db = run calls (batch_put kvs db)

-- ===== src/MemoryDb/Overlay.antt =====
-- The database in memory answers as LevelDB would.
use meta_co_sign.Base.{
  ◌≡◌, ◌↔◌, Option-cases, refl, sym, ap, ◌∙◌, inl, inr, true, Option, none, some, List, [], ◌∷◌,
  ◌++◌, if◌then◌else◌, Bool-cases,
}
use meta_co_sign.Bytes.{Bytes, bytes_eq, bytes_eq_iff}
use meta_co_sign.MemoryDb.{
  MemoryDb, Call, put_call, delete_call, batch_call, key32, read_of, get, put, delete, batch_put,
  settle, run, has,
}
use meta_co_sign.Registry.{is_some}
use meta_co_sign.Result.{ok, fail, entry_not_found}
use meta_co_sign.Trie.Tracer.{store}
use meta_co_sign.Store.{Read, found, not_found, Op, overlay}

-- the entries of a batch
abbrev pub batch_ops : List (Bytes × Bytes) → List Op
batch_ops [] = []
batch_ops ((key, value) ∷ kvs) = Op.put (key32 key) value ∷ batch_ops kvs

-- the calls as the writes that LevelDB would get, with the keys that the map has
abbrev pub ops_of : List Call → List Op
ops_of [] = []
ops_of (put_call key value ∷ calls) = Op.put (key32 key) value ∷ ops_of calls
ops_of (delete_call key ∷ calls) = Op.delete (key32 key) ∷ ops_of calls
ops_of (batch_call kvs ∷ calls) = batch_ops kvs ++ ops_of calls

overlay-append :
    (ops more : List Op) (k : Bytes) (r : Read)
    → overlay (ops ++ more) k r ≡ overlay more k (overlay ops k r)
unfolding overlay
overlay-append [] more k r = refl
overlay-append (Op.put j v ∷ ops) more k r = overlay-append ops more k _
overlay-append (Op.delete j ∷ ops) more k r = overlay-append ops more k _

get-put :
    (key value k : Bytes) (db : MemoryDb)
    → get k (put key value db) ≡ (if bytes_eq (key32 key) (key32 k) then found value else get k db)
unfolding get put
get-put key value k db = elim (Bool-cases (bytes_eq (key32 key) (key32 k))) [
  | inl same ↦ rw same refl
  | inr differ ↦ rw differ refl
]

delete-at :
    (a b : Bytes) (db : MemoryDb)
    → read_of (settle db (if is_some (db a) then ok (store a none db) else fail entry_not_found) b)
      ≡ (if bytes_eq a b then not_found else read_of (db b))
unfolding is_some
delete-at a b db = elim (Bool-cases (bytes_eq a b)) [
  | inl same ↦
      let e : a ≡ b = (bytes_eq_iff a b).0 same in
      elim (Option-cases (db a)) [
        | inl missing ↦
            let gone : db b ≡ none = ap db (sym e) ∙ missing in rw (missing, same, gone) refl
        | inr (v, there) ↦ rw (there, same) refl
      ]
  | inr differ ↦ elim (Option-cases (db a)) [
    | inl missing ↦ rw (missing, differ) refl
    | inr (v, there) ↦ rw (there, differ) refl
  ]
]

is_some-found : (o : Option Bytes) → (is_some o ≡ true) ↔ ((v : Bytes) × (read_of o ≡ found v))
unfolding is_some
is_some-found none = (λ e. cc, λ (v, e). cc)
is_some-found (some v) = (λ e. (v, refl), λ e. refl)

get-delete :
    (key k : Bytes) (db : MemoryDb)
    → get k (settle db (delete key db))
      ≡ (if bytes_eq (key32 key) (key32 k) then not_found else get k db)
unfolding get delete
get-delete key k db = delete-at (key32 key) (key32 k) db

get-batch_put :
    (kvs : List (Bytes × Bytes)) (k : Bytes) (db : MemoryDb)
    → get k (batch_put kvs db) ≡ overlay (batch_ops kvs) (key32 k) (get k db)
unfolding batch_put overlay
get-batch_put [] k db = refl
get-batch_put ((key, value) ∷ kvs) k db =
    get-batch_put kvs k (put key value db)
    ∙ ap (overlay (batch_ops kvs) (key32 k)) (get-put key value k db)

run-overlay :
    (calls : List Call) (k : Bytes) (db : MemoryDb)
    → get k (run calls db) ≡ overlay (ops_of calls) (key32 k) (get k db)
unfolding run overlay
run-overlay [] k db = refl
run-overlay (put_call key value ∷ calls) k db =
    run-overlay calls k (put key value db)
    ∙ ap (overlay (ops_of calls) (key32 k)) (get-put key value k db)
run-overlay (delete_call key ∷ calls) k db =
    run-overlay calls k (settle db (delete key db))
    ∙ ap (overlay (ops_of calls) (key32 k)) (get-delete key k db)
run-overlay (batch_call kvs ∷ calls) k db =
    run-overlay calls k (batch_put kvs db)
    ∙ ap (overlay (ops_of calls) (key32 k)) (get-batch_put kvs k db)
    ∙ sym (overlay-append (batch_ops kvs) (ops_of calls) (key32 k) (get k db))

-- After any calls, failed deletions among them, `Get` answers what LevelDB would after the writes
-- of these calls, where a key is its first 32 bytes, filled up with zeros; and `Has` says whether
-- `Get` finds a value.
pub run-get :
    (calls : List Call) (k : Bytes) (db : MemoryDb)
    → (get k (run calls db) ≡ overlay (ops_of calls) (key32 k) (get k db))
      × ((has k (run calls db) ≡ true) ↔ ((v : Bytes) × (get k (run calls db) ≡ found v)))
unfolding has get
run-get calls k db = (run-overlay calls k db, is_some-found (run calls db (key32 k)))

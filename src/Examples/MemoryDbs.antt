-- ===== src/Examples/MemoryDbs.antt =====
-- A database in memory after calls of each kind, one of which fails.
use meta_co_sign.Base.{
  ℕ, zero, suc, ◌≤◌, ap, subst, Bool-cases, inl, inr, Option, none, some, replicate, length, drop,
  refl, ◌≡◌, ◌↔◌, true, List, [], ◌∷◌,
}
use meta_co_sign.Bytes.{Bytes, bytes_eq, bytes_eq_iff, bytes_eq_refl}
use meta_co_sign.MemoryDb.{
  MemoryDb, Call, put_call, delete_call, batch_call, key32, new_memory_db, get, has, run,
}
use meta_co_sign.MemoryDb.Overlay.{ops_of, run-get}
use meta_co_sign.MemoryDb.Iterator.{get_snap_shot}
use meta_co_sign.MemoryDb.Snapshot.{Listed, Ranges, get_snap_shot-get}
use meta_co_sign.Result.{ok}
use meta_co_sign.Trie.Tracer.{store}
use meta_co_sign.Store.{found, overlay}

abbrev some_calls : List Call
some_calls =
    put_call (1 ∷ []) (7 ∷ [])
    ∷ delete_call (2 ∷ [])
    ∷ batch_call ((2 ∷ [], 8 ∷ []) ∷ (1 ∷ 0 ∷ [], 9 ∷ []) ∷ [])
    ∷ delete_call (2 ∷ [])
    ∷ []

run-get_example :
    (get (1 ∷ []) (run some_calls new_memory_db)
      ≡ overlay (ops_of some_calls) (key32 (1 ∷ [])) (get (1 ∷ []) new_memory_db))
    × ((has (1 ∷ []) (run some_calls new_memory_db) ≡ true)
        ↔ ((v : Bytes) × (get (1 ∷ []) (run some_calls new_memory_db) ≡ found v)))
run-get_example = run-get some_calls (1 ∷ []) new_memory_db

-- two keys of one byte and of two that are the same 32 bytes
overwritten : get (1 ∷ []) (run some_calls new_memory_db) ≡ found (9 ∷ [])
unfolding get run new_memory_db bytes_eq
overwritten = refl

-- one entry, under a key of 32 bytes
abbrev one_key : Bytes
one_key = replicate 32 1

abbrev one_entry : MemoryDb
one_entry = store one_key (some (7 ∷ [])) (λ k. none)

one_entry-Ranges : Ranges one_entry (one_key ∷ [])
one_entry-Ranges = record {
  there = listed;
  all = λ k v e. elim (Bool-cases (bytes_eq one_key k)) [
    | inl same ↦ (0, ap some ((bytes_eq_iff one_key k).0 same))
    | inr apart ↦ let clash : ◌≡◌ {A = Option Bytes} none (some v) = (rw apart at e) in cc
  ];
}
  where
    listed :
        (k : Bytes)
        → Listed k (one_key ∷ [])
        → (length k ≡ 32) × ((v : Bytes) × (one_entry k ≡ some v))
    listed k (zero, e) =
        let same : one_key ≡ k = cc in
        subst (λ k. (length k ≡ 32) × ((v : Bytes) × (one_entry k ≡ some v))) same
          (refl, (7 ∷ [], rw (bytes_eq_refl one_key) refl))
    listed k (suc i, e) = cc

get_snap_shot-get_example :
    (enough : ℕ) × ((fuel : ℕ)
      → enough ≤ fuel
      → (snap : MemoryDb) × (get_snap_shot
            (λ b. 0 ∷ b)
            (λ xs. xs)
            (drop 1)
            fuel
            (one_key ∷ [])
            one_entry
          ≡ some (ok snap))
        × ((k : Bytes) → get k snap ≡ get k one_entry))
get_snap_shot-get_example =
    get_snap_shot-get (λ b. 0 ∷ b) (drop 1) (λ xs. xs) (λ b. refl) (λ xs x. (λ e. e, λ e. e))
      (one_key ∷ []) one_entry one_entry-Ranges

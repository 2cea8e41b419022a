-- ===== src/Registry/Pages.antt =====
-- Reading a registry: `genericScan` and `paginateRange` return the pages of the list.
use native.Mathlib.Decide.{dec_lt}
use meta_co_sign.Base.{
  ℕ, zero, suc, ◌+◌, ◌-◌, ◌*◌, ◌≤◌, ◌<◌, ◌≡◌, refl, sym, ap, none, some, List, [], ◌∷◌, arith, leb,
  length, get_elem?, get_elem?-some, take, drop, length-drop, false,
}
use meta_co_sign.Bytes.Word.{two64, u64}
use meta_co_sign.Registry.{
  Family, scan_from, generic_scan, generic_get_count, scan_range, paginate_range,
}
use meta_co_sign.Registry.Invariant.{Holds}
use meta_co_sign.Result.{Result, ok, ◌>>=◌}
use meta_co_sign.Store.{LevelDb, Addresses, Codec}

pub take-drop-suc {ℓ} :
    {A : Type ℓ} (xs : List A) (s n : ℕ) (x : A)
    → get_elem? xs s ≡ some x
    → take (suc n) (drop s xs) ≡ x ∷ take n (drop (suc s) xs)
take-drop-suc [] s n x h = absurd (ground arith)
take-drop-suc (y ∷ xs) zero n x h = ground arith
take-drop-suc (y ∷ xs) (suc s) n x h = take-drop-suc xs s n x h

pub take_all {ℓ} :
    {A : Type ℓ} (m n : ℕ) (xs : List A) → length xs ≡ m → m ≤ n → take m xs ≡ take n xs
take_all zero zero [] e h = refl
take_all zero (suc n) [] e h = refl
take_all (suc m) n [] e h = absurd (omega arith)
take_all zero n (x ∷ xs) e h = absurd (omega arith)
take_all (suc m) zero (x ∷ xs) e h = absurd (omega arith)
take_all (suc m) (suc n) (x ∷ xs) e h = ap (◌∷◌ x) (take_all m n xs (omega arith) (omega arith))

pub take_past {ℓ} : {A : Type ℓ} (n s : ℕ) (xs : List A) → length xs ≤ s → [] ≡ take n (drop s xs)
take_past zero s xs h = refl
take_past (suc n) zero [] h = refl
take_past (suc n) zero (x ∷ xs) h = absurd (omega arith)
take_past (suc n) (suc s) [] h = refl
take_past (suc n) (suc s) (x ∷ xs) h = take_past (suc n) s xs (omega arith)

module _ (page size n : ℕ) where
  paginate_cut :
      page * size < n
      → n < page * size + size
      → page * size + size < two64
      → paginate_range page size n ≡ some (suc (page * size), n)
  unfolding paginate_range
  paginate_cut inside cut range =
      let first : u64 (page * size + 1) ≡ suc (page * size) = omega arith in
      let last : u64 ((page + 1) * size) ≡ page * size + size = omega arith in
      rw (first, last) (ground arith)

  paginate_whole :
      0 < size
      → page * size + size ≤ n
      → page * size + size < two64
      → paginate_range page size n ≡ some (suc (page * size), page * size + size)
  unfolding paginate_range
  paginate_whole some_size whole range =
      let first : u64 (page * size + 1) ≡ suc (page * size) = omega arith in
      let last : u64 ((page + 1) * size) ≡ page * size + size = omega arith in
      rw (first, last) (ground arith)

  paginate_none :
      n ≤ page * size → page * size + size < two64 → 0 < size → paginate_range page size n ≡ none
  unfolding paginate_range
  paginate_none outside range some_size =
      let first : u64 (page * size + 1) ≡ suc (page * size) = omega arith in rw first (ground arith)

module _ (L : LevelDb) (E : Addresses) {A : Type 0} (C : Codec A) (f : Family)
    (address_of : A → E.Address) (db : L.Db) (xs : List A)
    (h : Holds L E C f address_of db xs) where
  -- The loop collects the entries from `s` on.
  scan_from-take :
      (rounds s : ℕ)
      → s + rounds ≤ length xs
      → scan_from L C rounds f.data_prefix (suc s) db ≡ ok (take rounds (drop s xs))
  unfolding scan_from
  scan_from-take zero s room = refl
  scan_from-take (suc rounds) s room =
      let (x, here) = get_elem?-some xs s (omega arith) in
      let (b, held, decoded) = h.stored s x here in
      let next : suc s + 1 ≡ suc (suc s) = omega arith in
      rw (held, decoded, next, scan_from-take rounds (suc s) (omega arith))
        (ap ok (sym (take-drop-suc xs s rounds x here)))

  pub generic_scan-take :
      (s e : ℕ)
      → s < e
      → e ≤ length xs
      → length xs < 9223372036854775808
      → generic_scan L C f.data_prefix (suc s) e db ≡ ok (take (e - s) (drop s xs))
  unfolding generic_scan
  generic_scan-take s e h₁ h₂ h₃ =
      let within : leb 9223372036854775808 (u64 (e + 18446744073709551616 - suc s + 1)) ≡ false =
        ground arith in
      let rounds : e + 1 - suc s ≡ e - s = omega arith in
      rw (within, rounds) (scan_from-take (e - s) s (omega arith))

  -- The body of `GetContracts` and the like.
  unfoldable pub read_page : ℕ → ℕ → Result (List A × ℕ)
  read_page page page_size = do
    count ← generic_get_count L f.count_key db
    scan_range L C f.data_prefix count (paginate_range page page_size count) db

  -- A page that lies in the `uint64` range is that part of the list, with the list's length.
  pub read_page-take :
      (page size : ℕ)
      → 0 < size
      → page * size + size < two64
      → length xs < 9223372036854775808
      → read_page page size ≡ ok (take size (drop (page * size) xs), length xs)
  unfolding read_page generic_get_count scan_range
  read_page-take page size some_size range short = elim (dec_lt (page * size) (length xs)) [
    | yes inside ↦ elim (dec_lt (length xs) (page * size + size)) [
      | yes cut ↦
          rw (h.counted, paginate_cut page size (length xs) inside cut range)
            (rw (generic_scan-take (page * size) (length xs) inside (omega arith) short) (
              ap (λ ys. ok (ys, length xs))
                (take_all (length xs - page * size) size (drop (page * size) xs)
                  (length-drop (page * size) xs) (omega arith))))
      | no whole ↦
          rw (h.counted, paginate_whole page size (length xs) some_size (omega arith) range)
            (rw
              (generic_scan-take (page * size) (page * size + size) (omega arith) (omega arith)
                short)
              (ap (λ n. ok (take n (drop (page * size) xs), length xs)) (omega arith)))
    ]
    | no outside ↦
        rw (h.counted, paginate_none page size (length xs) (omega arith) range some_size)
          (ap (λ ys. ok (ys, length xs)) (take_past size (page * size) xs (omega arith)))
  ]

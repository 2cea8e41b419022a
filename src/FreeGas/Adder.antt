-- ===== src/FreeGas/Adder.antt =====
-- `GetContract` and `GetContractsByAdder`.
use native.Mathlib.Decide.{dec_lt}
use meta_co_sign.Base.{
  ℕ, zero, suc, ◌+◌, ◌-◌, ◌*◌, ◌≤◌, ◌<◌, ◌≡◌, refl, ap, inl, inr, true, false, List, [], ◌∷◌, arith,
  leb, if◌then◌else◌, length, take, drop, length-drop, get_elem?, get_elem?-some, Option-cases,
  Bool-cases,
}
use meta_co_sign.Bytes.Word.{u64}
use meta_co_sign.FreeGas.{
  ContractFreeGasData, Messages, contracts, get_contract, match_entry, match_from, adder_page,
  slice, int_ltb, get_contracts_by_adder,
}
use meta_co_sign.FreeGas.Commands.{Lists, Represents}
use meta_co_sign.FreeGas.Families.{contract_of}
use meta_co_sign.Registry.{generic_get_reverse_index, generic_get_count, need}
use meta_co_sign.Registry.Pages.{take-drop-suc, take_all, take_past}
use meta_co_sign.Registry.Spec.{position, position-some, index-position-none, index-position-some}
use meta_co_sign.Result.{ok, entry_not_found, ◌>>=◌, or_fail}
use meta_co_sign.Store.{LevelDb, Addresses}

module _ (E : Addresses) where
  open E use {Address, address_eq, bytes_to_address}

  -- the entries that an address added, in order
  unfoldable pub added_by_list : Address → List ContractFreeGasData → List ContractFreeGasData
  added_by_list a [] = []
  added_by_list a (d ∷ ds) =
      if address_eq (bytes_to_address d.added_by) a
      then d ∷ added_by_list a ds
      else added_by_list a ds

module _ (E : Addresses) where
  length-added_by_list :
      (a : E.Address) (ds : List ContractFreeGasData) → length (added_by_list E a ds) ≤ length ds
  unfolding added_by_list
  length-added_by_list a [] = omega arith
  length-added_by_list a (d ∷ ds) = ground (arith, length-added_by_list a ds)

take_of_length : {A : Type 0} (xs : List A) → take (length xs) xs ≡ xs
take_of_length [] = refl
take_of_length (x ∷ xs) = ap (◌∷◌ x) (take_of_length xs)

-- A page whose bounds fit an `int` is that part of the matched entries.
adder_page-take :
    (page size : ℕ) (ms : List ContractFreeGasData)
    → page * size + size < 9223372036854775808
    → length ms < 9223372036854775808
    → adder_page page size ms ≡ ok (take size (drop (page * size) ms), length ms)
unfolding adder_page slice
adder_page-take page size ms range short =
    let start : u64 (page * size) ≡ page * size = omega arith in
    let end : u64 (page * size + size) ≡ page * size + size = omega arith in
    elim (dec_lt (page * size) (length ms)) [
      | yes inside ↦ elim (dec_lt (length ms) (page * size + size)) [
        | yes cut ↦
            let before : int_ltb (page * size) (length ms) ≡ true = ground arith in
            let past : int_ltb (length ms) (page * size + size) ≡ true = ground arith in
            let fits : leb (length ms) (length ms) ≡ true = ground arith in
            let ordered : leb (page * size) (length ms) ≡ true = ground arith in
            rw (start, before, end, past, fits, ordered)
              (ap (λ ys. ok (ys, length ms))
                (take_all (length ms - page * size) size (drop (page * size) ms)
                  (length-drop (page * size) ms) (omega arith)))
        | no whole ↦
            let before : int_ltb (page * size) (length ms) ≡ true = ground arith in
            let past : int_ltb (length ms) (page * size + size) ≡ false = ground arith in
            let fits : leb (page * size + size) (length ms) ≡ true = ground arith in
            let ordered : leb (page * size) (page * size + size) ≡ true = ground arith in
            rw (start, before, end, past, fits, ordered)
              (ap (λ n. ok (take n (drop (page * size) ms), length ms)) (omega arith))
      ]
      | no outside ↦
          let after : int_ltb (page * size) (length ms) ≡ false = ground arith in
          rw (start, after)
            (ap (λ ys. ok (ys, length ms)) (take_past size (page * size) ms (omega arith)))
    ]

module _ (L : LevelDb) (E : Addresses) (M : Messages) (db : L.Db) (S : Lists)
    (held : Represents L E M db S) where
  open E use {Address, address_eq, bytes_to_address}

  -- The loop collects the entries of the address from place `s` on.
  match_from-added_by_list :
      (a : Address) (rounds s : ℕ)
      → s + rounds ≤ length S.contracts_list
      → match_from L E M rounds a (suc s) db
        ≡ ok (added_by_list E a (take rounds (drop s S.contracts_list)))
  unfolding match_from match_entry added_by_list
  match_from-added_by_list a zero s room = refl
  match_from-added_by_list a (suc rounds) s room =
      let (x, here) = get_elem?-some S.contracts_list s (omega arith) in
      let (b, stored, decoded) = held.contracts_held.stored s x here in
      let next : suc s + 1 ≡ suc (suc s) = omega arith in
      let rest = match_from-added_by_list a rounds (suc s) (omega arith) in
      elim (Bool-cases (address_eq (bytes_to_address x.added_by) a)) [
        | inl match ↦
            rw (take-drop-suc S.contracts_list s rounds x here, stored, decoded, match, next, rest)
              refl
        | inr other ↦
            rw (take-drop-suc S.contracts_list s rounds x here, stored, decoded, other, next, rest)
              refl
      ]

  -- The contracts that an address added, by pages: that part of them, with their number, where the
  -- page's bounds fit an `int` and the list is shorter than 2 ^ 63.
  pub get_contracts_by_adder-take :
      (a : Address) (page size : ℕ)
      → page * size + size < 9223372036854775808
      → length S.contracts_list < 9223372036854775808
      → get_contracts_by_adder L E M a page size db
        ≡ ok (
          take size (drop (page * size) (added_by_list E a S.contracts_list)),
          length (added_by_list E a S.contracts_list),
        )
  unfolding get_contracts_by_adder generic_get_count
  get_contracts_by_adder-take a page size range short =
      rw
        (
          held.contracts_held.counted,
          match_from-added_by_list a (length S.contracts_list) 0 (omega arith),
          take_of_length S.contracts_list,
        )
        (adder_page-take page size (added_by_list E a S.contracts_list) range
          (omega (arith, short, length-added_by_list E a S.contracts_list)))

  -- A contract is found by its address exactly if it has a place in the list, and what is returned
  -- is the entry in that place.
  pub get_contract-position :
      (a : Address)
      → get_contract L E M a db ≡ (
          or_fail entry_not_found (position E (contract_of E M) a S.contracts_list) >>= λ i.
          or_fail entry_not_found (get_elem? S.contracts_list i))
  unfolding get_contract generic_get_reverse_index need
  get_contract-position a = elim (Option-cases (position E (contract_of E M) a S.contracts_list)) [
    | inl new ↦
        rw
          (
            new,
            index-position-none E (contract_of E M) L M.contract contracts db S.contracts_list
                held.contracts_held a new,
          )
          refl
    | inr (i, old) ↦
        let (x, here, _) = position-some E (contract_of E M) a S.contracts_list i old in
        let (b, stored, decoded) = held.contracts_held.stored i x here in
        rw
          (
            old,
            index-position-some E (contract_of E M) L M.contract contracts db S.contracts_list
                held.contracts_held a i old,
            here,
            stored,
            decoded,
          )
          refl
  ]

-- ===== src/FreeGas/Queries.antt =====
-- The reads of the storage answer from the four lists.
use meta_co_sign.Base.{
  ℕ, ◌+◌, ◌*◌, ◌<◌, ◌≡◌, refl, inl, inr, List, length, take, drop, Option-cases,
}
use meta_co_sign.Bytes.Word.{two64}
use meta_co_sign.FreeGas.{
  Messages, contracts, wallets, help_pay_wallets, admins, has_contract, is_authorized,
  is_help_pay_wallet, is_admin, get_contracts, get_wallets, get_help_pay_wallets, get_admins,
}
use meta_co_sign.FreeGas.Commands.{Lists, Represents}
use meta_co_sign.FreeGas.Families.{contract_of, wallet_of, admin_of}
use meta_co_sign.Registry.{Family, generic_get_reverse_index, is_some}
use meta_co_sign.Registry.Invariant.{Holds}
use meta_co_sign.Registry.Pages.{read_page, read_page-take}
use meta_co_sign.Registry.Spec.{position, index-position-none, index-position-some}
use meta_co_sign.Result.{ok, ◌>>=◌}
use meta_co_sign.Store.{LevelDb, Addresses, Codec}

module _ (L : LevelDb) (E : Addresses) {A : Type 0} (C : Codec A) (f : Family)
    (address_of : A → E.Address) (db : L.Db) (xs : List A)
    (h : Holds L E C f address_of db xs) where
  has_position :
      (a : E.Address)
      → (generic_get_reverse_index L E f.index_prefix a db >>= λ index. ok (is_some index))
        ≡ ok (is_some (position E address_of a xs))
  unfolding generic_get_reverse_index is_some
  has_position a = elim (Option-cases (position E address_of a xs)) [
    | inl new ↦ rw (new, index-position-none E address_of L C f db xs h a new) refl
    | inr (i, old) ↦ rw (old, index-position-some E address_of L C f db xs h a i old) refl
  ]

module _ (L : LevelDb) (E : Addresses) (M : Messages) (db : L.Db) (S : Lists)
    (held : Represents L E M db S) where
  open E use {Address, address_eq, bytes_to_address}

  -- The four membership tests tell whether the address has a place in the list.
  pub membership :
      (a : Address)
      → (has_contract L E M a db ≡ ok (is_some (position E (contract_of E M) a S.contracts_list)))
        × (is_authorized L E M a db ≡ ok (is_some (position E (wallet_of E M) a S.wallets_list)))
        × (is_help_pay_wallet L E M a db
            ≡ ok (is_some (position E (wallet_of E M) a S.help_pay_wallets_list)))
        × (is_admin L E M a db ≡ ok (is_some (position E (admin_of E M) a S.admins_list)))
  unfolding has_contract is_authorized is_help_pay_wallet is_admin
  membership a = (
    has_position L E M.contract contracts (contract_of E M) db S.contracts_list held.contracts_held
        a,
    has_position L E M.wallet wallets (wallet_of E M) db S.wallets_list held.wallets_held a,
    has_position L E M.wallet help_pay_wallets (wallet_of E M) db S.help_pay_wallets_list
        held.help_pay_wallets_held a,
    has_position L E M.admin admins (admin_of E M) db S.admins_list held.admins_held a,
  )

  -- The four page reads return that part of the list with the list's length, where the page's
  -- bounds fit `uint64` and the lists are shorter than 2 ^ 63.
  pub pages :
      (page size : ℕ)
      → 0 < size
      → page * size + size < two64
      → length S.contracts_list < 9223372036854775808
      → length S.wallets_list < 9223372036854775808
      → length S.help_pay_wallets_list < 9223372036854775808
      → length S.admins_list < 9223372036854775808
      → (get_contracts L E M page size db
          ≡ ok (take size (drop (page * size) S.contracts_list), length S.contracts_list))
        × (get_wallets L E M page size db
            ≡ ok (take size (drop (page * size) S.wallets_list), length S.wallets_list))
        × (get_help_pay_wallets L E M page size db
            ≡ ok (
              take size (drop (page * size) S.help_pay_wallets_list),
              length S.help_pay_wallets_list,
            ))
        × (get_admins L E M page size db
            ≡ ok (take size (drop (page * size) S.admins_list), length S.admins_list))
  unfolding get_contracts get_wallets get_help_pay_wallets get_admins read_page
  pages page size p q h₁ h₂ h₃ h₄ = (
    read_page-take L E M.contract contracts (contract_of E M) db S.contracts_list
        held.contracts_held page size p q h₁,
    read_page-take L E M.wallet wallets (wallet_of E M) db S.wallets_list held.wallets_held page
        size p q h₂,
    read_page-take L E M.wallet help_pay_wallets (wallet_of E M) db S.help_pay_wallets_list
        held.help_pay_wallets_held page size p q h₃,
    read_page-take L E M.admin admins (admin_of E M) db S.admins_list held.admins_held page size p q
        h₄,
  )

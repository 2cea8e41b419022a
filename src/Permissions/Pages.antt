-- ===== src/Permissions/Pages.antt =====
-- The handlers of pkg/account_handler/account_handler.go that list wallets and administrators page
-- by page, from the unpacked arguments on: `page.Int64()` and `pageSize.Int64()` are given by their
-- 64 bits.
use meta_co_sign.Base.{ℕ, ◌+◌, ◌-◌, ◌/◌, ◌%◌, not, List, map, ltb, ◌==◌, ◌||◌, if◌then◌else◌}
use meta_co_sign.Bytes.{Bytes}
use meta_co_sign.Bytes.Word.{u64, int_leb, two64}
use meta_co_sign.FreeGas.{
  AuthorizedWalletData, AdminData, Messages, get_wallets, get_help_pay_wallets, get_admins,
}
use meta_co_sign.Result.{
  Result, ok, fail, panic, unauthorized, invalid_page, invalid_page_size, ◌>>=◌,
}
use meta_co_sign.Store.{LevelDb, Addresses}

-- the distance of an `int`, given by its bits, from 0
unfoldable pub magnitude : ℕ → ℕ
magnitude a = if ltb a 9223372036854775808 then a else two64 - a

-- `a / b` on `int`, which rounds towards 0 and panics where `b` is 0
unfoldable pub int_div : ℕ → ℕ → Result ℕ
unfolding magnitude
int_div a b =
    let quotient = magnitude a / magnitude b in
    if b == 0
    then panic
    else if ltb a 9223372036854775808
    then ok (if ltb b 9223372036854775808 then quotient else u64 (two64 - quotient))
    else ok (if ltb b 9223372036854775808 then u64 (two64 - quotient) else u64 quotient)

-- `(total + pageSize - 1) / pageSize`
unfoldable pub total_pages : ℕ → ℕ → Result ℕ
unfolding int_div
total_pages total page_size = int_div (u64 (total + page_size + 18446744073709551615)) page_size

-- one line of an answer, with the addresses as text
pub record Row : Type 0 where
  pub address : Bytes
  pub added_at : ℕ
  pub added_by : Bytes

pub record Page (A : Type 0) : Type 0 where
  pub rows : List A
  pub total : ℕ
  pub page : ℕ
  pub page_size : ℕ
  pub pages : ℕ

unfoldable pub page_of : {A : Type 0} → ℕ → ℕ → List A × ℕ → Result (Page A)
unfolding total_pages
page_of page page_size (rows, total) = do
  pages ← total_pages total page_size
  ok (record { rows = rows; total = total; page = page; page_size = page_size; pages = pages })

-- the fields of the protobuf answer, which are `int32`
unfoldable pub page_of_int32 : {A : Type 0} → ℕ → ℕ → List A × ℕ → Result (Page A)
unfolding total_pages
page_of_int32 page page_size (rows, total) = do
  pages ← total_pages total page_size
  ok (record {
    rows = rows;
    total = total % 4294967296;
    page = page % 4294967296;
    page_size = page_size % 4294967296;
    pages = pages % 4294967296;
  })

-- the bounds on the two arguments
unfoldable pub checked_page : {A : Type 0} → ℕ → ℕ → Result A → Result A
checked_page page page_size next =
    if not (int_leb 0 page)
    then fail invalid_page
    else if int_leb page_size 0 || not (int_leb page_size 100)
    then fail invalid_page_size
    else next

module _ (L : LevelDb) (E : Addresses) (M : Messages) (owner : E.Address) where
  open E use {Address, address_eq, hex, bytes_to_address}

  unfoldable pub wallet_row : AuthorizedWalletData → Row
  wallet_row w = record {
    address = hex (bytes_to_address w.wallet_address);
    added_at = w.added_at;
    added_by = hex (bytes_to_address w.added_by);
  }

  unfoldable pub admin_row : AdminData → Row
  admin_row a = record {
    address = hex (bytes_to_address a.admin_address);
    added_at = a.added_at;
    added_by = hex (bytes_to_address a.added_by);
  }

  unfoldable pub handle_get_all_authorized_wallets : Address → ℕ → ℕ → L.Db → Result (Page Row)
  unfolding checked_page page_of wallet_row
  handle_get_all_authorized_wallets from page page_size db =
      if address_eq from owner
      then checked_page page page_size (do
        (wallets, total) ← get_wallets L E M page page_size db
        page_of page page_size (map wallet_row wallets, total))
      else fail unauthorized

  unfoldable pub handle_get_all_admins : Address → ℕ → ℕ → L.Db → Result (Page Row)
  unfolding checked_page page_of admin_row
  handle_get_all_admins from page page_size db =
      if address_eq from owner
      then checked_page page page_size (do
        (admins, total) ← get_admins L E M page page_size db
        page_of page page_size (map admin_row admins, total))
      else fail unauthorized

  -- Anybody may ask, and the bounds are not checked.
  unfoldable pub handle_get_all_help_pay_wallets :
      Address → ℕ → ℕ → L.Db → Result (Page AuthorizedWalletData)
  unfolding page_of_int32
  handle_get_all_help_pay_wallets from page page_size db =
      get_help_pay_wallets L E M page page_size db >>= page_of_int32 page page_size

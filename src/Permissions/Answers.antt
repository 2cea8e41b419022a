-- ===== src/Permissions/Answers.antt =====
-- What the handlers of pkg/account_handler/account_handler.go that list wallets and administrators
-- answer.
use meta_co_sign.Base.{ℕ, ◌+◌, ◌-◌, ◌*◌, ◌/◌, ◌%◌, List, map, length, take, drop}
use meta_co_sign.FreeGas.Queries.{pages}
use meta_co_sign.Permissions.Pages.{Page}
use meta_co_sign.Result.{Result}

-- the page of a list, and how many pages the list has
abbrev pub page_from : {A B : Type 0} → (A → B) → ℕ → ℕ → List A → Page B
page_from row page size xs = record {
  rows = map row (take size (drop (page * size) xs));
  total = length xs;
  page = page;
  page_size = size;
  pages = (length xs + (size - 1)) / size;
}

-- the same with the numbers cut to 32 bits
abbrev pub page_int32 : {A : Type 0} → ℕ → ℕ → List A → Page A
page_int32 page size xs = record {
  rows = take size (drop (page * size) xs);
  total = length xs % 4294967296;
  page = page % 4294967296;
  page_size = size % 4294967296;
  pages = ((length xs + (size - 1)) / size) % 4294967296;
}

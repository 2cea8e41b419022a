-- ===== src/Examples/Witnesses.antt =====
-- The theorems on the storage of contracts, wallets and administrators at concrete inputs: a
-- database in which the owner has authorized one wallet.
use meta_co_sign.Base.{
  All, Option, none, some, ◌==◌, if◌then◌else◌, ◌≡◌, ◌≢◌, List, [], ◌∷◌, arith, length, take,
  get_elem?,
}
use meta_co_sign.Bytes.{Bytes, codes, bytes_eq, bytes_eq_iff}
use meta_co_sign.Examples.FreeGas.{
  alice, carol, shop, owner, shop_contract, staff_lists, staff_db, staff_lists-Represents,
  alice_wallet, one_wallet, one_db, one_wallet-Represents, messages-Encodes,
}
use meta_co_sign.Examples.Memory.{memory, addresses, messages}
use meta_co_sign.FreeGas.{
  has_contract, is_authorized, is_help_pay_wallet, is_admin, get_contract, get_contracts,
  get_wallets, get_help_pay_wallets, get_admins, get_contracts_by_adder,
}
use meta_co_sign.FreeGas.Adder.{added_by_list, get_contracts_by_adder-take, get_contract-position}
use meta_co_sign.FreeGas.Commands.{Command, Represents, HasRoom, execute, spec}
use meta_co_sign.FreeGas.Families.{contract_of, wallet_of, admin_of}
use meta_co_sign.FreeGas.Queries.{membership, pages}
use meta_co_sign.FreeGas.Refinement.{execute-Outcome}
use meta_co_sign.Permissions.Dispatch.{
  Transaction, add_admin_call, add_authorized_wallet, add_help_pay_call, remove_help_pay_call, run,
}
use meta_co_sign.Permissions.HelpPay.{PrivateKeys, Config, Stores, private_key}
use meta_co_sign.Permissions.Owner.{StaffKept, run-StaffKept}
use meta_co_sign.Registry.{is_some}
use meta_co_sign.Registry.Refine.{Outcome}
use meta_co_sign.Registry.Spec.{position}
use meta_co_sign.Result.{ok, or_fail, entry_not_found, ◌>>=◌}
use meta_co_sign.Store.{Read}

one_wallet-HasRoom : HasRoom one_wallet
one_wallet-HasRoom = omega arith

execute-Outcome_example :
    Outcome
      (Represents memory addresses messages)
      (execute memory addresses messages (Command.remove_wallet alice) one_db)
      (spec memory addresses messages (Command.remove_wallet alice) one_wallet)
execute-Outcome_example =
    execute-Outcome memory addresses messages messages-Encodes one_db one_wallet
      one_wallet-Represents one_wallet-HasRoom (Command.remove_wallet alice)

membership_example :
    (has_contract memory addresses messages alice one_db
      ≡ ok (is_some (position addresses (contract_of addresses messages) alice [])))
    × (is_authorized memory addresses messages alice one_db
        ≡ ok
            (is_some (position addresses (wallet_of addresses messages) alice (alice_wallet ∷ []))))
    × (is_help_pay_wallet memory addresses messages alice one_db
        ≡ ok (is_some (position addresses (wallet_of addresses messages) alice [])))
    × (is_admin memory addresses messages alice one_db
        ≡ ok (is_some (position addresses (admin_of addresses messages) alice [])))
membership_example =
    membership memory addresses messages one_db one_wallet one_wallet-Represents alice

pages_example :
    (get_contracts memory addresses messages 0 10 one_db ≡ ok ([], 0))
    × (get_wallets memory addresses messages 0 10 one_db ≡ ok (alice_wallet ∷ [], 1))
    × (get_help_pay_wallets memory addresses messages 0 10 one_db ≡ ok ([], 0))
    × (get_admins memory addresses messages 0 10 one_db ≡ ok ([], 0))
pages_example =
    pages memory addresses messages one_db one_wallet one_wallet-Represents 0 10 (omega arith)
      (omega arith) (omega arith) (omega arith) (omega arith) (omega arith)

get_contracts_by_adder-take_example :
    get_contracts_by_adder memory addresses messages owner 0 10 staff_db
    ≡ ok (
      take 10 (added_by_list addresses owner (shop_contract ∷ [])),
      length (added_by_list addresses owner (shop_contract ∷ [])),
    )
get_contracts_by_adder-take_example =
    get_contracts_by_adder-take memory addresses messages staff_db staff_lists
      staff_lists-Represents owner 0 10 (omega arith) (omega arith)

get_contract-position_example : get_contract memory addresses messages shop staff_db ≡ (
    or_fail entry_not_found
      (position addresses (contract_of addresses messages) shop (shop_contract ∷ []))
    >>= λ i. or_fail entry_not_found (get_elem? (shop_contract ∷ []) i))
get_contract-position_example =
    get_contract-position memory addresses messages staff_db staff_lists staff_lists-Represents shop

-- a store of private keys as a list, of which the last put counts; every text that is not empty is a
-- key, and its own address
abbrev key_list : PrivateKeys Bytes
key_list = record {
  Keys = List (Bytes × Option Bytes);
  set_private_key = λ a k keys. some ((a, some k) ∷ keys);
  delete_private_key = λ a keys. (a, none) ∷ keys;
  trim_space = λ text. text;
  address_of_key = λ text. if length text == 0 then none else some text;
}

abbrev settings : Config Bytes
settings = record { owner = owner; pk_owner_rpc = codes "0x12"; zero_address = [] }

abbrev node_stores : Stores (Bytes → Read) (List (Bytes × Option Bytes))
node_stores = record { db = staff_db; keys = [] }

-- Carol is an administrator, Alice is not.
abbrev strangers : List (Transaction Bytes)
strangers =
    record { from = alice; now = 10; call = add_admin_call alice }
    ∷ record { from = carol; now = 11; call = add_authorized_wallet (codes "0xbob") }
    ∷ record { from = carol; now = 12; call = add_help_pay_call (private_key (codes "0xdan")) }
    ∷ record { from = alice; now = 13; call = remove_help_pay_call (codes "dan") }
    ∷ []

alice_ne_owner : alice ≢ owner
unfolding bytes_eq
alice_ne_owner e = cc ((bytes_eq_iff alice owner).1 e)

carol_ne_owner : carol ≢ owner
unfolding bytes_eq
carol_ne_owner e = cc ((bytes_eq_iff carol owner).1 e)

run-StaffKept_example :
    StaffKept memory addresses messages key_list settings messages-Encodes 4 staff_lists
      (run memory addresses messages key_list settings strangers node_stores).db
    × (All
          (λ tx.
            position addresses (admin_of addresses messages) tx.from staff_lists.admins_list ≡ none)
          strangers
        → run memory addresses messages key_list settings strangers node_stores ≡ node_stores)
run-StaffKept_example =
    run-StaffKept memory addresses messages key_list settings messages-Encodes strangers node_stores
      staff_lists (alice_ne_owner, (carol_ne_owner, (carol_ne_owner, (alice_ne_owner, tt))))
      (omega arith) (omega arith) (omega arith) staff_lists-Represents

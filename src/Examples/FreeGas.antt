-- ===== src/Examples/FreeGas.antt =====
-- The storage of contracts, wallets and administrators at concrete inputs.
use meta_co_sign.Base.{refl, inl, [], ◌∷◌, arith}
use meta_co_sign.Bytes.{Bytes, codes, bytes_eq}
use meta_co_sign.Bytes.Decimal.{format_uint, zero_pad}
use meta_co_sign.Bytes.Word.{big_endian, put_uint64}
use meta_co_sign.Examples.Memory.{memory, addresses, messages}
use meta_co_sign.FreeGas.{
  AuthorizedWalletData, ContractFreeGasData, contracts, wallets, help_pay_wallets, admins,
  add_wallet, add_contract, add_admin, wallet_entry, contract_entry, admin_entry,
}
use meta_co_sign.FreeGas.Commands.{Command, Lists, Represents, HasRoom, Encodes, execute, spec}
use meta_co_sign.FreeGas.Refinement.{execute-Outcome}
use meta_co_sign.Registry.{
  Family, decode_count, decode_index, is_some, generic_get_reverse_index, generic_add,
  generic_get_count, pad_entity_id, put_count, write_batch,
}
use meta_co_sign.Registry.Invariant.{Holds}
use meta_co_sign.Registry.Spec.{position, spec_add}
use meta_co_sign.Registry.Refine.{Outcome-ok}
use meta_co_sign.Permissions.{settle}
use meta_co_sign.Store.{Read, not_found, overlay, Codec}

abbrev pub empty_db : Bytes → Read
empty_db k = not_found

abbrev pub no_lists : Lists
no_lists = record {
  contracts_list = [];
  wallets_list = [];
  help_pay_wallets_list = [];
  admins_list = [];
}

-- Nothing is stored at first.
module _ {A : Type 0} (C : Codec A) (f : Family) (address_of : A → Bytes) where
  pub empty-Holds : Holds memory addresses C f address_of empty_db []
  unfolding decode_count
  empty-Holds = record {
    counted = refl;
    small = omega arith;
    stored = λ i x p. absurd (ground arith);
    beyond = λ i p q. refl;
    indexed = λ i x p. absurd (ground arith);
    listed = λ a. inl refl;
  }

pub no_lists-Represents : Represents memory addresses messages empty_db no_lists
no_lists-Represents = record {
  contracts_held = empty-Holds messages.contract contracts _;
  wallets_held = empty-Holds messages.wallet wallets _;
  help_pay_wallets_held = empty-Holds messages.wallet help_pay_wallets _;
  admins_held = empty-Holds messages.admin admins _;
}

pub no_lists-HasRoom : HasRoom no_lists
no_lists-HasRoom = omega arith

pub messages-Encodes : Encodes messages
messages-Encodes = record {
  contract_encodes = λ x. (_, refl);
  wallet_encodes = λ x. (_, refl);
  admin_encodes = λ x. (_, refl);
}

abbrev pub owner : Bytes
owner = codes "0xowner"

abbrev pub alice : Bytes
alice = codes "0xalice"

-- all that a run of the storage computes
pub program : Unit {0}
unfolding execute spec add_wallet add_contract add_admin generic_get_reverse_index generic_add
    generic_get_count pad_entity_id format_uint zero_pad put_count put_uint64 big_endian overlay
    bytes_eq is_some write_batch spec_add position wallet_entry contract_entry admin_entry
    decode_count decode_index
program = tt

abbrev pub alice_wallet : AuthorizedWalletData
alice_wallet = record { wallet_address = alice; added_at = 7; added_by = owner }

abbrev pub one_wallet : Lists
one_wallet = record no_lists { wallets_list = alice_wallet ∷ [] }

abbrev pub add_alice : Command Bytes
add_alice = Command.add_wallet 7 alice owner

abbrev pub one_db : Bytes → Read
one_db = settle empty_db (execute memory addresses messages add_alice empty_db)

pub one_wallet-Represents : Represents memory addresses messages one_db one_wallet
unfolding program
one_wallet-Represents =
    Outcome-ok (Represents memory addresses messages) _ _ one_db one_wallet
      (execute-Outcome memory addresses messages messages-Encodes empty_db no_lists
        no_lists-Represents no_lists-HasRoom add_alice)
      refl refl

-- with a contract and an administrator besides
abbrev pub shop : Bytes
shop = codes "0xshop"

abbrev pub carol : Bytes
carol = codes "0xcarol"

abbrev pub shop_contract : ContractFreeGasData
shop_contract = record { contract_address = shop; added_at = 8; added_by = owner }

abbrev pub shop_lists : Lists
shop_lists = record one_wallet { contracts_list = shop_contract ∷ [] }

abbrev pub staff_lists : Lists
staff_lists = record shop_lists {
  admins_list = record { admin_address = carol; added_at = 9; added_by = owner } ∷ [];
}

abbrev add_shop : Command Bytes
add_shop = Command.add_contract 8 shop owner

abbrev add_carol : Command Bytes
add_carol = Command.add_admin 9 carol owner

abbrev pub shop_db : Bytes → Read
shop_db = settle one_db (execute memory addresses messages add_shop one_db)

abbrev pub staff_db : Bytes → Read
staff_db = settle shop_db (execute memory addresses messages add_carol shop_db)

pub shop_lists-Represents : Represents memory addresses messages shop_db shop_lists
unfolding program
shop_lists-Represents =
    Outcome-ok (Represents memory addresses messages) _ _ shop_db shop_lists
      (execute-Outcome memory addresses messages messages-Encodes one_db one_wallet
        one_wallet-Represents (omega arith) add_shop)
      refl refl

pub staff_lists-Represents : Represents memory addresses messages staff_db staff_lists
unfolding program
staff_lists-Represents =
    Outcome-ok (Represents memory addresses messages) _ _ staff_db staff_lists
      (execute-Outcome memory addresses messages messages-Encodes shop_db shop_lists
        shop_lists-Represents (omega arith) add_carol)
      refl refl

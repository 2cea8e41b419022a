-- ===== src/FreeGas/Entries.antt =====
-- The protobuf messages and the key prefixes of pkg/storage/contract_free_gas_storage.go.
use meta_co_sign.Base.{ℕ}
use meta_co_sign.Bytes.{Bytes, codes}
use meta_co_sign.Registry.{Family}
use meta_co_sign.Store.{Codec}

-- The protobuf messages of pkg/proto/contract_free_gas.pb.go, by their fields. A time is an
-- `int64`, given by its bits.
pub record ContractFreeGasData : Type 0 where
  pub contract_address : Bytes
  pub added_at : ℕ
  pub added_by : Bytes

pub record AuthorizedWalletData : Type 0 where
  pub wallet_address : Bytes
  pub added_at : ℕ
  pub added_by : Bytes

pub record AdminData : Type 0 where
  pub admin_address : Bytes
  pub added_at : ℕ
  pub added_by : Bytes

pub record Messages : Type 0 where
  pub contract : Codec ContractFreeGasData
  pub wallet : Codec AuthorizedWalletData
  pub admin : Codec AdminData

abbrev pub contracts : Family
contracts = record {
  data_prefix = codes "cfgd:";
  index_prefix = codes "cfg:";
  count_key = codes "cfgc:count";
}

abbrev pub wallets : Family
wallets = record {
  data_prefix = codes "awd:";
  index_prefix = codes "aw:";
  count_key = codes "awc:count";
}

abbrev pub help_pay_wallets : Family
help_pay_wallets = record {
  data_prefix = codes "hpwd:";
  index_prefix = codes "hpw:";
  count_key = codes "hpwc:count";
}

abbrev pub admins : Family
admins = record {
  data_prefix = codes "admd:";
  index_prefix = codes "adm:";
  count_key = codes "admc:count";
}

-- ===== src/FreeGas/Families.antt =====
-- The four families of keys: they are well formed, and none meets another.
use meta_co_sign.Base.{refl}
use meta_co_sign.Bytes.{bytes_eq}
use meta_co_sign.FreeGas.{
  ContractFreeGasData, AuthorizedWalletData, AdminData, Messages, contracts, wallets,
  help_pay_wallets, admins, last_contract, last_wallet, last_help_pay_wallet, last_admin,
}
use meta_co_sign.Registry.Invariant.{IsFamily}
use meta_co_sign.Registry.Keys.{IsSeparated}
use meta_co_sign.Store.{LevelDb, Addresses}

contracts-IsSeparated : IsSeparated contracts
unfolding bytes_eq
contracts-IsSeparated = record {
  data_ne_index = λ s t. refl;
  data_ne_count = λ s. refl;
  index_ne_count = λ s. refl;
}

wallets-IsSeparated : IsSeparated wallets
unfolding bytes_eq
wallets-IsSeparated = record {
  data_ne_index = λ s t. refl;
  data_ne_count = λ s. refl;
  index_ne_count = λ s. refl;
}

help_pay_wallets-IsSeparated : IsSeparated help_pay_wallets
unfolding bytes_eq
help_pay_wallets-IsSeparated = record {
  data_ne_index = λ s t. refl;
  data_ne_count = λ s. refl;
  index_ne_count = λ s. refl;
}

admins-IsSeparated : IsSeparated admins
unfolding bytes_eq
admins-IsSeparated = record {
  data_ne_index = λ s t. refl;
  data_ne_count = λ s. refl;
  index_ne_count = λ s. refl;
}

module _ (E : Addresses) (M : Messages) where
  open E use {Address, bytes_to_address}

  abbrev pub contract_of : ContractFreeGasData → Address
  contract_of d = bytes_to_address d.contract_address

  abbrev pub wallet_of : AuthorizedWalletData → Address
  wallet_of d = bytes_to_address d.wallet_address

  abbrev pub admin_of : AdminData → Address
  admin_of d = bytes_to_address d.admin_address

module _ (L : LevelDb) (E : Addresses) (M : Messages) where
  pub contracts-IsFamily : IsFamily E M.contract contracts (contract_of E M) (last_contract L E M)
  unfolding last_contract
  contracts-IsFamily = record {
    separated = contracts-IsSeparated;
    names = λ b x e. rw (e, last_contract) refl;
  }

  pub wallets-IsFamily : IsFamily E M.wallet wallets (wallet_of E M) (last_wallet L E M)
  unfolding last_wallet
  wallets-IsFamily = record {
    separated = wallets-IsSeparated;
    names = λ b x e. rw (e, last_wallet) refl;
  }

  pub help_pay_wallets-IsFamily :
      IsFamily E M.wallet help_pay_wallets (wallet_of E M) (last_help_pay_wallet L E M)
  unfolding last_help_pay_wallet
  help_pay_wallets-IsFamily = record {
    separated = help_pay_wallets-IsSeparated;
    names = λ b x e. rw (e, last_help_pay_wallet) refl;
  }

  pub admins-IsFamily : IsFamily E M.admin admins (admin_of E M) (last_admin L E M)
  unfolding last_admin
  admins-IsFamily = record {
    separated = admins-IsSeparated;
    names = λ b x e. rw (e, last_admin) refl;
  }

-- ===== src/FreeGas/Apart.antt =====
-- No key of one family is a key of another, so an operation on one list leaves the others alone.
use meta_co_sign.Base.{refl}
use meta_co_sign.Bytes.{bytes_eq}
use meta_co_sign.FreeGas.{contracts, wallets, help_pay_wallets, admins}
use meta_co_sign.Registry.Frame.{IsApart}

pub contracts-wallets-IsApart : IsApart contracts wallets
unfolding bytes_eq
contracts-wallets-IsApart = record {
  data_keys = λ s. record { data_keys = λ t. refl; index_keys = λ t. refl; counter = refl };
  index_keys = λ s. record { data_keys = λ t. refl; index_keys = λ t. refl; counter = refl };
  counter = record { data_keys = λ t. refl; index_keys = λ t. refl; counter = refl };
}

pub contracts-help_pay_wallets-IsApart : IsApart contracts help_pay_wallets
unfolding bytes_eq
contracts-help_pay_wallets-IsApart = record {
  data_keys = λ s. record { data_keys = λ t. refl; index_keys = λ t. refl; counter = refl };
  index_keys = λ s. record { data_keys = λ t. refl; index_keys = λ t. refl; counter = refl };
  counter = record { data_keys = λ t. refl; index_keys = λ t. refl; counter = refl };
}

pub contracts-admins-IsApart : IsApart contracts admins
unfolding bytes_eq
contracts-admins-IsApart = record {
  data_keys = λ s. record { data_keys = λ t. refl; index_keys = λ t. refl; counter = refl };
  index_keys = λ s. record { data_keys = λ t. refl; index_keys = λ t. refl; counter = refl };
  counter = record { data_keys = λ t. refl; index_keys = λ t. refl; counter = refl };
}

pub wallets-contracts-IsApart : IsApart wallets contracts
unfolding bytes_eq
wallets-contracts-IsApart = record {
  data_keys = λ s. record { data_keys = λ t. refl; index_keys = λ t. refl; counter = refl };
  index_keys = λ s. record { data_keys = λ t. refl; index_keys = λ t. refl; counter = refl };
  counter = record { data_keys = λ t. refl; index_keys = λ t. refl; counter = refl };
}

pub wallets-help_pay_wallets-IsApart : IsApart wallets help_pay_wallets
unfolding bytes_eq
wallets-help_pay_wallets-IsApart = record {
  data_keys = λ s. record { data_keys = λ t. refl; index_keys = λ t. refl; counter = refl };
  index_keys = λ s. record { data_keys = λ t. refl; index_keys = λ t. refl; counter = refl };
  counter = record { data_keys = λ t. refl; index_keys = λ t. refl; counter = refl };
}

pub wallets-admins-IsApart : IsApart wallets admins
unfolding bytes_eq
wallets-admins-IsApart = record {
  data_keys = λ s. record { data_keys = λ t. refl; index_keys = λ t. refl; counter = refl };
  index_keys = λ s. record { data_keys = λ t. refl; index_keys = λ t. refl; counter = refl };
  counter = record { data_keys = λ t. refl; index_keys = λ t. refl; counter = refl };
}

pub help_pay_wallets-contracts-IsApart : IsApart help_pay_wallets contracts
unfolding bytes_eq
help_pay_wallets-contracts-IsApart = record {
  data_keys = λ s. record { data_keys = λ t. refl; index_keys = λ t. refl; counter = refl };
  index_keys = λ s. record { data_keys = λ t. refl; index_keys = λ t. refl; counter = refl };
  counter = record { data_keys = λ t. refl; index_keys = λ t. refl; counter = refl };
}

pub help_pay_wallets-wallets-IsApart : IsApart help_pay_wallets wallets
unfolding bytes_eq
help_pay_wallets-wallets-IsApart = record {
  data_keys = λ s. record { data_keys = λ t. refl; index_keys = λ t. refl; counter = refl };
  index_keys = λ s. record { data_keys = λ t. refl; index_keys = λ t. refl; counter = refl };
  counter = record { data_keys = λ t. refl; index_keys = λ t. refl; counter = refl };
}

pub help_pay_wallets-admins-IsApart : IsApart help_pay_wallets admins
unfolding bytes_eq
help_pay_wallets-admins-IsApart = record {
  data_keys = λ s. record { data_keys = λ t. refl; index_keys = λ t. refl; counter = refl };
  index_keys = λ s. record { data_keys = λ t. refl; index_keys = λ t. refl; counter = refl };
  counter = record { data_keys = λ t. refl; index_keys = λ t. refl; counter = refl };
}

pub admins-contracts-IsApart : IsApart admins contracts
unfolding bytes_eq
admins-contracts-IsApart = record {
  data_keys = λ s. record { data_keys = λ t. refl; index_keys = λ t. refl; counter = refl };
  index_keys = λ s. record { data_keys = λ t. refl; index_keys = λ t. refl; counter = refl };
  counter = record { data_keys = λ t. refl; index_keys = λ t. refl; counter = refl };
}

pub admins-wallets-IsApart : IsApart admins wallets
unfolding bytes_eq
admins-wallets-IsApart = record {
  data_keys = λ s. record { data_keys = λ t. refl; index_keys = λ t. refl; counter = refl };
  index_keys = λ s. record { data_keys = λ t. refl; index_keys = λ t. refl; counter = refl };
  counter = record { data_keys = λ t. refl; index_keys = λ t. refl; counter = refl };
}

pub admins-help_pay_wallets-IsApart : IsApart admins help_pay_wallets
unfolding bytes_eq
admins-help_pay_wallets-IsApart = record {
  data_keys = λ s. record { data_keys = λ t. refl; index_keys = λ t. refl; counter = refl };
  index_keys = λ s. record { data_keys = λ t. refl; index_keys = λ t. refl; counter = refl };
  counter = record { data_keys = λ t. refl; index_keys = λ t. refl; counter = refl };
}

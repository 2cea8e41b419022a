-- ===== src/Permissions/Paying.antt =====
-- What the handlers of the paying wallets do to the list of these.
use meta_co_sign.Base.{
  ℕ, suc, ◌+◌, ◌≤◌, ◌<◌, ◌≡◌, refl, sym, subst, inl, inr, not, ◌&&◌, List, arith, length, ◌==◌,
  Bool-cases,
}
use meta_co_sign.Bytes.Word.{two64}
use meta_co_sign.FreeGas.{
  AuthorizedWalletData, Messages, help_pay_wallet_entry, add_help_pay_wallet,
  remove_help_pay_wallet, get_help_pay_wallets,
}
use meta_co_sign.FreeGas.Families.{wallet_of}
use meta_co_sign.FreeGas.Commands.{Command, Lists, Represents, HasRoom, Encodes, execute, spec}
use meta_co_sign.FreeGas.Refinement.{execute-Outcome}
use meta_co_sign.Permissions.{settle}
use meta_co_sign.Permissions.HelpPay.{
  PrivateKeys, Config, WalletArgument, Stores, and_then, found_owner, add_owner, sync_from,
  sync_help_pay_workers, read_wallet, check_help_pay, store_key, handle_add_help_pay_wallet,
  handle_remove_help_pay_wallet,
}
use meta_co_sign.Registry.Refine.{Outcome}
use meta_co_sign.Registry.Spec.{length-spec_add, length-spec_remove}
use meta_co_sign.Result.{Error, Result, ok, fail, panic, ◌>>=◌}
use meta_co_sign.Store.{LevelDb, Addresses}

pub and_then-case :
    {S A B : Type 0} (P : S → Type 0) (s : S) (r : Result A) (rest : A → Result B × S)
    → P s
    → ((a : A) → P (rest a).1)
    → P (and_then s r rest).1
and_then-case P s (ok a) rest same later = later a
and_then-case P s (fail e) rest same later = same
and_then-case P s panic rest same later = same

pub and_then-fail :
    {S A B : Type 0} (s : S) (r : Result A) (rest : A → Result B × S) (e : Error)
    → r ≡ fail e
    → (and_then s r rest).1 ≡ s
and_then-fail s r rest e h = subst (λ r. (and_then s r rest).1 ≡ s) (sym h) refl

module _ (L : LevelDb) (E : Addresses) (M : Messages) (K : PrivateKeys E.Address)
    (cfg : Config E.Address) (encodes : Encodes M) where
  open E use {Address, address_eq}

  -- The database holds the lists of `S`, but for the paying wallets, of which there are at most `n`
  -- more.
  abbrev pub OnlyPaying : ℕ → Lists → L.Db → Type 0
  OnlyPaying n S db =
      (zs : List AuthorizedWalletData) × (length zs ≤ length S.help_pay_wallets_list + n)
      × Represents L E M db (record S { help_pay_wallets_list = zs })

  settle-OnlyPaying :
      (db : L.Db) (S : Lists) (r : Result L.Db) (s : Result (List AuthorizedWalletData))
      → ((zs : List AuthorizedWalletData)
          → s ≡ ok zs
          → length zs ≤ length S.help_pay_wallets_list + 1)
      → Represents L E M db S
      → Outcome (Represents L E M) r (s >>= λ zs. ok (record S { help_pay_wallets_list = zs }))
      → OnlyPaying 1 S (settle db r)
  settle-OnlyPaying db S r (ok zs) bound held (inl failed) =
      rw failed (S.help_pay_wallets_list, omega arith, held)
  settle-OnlyPaying db S r (ok zs) bound held (inr (after, e, now)) = rw e (zs, bound zs refl, now)
  settle-OnlyPaying db S r (fail x) bound held e = rw e (S.help_pay_wallets_list, omega arith, held)
  settle-OnlyPaying db S r panic bound held e = absurd e

  module _ (now : ℕ) where
    add-OnlyPaying :
        (a by : Address) (db : L.Db) (S : Lists)
        → HasRoom S
        → Represents L E M db S
        → OnlyPaying 1 S (settle db (add_help_pay_wallet L E M now a by db))
    unfolding execute spec
    add-OnlyPaying a by db S room held =
        settle-OnlyPaying db S (add_help_pay_wallet L E M now a by db) _
          (length-spec_add E (wallet_of E M) (help_pay_wallet_entry L E M now a by)
            S.help_pay_wallets_list)
          held (execute-Outcome L E M encodes db S held room (Command.add_help_pay_wallet now a by))

    remove-OnlyPaying :
        (a : Address) (db : L.Db) (S : Lists)
        → HasRoom S
        → Represents L E M db S
        → OnlyPaying 1 S (settle db (remove_help_pay_wallet L E M a db))
    unfolding execute spec
    remove-OnlyPaying a db S room held =
        settle-OnlyPaying db S (remove_help_pay_wallet L E M a db) _
          (length-spec_remove E (wallet_of E M) a S.help_pay_wallets_list) held
          (execute-Outcome L E M encodes db S held room (Command.remove_help_pay_wallet a))

    sync_from-OnlyPaying :
        (s : Stores L.Db K.Keys) (S : Lists) (r : Result (List AuthorizedWalletData × ℕ))
        → HasRoom S
        → Represents L E M s.db S
        → OnlyPaying 1 S (sync_from L E M K cfg now s r).db
    unfolding sync_from add_owner
    sync_from-OnlyPaying s S (ok (wallets, total)) room held =
        elim (Bool-cases (
          not (found_owner L E M K cfg wallets)
          && (not (length cfg.pk_owner_rpc == 0) && not (address_eq cfg.owner cfg.zero_address)))) [
            | inl adds ↦ rw adds (add-OnlyPaying cfg.owner cfg.owner s.db S room held)
            | inr leaves ↦ rw leaves (S.help_pay_wallets_list, omega arith, held)
          ]
    sync_from-OnlyPaying s S (fail e) room held = (S.help_pay_wallets_list, omega arith, held)
    sync_from-OnlyPaying s S panic room held = (S.help_pay_wallets_list, omega arith, held)

    module _ (S : Lists) (room : HasRoom S)
        (more_room : suc (suc (length S.help_pay_wallets_list)) < two64) where
      -- what a handler does once the list is changed
      synced-OnlyPaying :
          (a : Address) (keys : K.Keys) (s : Stores L.Db K.Keys) (r : Result L.Db)
          → OnlyPaying 1 S (settle s.db r)
          → OnlyPaying 2 S
              (and_then s r λ db. (
                ok a,
                sync_help_pay_workers L E M K cfg now (record { db = db; keys = keys }),
              )).1.db
      unfolding sync_help_pay_workers
      synced-OnlyPaying a keys s (ok after) (zs, bound, held) =
          let room' : HasRoom (record S { help_pay_wallets_list = zs }) = record {
            contracts_room = room.contracts_room;
            wallets_room = room.wallets_room;
            help_pay_wallets_room = omega arith;
            admins_room = room.admins_room;
          } in
          let (ws, bound', later) =
            sync_from-OnlyPaying (record { db = after; keys = keys })
              (record S { help_pay_wallets_list = zs }) (get_help_pay_wallets L E M 0 1000 after)
              room' held in
          (ws, omega arith, later)
      synced-OnlyPaying a keys s (fail e) (zs, bound, held) = (zs, omega arith, held)
      synced-OnlyPaying a keys s panic (zs, bound, held) = (zs, omega arith, held)

      module _ (from : Address) (s : Stores L.Db K.Keys) (held : Represents L E M s.db S) where
        kept : OnlyPaying 2 S s.db
        kept = (S.help_pay_wallets_list, omega arith, held)

        pub handle_add_help_pay_wallet-OnlyPaying :
            (arg : WalletArgument Address)
            → OnlyPaying 2 S (handle_add_help_pay_wallet L E M K cfg now from arg s).1.db
        unfolding handle_add_help_pay_wallet
        handle_add_help_pay_wallet-OnlyPaying arg =
            and_then-case (λ x. OnlyPaying 2 S x.db) s (read_wallet L E M K cfg arg) _ kept
              λ (wallet, clean_key).
                and_then-case (λ x. OnlyPaying 2 S x.db) s (check_help_pay L E M K cfg from s.db) _
                  kept
                  λ allowed.
                    and_then-case (λ x. OnlyPaying 2 S x.db) s
                      (store_key L E M K cfg wallet clean_key s.keys) _ kept
                      λ keys.
                        synced-OnlyPaying wallet keys (record s { keys = keys })
                          (add_help_pay_wallet L E M now wallet from s.db)
                          (add-OnlyPaying wallet from s.db S room held)

        pub handle_remove_help_pay_wallet-OnlyPaying :
            (a : Address)
            → OnlyPaying 2 S (handle_remove_help_pay_wallet L E M K cfg now from a s).1.db
        unfolding handle_remove_help_pay_wallet
        handle_remove_help_pay_wallet-OnlyPaying a =
            and_then-case (λ x. OnlyPaying 2 S x.db) s (check_help_pay L E M K cfg from s.db) _ kept
              λ allowed.
                synced-OnlyPaying a (K.delete_private_key a s.keys) s
                  (remove_help_pay_wallet L E M a s.db) (remove-OnlyPaying a s.db S room held)

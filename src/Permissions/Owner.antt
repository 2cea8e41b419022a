-- ===== src/Permissions/Owner.antt =====
-- What `HandleAccountTransaction` of pkg/account_handler/account_handler.go leaves of the four lists
-- when the owner sends nothing.
use meta_co_sign.Base.{
  ℕ, suc, ◌+◌, ◌*◌, ◌≤◌, ◌<◌, ◌≡◌, ◌≢◌, refl, ◌∙◌, inl, inr, false, none, List, [], ◌∷◌, arith,
  length, Bool-cases, All,
}
use meta_co_sign.Bytes.Word.{two64}
use meta_co_sign.FreeGas.{
  AuthorizedWalletData, Messages, wallet_entry, add_wallet, remove_wallet, is_admin,
}
use meta_co_sign.FreeGas.Families.{wallet_of, admin_of}
use meta_co_sign.FreeGas.Commands.{Command, Lists, Represents, HasRoom, Encodes, execute, spec}
use meta_co_sign.FreeGas.Queries.{membership}
use meta_co_sign.FreeGas.Refinement.{execute-Outcome}
use meta_co_sign.Permissions.{
  owner_or_admin, handle_add_authorized_wallet, handle_remove_authorized_wallet, handle_add_admin,
  handle_remove_admin, settle,
}
use meta_co_sign.Permissions.Dispatch.{
  Call, add_authorized_wallet, remove_authorized_wallet, add_admin_call, remove_admin_call,
  add_help_pay_call, remove_help_pay_call, Transaction, dispatch, handle_transaction, run,
}
use meta_co_sign.Permissions.HelpPay.{
  PrivateKeys, Config, Stores, check_help_pay, read_wallet, handle_add_help_pay_wallet,
  handle_remove_help_pay_wallet,
}
use meta_co_sign.Permissions.Paying.{
  and_then-case, and_then-fail, handle_add_help_pay_wallet-OnlyPaying,
  handle_remove_help_pay_wallet-OnlyPaying,
}
use meta_co_sign.Registry.{is_some}
use meta_co_sign.Registry.Refine.{Outcome}
use meta_co_sign.Registry.Spec.{position, length-spec_add, length-spec_remove}
use meta_co_sign.Result.{Result, ok, fail, panic, unauthorized, ◌>>=◌}
use meta_co_sign.Store.{LevelDb, Addresses}

module _ (L : LevelDb) (E : Addresses) (M : Messages) (K : PrivateKeys E.Address)
    (cfg : Config E.Address) (encodes : Encodes M) where
  open E use {Address, address_eq, address_eq_iff}

  -- The database holds the contracts and the administrators of `S`; of the wallets there are at most
  -- `n` more, and of the paying wallets twice as many, as each may bring the owner's with it.
  abbrev pub StaffKept : ℕ → Lists → L.Db → Type 0
  StaffKept n S db =
      (ys : List AuthorizedWalletData) × (zs : List AuthorizedWalletData) × (length ys
        ≤ length S.wallets_list + n)
      × (length zs ≤ length S.help_pay_wallets_list + 2 * n)
      × Represents L E M db (record S { wallets_list = ys; help_pay_wallets_list = zs })

  not_owner : (from : Address) → from ≢ cfg.owner → address_eq from cfg.owner ≡ false
  not_owner from h = ground (arith, (address_eq_iff from cfg.owner).0)

  settle-wallets :
      (db : L.Db) (S : Lists) (r : Result L.Db) (s : Result (List AuthorizedWalletData))
      → ((zs : List AuthorizedWalletData) → s ≡ ok zs → length zs ≤ length S.wallets_list + 1)
      → Represents L E M db S
      → Outcome (Represents L E M) r (s >>= λ zs. ok (record S { wallets_list = zs }))
      → StaffKept 1 S (settle db r)
  settle-wallets db S r (ok zs) bound held (inl failed) =
      rw failed (S.wallets_list, S.help_pay_wallets_list, omega arith, omega arith, held)
  settle-wallets db S r (ok zs) bound held (inr (after, e, now)) =
      rw e (zs, S.help_pay_wallets_list, bound zs refl, omega arith, now)
  settle-wallets db S r (fail x) bound held e =
      rw e (S.wallets_list, S.help_pay_wallets_list, omega arith, omega arith, held)
  settle-wallets db S r panic bound held e = absurd e

  module _ (from : Address) (s : Stores L.Db K.Keys) (S : Lists) (room : HasRoom S)
      (held : Represents L E M s.db S) where
    kept : StaffKept 1 S s.db
    kept = (S.wallets_list, S.help_pay_wallets_list, omega arith, omega arith, held)

    add-StaffKept :
        (now : ℕ) (a : Address)
        → StaffKept 1 S (settle s.db (handle_add_authorized_wallet L E M cfg.owner now from a s.db))
    unfolding handle_add_authorized_wallet execute spec
    add-StaffKept now a = elim (Bool-cases (owner_or_admin L E M cfg.owner from s.db)) [
      | inl allowed ↦ rw allowed (
          settle-wallets s.db S (add_wallet L E M now a from s.db) _
            (length-spec_add E (wallet_of E M) (wallet_entry L E M now a from) S.wallets_list) held
            (execute-Outcome L E M encodes s.db S held room (Command.add_wallet now a from)))
      | inr refused ↦ rw refused kept
    ]

    remove-StaffKept :
        (a : Address)
        → StaffKept 1 S (settle s.db (handle_remove_authorized_wallet L E M cfg.owner from a s.db))
    unfolding handle_remove_authorized_wallet execute spec
    remove-StaffKept a = elim (Bool-cases (owner_or_admin L E M cfg.owner from s.db)) [
      | inl allowed ↦ rw allowed (
          settle-wallets s.db S (remove_wallet L E M a s.db) _
            (length-spec_remove E (wallet_of E M) a S.wallets_list) held
            (execute-Outcome L E M encodes s.db S held room (Command.remove_wallet a)))
      | inr refused ↦ rw refused kept
    ]

    dispatch-StaffKept :
        (c : Call Address) (now : ℕ)
        → from ≢ cfg.owner
        → suc (suc (length S.help_pay_wallets_list)) < two64
        → StaffKept 1 S (dispatch L E M K cfg c now from s).db
    unfolding dispatch handle_add_admin handle_remove_admin
    dispatch-StaffKept (add_authorized_wallet a) now stranger more = add-StaffKept now a
    dispatch-StaffKept (remove_authorized_wallet a) now stranger more = remove-StaffKept a
    dispatch-StaffKept (add_help_pay_call arg) now stranger more =
        let (zs, bound, later) =
          handle_add_help_pay_wallet-OnlyPaying L E M K cfg encodes now S room more from s held
            arg in
        (S.wallets_list, zs, omega arith, bound, later)
    dispatch-StaffKept (remove_help_pay_call a) now stranger more =
        let (zs, bound, later) =
          handle_remove_help_pay_wallet-OnlyPaying L E M K cfg encodes now S room more from s held
            a in
        (S.wallets_list, zs, omega arith, bound, later)
    dispatch-StaffKept (add_admin_call a) now stranger more = rw (not_owner from stranger) kept
    dispatch-StaffKept (remove_admin_call a) now stranger more = rw (not_owner from stranger) kept

    is_admin-unlisted :
        position E (admin_of E M) from S.admins_list ≡ none → is_admin L E M from s.db ≡ ok false
    unfolding is_some
    is_admin-unlisted absent =
        let (in_contracts, in_wallets, in_paying, in_admins) = membership L E M s.db S held from in
        in_admins ∙ rw absent refl

    -- Somebody who is no administrator either changes nothing, not even the keys.
    dispatch-same :
        (c : Call Address) (now : ℕ)
        → from ≢ cfg.owner
        → position E (admin_of E M) from S.admins_list ≡ none
        → dispatch L E M K cfg c now from s ≡ s
    unfolding dispatch handle_add_admin handle_remove_admin handle_add_authorized_wallet
        handle_remove_authorized_wallet owner_or_admin handle_add_help_pay_wallet
        handle_remove_help_pay_wallet check_help_pay
    dispatch-same c now stranger absent =
        let out = not_owner from stranger in
        let no_admin = is_admin-unlisted absent in
        let refused : check_help_pay L E M K cfg from s.db ≡ fail unauthorized =
          rw (no_admin, out) refl in
        elim c as (λ c. dispatch L E M K cfg c now from s ≡ s) [
          | add_authorized_wallet a ↦ rw (out, no_admin) refl
          | remove_authorized_wallet a ↦ rw (out, no_admin) refl
          | add_help_pay_call arg ↦
              and_then-case (λ x. x ≡ s) s (read_wallet L E M K cfg arg) _ refl
                λ (wallet, clean_key).
                  and_then-fail s (check_help_pay L E M K cfg from s.db) _ unauthorized refused
          | remove_help_pay_call a ↦
              and_then-fail s (check_help_pay L E M K cfg from s.db) _ unauthorized refused
          | add_admin_call a ↦ rw out refl
          | remove_admin_call a ↦ rw out refl
        ]

  -- Whatever transactions of the six calls are handled, if none is sent by the owner, and the lists
  -- have room, the database still holds the same contracts and administrators; the list of authorized
  -- wallets has grown by at most one for each transaction, and that of the paying wallets by at most
  -- two. If no administrator sends any either, nothing changes, private keys included.
  pub run-StaffKept :
      (txs : List (Transaction Address)) (s : Stores L.Db K.Keys) (S : Lists)
      → All (λ tx. tx.from ≢ cfg.owner) txs
      → HasRoom S
      → suc (length S.wallets_list + length txs) < two64
      → suc (length S.help_pay_wallets_list + 2 * length txs) < two64
      → Represents L E M s.db S
      → StaffKept (length txs) S (run L E M K cfg txs s).db
        × (All (λ tx. position E (admin_of E M) tx.from S.admins_list ≡ none) txs
            → run L E M K cfg txs s ≡ s)
  unfolding run handle_transaction
  run-StaffKept [] s S strangers room fits fits' held = (
    (S.wallets_list, S.help_pay_wallets_list, omega arith, omega arith, held),
    λ none_admin. refl,
  )
  run-StaffKept (tx ∷ txs) s S strangers room fits fits' held =
      let (ys, zs, bound, bound', now) =
        dispatch-StaffKept tx.from s S room held tx.call tx.now strangers.0 (omega arith) in
      let room' : HasRoom (record S { wallets_list = ys; help_pay_wallets_list = zs }) = record {
        contracts_room = room.contracts_room;
        wallets_room = omega arith;
        help_pay_wallets_room = omega arith;
        admins_room = room.admins_room;
      } in
      let ((ys', zs', low, low', later), same) =
        run-StaffKept txs (dispatch L E M K cfg tx.call tx.now tx.from s)
          (record S { wallets_list = ys; help_pay_wallets_list = zs }) strangers.1 room'
          (omega arith) (omega arith) now in
      (
        (ys', zs', omega arith, omega arith, later),
        λ none_admin.
            same none_admin.1
            ∙ dispatch-same tx.from s S room held tx.call tx.now strangers.0 none_admin.0,
      )

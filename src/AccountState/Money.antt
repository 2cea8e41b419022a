-- ===== src/AccountState/Money.antt =====
-- What the methods of pkg/state/account_state.go do to the two balances, over any sequence of calls.
use meta_co_sign.AccountState.{Primitives}
use meta_co_sign.AccountState.Account.{
  AccountState, Change, changed, refused, add_pending_balance, sub_pending_balance, add_balance,
  sub_balance, sub_total_balance,
}
use meta_co_sign.AccountState.Integer.{pos, sub-pos}
use meta_co_sign.Base.{ℕ, ◌+◌, ◌-◌, ◌≡◌, ◌≤◌, refl, List, [], ◌∷◌, inl, inr, Bool-cases, ltb, arith}

-- the calls, by their amounts
pub data Call : Type 0 where
  credit credit_pending debit debit_pending debit_total : ℕ → Call

abbrev pub received_by : Call → ℕ
received_by (credit n) = n
received_by (credit_pending n) = n
received_by (debit n) = 0
received_by (debit_pending n) = 0
received_by (debit_total n) = 0

abbrev pub received : List Call → ℕ
received [] = 0
received (c ∷ cs) = received_by c + received cs

module _ (P : Primitives) where
  -- the account after a call, and what the call took out
  abbrev pub taken : ℕ → AccountState P → Change (AccountState P) → AccountState P × ℕ
  taken n acc (changed after) = (after, n)
  taken n acc (refused e) = (acc, 0)

  unfoldable pub call : Call → AccountState P → AccountState P × ℕ
  unfolding add_pending_balance sub_pending_balance add_balance sub_balance sub_total_balance
  call (credit n) acc = (add_balance P (pos n) acc, 0)
  call (credit_pending n) acc = (add_pending_balance P (pos n) acc, 0)
  call (debit n) acc = taken n acc (sub_balance P (pos n) acc)
  call (debit_pending n) acc = taken n acc (sub_pending_balance P (pos n) acc)
  call (debit_total n) acc = taken n acc (sub_total_balance P (pos n) acc)

  unfoldable pub calls : List Call → AccountState P → AccountState P × ℕ
  unfolding call
  calls [] acc = (acc, 0)
  calls (c ∷ cs) acc =
      let (after, n) = call c acc in let (last, m) = calls cs after in (last, n + m)

  -- the balances are not negative, and `total` together
  pub record Holds (total : ℕ) (acc : AccountState P) : Type 0 where
    pub balance_amount : ℕ
    pub pending_amount : ℕ
    pub balance_eq : acc.balance ≡ pos balance_amount
    pub pending_eq : acc.pending_balance ≡ pos pending_amount
    pub total_eq : balance_amount + pending_amount ≡ total

  -- After a call the account holds what it held, with what came in and without what went out.
  abbrev Settled : ℕ → ℕ → AccountState P × ℕ → Type 0
  Settled total income (after, out) = (out ≤ total + income) × Holds (total + income - out) after

  module _ (total : ℕ) (acc : AccountState P) (h : Holds total acc) where
    unchanged :
        (same : AccountState P)
        → same.balance ≡ pos h.balance_amount
        → same.pending_balance ≡ pos h.pending_amount
        → Settled total 0 (same, 0)
    unchanged same e f = (
      omega arith,
      record {
        balance_amount = h.balance_amount;
        pending_amount = h.pending_amount;
        balance_eq = e;
        pending_eq = f;
        total_eq = omega (arith, h.total_eq);
      },
    )

    debit-Settled : (n : ℕ) → Settled total 0 (call (debit n) acc)
    unfolding call sub_balance
    debit-Settled n = elim (Bool-cases (ltb h.balance_amount n)) [
      | inl short ↦
          rw (h.balance_eq, short)
            (unchanged (record acc { balance = pos h.balance_amount }) refl h.pending_eq)
      | inr enough ↦
          let le : n ≤ h.balance_amount = ground arith in
          rw (h.balance_eq, enough)
            (
              omega (arith, h.total_eq),
              record {
                balance_amount = h.balance_amount - n;
                pending_amount = h.pending_amount;
                balance_eq = sub-pos h.balance_amount n le;
                pending_eq = h.pending_eq;
                total_eq = omega (arith, h.total_eq);
              },
            )
    ]

    debit_pending-Settled : (n : ℕ) → Settled total 0 (call (debit_pending n) acc)
    unfolding call sub_pending_balance
    debit_pending-Settled n = elim (Bool-cases (ltb h.pending_amount n)) [
      | inl short ↦
          rw (h.pending_eq, short)
            (unchanged (record acc { pending_balance = pos h.pending_amount }) h.balance_eq refl)
      | inr enough ↦
          let le : n ≤ h.pending_amount = ground arith in
          rw (h.pending_eq, enough)
            (
              omega (arith, h.total_eq),
              record {
                balance_amount = h.balance_amount;
                pending_amount = h.pending_amount - n;
                balance_eq = h.balance_eq;
                pending_eq = sub-pos h.pending_amount n le;
                total_eq = omega (arith, h.total_eq);
              },
            )
    ]

    debit_total-Settled : (n : ℕ) → Settled total 0 (call (debit_total n) acc)
    unfolding call sub_total_balance
    debit_total-Settled n = elim (Bool-cases (ltb (h.pending_amount + h.balance_amount) n)) [
      | inl short ↦
          rw (h.pending_eq, h.balance_eq, short)
            (unchanged
              (record acc {
                pending_balance = pos h.pending_amount;
                balance = pos h.balance_amount;
              })
              refl refl)
      | inr enough ↦
          let le : n ≤ h.pending_amount + h.balance_amount = ground arith in
          rw (h.pending_eq, h.balance_eq, enough)
            (
              omega (arith, h.total_eq),
              record {
                balance_amount = h.pending_amount + h.balance_amount - n;
                pending_amount = 0;
                balance_eq = sub-pos (h.pending_amount + h.balance_amount) n le;
                pending_eq = refl;
                total_eq = omega (arith, h.total_eq);
              },
            )
    ]

    call-Settled : (c : Call) → Settled total (received_by c) (call c acc)
    unfolding call add_balance add_pending_balance
    call-Settled (credit n) = rw h.balance_eq (
      omega arith,
      record {
        balance_amount = h.balance_amount + n;
        pending_amount = h.pending_amount;
        balance_eq = refl;
        pending_eq = h.pending_eq;
        total_eq = omega (arith, h.total_eq);
      },
    )
    call-Settled (credit_pending n) = rw h.pending_eq (
      omega arith,
      record {
        balance_amount = h.balance_amount;
        pending_amount = h.pending_amount + n;
        balance_eq = h.balance_eq;
        pending_eq = refl;
        total_eq = omega (arith, h.total_eq);
      },
    )
    call-Settled (debit n) = debit-Settled n
    call-Settled (debit_pending n) = debit_pending-Settled n
    call-Settled (debit_total n) = debit_total-Settled n

  -- Whatever the methods are called with, of amounts that are not negative, neither balance becomes
  -- negative, and together they are what they were, with all that was added, less all that the
  -- calls that succeeded took off.
  pub calls-Holds :
      (cs : List Call) (total : ℕ) (acc : AccountState P)
      → Holds total acc
      → ((calls cs acc).1 ≤ total + received cs)
        × Holds (total + received cs - (calls cs acc).1) (calls cs acc).0
  unfolding calls
  calls-Holds [] total acc h = unchanged total acc h acc h.balance_eq h.pending_eq
  calls-Holds (c ∷ cs) total acc h =
      let (bound, now) = call-Settled total acc h c in
      let (bound', later) =
        calls-Holds cs (total + received_by c - (call c acc).1) (call c acc).0 now in
      (
        omega (arith),
        record {
          balance_amount = later.balance_amount;
          pending_amount = later.pending_amount;
          balance_eq = later.balance_eq;
          pending_eq = later.pending_eq;
          total_eq = omega (arith, later.total_eq);
        },
      )

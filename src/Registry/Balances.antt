-- ===== src/Registry/Balances.antt =====
-- What the shares of `distribute_payment` of contracts/programs/supaba-registry come to against the
-- accrued payment and the balance of the escrow.
use kraph_core.Prelude.{ℕ, zero, suc, List, ◌+◌, ◌-◌, ◌≤◌, ◌<◌, ◌≡◌, ◌≢◌, refl, arith, ◌==◌, false}
use kraph_core.Prelude.Int.{ℤ}
use kraph_core.Registry.Types.{Pubkey, InstanceRecord, PaymentEscrow}
use kraph_core.Registry.Ledger.{
  ok, ◌>>=◌, Outcome, escrow_account, instance_account, Ledger, Platform,
}
use kraph_core.Registry.Payments.{DistributePayment, accrued_payment, distribute_payment}
use kraph_core.Registry.Shares.{
  paid_replicas, total_for, amounts-payments, escrow_injective, distribute_payment_exact,
}
use kraph_core.Registry.Transfers.{payments, amounts, Moved}

-- The payment is capped at the balance.
accrued_payment-le :
    (now : ℤ) (e : PaymentEscrow) (due : ℕ)
    → accrued_payment now e ≡ ok due
    → due ≤ e.deposited - e.distributed
unfolding accrued_payment ◌>>=◌
accrued_payment-le now e due h = ground arith

total_for-le : (due replicas : ℕ) → replicas ≤ 2 → total_for due replicas ≤ due
total_for-le due zero h = omega arith
total_for-le due (suc zero) h = omega arith
total_for-le due (suc (suc zero)) h = omega arith
total_for-le due (suc (suc (suc n))) h = absurd (omega arith)

total_for-lt : (due replicas : ℕ) → replicas ≤ 1 → 0 < due → total_for due replicas < due
total_for-lt due zero h w = omega arith
total_for-lt due (suc zero) h w = omega arith
total_for-lt due (suc (suc n)) h w = absurd (omega arith)

lt-total_for : (due replicas : ℕ) → replicas ≡ 3 → 100 ≤ due → due < total_for due replicas
lt-total_for due replicas e h = rw e (omega arith)

module _ (p : Platform) (now : ℤ) (ctx : DistributePayment) (id due : ℕ) (l : Ledger)
    (e : PaymentEscrow) (i : InstanceRecord) (r : Outcome)
    (at_escrow : l.accounts ctx.escrow ≡ escrow_account e)
    (at_instance : l.accounts ctx.instance_key ≡ instance_account i)
    (accrued : accrued_payment now e ≡ ok due) (positive : 0 < due)
    (done : distribute_payment p now ctx id l ≡ ok r) where
  -- A distribution that pays at most two replicas takes no more from the escrow than has accrued:
  -- what is transferred out of the escrow's token account, and nothing else is moved, comes to at
  -- most the accrued payment, and the escrow records exactly what was transferred.
  pub distribute-le_due :
      (e' : PaymentEscrow)
      → paid_replicas ctx i ≤ 2
      → r.0.accounts ctx.escrow ≡ escrow_account e'
      → (paid : List (Pubkey × ℕ)) × (after : Ledger) × Moved p ctx paid l after
        × (r.0.tokens ≡ after.tokens)
        × (amounts paid ≤ due)
        × (e'.distributed ≡ e.distributed + amounts paid)
  distribute-le_due e' few at' =
      let paid =
        distribute_payment_exact p now ctx id due l e i r at_escrow at_instance accrued positive
          done in
      let same = escrow_injective at' paid.at_escrow in
      let bound = total_for-le due (paid_replicas ctx i) few in
      let sum = amounts-payments ctx i due in
      (
        payments ctx i due,
        paid.after,
        paid.moved,
        paid.at_tokens,
        rw sum bound,
        rw (sum, same) refl,
      )

  -- A distribution that pays three replicas a payment of a hundred or more takes more from the
  -- escrow than has accrued.
  pub three_replicas_overpay :
      (e' : PaymentEscrow)
      → paid_replicas ctx i ≡ 3
      → 100 ≤ due
      → r.0.accounts ctx.escrow ≡ escrow_account e'
      → e.distributed + due < e'.distributed
  three_replicas_overpay e' three enough at' =
      let paid =
        distribute_payment_exact p now ctx id due l e i r at_escrow at_instance accrued positive
          done in
      let same = escrow_injective at' paid.at_escrow in
      let bound = lt-total_for due (paid_replicas ctx i) three enough in rw same (omega arith)

  -- A distribution that pays at most one replica leaves the instance as it is: it never suspends one
  -- whose escrow has run out, since a part of every payment stays in the escrow.
  one_replica_never_suspends :
      paid_replicas ctx i ≤ 1 → r.0.accounts ctx.instance_key ≡ instance_account i
  one_replica_never_suspends few =
      let paid =
        distribute_payment_exact p now ctx id due l e i r at_escrow at_instance accrued positive
          done in
      let bound = total_for-lt due (paid_replicas ctx i) few positive in
      let cap = accrued_payment-le now e due accrued in
      let left = e.deposited - (e.distributed + total_for due (paid_replicas ctx i)) in
      let some_left : 0 < left = omega arith in
      let test : (left == 0) ≡ false = ground arith in rw test at (paid.at_instance)

-- Where the accrued payment has reached the balance of the escrow, at a hundred or more, and three
-- replicas are to be paid, no distribution succeeds: the shares come to more than there is.
pub drained_escrow_stuck :
    (p : Platform) (now : ℤ) (ctx : DistributePayment) (id : ℕ) (l : Ledger) (e : PaymentEscrow)
    (i : InstanceRecord) (r : Outcome)
    → l.accounts ctx.escrow ≡ escrow_account e
    → l.accounts ctx.instance_key ≡ instance_account i
    → accrued_payment now e ≡ ok (e.deposited - e.distributed)
    → 100 ≤ e.deposited - e.distributed
    → paid_replicas ctx i ≡ 3
    → distribute_payment p now ctx id l ≢ ok r
drained_escrow_stuck p now ctx id l e i r at_e at_i accrued enough three done =
    let due = e.deposited - e.distributed in
    let paid =
      distribute_payment_exact p now ctx id due l e i r at_e at_i accrued (omega arith) done in
    let bound = lt-total_for due (paid_replicas ctx i) three enough in
    let fits = paid.total_fits in absurd (omega arith)

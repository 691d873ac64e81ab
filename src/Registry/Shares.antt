-- ===== src/Registry/Shares.antt =====
-- How much `distribute_payment` of contracts/programs/supaba-registry pays out, and what that leaves.
use kraph_core.Prelude.{
  ℕ, zero, suc, ◌+◌, ◌-◌, ◌*◌, ◌/◌, ◌≤◌, ◌<◌, ◌≡◌, refl, ap, min, List, [], ◌∷◌, length, arith,
  Bool-cases, inl, inr, ltb, ◌==◌, false, ==_refl,
}
use kraph_core.Prelude.Int.{ℤ}
use kraph_core.Registry.Types.{Pubkey, InstanceRecord, PaymentEscrow, overflow}
use kraph_core.Registry.Ledger.{
  Result, ok, ◌>>=◌, checked_sub, Outcome, AccountData, escrow_account, instance_account, Ledger,
  Platform,
}
use kraph_core.Registry.Ensures.{Ensures, Ensures-ok, Ensures-bind, Ensures-constrain, Ensures-if}
use kraph_core.Registry.Instances.{max_replica_nodes}
use kraph_core.Registry.Payments.{
  DistributePayment, accrued_payment, share, pay, pay_replicas, settle_instance, distribute,
  distribute_payment,
}
use kraph_core.Registry.Life.Store.{as_escrow_lem}
use kraph_core.Registry.Life.Instances.{load_instance_lem}
use kraph_core.Registry.Life.Payments.{settle_escrow_lem}
use kraph_core.Registry.Transfers.{
  min-suc, replica_payments, payments, amounts, amounts_each, Moved, pay-Moved, pay_replicas-Moved,
}

-- The number of replicas that a call pays.
abbrev pub paid_replicas : DistributePayment → InstanceRecord → ℕ
paid_replicas ctx i =
    min (min (length i.replica_nodes) max_replica_nodes) (length ctx.remaining_accounts)

-- What a payment of `due` comes to: 70 per cent, and 15 per cent for each replica, rounded down.
abbrev pub total_for : (due replicas : ℕ) → ℕ
total_for due replicas = due * 70 / 100 + replicas * (due * 15 / 100)

share_lem : (due percent s : ℕ) → share due percent ≡ ok s → s ≡ due * percent / 100
unfolding share ◌>>=◌
share_lem due percent s h = ground arith

-- An escrow after `total` has been paid out of it.
abbrev pub paid_escrow : (now : ℤ) (total : ℕ) → PaymentEscrow → PaymentEscrow
paid_escrow now total e = record e {
  distributed = e.distributed + total;
  last_distribution_at = now;
}

-- The two records and the token accounts after a distribution of `due` that was not cut short.
pub record IsPaid (p : Platform) (ctx : DistributePayment) (e : PaymentEscrow) (now : ℤ)
    (i : InstanceRecord) (due : ℕ) (before l : Ledger) : Type 0 where
  pub after : Ledger
  pub moved : Moved p ctx (payments ctx i due) before after
  pub at_tokens : l.tokens ≡ after.tokens
  pub total_fits : e.distributed + total_for due (paid_replicas ctx i) ≤ e.deposited
  pub at_escrow :
      l.accounts ctx.escrow
      ≡ escrow_account (paid_escrow now (total_for due (paid_replicas ctx i)) e)
  pub at_instance :
      l.accounts ctx.instance_key
      ≡ instance_account (
          settle_instance now
            (e.deposited - (e.distributed + total_for due (paid_replicas ctx i)))
            i)

total_lem :
    (due a b c n m : ℕ)
    → a ≡ due * 70 / 100
    → b ≡ due * 15 / 100
    → c ≡ 0 + a
    → m ≡ c + n * b
    → m ≡ total_for due n
total_lem due a b c n m ha hb hc hm = rw (hm, hc, ha, hb) (omega arith)

module _ (p : Platform) (ctx : DistributePayment) (e : PaymentEscrow) where
  pay_total :
      (target : Pubkey) (amount : ℕ) (s : Ledger × ℕ)
      → Ensures (λ r. r.1 ≡ s.1 + amount) (pay p ctx e target amount s)
  unfolding pay
  pay_total target amount (l, paid) =
      Ensures-if (ltb 0 amount) _ _
        (λ some_due. Ensures-bind _ _ λ u signed.
          Ensures-bind _ _ λ tokens moved. Ensures-bind _ _ λ n added. Ensures-ok _ (ground arith))
        (λ nothing_due. Ensures-ok _ (ground arith))

  pay_replicas_total :
      (due count : ℕ) (targets : List Pubkey) (s : Ledger × ℕ)
      → Ensures
          (λ r. r.1 ≡ s.1 + min count (length targets) * due)
          (pay_replicas p ctx e due count targets s)
  unfolding pay_replicas
  pay_replicas_total due zero targets s = Ensures-ok _ (grind arith)
  pay_replicas_total due (suc count) [] s = Ensures-ok _ (grind arith)
  pay_replicas_total due (suc count) (target ∷ targets) s = Ensures-bind _ _ λ t first. record {
    at = λ r rest.
        let head = (pay_total target due s).at t first in
        let tail = (pay_replicas_total due count targets t).at r rest in
        rw (min-suc count (length targets)) (omega arith);
  }

  distribute_exact :
      (now : ℤ) (i : InstanceRecord) (due : ℕ) (l : Ledger)
      → (ctx.instance_key == ctx.escrow) ≡ false
      → Ensures (λ r. IsPaid p ctx e now i due l r.0) (distribute p now ctx e i due l)
  unfolding distribute
  distribute_exact now i due l apart = Ensures-bind _ _ λ first_share p₁.
      Ensures-bind _ _ λ replica_share p₂. Ensures-bind _ _ λ s first. Ensures-bind _ _ λ t rest.
        Ensures-bind _ _ λ (e' : PaymentEscrow) settled.
          Ensures-bind _ _
            λ left (solvent : checked_sub e'.deposited e'.distributed overflow ≡ ok left).
              let shape = settle_escrow_lem p now t.1 e e' settled in
              let head =
                (pay_total ctx.primary_operator_token_account first_share (l, 0)).at s first in
              let tail =
                (pay_replicas_total replica_share (min (length i.replica_nodes) max_replica_nodes)
                    ctx.remaining_accounts s).at
                  t rest in
              let total : t.1 ≡ total_for due (paid_replicas ctx i) =
                total_lem due first_share replica_share s.1 (paid_replicas ctx i) t.1
                  (share_lem due 70 first_share p₁) (share_lem due 15 replica_share p₂) head tail in
              let books : e' ≡ paid_escrow now (total_for due (paid_replicas ctx i)) e =
                rw (← total) shape in
              let moves =
                (pay_replicas-Moved p ctx e replica_share
                    (min (length i.replica_nodes) max_replica_nodes) ctx.remaining_accounts s).at
                  t rest in
              let replicas : Moved p ctx (replica_payments ctx i due) s.0 t.0 =
                rw (share_lem due 15 replica_share p₂) at moves in
              let primary =
                (pay-Moved p ctx e ctx.primary_operator_token_account first_share (l, 0)).at s first
                  (replica_payments ctx i due) t.0 replicas in
              let all : Moved p ctx (payments ctx i due) l t.0 =
                rw (share_lem due 70 first_share p₁) at primary in
              Ensures-ok _ (record {
                after = t.0;
                moved = all;
                at_tokens = refl;
                total_fits = ground arith;
                at_escrow = rw (apart, ==_refl ctx.escrow) (ap escrow_account books);
                at_instance =
                    let rest_left : left
                        ≡ e.deposited - (e.distributed + total_for due (paid_replicas ctx i)) =
                      ground arith in
                    rw (==_refl ctx.instance_key, rest_left) refl;
              })

-- The payments come to the total that the escrow records.
pub amounts-payments :
    (ctx : DistributePayment) (i : InstanceRecord) (due : ℕ)
    → amounts (payments ctx i due) ≡ total_for due (paid_replicas ctx i)
amounts-payments ctx i due =
    rw
      (amounts_each (due * 15 / 100) (min (length i.replica_nodes) max_replica_nodes)
        ctx.remaining_accounts)
      refl

pub escrow_injective :
    {a : AccountData} {e e' : PaymentEscrow} → a ≡ escrow_account e → a ≡ escrow_account e' → e ≡ e'
escrow_injective f g = cc

instance_injective :
    {a : AccountData} {i i' : InstanceRecord}
    → a ≡ instance_account i
    → a ≡ instance_account i'
    → i ≡ i'
instance_injective f g = cc

due_lem : {r : Result ℕ} {m n : ℕ} → r ≡ ok m → r ≡ ok n → m ≡ n
due_lem f g = cc

apart_lem :
    (l : Ledger) (j k : Pubkey) (i : InstanceRecord) (e : PaymentEscrow)
    → l.accounts j ≡ instance_account i
    → l.accounts k ≡ escrow_account e
    → (j == k) ≡ false
apart_lem l j k i e at_j at_k = elim (Bool-cases (j == k)) [
  | inl same ↦ let q : j ≡ k = ground arith in absurd (cc (rw q at at_j, at_k))
  | inr apart ↦ apart
]

IsPaid-Ensures :
    (p : Platform) (now : ℤ) (ctx : DistributePayment) (id due : ℕ) (l : Ledger) (e : PaymentEscrow)
    (i : InstanceRecord)
    → l.accounts ctx.escrow ≡ escrow_account e
    → l.accounts ctx.instance_key ≡ instance_account i
    → accrued_payment now e ≡ ok due
    → 0 < due
    → Ensures (λ r. IsPaid p ctx e now i due l r.0) (distribute_payment p now ctx id l)
unfolding distribute_payment
IsPaid-Ensures p now ctx id due l e i at_e at_i accrued positive = Ensures-bind _ _ λ e' loaded.
    Ensures-bind _ _ λ u addressed. Ensures-bind _ _ λ t token. Ensures-constrain _ _ _ λ owned.
      Ensures-bind _ _ λ i' held_there. Ensures-bind _ _ λ t' token'.
        Ensures-bind _ _ λ due' (accrued' : accrued_payment now e' ≡ ok due').
          let e_same : e' ≡ e =
            escrow_injective (as_escrow_lem (l.accounts ctx.escrow) e' loaded) at_e in
          let i_same : i' ≡ i =
            instance_injective (load_instance_lem p l ctx.instance_key _ id i' held_there) at_i in
          let due_same : due' ≡ due = due_lem (rw e_same at accrued') accrued in
          Ensures-if (due' == 0) _ _ (λ nothing. absurd (ground arith))
            (λ something.
              rw (e_same, i_same, due_same)
                (distribute_exact p ctx e now i due l
                  (apart_lem l ctx.instance_key ctx.escrow i e at_i at_e)))

-- A distribution that has something to pay (`due` is the accrued payment, capped at the balance)
-- transfers 70 per cent of it to the account given for the primary and 15 per cent to the account
-- given for each replica paid, each rounded down, out of the escrow's token account, and no other
-- token; the escrow records exactly that total, which its balance covers, and the instance is
-- suspended if nothing is left.
pub distribute_payment_exact :
    (p : Platform) (now : ℤ) (ctx : DistributePayment) (id due : ℕ) (l : Ledger) (e : PaymentEscrow)
    (i : InstanceRecord) (r : Outcome)
    → l.accounts ctx.escrow ≡ escrow_account e
    → l.accounts ctx.instance_key ≡ instance_account i
    → accrued_payment now e ≡ ok due
    → 0 < due
    → distribute_payment p now ctx id l ≡ ok r
    → IsPaid p ctx e now i due l r.0
distribute_payment_exact p now ctx id due l e i r at_e at_i accrued positive done =
    (IsPaid-Ensures p now ctx id due l e i at_e at_i accrued positive).at r done

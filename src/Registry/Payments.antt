-- ===== src/Registry/Payments.antt =====
-- The escrow instructions of contracts/programs/supaba-registry/src/lib.rs: `deposit_payment` and
-- `distribute_payment`.
use kraph_core.Prelude.{
  ℕ, zero, suc, ◌+◌, min, List, [], ◌∷◌, ◌&&◌, ◌==◌, ltb, length, if◌then◌else◌,
}
use kraph_core.Prelude.Int.{ℤ, checked_sub_i64, as_u64}
use kraph_core.Registry.Types.{
  Pubkey, InstanceStatus, InstanceRecord, PaymentEscrow, zero_escrow, constraint_seeds,
  constraint_raw, invalid_amount, invalid_mint, overflow, payment_deposited, payment_distributed,
}
use kraph_core.Registry.Ledger.{
  Result, ok, ◌>>=◌, ◌>>◌, require, constrain, ok_or, u64_max, checked_add, checked_sub,
  checked_mul, checked_div, AccountData, empty, foreign, config_account, node_account,
  instance_account, escrow_account, as_escrow, Ledger, store, Platform, Outcome, escrow_seeds,
  check_seeds, init_account, load_token,
}
use kraph_core.Registry.Config.{load_config}
use kraph_core.Registry.Instances.{max_replica_nodes, load_instance}
use kraph_core.Registry.Moves.{check_signer}

abbrev pub payment_escrow_size : ℕ
payment_escrow_size = 8 + 32 + 16 + 8 + 8 + 8 + 8 + 1

pub record DepositPayment : Type 0 where
  pub escrow : Pubkey
  pub escrow_token_account : Pubkey
  pub agent_token_account : Pubkey
  pub usdc_mint : Pubkey
  pub config : Pubkey
  pub agent : Pubkey

pub record DistributePayment : Type 0 where
  pub escrow : Pubkey
  pub escrow_token_account : Pubkey
  pub instance_key : Pubkey
  pub primary_operator_token_account : Pubkey
  pub cranker : Pubkey
  pub remaining_accounts : List Pubkey

-- The escrow after a deposit: its fields are set by the first one, and `deposited` grows.
unfoldable pub deposit_into :
    (now : ℤ) (agent : Pubkey) (instance_id rate bump amount : ℕ)
    → PaymentEscrow
    → Result PaymentEscrow
deposit_into now agent instance_id rate bump amount escrow = do
  let opened : PaymentEscrow = record escrow {
    agent = agent;
    instance_id = instance_id;
    rate_per_hour = rate;
    last_distribution_at = now;
    bump = bump;
  }
  let e =
      if escrow.deposited == 0 && escrow.distributed == 0 && escrow.rate_per_hour == 0
      then opened
      else escrow
  deposited ← checked_add u64_max e.deposited amount
  ok (record e { deposited = deposited })

-- `payment.min(remaining)`: what has accrued since the last distribution, capped at the balance.
unfoldable pub accrued_payment : (now : ℤ) → PaymentEscrow → Result ℕ
accrued_payment now escrow = do
  elapsed ← ok_or (checked_sub_i64 now escrow.last_distribution_at) overflow
  scaled ← checked_mul u64_max (as_u64 elapsed) escrow.rate_per_hour
  payment ← checked_div scaled 3600
  remaining ← checked_sub escrow.deposited escrow.distributed overflow
  ok (min payment remaining)

-- A share of a payment, in percent.
unfoldable pub share : (payment percent : ℕ) → Result ℕ
share payment percent = do scaled ← checked_mul u64_max payment percent; checked_div scaled 100

-- What the distribution writes back to the escrow and the instance.
unfoldable pub settle_escrow : (now : ℤ) (total : ℕ) → PaymentEscrow → Result PaymentEscrow
settle_escrow now total escrow = do
  distributed ← checked_add u64_max escrow.distributed total
  ok (record escrow { distributed = distributed; last_distribution_at = now })

abbrev pub settle_instance : (now : ℤ) (new_remaining : ℕ) → InstanceRecord → InstanceRecord
settle_instance now new_remaining held =
    if new_remaining == 0
    then record held { status = InstanceStatus.suspended; updated_at = now }
    else held

-- `init_if_needed` asks whether the account is there.
abbrev pub if_empty {ℓ} : {A : Type ℓ} → AccountData → A → A → A
if_empty empty created found = created
if_empty foreign created found = found
if_empty (config_account c) created found = found
if_empty (node_account n) created found = found
if_empty (instance_account i) created found = found
if_empty (escrow_account e) created found = found

module _ (p : Platform) where
  -- `init_if_needed` of the escrow: a fresh one reads as zeros. The address is checked either way.
  unfoldable pub open_escrow :
      DepositPayment → (instance_id : ℕ) → Ledger → Result (Ledger × PaymentEscrow)
  open_escrow ctx instance_id l = do
    let seeds = escrow_seeds ctx.agent instance_id
    let created : Result (Ledger × PaymentEscrow) = do
      l₁ ←
          init_account p ctx.agent ctx.escrow payment_escrow_size seeds (escrow_account zero_escrow)
            l
      ok (l₁, zero_escrow)
    let found : Result (Ledger × PaymentEscrow) = do
      escrow ← as_escrow (l.accounts ctx.escrow)
      constrain ((p.find_program_address seeds).0 == ctx.escrow) constraint_seeds
      ok (l, escrow)
    if_empty (l.accounts ctx.escrow) created found

  unfoldable pub deposit_payment :
      (now : ℤ) → DepositPayment → (instance_id amount : ℕ) → Ledger → Result Outcome
  deposit_payment now ctx instance_id amount l = do
    opened ← open_escrow ctx instance_id l
    balances ←
        p.associated_token ctx.agent ctx.escrow_token_account ctx.usdc_mint ctx.escrow opened.0
    let l₁ : Ledger = record opened.0 { lamports = balances.0; tokens = balances.1 }
    agent_token ← load_token l₁ ctx.agent_token_account
    constrain (agent_token.owner == ctx.agent) constraint_raw
    constrain (agent_token.mint == ctx.usdc_mint) constraint_raw
    config ← load_config p l₁ ctx.config
    require (config.usdc_mint == ctx.usdc_mint) invalid_mint
    require (ltb 0 amount) invalid_amount
    tokens ← p.token_transfer ctx.agent_token_account ctx.escrow_token_account ctx.agent amount l₁
    escrow ←
        deposit_into now ctx.agent instance_id config.default_rate_per_hour
          (p.find_program_address (escrow_seeds ctx.agent instance_id)).1 amount opened.1
    ok (
      store (record l₁ { tokens = tokens }) ctx.escrow (escrow_account escrow),
      payment_deposited escrow.agent instance_id amount escrow.deposited ∷ [],
    )

  -- One transfer out of the escrow's token account, signed by the escrow; `paid` is the running
  -- `total_distributed`. A share of zero is not transferred.
  unfoldable pub pay :
      DistributePayment
      → PaymentEscrow
      → (target : Pubkey) (amount : ℕ) → Ledger × ℕ
      → Result (Ledger × ℕ)
  pay ctx escrow target amount (l, paid) = do
    let moved : Result (Ledger × ℕ) = do
      check_signer p (escrow_seeds escrow.agent escrow.instance_id) escrow.bump ctx.escrow
      tokens ← p.token_transfer ctx.escrow_token_account target ctx.escrow amount l
      total ← checked_add u64_max paid amount
      ok (record l { tokens = tokens }, total)
    if ltb 0 amount then moved else ok (l, paid)

  -- `for i in 0..replica_count`, which breaks off where the remaining accounts end.
  unfoldable pub pay_replicas :
      DistributePayment
      → PaymentEscrow
      → (replica_share : ℕ) → (replica_count : ℕ) → List Pubkey
      → Ledger × ℕ
      → Result (Ledger × ℕ)
  pay_replicas ctx escrow replica_share zero targets s = ok s
  pay_replicas ctx escrow replica_share (suc count) [] s = ok s
  pay_replicas ctx escrow replica_share (suc count) (target ∷ targets) s =
      pay ctx escrow target replica_share s >>= pay_replicas ctx escrow replica_share count targets

  -- The part of the handler after the early return.
  unfoldable pub distribute :
      (now : ℤ)
      → DistributePayment
      → PaymentEscrow
      → InstanceRecord
      → (actual_payment : ℕ) → Ledger
      → Result Outcome
  distribute now ctx escrow held actual_payment l = do
    primary_share ← share actual_payment 70
    replica_share ← share actual_payment 15
    s ← pay ctx escrow ctx.primary_operator_token_account primary_share (l, 0)
    t ←
        pay_replicas ctx escrow replica_share (min (length held.replica_nodes) max_replica_nodes)
          ctx.remaining_accounts s
    settled ← settle_escrow now t.1 escrow
    new_remaining ← checked_sub settled.deposited settled.distributed overflow
    ok (
      store (store t.0 ctx.escrow (escrow_account settled)) ctx.instance_key
          (instance_account (settle_instance now new_remaining held)),
      payment_distributed held.instance_id t.1 new_remaining ∷ [],
    )

  unfoldable pub distribute_payment :
      (now : ℤ) → DistributePayment → (instance_id : ℕ) → Ledger → Result Outcome
  distribute_payment now ctx instance_id l = do
    escrow ← as_escrow (l.accounts ctx.escrow)
    check_seeds p (escrow_seeds escrow.agent instance_id) escrow.bump ctx.escrow
    escrow_token ← load_token l ctx.escrow_token_account
    constrain (escrow_token.owner == ctx.escrow) constraint_raw
    held ← load_instance p l ctx.instance_key (λ i. i.agent) instance_id
    primary_token ← load_token l ctx.primary_operator_token_account
    actual_payment ← accrued_payment now escrow
    if actual_payment == 0 then ok (l, []) else distribute now ctx escrow held actual_payment l

-- ===== src/Registry/Tests/Payments.antt =====
-- Runs of `deposit_payment` and `distribute_payment`.
use kraph_core.Prelude.{
  ℕ, ◌≡◌, ◌≢◌, ◌+◌, ◌≤◌, ◌<◌, refl, arith, ◌==◌, leb, ◌&&◌, some, none, if◌then◌else◌, List, [],
  ◌∷◌,
}
use kraph_core.Prelude.Int.{pos, checked_sub_i64, ◌-ℤ◌, as_u64}
use kraph_core.Registry.Types.{Pubkey, InstanceStatus, InstanceRecord, PaymentEscrow}
use kraph_core.Registry.Ledger.{
  ok, ◌>>=◌, require, constrain, as_config, as_node, as_instance, as_escrow, check_seeds,
  init_account, load_token, Ledger, Outcome, empty, instance_account, escrow_account,
}
use kraph_core.Registry.Config.{initialize_config, load_config}
use kraph_core.Registry.Nodes.{register_node}
use kraph_core.Registry.Instances.{
  initial_instance, allocate_instance, activate_instance, load_instance, load_operated,
  check_replicas, replica_record,
}
use kraph_core.Registry.Moves.{check_signer}
use kraph_core.Registry.Payments.{
  DistributePayment, deposit_payment, deposit_into, open_escrow, distribute_payment, distribute,
  pay, pay_replicas, share, accrued_payment, settle_escrow,
}
use kraph_core.Registry.Program.{execute, run}
use kraph_core.Registry.History.Escrows.{IsLater, escrow_books}
use kraph_core.Registry.Shares.{IsPaid, distribute_payment_exact}
use kraph_core.Registry.Transfers.{amounts, Moved}
use kraph_core.Registry.Balances.{distribute-le_due, three_replicas_overpay, drained_escrow_stuck}
use kraph_core.Registry.Tests.{platform, taken, deposit}

abbrev held : InstanceRecord
held = record (initial_instance (pos 12) 3 1 102 [] [] 255) {
  status = InstanceStatus.active;
  updated_at = pos 13;
}

abbrev replicated : InstanceRecord
replicated = initial_instance (pos 14) 3 2 102 (104 ∷ 104 ∷ 104 ∷ []) [] 255

abbrev escrow : ℕ → PaymentEscrow
escrow id = record {
  agent = 3;
  instance_id = id;
  deposited = 1000;
  distributed = 0;
  rate_per_hour = 3600;
  last_distribution_at = pos 15;
  bump = 255;
}

-- The instance 1 without replicas and the instance 2 with three, and 1000 in the escrow of each.
abbrev ledger : Ledger
ledger = record {
  accounts = λ k.
      if k == 1301
      then instance_account held
      else if k == 1302
      then instance_account replicated
      else if k == 50301
      then escrow_account (escrow 1)
      else if k == 50302
      then escrow_account (escrow 2)
      else empty;
  lamports = λ k. 10000;
  tokens = λ k.
      if k == 34
      then some (record { mint = 7; owner = 50301; amount = 1000 })
      else if k == 35
      then some (record { mint = 7; owner = 50302; amount = 1000 })
      else if leb 70 k && leb k 79
      then some (record { mint = 7; owner = k; amount = 0 })
      else none;
}

abbrev crank : (id token : ℕ) → List Pubkey → DistributePayment
crank id token targets = record {
  escrow = 50300 + id;
  escrow_token_account = token;
  instance_key = 1300 + id;
  primary_operator_token_account = 70;
  cranker = 9;
  remaining_accounts = targets;
}

held_there : ledger.accounts 1301 ≡ instance_account held
unfolding run execute initialize_config register_node init_account load_config as_config as_node
    as_instance as_escrow check_seeds ◌>>=◌ require constrain allocate_instance activate_instance
    load_instance load_operated check_replicas replica_record check_signer deposit_payment
    deposit_into open_escrow load_token distribute_payment distribute pay pay_replicas share
    accrued_payment settle_escrow checked_sub_i64 ◌-ℤ◌ as_u64
held_there = refl

escrow_there : ledger.accounts 50301 ≡ escrow_account (escrow 1)
unfolding run execute initialize_config register_node init_account load_config as_config as_node
    as_instance as_escrow check_seeds ◌>>=◌ require constrain allocate_instance activate_instance
    load_instance load_operated check_replicas replica_record check_signer deposit_payment
    deposit_into open_escrow load_token distribute_payment distribute pay pay_replicas share
    accrued_payment settle_escrow checked_sub_i64 ◌-ℤ◌ as_u64
escrow_there = refl

-- Two hundred seconds after the deposit.
accrued : accrued_payment (pos 215) (escrow 1) ≡ ok 200
unfolding run execute initialize_config register_node init_account load_config as_config as_node
    as_instance as_escrow check_seeds ◌>>=◌ require constrain allocate_instance activate_instance
    load_instance load_operated check_replicas replica_record check_signer deposit_payment
    deposit_into open_escrow load_token distribute_payment distribute pay pay_replicas share
    accrued_payment settle_escrow checked_sub_i64 ◌-ℤ◌ as_u64
accrued = refl

abbrev paid : Outcome
paid = taken (distribute_payment platform (pos 215) (crank 1 34 []) 1 ledger)

distribute_done : distribute_payment platform (pos 215) (crank 1 34 []) 1 ledger ≡ ok paid
unfolding run execute initialize_config register_node init_account load_config as_config as_node
    as_instance as_escrow check_seeds ◌>>=◌ require constrain allocate_instance activate_instance
    load_instance load_operated check_replicas replica_record check_signer deposit_payment
    deposit_into open_escrow load_token distribute_payment distribute pay pay_replicas share
    accrued_payment settle_escrow checked_sub_i64 ◌-ℤ◌ as_u64
distribute_done = refl

abbrev paid_escrow : PaymentEscrow
paid_escrow = record (escrow 1) { distributed = 140; last_distribution_at = pos 215 }

paid_there : paid.0.accounts 50301 ≡ escrow_account paid_escrow
unfolding run execute initialize_config register_node init_account load_config as_config as_node
    as_instance as_escrow check_seeds ◌>>=◌ require constrain allocate_instance activate_instance
    load_instance load_operated check_replicas replica_record check_signer deposit_payment
    deposit_into open_escrow load_token distribute_payment distribute pay pay_replicas share
    accrued_payment settle_escrow checked_sub_i64 ◌-ℤ◌ as_u64
paid_there = refl

distribute_payment_exact_example :
    IsPaid platform (crank 1 34 []) (escrow 1) (pos 215) held 200 ledger paid.0
distribute_payment_exact_example =
    distribute_payment_exact platform (pos 215) (crank 1 34 []) 1 200 ledger (escrow 1) held paid
      escrow_there held_there accrued (omega arith) distribute_done

distribute-le_due_example :
    (sent : List (Pubkey × ℕ)) × (after : Ledger) × Moved platform (crank 1 34 []) sent ledger after
    × (paid.0.tokens ≡ after.tokens)
    × (amounts sent ≤ 200)
    × (paid_escrow.distributed ≡ 0 + amounts sent)
distribute-le_due_example =
    distribute-le_due platform (pos 215) (crank 1 34 []) 1 200 ledger (escrow 1) held paid
      escrow_there held_there accrued (omega arith) distribute_done paid_escrow (omega arith)
      paid_there

escrow_books_example :
    (e : PaymentEscrow) × ((run platform ((pos 300, deposit 1 50) ∷ []) paid.0).accounts 50301
      ≡ escrow_account e)
    × IsLater paid_escrow e
escrow_books_example =
    escrow_books platform ((pos 300, deposit 1 50) ∷ []) paid.0 50301 paid_escrow paid_there
      (omega arith)

replicated_there : ledger.accounts 1302 ≡ instance_account replicated
unfolding run execute initialize_config register_node init_account load_config as_config as_node
    as_instance as_escrow check_seeds ◌>>=◌ require constrain allocate_instance activate_instance
    load_instance load_operated check_replicas replica_record check_signer deposit_payment
    deposit_into open_escrow load_token distribute_payment distribute pay pay_replicas share
    accrued_payment settle_escrow checked_sub_i64 ◌-ℤ◌ as_u64
replicated_there = refl

second_escrow_there : ledger.accounts 50302 ≡ escrow_account (escrow 2)
unfolding run execute initialize_config register_node init_account load_config as_config as_node
    as_instance as_escrow check_seeds ◌>>=◌ require constrain allocate_instance activate_instance
    load_instance load_operated check_replicas replica_record check_signer deposit_payment
    deposit_into open_escrow load_token distribute_payment distribute pay pay_replicas share
    accrued_payment settle_escrow checked_sub_i64 ◌-ℤ◌ as_u64
second_escrow_there = refl

second_accrued : accrued_payment (pos 215) (escrow 2) ≡ ok 200
unfolding run execute initialize_config register_node init_account load_config as_config as_node
    as_instance as_escrow check_seeds ◌>>=◌ require constrain allocate_instance activate_instance
    load_instance load_operated check_replicas replica_record check_signer deposit_payment
    deposit_into open_escrow load_token distribute_payment distribute pay pay_replicas share
    accrued_payment settle_escrow checked_sub_i64 ◌-ℤ◌ as_u64
second_accrued = refl

abbrev targets : List Pubkey
targets = 71 ∷ 72 ∷ 73 ∷ []

abbrev overpaid : Outcome
overpaid = taken (distribute_payment platform (pos 215) (crank 2 35 targets) 2 ledger)

overpay_done : distribute_payment platform (pos 215) (crank 2 35 targets) 2 ledger ≡ ok overpaid
unfolding run execute initialize_config register_node init_account load_config as_config as_node
    as_instance as_escrow check_seeds ◌>>=◌ require constrain allocate_instance activate_instance
    load_instance load_operated check_replicas replica_record check_signer deposit_payment
    deposit_into open_escrow load_token distribute_payment distribute pay pay_replicas share
    accrued_payment settle_escrow checked_sub_i64 ◌-ℤ◌ as_u64
overpay_done = refl

abbrev overpaid_escrow : PaymentEscrow
overpaid_escrow = record (escrow 2) { distributed = 230; last_distribution_at = pos 215 }

overpaid_there : overpaid.0.accounts 50302 ≡ escrow_account overpaid_escrow
unfolding run execute initialize_config register_node init_account load_config as_config as_node
    as_instance as_escrow check_seeds ◌>>=◌ require constrain allocate_instance activate_instance
    load_instance load_operated check_replicas replica_record check_signer deposit_payment
    deposit_into open_escrow load_token distribute_payment distribute pay pay_replicas share
    accrued_payment settle_escrow checked_sub_i64 ◌-ℤ◌ as_u64
overpaid_there = refl

three_replicas_overpay_example : (escrow 2).distributed + 200 < overpaid_escrow.distributed
three_replicas_overpay_example =
    three_replicas_overpay platform (pos 215) (crank 2 35 targets) 2 200 ledger (escrow 2)
      replicated overpaid second_escrow_there replicated_there second_accrued (omega arith)
      overpay_done overpaid_escrow refl (omega arith) overpaid_there

all_accrued : accrued_payment (pos 1015) (escrow 2) ≡ ok 1000
unfolding run execute initialize_config register_node init_account load_config as_config as_node
    as_instance as_escrow check_seeds ◌>>=◌ require constrain allocate_instance activate_instance
    load_instance load_operated check_replicas replica_record check_signer deposit_payment
    deposit_into open_escrow load_token distribute_payment distribute pay pay_replicas share
    accrued_payment settle_escrow checked_sub_i64 ◌-ℤ◌ as_u64
all_accrued = refl

drained_escrow_stuck_example :
    distribute_payment platform (pos 1015) (crank 2 35 targets) 2 ledger ≢ ok overpaid
drained_escrow_stuck_example =
    drained_escrow_stuck platform (pos 1015) (crank 2 35 targets) 2 ledger (escrow 2) replicated
      overpaid second_escrow_there replicated_there all_accrued (omega arith) refl

-- ===== src/Registry/Transfers.antt =====
-- The transfers that `distribute_payment` of contracts/programs/supaba-registry makes.
use kraph_core.Prelude.{
  ℕ, zero, suc, ◌+◌, ◌*◌, ◌/◌, ◌≡◌, refl, min, List, [], ◌∷◌, length, map, take, Option, arith, ltb,
}
use kraph_core.Registry.Types.{Pubkey, InstanceRecord, PaymentEscrow}
use kraph_core.Registry.Ledger.{ok, Ledger, Platform, TokenAccount}
use kraph_core.Registry.Ensures.{Ensures, Ensures-ok, Ensures-bind, Ensures-if}
use kraph_core.Registry.Instances.{max_replica_nodes}
use kraph_core.Registry.Payments.{DistributePayment, pay, pay_replicas}

pub min-suc : (a b : ℕ) → min (suc a) (suc b) ≡ suc (min a b)
min-suc a b = omega arith

-- The payments of a distribution of `due`: 70 per cent to the operator of the primary, and 15 per
-- cent to each replica paid, in the order of the accounts.
abbrev pub replica_payments : DistributePayment → InstanceRecord → (due : ℕ) → List (Pubkey × ℕ)
replica_payments ctx i due =
    map (λ target. (target, due * 15 / 100))
      (take (min (length i.replica_nodes) max_replica_nodes) ctx.remaining_accounts)

abbrev pub payments : DistributePayment → InstanceRecord → (due : ℕ) → List (Pubkey × ℕ)
payments ctx i due =
    (ctx.primary_operator_token_account, due * 70 / 100) ∷ replica_payments ctx i due

abbrev pub amounts : List (Pubkey × ℕ) → ℕ
amounts [] = 0
amounts ((target, amount) ∷ rest) = amount + amounts rest

-- Transfers out of the escrow's token account with the escrow's authority, one after the other, and
-- nothing else; a payment of nothing is none.
abbrev pub Moved : Platform → DistributePayment → List (Pubkey × ℕ) → (l l' : Ledger) → Type 0
Moved p ctx [] l l' = l ≡ l'
Moved p ctx ((target, zero) ∷ rest) l l' = Moved p ctx rest l l'
Moved p ctx ((target, suc amount) ∷ rest) l l' =
    (tokens : Pubkey → Option TokenAccount) × (p.token_transfer ctx.escrow_token_account target
        ctx.escrow (suc amount) l
      ≡ ok tokens)
    × Moved p ctx rest (record l { tokens = tokens }) l'

pub amounts_each :
    (d count : ℕ) (targets : List Pubkey)
    → amounts (map (λ target. (target, d)) (take count targets)) ≡ min count (length targets) * d
amounts_each d zero targets = grind arith
amounts_each d (suc count) [] = grind arith
amounts_each d (suc count) (target ∷ targets) =
    rw (min-suc count (length targets), amounts_each d count targets) (grind arith)

module _ (p : Platform) (ctx : DistributePayment) (e : PaymentEscrow) where
  pub pay-Moved :
      (target : Pubkey) (amount : ℕ) (s : Ledger × ℕ)
      → Ensures
          (λ r.
            (rest : List (Pubkey × ℕ)) (l' : Ledger)
            → Moved p ctx rest r.0 l'
            → Moved p ctx ((target, amount) ∷ rest) s.0 l')
          (pay p ctx e target amount s)
  unfolding pay
  pay-Moved target zero (l, paid) = Ensures-ok _ (λ rest l' moved. moved)
  pay-Moved target (suc amount) (l, paid) =
      Ensures-if (ltb 0 (suc amount)) _ _
        (λ some_due. Ensures-bind _ _ λ u signed. Ensures-bind _ _ λ tokens sent.
          Ensures-bind _ _ λ n added. Ensures-ok _ (λ rest l' moved. (tokens, sent, moved)))
        (λ nothing_due. absurd (ground arith))

  pub pay_replicas-Moved :
      (due count : ℕ) (targets : List Pubkey) (s : Ledger × ℕ)
      → Ensures
          (λ r. Moved p ctx (map (λ target. (target, due)) (take count targets)) s.0 r.0)
          (pay_replicas p ctx e due count targets s)
  unfolding pay_replicas
  pay_replicas-Moved due zero targets s = Ensures-ok _ refl
  pay_replicas-Moved due (suc count) [] s = Ensures-ok _ refl
  pay_replicas-Moved due (suc count) (target ∷ targets) s = Ensures-bind _ _ λ t first. record {
    at = λ r rest.
        (pay-Moved target due s).at t first (map (λ k. (k, due)) (take count targets)) r.0
          ((pay_replicas-Moved due count targets t).at r rest);
  }

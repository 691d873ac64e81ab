-- ===== src/Registry/Life/Payments.antt =====
-- `initialize_config`, `deposit_payment` and `distribute_payment` of
-- contracts/programs/supaba-registry keep to the life of an account.
use kraph_core.Prelude.{
  ℕ, zero, suc, ◌+◌, ◌<◌, ◌≡◌, ◌≢◌, ◌⊎◌, inl, inr, refl, true, false, List, [], ◌∷◌, arith, ltb,
  leb, ◌==◌, ◌&&◌, ap, Bool-cases,
}
use kraph_core.Prelude.Int.{ℤ, pos, leb_ℤ}
use kraph_core.Registry.Types.{
  Pubkey, NetworkConfig, zero_config, InstanceRecord, PaymentEscrow, zero_escrow, overflow,
}
use kraph_core.Registry.Ledger.{
  Ledger, Result, ok, ◌>>=◌, checked_sub, Outcome, empty, foreign, config_account, node_account,
  instance_account, escrow_account, Platform, AccountData, update, config_seeds, escrow_seeds,
}
use kraph_core.Registry.Ensures.{
  Ensures, Ensures-ok, Ensures-bind, Ensures-require, Ensures-constrain, Ensures-if,
}
use kraph_core.Registry.Config.{InitializeConfig, initialize_config, network_config_size}
use kraph_core.Registry.Payments.{
  DepositPayment, DistributePayment, open_escrow, if_empty, payment_escrow_size, deposit_payment,
  deposit_into, pay, pay_replicas, settle_escrow, settle_instance, distribute, distribute_payment,
}
use kraph_core.Registry.Life.{
  IsDeposit, Evolves, new_config, new_escrow, escrow, held, deposited, paid, exhausted, same,
}
use kraph_core.Registry.Life.Store.{Evolve-update, as_escrow_lem, IsInit-find, init_account_lem}
use kraph_core.Registry.Life.Instances.{load_instance_lem}

module _ {A : Type 0} {Q : A → Type 0} where
  Ensures-if_empty :
      (a : AccountData) (r s : Result A)
      → (a ≡ empty → Ensures Q r)
      → (a ≢ empty → Ensures Q s)
      → Ensures Q (if_empty a r s)
  Ensures-if_empty empty r s h k = h refl
  Ensures-if_empty foreign r s h k = k (λ e. cc)
  Ensures-if_empty (config_account c) r s h k = k (λ e. cc)
  Ensures-if_empty (node_account n) r s h k = k (λ e. cc)
  Ensures-if_empty (instance_account i) r s h k = k (λ e. cc)
  Ensures-if_empty (escrow_account e) r s h k = k (λ e. cc)

deposit_into-IsDeposit :
    (now : ℤ) (who : Pubkey) (id rate bump amount : ℕ) (e e' : PaymentEscrow)
    → deposit_into now who id rate bump amount e ≡ ok e'
    → IsDeposit now who id rate bump amount e e'
unfolding deposit_into ◌>>=◌
deposit_into-IsDeposit now who id rate bump amount e e' h =
    elim (Bool-cases (e.deposited == 0 && e.distributed == 0 && e.rate_per_hour == 0)) [
      | inl first ↦ (ground arith, inl (ground arith, ground arith))
      | inr later ↦ (ground arith, inr (ground arith, ground arith))
    ]

-- The escrow that a deposit works on: a fresh one, or the one that was there.
record IsOpened (p : Platform) (ctx : DepositPayment) (id : ℕ) (l : Ledger)
    (r : Ledger × PaymentEscrow) : Type 0 where
  address :
      p.find_program_address (escrow_seeds ctx.agent id)
      ≡ (ctx.escrow, (p.find_program_address (escrow_seeds ctx.agent id)).1)
  start :
      ((l.accounts ctx.escrow ≡ empty) × (r.1 ≡ zero_escrow))
      ⊎ (l.accounts ctx.escrow ≡ escrow_account r.1)
  elsewhere : (k : Pubkey) → (ctx.escrow == k) ≡ false → r.0.accounts k ≡ l.accounts k

open_escrow_lem :
    (p : Platform) (ctx : DepositPayment) (id : ℕ) (l : Ledger)
    → Ensures (IsOpened p ctx id l) (open_escrow p ctx id l)
unfolding open_escrow
open_escrow_lem p ctx id l =
    let seeds = escrow_seeds ctx.agent id in
    Ensures-if_empty (l.accounts ctx.escrow) _ _
      (λ vacant. Ensures-bind _ _ λ l₁ made.
        let init =
          (init_account_lem p ctx.agent ctx.escrow payment_escrow_size seeds
              (escrow_account zero_escrow) l).at
            l₁ made in
        Ensures-ok _ (record {
          address = IsInit-find init;
          start = inl (vacant, refl);
          elsewhere = init.elsewhere;
        }))
      (λ taken. Ensures-bind _ _ λ e loaded.
        Ensures-constrain _ _ _ λ (found : ((p.find_program_address seeds).0 == ctx.escrow) ≡ true).
          let same_key : (p.find_program_address seeds).0 ≡ ctx.escrow = ground arith in
          Ensures-ok _ (record {
            address = ap (λ a. (a, (p.find_program_address seeds).1)) same_key;
            start = inr (as_escrow_lem _ e loaded);
            elsewhere = λ k _. refl;
          }))

module _ (p : Platform) where
  pub pay_lem :
      (ctx : DistributePayment) (e : PaymentEscrow) (target : Pubkey) (amount : ℕ) (s : Ledger × ℕ)
      → Ensures (λ r. r.0.accounts ≡ s.0.accounts) (pay p ctx e target amount s)
  unfolding pay
  pay_lem ctx e target amount (l, total) =
      Ensures-if (ltb 0 amount) _ _
        (λ some_due. Ensures-bind _ _ λ u signed.
          Ensures-bind _ _ λ tokens moved. Ensures-bind _ _ λ n added. Ensures-ok _ refl)
        (λ nothing_due. Ensures-ok _ refl)

  pub pay_replicas_lem :
      (ctx : DistributePayment) (e : PaymentEscrow) (due count : ℕ) (targets : List Pubkey)
      (s : Ledger × ℕ)
      → Ensures (λ r. r.0.accounts ≡ s.0.accounts) (pay_replicas p ctx e due count targets s)
  unfolding pay_replicas
  pay_replicas_lem ctx e due zero targets s = Ensures-ok _ refl
  pay_replicas_lem ctx e due (suc count) [] s = Ensures-ok _ refl
  pay_replicas_lem ctx e due (suc count) (target ∷ targets) s = Ensures-bind _ _ λ t first.
      rw (← (pay_lem ctx e target due s).at t first) (pay_replicas_lem ctx e due count targets t)

  pub settle_escrow_lem :
      (now : ℤ) (total : ℕ) (e e' : PaymentEscrow)
      → settle_escrow now total e ≡ ok e'
      → e' ≡ record e { distributed = e.distributed + total; last_distribution_at = now }
  unfolding settle_escrow ◌>>=◌
  settle_escrow_lem now total e e' h = ground arith

module _ (p : Platform) (now : ℤ) (l : Ledger) where
  abbrev Kept : Pubkey → Outcome → Type 0
  Kept who r = Evolves p now who l r.0

  pub initialize_config-Evolves :
      (ctx : InitializeConfig) (stake rate : ℕ) (mint : Pubkey) (cooldown : ℤ) (slash : ℕ)
      → Ensures (Kept ctx.authority) (initialize_config p ctx stake rate mint cooldown slash l)
  unfolding initialize_config
  initialize_config-Evolves ctx stake rate mint cooldown slash = Ensures-bind _ _ λ l₁ made.
      Ensures-require _ _ _ λ (percent : leb slash 100 ≡ true).
        Ensures-require _ _ _ λ (wait : leb_ℤ (pos 0) cooldown ≡ true).
          Ensures-ok _
            let init =
                (init_account_lem p ctx.authority ctx.config network_config_size config_seeds
                    (config_account zero_config) l).at
                  l₁ made in
              let c : NetworkConfig = record {
                authority = ctx.authority;
                min_stake = stake;
                default_rate_per_hour = rate;
                usdc_mint = mint;
                deregistration_cooldown = cooldown;
                slash_percentage = slash;
                bump = (p.find_program_address config_seeds).1;
              } in
              λ k.
                Evolve-update p now ctx.authority l l₁.accounts ctx.config (config_account c) k
                  (new_config c init.fresh
                    (record { signed = refl; slash = ground arith; cooldown = ground arith })
                    (IsInit-find init) refl)
                  (λ e. same (init.elsewhere k e))

  pub deposit_payment-Evolves :
      (ctx : DepositPayment) (id amount : ℕ)
      → Ensures (Kept ctx.agent) (deposit_payment p now ctx id amount l)
  unfolding deposit_payment
  deposit_payment-Evolves ctx id amount = Ensures-bind _ _ λ o opened. Ensures-bind _ _ λ b funded.
      Ensures-bind _ _ λ t token. Ensures-constrain _ _ _ λ own. Ensures-constrain _ _ _ λ mint.
        Ensures-bind _ _ λ (c : NetworkConfig) config. Ensures-require _ _ _ λ usdc.
          Ensures-require _ _ _ λ (some_paid : ltb 0 amount ≡ true).
            Ensures-bind _ _ λ tokens moved. Ensures-bind _ _ λ e grown.
              Ensures-ok _
                let is_open = (open_escrow_lem p ctx id l).at o opened in
                  let rate = c.default_rate_per_hour in
                  let bump = (p.find_program_address (escrow_seeds ctx.agent id)).1 in
                  let positive : 0 < amount = ground arith in
                  let made = deposit_into-IsDeposit now ctx.agent id rate bump amount o.1 e grown in
                  λ k.
                    Evolve-update p now ctx.agent l o.0.accounts ctx.escrow (escrow_account e) k
                      (elim is_open.start [
                        | inl (vacant, fresh) ↦
                            new_escrow e id rate bump amount vacant is_open.address positive
                              (rw fresh at made) refl
                        | inr there ↦
                            escrow o.1 e there
                              (deposited id rate bump amount is_open.address positive made) refl
                      ])
                      (λ ne. same (is_open.elsewhere k ne))

  distribute-Evolves :
      (ctx : DistributePayment) (e : PaymentEscrow) (i : InstanceRecord) (due : ℕ)
      → l.accounts ctx.escrow ≡ escrow_account e
      → l.accounts ctx.instance_key ≡ instance_account i
      → Ensures (Kept ctx.cranker) (distribute p now ctx e i due l)
  unfolding distribute
  distribute-Evolves ctx e i due at_escrow at_instance = Ensures-bind _ _ λ primary_share p₁.
      Ensures-bind _ _ λ replica_share p₂. Ensures-bind _ _ λ s first. Ensures-bind _ _ λ t rest.
        Ensures-bind _ _ λ (e' : PaymentEscrow) settled.
          Ensures-bind _ _
            λ left (solvent : checked_sub e'.deposited e'.distributed overflow ≡ ok left).
              Ensures-ok _
                let kept₁ = (pay_lem p ctx e _ primary_share (l, 0)).at s first in
                  let kept₂ =
                    (pay_replicas_lem p ctx e replica_share _ ctx.remaining_accounts s).at t rest in
                  let shape = settle_escrow_lem p now t.1 e e' settled in
                  λ k.
                    Evolve-update p now ctx.cranker l
                      (update t.0.accounts ctx.escrow (escrow_account e')) ctx.instance_key
                      (instance_account (settle_instance now left i)) k
                      (elim (Bool-cases (left == 0)) [
                        | inl empty_now ↦ rw empty_now (
                            held i _ at_instance
                              (exhausted ctx.escrow e t.1 at_escrow (ground arith) refl) refl)
                        | inr funded ↦ rw funded (same (ground arith))
                      ])
                      (λ _.
                        Evolve-update p now ctx.cranker l t.0.accounts ctx.escrow
                          (escrow_account e') k
                          (escrow e e' at_escrow (paid t.1 (ground arith) shape) refl)
                          (λ _. rw (kept₂, kept₁) (same refl)))

  pub distribute_payment-Evolves :
      (ctx : DistributePayment) (id : ℕ)
      → Ensures (Kept ctx.cranker) (distribute_payment p now ctx id l)
  unfolding distribute_payment
  distribute_payment-Evolves ctx id = Ensures-bind _ _ λ e loaded. Ensures-bind _ _ λ u addressed.
      Ensures-bind _ _ λ t token. Ensures-constrain _ _ _ λ owned. Ensures-bind _ _ λ i held_there.
        Ensures-bind _ _ λ t' token'. Ensures-bind _ _ λ due accrued.
          Ensures-if (due == 0) _ _ (λ nothing. Ensures-ok _ (λ k. same refl))
            (λ something.
              distribute-Evolves ctx e i due (as_escrow_lem _ e loaded)
                (load_instance_lem p l ctx.instance_key _ id i held_there))

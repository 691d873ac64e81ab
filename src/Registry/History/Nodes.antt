-- ===== src/Registry/History/Nodes.antt =====
-- Node records of contracts/programs/supaba-registry over time.
use kraph_core.Prelude.{◌≤◌, ◌≡◌, ◌≢◌, refl, List, arith, true}
use kraph_core.Prelude.Int.{ℤ, ◌≤ℤ◌, ◌-ℤ◌, leb_ℤ, i64_max, saturating_sub_i64, saturating_sub_le}
use kraph_core.Registry.Types.{Pubkey, NetworkConfig, NodeRecord, NodeStatus}
use kraph_core.Registry.Ledger.{
  ok, Outcome, AccountData, config_account, node_account, Ledger, Platform,
}
use kraph_core.Registry.Ensures.{Ensures, Ensures-ok, Ensures-bind, Ensures-require}
use kraph_core.Registry.Nodes.{ClaimStake, claim_stake}
use kraph_core.Registry.Program.{Instruction, run}
use kraph_core.Registry.Validity.{IsValid, IsValid-at}
use kraph_core.Registry.Life.{NodeStep, Evolve}
use kraph_core.Registry.Life.Store.{load_config_lem, has_status_lem}
use kraph_core.Registry.Life.Nodes.{load_own_node_lem}
use kraph_core.Registry.Life.Program.{run_keeps}
use kraph_core.Registry.Identity.{IsSameNode}
use kraph_core.Registry.History.Configs.{config_forever}

-- A property of a node record that every step keeps holds after any transactions.
module _ (p : Platform) (P : NodeRecord → Type 0) (k : Pubkey)
    (step : (now : ℤ) (who : Pubkey) (l : Ledger) (n n' : NodeRecord)
      → NodeStep now who l n n'
      → P n
      → P n') where
  HasNode : AccountData → Type 0
  HasNode a = (n : NodeRecord) × (a ≡ node_account n) × P n

  Evolve-HasNode :
      (now : ℤ) (who : Pubkey) (l : Ledger) (a b : AccountData)
      → Evolve p now who l k a b
      → HasNode a
      → HasNode b
  unfolding HasNode
  Evolve-HasNode now who l a b (Evolve.same e) h = rw e h
  Evolve-HasNode now who l a b (Evolve.new_config x v n at e) (m, f, q) = absurd (cc)
  Evolve-HasNode now who l a b (Evolve.new_node x v n at e) (m, f, q) = absurd (cc)
  Evolve-HasNode now who l a b (Evolve.new_instance x v n at e) (m, f, q) = absurd (cc)
  Evolve-HasNode now who l a b (Evolve.new_escrow x i r u m' v at w z e) (m, f, q) = absurd (cc)
  Evolve-HasNode now who l a b (Evolve.node n n' g s e) (m, f, q) =
      let same : m ≡ n = cc in (n', e, step now who l n n' s (rw same at q))
  Evolve-HasNode now who l a b (Evolve.held i i' g s e) (m, f, q) = absurd (cc)
  Evolve-HasNode now who l a b (Evolve.escrow x x' g s e) (m, f, q) = absurd (cc)

  pub run-node :
      (txs : List (ℤ × Instruction)) (l : Ledger) (n : NodeRecord)
      → l.accounts k ≡ node_account n
      → P n
      → (n' : NodeRecord) × ((run p txs l).accounts k ≡ node_account n') × P n'
  unfolding HasNode
  run-node txs l n at h = run_keeps p HasNode k Evolve-HasNode txs l (n, at, h)

-- A node record that is suspended stays one, with no more stake and no more instances.
pub record IsRetired (n n' : NodeRecord) : Type 0 where
  pub suspended : n'.status ≡ NodeStatus.suspended
  pub active : n'.active_instances ≤ n.active_instances
  pub kept : IsSameNode n n'

NodeStep-IsRetired :
    (m : NodeRecord) (now : ℤ) (who : Pubkey) (l : Ledger) (n n' : NodeRecord)
    → NodeStep now who l n n'
    → IsRetired m n
    → IsRetired m n'
NodeStep-IsRetired m now who l n n' (NodeStep.updated ep c r own up b₁ b₂ b₃ e) h = ground arith
NodeStep-IsRetired m now who l n n' (NodeStep.beat own up e) h = ground arith
NodeStep-IsRetired m now who l n n' (NodeStep.deregistered own up e) h = ground arith
NodeStep-IsRetired m now who l n n' (NodeStep.claimed key c at own s z w e) h = ground arith
NodeStep-IsRetired m now who l n n' (NodeStep.slashed key c amount at own b w e) h = ground arith
NodeStep-IsRetired m now who l n n' (NodeStep.gained up a b e) h = ground arith
NodeStep-IsRetired m now who l n n' (NodeStep.lost a e) h = ground arith

-- No instruction leads out of `Suspended`: after any transactions the record of a suspended node is
-- there, still suspended, with the same operator, with at most the stake and at most the active
-- instances that it had. So its stake can be slashed further, and never claimed.
pub suspended_forever :
    (p : Platform) (txs : List (ℤ × Instruction)) (l : Ledger) (k : Pubkey) (n : NodeRecord)
    → l.accounts k ≡ node_account n
    → n.status ≡ NodeStatus.suspended
    → (n' : NodeRecord) × ((run p txs l).accounts k ≡ node_account n') × IsRetired n n'
suspended_forever p txs l k n at s =
    run-node p (IsRetired n) k (NodeStep-IsRetired n) txs l n at (record {
      suspended = s;
      active = omega arith;
      kept = record { operator = refl; registered_at = refl; bump = refl; stake = omega arith };
    })

-- A node that is deregistering keeps the time at which it began, and is never active again.
abbrev IsLeaving : ℤ → NodeRecord → Type 0
IsLeaving t n =
    (n.status ≢ NodeStatus.active) × (n.status ≡ NodeStatus.deregistering → n.last_heartbeat ≡ t)

NodeStep-IsLeaving :
    (t : ℤ) (now : ℤ) (who : Pubkey) (l : Ledger) (n n' : NodeRecord)
    → NodeStep now who l n n'
    → IsLeaving t n
    → IsLeaving t n'
NodeStep-IsLeaving t now who l n n' (NodeStep.updated ep c r own up b₁ b₂ b₃ e) h = absurd (h.0 up)
NodeStep-IsLeaving t now who l n n' (NodeStep.beat own up e) h = absurd (h.0 up)
NodeStep-IsLeaving t now who l n n' (NodeStep.deregistered own up e) h = absurd (h.0 up)
NodeStep-IsLeaving t now who l n n' (NodeStep.claimed key c at own s z w e) h = ground arith
NodeStep-IsLeaving t now who l n n' (NodeStep.slashed key c amount at own b w e) h = ground arith
NodeStep-IsLeaving t now who l n n' (NodeStep.gained up a b e) h = absurd (h.0 up)
NodeStep-IsLeaving t now who l n n' (NodeStep.lost a e) h = rw e h

-- A successful claim saw a deregistering node, a configuration, and the time between.
record IsClaim (now : ℤ) (ctx : ClaimStake) (l : Ledger) : Type 0 where
  node : NodeRecord
  config : NetworkConfig
  at_node : l.accounts ctx.node ≡ node_account node
  at_config : l.accounts ctx.config ≡ config_account config
  leaving : node.status ≡ NodeStatus.deregistering
  waited : config.deregistration_cooldown ≤ℤ saturating_sub_i64 now node.last_heartbeat

claim_stake-IsClaim :
    (p : Platform) (now : ℤ) (ctx : ClaimStake) (l : Ledger)
    → Ensures (λ _. IsClaim now ctx l) (claim_stake p now ctx l)
unfolding claim_stake
claim_stake-IsClaim p now ctx l = Ensures-bind _ _ λ (n : NodeRecord) loaded.
    Ensures-bind _ _ λ (c : NetworkConfig) config. Ensures-require _ _ _ λ leaving.
      Ensures-require _ _ _ λ idle.
        Ensures-require _ _ _
          λ (waited : leb_ℤ c.deregistration_cooldown (saturating_sub_i64 now n.last_heartbeat)
              ≡ true).
            Ensures-bind _ _ λ l₁ moved. Ensures-ok _ (record {
              node = n;
              config = c;
              at_node = (load_own_node_lem p l ctx.node ctx.operator n loaded).0;
              at_config = load_config_lem p l ctx.config c config;
              leaving = has_status_lem n.status NodeStatus.deregistering leaving;
              waited = ground arith;
            })

-- However many transactions lie between, the stake of a node that was deregistering is not claimed
-- before the configured cooldown has passed since the time in its record. The ledger is valid, and
-- the cooldown is an `i64`.
pub cooldown_respected :
    (p : Platform) (now : ℤ) (txs : List (ℤ × Instruction)) (l : Ledger) (ctx : ClaimStake)
    (n : NodeRecord) (key : Pubkey) (c : NetworkConfig) (r : Outcome)
    → IsValid p l
    → l.accounts ctx.node ≡ node_account n
    → n.status ≡ NodeStatus.deregistering
    → l.accounts key ≡ config_account c
    → c.deregistration_cooldown ≤ℤ i64_max
    → claim_stake p now ctx (run p txs l) ≡ ok r
    → c.deregistration_cooldown ≤ℤ now -ℤ n.last_heartbeat
cooldown_respected p now txs l ctx n key c r valid at leaving at_config word claimed =
    let claim = (claim_stake-IsClaim p now ctx (run p txs l)).at r claimed in
    let (m, at_m, m_leaving) =
      run-node p (IsLeaving n.last_heartbeat) ctx.node (NodeStep-IsLeaving n.last_heartbeat) txs l n
        at (λ up. cc, λ _. refl) in
    let same : claim.node ≡ m = cc (claim.at_node, at_m) in
    let since : claim.node.last_heartbeat ≡ n.last_heartbeat =
      rw same (m_leaving.1 (rw (← same) claim.leaving)) in
    let found = config_forever p txs l key ctx.config c valid at_config in
    let its : claim.config ≡ c = ground (arith, found, claim.at_config) in
    let positive = (IsValid-at p l key (config_account c) valid at_config).0.cooldown in
    saturating_sub_le now n.last_heartbeat c.deregistration_cooldown positive word
      (rw (its, since) at claim.waited)

-- ===== src/Registry/Claims.antt =====
-- When `claim_stake` of contracts/programs/supaba-registry succeeds, and what it pays.
use kraph_core.Prelude.{
  ℕ, ◌+◌, ◌-◌, ◌≤◌, ◌≡◌, ◌≢◌, refl, ap, arith, true, false, leb, ◌==◌, ==_refl, [], ◌∷◌,
}
use kraph_core.Prelude.Int.{ℤ, ◌≤ℤ◌, leb_ℤ, saturating_sub_i64}
use kraph_core.Registry.Types.{
  Pubkey, NodeStatus, has_status, NodeRecord, NetworkConfig, stake_claimed,
}
use kraph_core.Registry.Ledger.{
  ok, ◌>>=◌, require, constrain, u64_max, Outcome, config_account, node_account, as_node, as_config,
  Ledger, Platform, Seeds, node_seeds, config_seeds, check_seeds, set_lamports, store,
}
use kraph_core.Registry.Config.{load_config}
use kraph_core.Registry.Nodes.{ClaimStake, claim_stake, move_lamports, load_own_node}
use kraph_core.Registry.Validity.{IsValid, IsValid-at}

-- An address that was found for its seeds passes the check against them.
check_seeds-find :
    (p : Platform) (s : Seeds) (k : Pubkey) (b : ℕ)
    → p.find_program_address s ≡ (k, b)
    → check_seeds p s b k ≡ ok tt
unfolding check_seeds constrain
check_seeds-find p s k b found =
    let derived = rw found at (p.create_find s) in rw (check_seeds, derived, ==_refl k) refl

load_own_node-ok :
    (p : Platform) (l : Ledger) (k operator : Pubkey) (n : NodeRecord)
    → l.accounts k ≡ node_account n
    → n.operator ≡ operator
    → p.find_program_address (node_seeds n.operator) ≡ (k, n.bump)
    → load_own_node p l k operator ≡ ok n
unfolding load_own_node as_node ◌>>=◌ require
load_own_node-ok p l k operator n at own found =
    let derived = check_seeds-find p (node_seeds n.operator) k n.bump found in
    let addressed : check_seeds p (node_seeds operator) n.bump k ≡ ok tt =
      cc (derived, ap node_seeds own) in
    let mine : (n.operator == operator) ≡ true = ground arith in rw (at, addressed, mine) refl

load_config-ok :
    (p : Platform) (l : Ledger) (k : Pubkey) (c : NetworkConfig)
    → l.accounts k ≡ config_account c
    → p.find_program_address config_seeds ≡ (k, c.bump)
    → load_config p l k ≡ ok c
unfolding load_config as_config ◌>>=◌
load_config-ok p l k c at found = rw at (rw (check_seeds-find p config_seeds k c.bump found) refl)

module _ (l : Ledger) (source target : Pubkey) (amount : ℕ) (covered : amount ≤ l.lamports source)
    (fits : l.lamports target + amount ≤ u64_max) (apart : source ≢ target) where
  abbrev moved : Ledger
  moved =
      set_lamports (set_lamports l source (l.lamports source - amount)) target
        (l.lamports target + amount)

  move_lamports-ok : move_lamports source target amount l ≡ ok moved
  unfolding move_lamports ◌>>=◌
  move_lamports-ok =
      let other : (source == target) ≡ false = ground arith in
      let enough : leb amount (l.lamports source) ≡ true = ground arith in
      let room : leb (l.lamports target + amount) u64_max ≡ true = ground arith in
      rw (enough, other, room) refl

-- In a valid ledger the operator of a deregistering node without instances gets the stake, once the
-- cooldown has passed: where the node's account covers it and the operator's balance has room for
-- it, the claim succeeds, the node is deregistered with no stake, and exactly the stake has moved
-- from the node's account to the operator's.
pub claim_succeeds :
    (p : Platform) (now : ℤ) (ctx : ClaimStake) (l : Ledger) (n : NodeRecord) (c : NetworkConfig)
    → IsValid p l
    → l.accounts ctx.node ≡ node_account n
    → l.accounts ctx.config ≡ config_account c
    → n.operator ≡ ctx.operator
    → n.status ≡ NodeStatus.deregistering
    → n.active_instances ≡ 0
    → c.deregistration_cooldown ≤ℤ saturating_sub_i64 now n.last_heartbeat
    → ctx.node ≢ ctx.operator
    → n.stake ≤ l.lamports ctx.node
    → l.lamports ctx.operator + n.stake ≤ u64_max
    → (r : Outcome) × (claim_stake p now ctx l ≡ ok r)
      × (r.0.accounts ctx.node
          ≡ node_account (record n { stake = 0; status = NodeStatus.deregistered }))
      × (r.0.lamports ctx.node + n.stake ≡ l.lamports ctx.node)
      × (r.0.lamports ctx.operator ≡ l.lamports ctx.operator + n.stake)
unfolding claim_stake ◌>>=◌ require
claim_succeeds p now ctx l n c valid at at_config own leaving idle waited apart covered fits =
    let node =
      load_own_node-ok p l ctx.node ctx.operator n at own
        (IsValid-at p l ctx.node (node_account n) valid at).1 in
    let config =
      load_config-ok p l ctx.config c at_config
        (IsValid-at p l ctx.config (config_account c) valid at_config).1 in
    let moves = move_lamports-ok l ctx.node ctx.operator n.stake covered fits apart in
    let l₁ = moved l ctx.node ctx.operator n.stake covered fits apart in
    let time : leb_ℤ c.deregistration_cooldown (saturating_sub_i64 now n.last_heartbeat) ≡ true =
      ground arith in
    let gone : has_status n.status NodeStatus.deregistering ≡ true = ground arith in
    let none_left : (n.active_instances == 0) ≡ true = ground arith in
    let back : (ctx.operator == ctx.node) ≡ false = ground arith in
    (
      (
        store l₁ ctx.node (node_account (record n { stake = 0; status = NodeStatus.deregistered })),
        stake_claimed n.operator n.stake ∷ [],
      ),
      rw (node, config, gone, none_left, time, moves) refl,
      rw (==_refl ctx.node) refl,
      rw (back, ==_refl ctx.node) (omega arith),
      rw (==_refl ctx.operator) refl,
    )

-- ===== src/Registry/Counters.antt =====
-- What `destroy_instance` and `migrate_instance` of contracts/programs/supaba-registry do to the
-- instance and to the counts of active instances.
use kraph_core.Prelude.{
  ℕ, ◌+◌, ◌-◌, ◌<◌, ◌≡◌, ◌≢◌, refl, arith, true, false, Bool-cases, ltb, ◌==◌, ==_refl, inl, inr,
}
use kraph_core.Prelude.Int.{ℤ}
use kraph_core.Registry.Types.{Pubkey, NodeRecord, InstanceRecord, InstanceStatus, overflow}
use kraph_core.Registry.Ledger.{
  ok, checked_add, checked_sub, u8_max, Outcome, AccountData, node_account, instance_account,
  Ledger, Platform, update,
}
use kraph_core.Registry.Ensures.{Ensures, Ensures-ok, Ensures-bind, Ensures-require}
use kraph_core.Registry.Moves.{MigrateInstance, migrate_instance}
use kraph_core.Registry.Life.Store.{as_node_lem}

node_injective :
    {a : AccountData} {n n' : NodeRecord} → a ≡ node_account n → a ≡ node_account n' → n ≡ n'
node_injective f g = cc

instance_ne_node :
    (f : Pubkey → AccountData) (j k : Pubkey) (i : InstanceRecord) (n : NodeRecord)
    → f j ≡ instance_account i
    → f k ≡ node_account n
    → (k == j) ≡ false
instance_ne_node f j k i n at_j at_k = elim (Bool-cases (k == j)) [
  | inl same ↦ let q : k ≡ j = ground arith in absurd (cc (rw q at at_k, at_j))
  | inr apart ↦ apart
]

-- The three records after a migration.
record IsMigrated (now : ℤ) (ctx : MigrateInstance) (l l' : Ledger) : Type 0 where
  held : InstanceRecord
  old : NodeRecord
  new : NodeRecord
  at_old : l.accounts ctx.old_primary ≡ node_account old
  at_new : l.accounts ctx.new_primary ≡ node_account new
  counted : 0 < old.active_instances
  accounts :
      l'.accounts
      ≡ update
          (update
            (update l.accounts ctx.instance_key (
              instance_account (record held {
                primary_node = ctx.new_primary;
                status = InstanceStatus.migrating;
                updated_at = now;
              })))
            ctx.old_primary
            (node_account (record old { active_instances = old.active_instances - 1 })))
          ctx.new_primary
          (node_account (record new { active_instances = new.active_instances + 1 }))

migrate_instance-IsMigrated :
    (p : Platform) (now : ℤ) (ctx : MigrateInstance) (id : ℕ) (l : Ledger)
    → Ensures (λ r. IsMigrated now ctx l r.0) (migrate_instance p now ctx id l)
unfolding migrate_instance
migrate_instance-IsMigrated p now ctx id l = Ensures-bind _ _ λ (i : InstanceRecord) loaded.
    Ensures-require _ _ _ λ own. Ensures-bind _ _ λ (o : NodeRecord) old.
      Ensures-require _ _ _ λ its. Ensures-bind _ _ λ (n : NodeRecord) new.
        Ensures-require _ _ _ λ up. Ensures-require _ _ _ λ still_up.
          Ensures-require _ _ _ λ (room : ltb n.active_instances n.capacity ≡ true).
            Ensures-bind _ _
              λ fewer (lowered : checked_sub o.active_instances 1 overflow ≡ ok fewer).
                Ensures-bind _ _
                  λ more (raised : checked_add u8_max n.active_instances 1 ≡ ok more).
                    let e : fewer ≡ o.active_instances - 1 = ground arith in
                    let f : more ≡ n.active_instances + 1 = ground arith in
                    Ensures-ok _ (record {
                      held = i;
                      old = o;
                      new = n;
                      at_old = as_node_lem _ o old;
                      at_new = as_node_lem _ n new;
                      counted = ground arith;
                      accounts = rw (e, f) refl;
                    })

module _ (p : Platform) (now : ℤ) (ctx : MigrateInstance) (id : ℕ) (l : Ledger) (o n : NodeRecord)
    (r : Outcome) (at_old : l.accounts ctx.old_primary ≡ node_account o)
    (at_new : l.accounts ctx.new_primary ≡ node_account n)
    (done : migrate_instance p now ctx id l ≡ ok r) where
  -- A migration between two nodes takes one instance off the count of the old one and adds one to
  -- the count of the new one, and changes nothing else in either record.
  migrate_moves_count :
      ctx.old_primary ≢ ctx.new_primary
      → (0 < o.active_instances)
        × (r.0.accounts ctx.old_primary
            ≡ node_account (record o { active_instances = o.active_instances - 1 }))
        × (r.0.accounts ctx.new_primary
            ≡ node_account (record n { active_instances = n.active_instances + 1 }))
  migrate_moves_count apart =
      let m = (migrate_instance-IsMigrated p now ctx id l).at r done in
      let old_same : m.old ≡ o = node_injective m.at_old at_old in
      let new_same : m.new ≡ n = node_injective m.at_new at_new in
      let other : (ctx.new_primary == ctx.old_primary) ≡ false = ground arith in
      (
        rw old_same at (m.counted),
        rw (m.accounts, other, ==_refl ctx.old_primary, old_same) refl,
        rw (m.accounts, ==_refl ctx.new_primary, new_same) refl,
      )

  -- A migration of an instance to the node where it already is raises that node's count by one,
  -- though the node runs no more instances than before.
  pub self_migration_inflates :
      ctx.old_primary ≡ ctx.new_primary
      → r.0.accounts ctx.old_primary
        ≡ node_account (record o { active_instances = o.active_instances + 1 })
  self_migration_inflates same =
      let m = (migrate_instance-IsMigrated p now ctx id l).at r done in
      let node_same : m.new ≡ o = node_injective (rw (← same) at (m.at_new)) at_old in
      rw same (rw (m.accounts, ==_refl ctx.new_primary, node_same) refl)

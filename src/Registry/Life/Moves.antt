-- ===== src/Registry/Life/Moves.antt =====
-- `destroy_instance` and `migrate_instance` of contracts/programs/supaba-registry keep to the life
-- of an account.
use kraph_core.Prelude.{ℕ, ◌≡◌, refl, true, arith, ltb, ◌==◌}
use kraph_core.Prelude.Int.{ℤ}
use kraph_core.Registry.Types.{
  Pubkey, NodeRecord, NodeStatus, InstanceRecord, InstanceStatus, PaymentEscrow, overflow,
}
use kraph_core.Registry.Ledger.{
  Ledger, ok, u8_max, checked_add, checked_sub, Outcome, node_account, instance_account, Platform,
  update,
}
use kraph_core.Registry.Ensures.{
  Ensures, Ensures-ok, Ensures-bind, Ensures-require, Ensures-constrain, Ensures-if,
}
use kraph_core.Registry.Moves.{
  DestroyInstance, MigrateInstance, refund, destroy_instance, migrate_instance,
}
use kraph_core.Registry.Life.{Evolves, node, held, gained, lost, destroyed, migrated, same}
use kraph_core.Registry.Life.Store.{Evolve-update, as_node_lem, has_status_lem}
use kraph_core.Registry.Life.Instances.{load_instance_lem}

module _ (p : Platform) (l : Ledger) where
  refund_lem :
      (ctx : DestroyInstance) (i : InstanceRecord) (e : PaymentEscrow)
      → Ensures (λ l'. l'.accounts ≡ l.accounts) (refund p ctx i e l)
  unfolding refund
  refund_lem ctx i e = Ensures-bind _ _ λ remaining left.
      Ensures-if (ltb 0 remaining) _ _
        (λ some_left.
          Ensures-bind _ _ λ u signed. Ensures-bind _ _ λ tokens moved. Ensures-ok _ refl)
        (λ nothing_left. Ensures-ok _ refl)

module _ (p : Platform) (now : ℤ) (l : Ledger) where
  abbrev Kept : Pubkey → Outcome → Type 0
  Kept who r = Evolves p now who l r.0

  pub destroy_instance-Evolves :
      (ctx : DestroyInstance) (id : ℕ) → Ensures (Kept ctx.agent) (destroy_instance p now ctx id l)
  unfolding destroy_instance
  destroy_instance-Evolves ctx id = Ensures-bind _ _ λ (i : InstanceRecord) loaded.
      Ensures-require _ _ _ λ (own : (i.agent == ctx.agent) ≡ true).
        Ensures-bind _ _ λ (n : NodeRecord) primary. Ensures-require _ _ _ λ its.
          Ensures-bind _ _ λ e escrow. Ensures-bind _ _ λ u addressed. Ensures-bind _ _ λ t token.
            Ensures-constrain _ _ _ λ held_by_escrow. Ensures-bind _ _ λ t' token'.
              Ensures-constrain _ _ _ λ held_by_agent.
                Ensures-bind _ _
                  λ active (lowered : checked_sub n.active_instances 1 overflow ≡ ok active).
                    Ensures-bind _ _ λ l₁ refunded.
                      Ensures-ok _
                        let unchanged = (refund_lem p l ctx i e).at l₁ refunded in
                          let i' : InstanceRecord = record i {
                            status = InstanceStatus.destroyed;
                            updated_at = now;
                          } in
                          let n' : NodeRecord = record n { active_instances = active } in
                          λ k.
                            Evolve-update p now ctx.agent l
                              (update l₁.accounts ctx.instance_key (instance_account i'))
                              ctx.primary_node (node_account n') k
                              (node n n' (as_node_lem _ n primary)
                                (lost (ground arith) (ground arith)) refl)
                              (λ _.
                                Evolve-update p now ctx.agent l l₁.accounts ctx.instance_key
                                  (instance_account i') k
                                  (held i i' (load_instance_lem p l ctx.instance_key _ id i loaded)
                                    (destroyed (ground arith) refl) refl)
                                  (λ _. rw unchanged (same refl)))

  pub migrate_instance-Evolves :
      (ctx : MigrateInstance) (id : ℕ) → Ensures (Kept ctx.agent) (migrate_instance p now ctx id l)
  unfolding migrate_instance
  migrate_instance-Evolves ctx id = Ensures-bind _ _ λ (i : InstanceRecord) loaded.
      Ensures-require _ _ _ λ (own : (i.agent == ctx.agent) ≡ true).
        Ensures-bind _ _ λ (o : NodeRecord) old. Ensures-require _ _ _ λ its.
          Ensures-bind _ _ λ (n : NodeRecord) new. Ensures-require _ _ _ λ up.
            Ensures-require _ _ _ λ still_up.
              Ensures-require _ _ _ λ (room : ltb n.active_instances n.capacity ≡ true).
                Ensures-bind _ _
                  λ fewer (lowered : checked_sub o.active_instances 1 overflow ≡ ok fewer).
                    Ensures-bind _ _
                      λ more (raised : checked_add u8_max n.active_instances 1 ≡ ok more).
                        Ensures-ok _
                          let i' : InstanceRecord = record i {
                            primary_node = ctx.new_primary;
                            status = InstanceStatus.migrating;
                            updated_at = now;
                          } in
                            let o' : NodeRecord = record o { active_instances = fewer } in
                            let n' : NodeRecord = record n { active_instances = more } in
                            let f₁ = update l.accounts ctx.instance_key (instance_account i') in
                            λ k.
                              Evolve-update p now ctx.agent l
                                (update f₁ ctx.old_primary (node_account o')) ctx.new_primary
                                (node_account n') k
                                (node n n' (as_node_lem _ n new)
                                  (gained (has_status_lem n.status NodeStatus.active up)
                                    (ground arith) (ground arith) (ground arith))
                                  refl)
                                (λ _.
                                  Evolve-update p now ctx.agent l f₁ ctx.old_primary
                                    (node_account o') k
                                    (node o o' (as_node_lem _ o old)
                                      (lost (ground arith) (ground arith)) refl)
                                    (λ _.
                                      Evolve-update p now ctx.agent l l.accounts ctx.instance_key
                                        (instance_account i') k
                                        (held i i'
                                          (load_instance_lem p l ctx.instance_key _ id i loaded)
                                          (migrated ctx.new_primary n (ground arith)
                                            (as_node_lem _ n new)
                                            (has_status_lem n.status NodeStatus.active up) refl)
                                          refl)
                                        (λ _. same refl)))

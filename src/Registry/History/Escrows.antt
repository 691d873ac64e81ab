-- ===== src/Registry/History/Escrows.antt =====
-- Escrows of contracts/programs/supaba-registry over time.
use kraph_core.Prelude.{◌≤◌, ◌≡◌, List, arith}
use kraph_core.Prelude.Int.{ℤ}
use kraph_core.Registry.Types.{Pubkey, PaymentEscrow}
use kraph_core.Registry.Ledger.{AccountData, escrow_account, Ledger, Platform}
use kraph_core.Registry.Program.{Instruction, run}
use kraph_core.Registry.Life.{EscrowStep, Evolve}
use kraph_core.Registry.Life.Program.{run_keeps}

-- The books of an escrow, later on.
pub record IsLater (e e' : PaymentEscrow) : Type 0 where
  pub deposited : e.deposited ≤ e'.deposited
  pub distributed : e.distributed ≤ e'.distributed
  pub solvent : e'.distributed ≤ e'.deposited

EscrowStep-IsLater :
    {p : Platform} {now : ℤ} {who k : Pubkey} (m : PaymentEscrow) {e e' : PaymentEscrow}
    → EscrowStep p now who k e e'
    → IsLater m e
    → IsLater m e'
EscrowStep-IsLater m (EscrowStep.deposited id rate bump amount at w q) h = ground arith
EscrowStep-IsLater m (EscrowStep.paid total b q) h = ground arith

HasEscrow : PaymentEscrow → AccountData → Type 0
HasEscrow m a = (e : PaymentEscrow) × (a ≡ escrow_account e) × IsLater m e

Evolve-HasEscrow :
    (m : PaymentEscrow) (p : Platform) (k : Pubkey) (now : ℤ) (who : Pubkey) (l : Ledger)
    (a b : AccountData)
    → Evolve p now who l k a b
    → HasEscrow m a
    → HasEscrow m b
unfolding HasEscrow
Evolve-HasEscrow m p k now who l a b (Evolve.same e) h = rw e h
Evolve-HasEscrow m p k now who l a b (Evolve.new_config x v n at e) (y, f, q) = absurd (cc)
Evolve-HasEscrow m p k now who l a b (Evolve.new_node x v n at e) (y, f, q) = absurd (cc)
Evolve-HasEscrow m p k now who l a b (Evolve.new_instance x v n at e) (y, f, q) = absurd (cc)
Evolve-HasEscrow m p k now who l a b (Evolve.new_escrow x i r u z v at w t e) (y, f, q) =
    absurd (cc)
Evolve-HasEscrow m p k now who l a b (Evolve.node n n' g s e) (y, f, q) = absurd (cc)
Evolve-HasEscrow m p k now who l a b (Evolve.held i i' g s e) (y, f, q) = absurd (cc)
Evolve-HasEscrow m p k now who l a b (Evolve.escrow x x' g s e) (y, f, q) =
    let same : y ≡ x = cc in (x', e, EscrowStep-IsLater m s (rw same at q))

-- The books of an escrow only grow, and never show more distributed than deposited: after any
-- transactions the escrow is there, with at least the deposits and the distributions it had.
pub escrow_books :
    (p : Platform) (txs : List (ℤ × Instruction)) (l : Ledger) (k : Pubkey) (e : PaymentEscrow)
    → l.accounts k ≡ escrow_account e
    → e.distributed ≤ e.deposited
    → (e' : PaymentEscrow) × ((run p txs l).accounts k ≡ escrow_account e') × IsLater e e'
unfolding HasEscrow
escrow_books p txs l k e at solvent =
    run_keeps p (HasEscrow e) k (Evolve-HasEscrow e p k) txs l
      (e, at, record { deposited = omega arith; distributed = omega arith; solvent = solvent })

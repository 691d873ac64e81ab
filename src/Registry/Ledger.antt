-- ===== src/Registry/Ledger.antt =====
-- The chain as the registry program sees it, what Anchor does with the accounts of an instruction
-- (contracts/programs/supaba-registry/src/lib.rs, the `#[account(...)]` attributes), and the
-- programs and syscalls that the registry calls, which are parameters.
use kraph_core.Prelude.{
  ℕ, ◌+◌, ◌-◌, ◌*◌, ◌/◌, ◌≤◌, ◌≡◌, ◌≢◌, Bool, true, false, Option, none, some, List, ◌==◌, leb,
  if◌then◌else◌,
}
use kraph_core.Registry.Types.{
  Pubkey, SupabaError, overflow, AnchorError, account_not_initialized,
  account_owned_by_wrong_program, account_discriminator_mismatch, constraint_seeds, Error, supaba,
  anchor, NetworkConfig, NodeRecord, InstanceRecord, PaymentEscrow, Event,
}

-- A success comes first, then the error of a transaction.
pub data Result {ℓ} (R : Type ℓ) : Type ℓ where
  ok : (result : R) → Result R
  err : (cause : Error) → Result R

-- Rust's `?`. It and `require` are shut, so that the rules of Registry/Ensures see them.
infixl 5 ◌>>=◌
unfoldable pub ◌>>=◌ {ℓ ℓ'} : {S : Type ℓ} {R : Type ℓ'} → Result S → (S → Result R) → Result R
err cause >>= next = err cause
ok result >>= next = next result

-- Anchor's `require!`, and a `constraint = ... @ error`.
unfoldable pub require : Bool → SupabaError → Result (Unit {0})
require true e = ok tt
require false e = err (supaba e)

-- A constraint for which Anchor reports an error of its own.
unfoldable pub constrain : Bool → AnchorError → Result (Unit {0})
constrain true e = ok tt
constrain false e = err (anchor e)

-- A check before what follows.
infixl 5 ◌>>◌
abbrev pub ◌>>◌ {ℓ} : {R : Type ℓ} → Result (Unit {0}) → Result R → Result R
check >> next = check >>= λ done. next

abbrev pub ok_or {ℓ} : {A : Type ℓ} → Option A → SupabaError → Result A
ok_or (some a) e = ok a
ok_or none e = err (supaba e)

-- Rust's checked operations on an unsigned type whose greatest value is `bound`.
abbrev pub u8_max : ℕ
u8_max = 255

abbrev pub u64_max : ℕ
u64_max = 18446744073709551615

abbrev pub checked_add : ℕ → ℕ → ℕ → Result ℕ
checked_add bound a b = if leb (a + b) bound then ok (a + b) else err (supaba overflow)

abbrev pub checked_sub : ℕ → ℕ → SupabaError → Result ℕ
checked_sub a b e = if leb b a then ok (a - b) else err (supaba e)

abbrev pub checked_mul : ℕ → ℕ → ℕ → Result ℕ
checked_mul bound a b = if leb (a * b) bound then ok (a * b) else err (supaba overflow)

abbrev pub checked_div : ℕ → ℕ → Result ℕ
checked_div a b = if b == 0 then err (supaba overflow) else ok (a / b)

-- What an address holds. `empty` is an account with no data that the system program owns (a
-- wallet, or no account at all), `foreign` one that another program owns.
pub data AccountData : Type 0 where
  empty foreign : AccountData
  config_account : NetworkConfig → AccountData
  node_account : NodeRecord → AccountData
  instance_account : InstanceRecord → AccountData
  escrow_account : PaymentEscrow → AccountData

-- The fields of an SPL token account that the program reads.
pub record TokenAccount : Type 0 where
  pub mint : Pubkey
  pub owner : Pubkey
  pub amount : ℕ

pub record Ledger : Type 0 where
  pub accounts : Pubkey → AccountData
  pub lamports : Pubkey → ℕ
  pub tokens : Pubkey → Option TokenAccount

abbrev pub update {ℓ} : {A : Type ℓ} → (Pubkey → A) → Pubkey → A → Pubkey → A
update f k v j = if k == j then v else f j

abbrev pub store : Ledger → Pubkey → AccountData → Ledger
store l k d = record l { accounts = update l.accounts k d }

abbrev pub set_lamports : Ledger → Pubkey → ℕ → Ledger
set_lamports l k n = record l { lamports = update l.lamports k n }

-- `Account<'info, T>::try_from`: the owner, then the discriminator.
unfoldable pub as_config : AccountData → Result NetworkConfig
as_config empty = err (anchor account_not_initialized)
as_config foreign = err (anchor account_owned_by_wrong_program)
as_config (config_account c) = ok c
as_config (node_account n) = err (anchor account_discriminator_mismatch)
as_config (instance_account i) = err (anchor account_discriminator_mismatch)
as_config (escrow_account e) = err (anchor account_discriminator_mismatch)

unfoldable pub as_node : AccountData → Result NodeRecord
as_node empty = err (anchor account_not_initialized)
as_node foreign = err (anchor account_owned_by_wrong_program)
as_node (config_account c) = err (anchor account_discriminator_mismatch)
as_node (node_account n) = ok n
as_node (instance_account i) = err (anchor account_discriminator_mismatch)
as_node (escrow_account e) = err (anchor account_discriminator_mismatch)

unfoldable pub as_instance : AccountData → Result InstanceRecord
as_instance empty = err (anchor account_not_initialized)
as_instance foreign = err (anchor account_owned_by_wrong_program)
as_instance (config_account c) = err (anchor account_discriminator_mismatch)
as_instance (node_account n) = err (anchor account_discriminator_mismatch)
as_instance (instance_account i) = ok i
as_instance (escrow_account e) = err (anchor account_discriminator_mismatch)

unfoldable pub as_escrow : AccountData → Result PaymentEscrow
as_escrow empty = err (anchor account_not_initialized)
as_escrow foreign = err (anchor account_owned_by_wrong_program)
as_escrow (config_account c) = err (anchor account_discriminator_mismatch)
as_escrow (node_account n) = err (anchor account_discriminator_mismatch)
as_escrow (instance_account i) = err (anchor account_discriminator_mismatch)
as_escrow (escrow_account e) = ok e

unfoldable pub load_token : Ledger → Pubkey → Result TokenAccount
load_token l k = elim (l.tokens k) [ some t ↦ ok t | none ↦ err (anchor account_not_initialized) ]

-- The seeds from which the program derives its addresses.
pub data Seeds : Type 0 where
  config_seeds : Seeds
  node_seeds : (operator : Pubkey) → Seeds
  instance_seeds escrow_seeds : (agent : Pubkey) (instance_id : ℕ) → Seeds

-- What the runtime, the system program and the token programs do, with the documented behaviour
-- that the registry relies on. Each operation takes the ledger as it stands at the call; those that
-- move lamports or tokens return the new balances.
pub record Platform : Type 0 where
  -- `Pubkey::find_program_address`: the address and its bump
  pub find_program_address : Seeds → Pubkey × ℕ
  -- `Pubkey::create_program_address`, at a given bump
  pub create_program_address : Seeds → ℕ → Option Pubkey
  -- creates an account of the given size, at the payer's expense
  pub create_account : (payer account : Pubkey) (space : ℕ) → Ledger → Result (Pubkey → ℕ)
  pub system_transfer : (source target : Pubkey) (amount : ℕ) → Ledger → Result (Pubkey → ℕ)
  pub token_transfer :
      (source target authority : Pubkey) (amount : ℕ)
      → Ledger
      → Result (Pubkey → Option TokenAccount)
  -- `init_if_needed` of an associated token account
  pub associated_token :
      (payer account mint authority : Pubkey)
      → Ledger
      → Result ((Pubkey → ℕ) × (Pubkey → Option TokenAccount))
  -- an address that was found for its seeds is derived again from them at the found bump
  pub create_find :
      (s : Seeds)
      → create_program_address s (find_program_address s).1 ≡ some (find_program_address s).0
  -- only an address that holds nothing is created, and only a wallet is debited
  pub create_account_fresh :
      (payer account : Pubkey) (space : ℕ) (l : Ledger) (f : Pubkey → ℕ)
      → create_account payer account space l ≡ ok f
      → l.accounts account ≡ empty
  pub create_account_lamports :
      (payer account : Pubkey) (space : ℕ) (l : Ledger) (f : Pubkey → ℕ) (k : Pubkey)
      → create_account payer account space l ≡ ok f
      → l.accounts k ≢ empty
      → l.lamports k ≤ f k
  pub transfer_lamports :
      (source target : Pubkey) (amount : ℕ) (l : Ledger) (f : Pubkey → ℕ) (k : Pubkey)
      → system_transfer source target amount l ≡ ok f
      → l.accounts k ≢ empty
      → (if target == k then l.lamports k + amount else l.lamports k) ≤ f k
  pub associated_token_lamports :
      (payer account mint authority : Pubkey) (l : Ledger)
      (r : (Pubkey → ℕ) × (Pubkey → Option TokenAccount)) (k : Pubkey)
      → associated_token payer account mint authority l ≡ ok r
      → l.accounts k ≢ empty
      → l.lamports k ≤ r.0 k

-- The ledger after an instruction, and what it emitted.
abbrev pub Outcome : Type 0
Outcome = Ledger × List Event

module _ (p : Platform) where
  -- `seeds = [...], bump = b` on an account that exists
  unfoldable pub check_seeds : Seeds → ℕ → Pubkey → Result (Unit {0})
  check_seeds seeds b key = elim (p.create_program_address seeds b) [
    | some address ↦ constrain (address == key) constraint_seeds
    | none ↦ err (anchor constraint_seeds)
  ]

  -- `init, payer = ..., space = ..., seeds = [...], bump`: the account is created and reads `zero`
  unfoldable pub init_account :
      (payer key : Pubkey) (space : ℕ) (seeds : Seeds) (zero : AccountData) → Ledger → Result Ledger
  init_account payer key space seeds zero l = do
    constrain ((p.find_program_address seeds).0 == key) constraint_seeds
    lamports ← p.create_account payer key space l
    ok (record { accounts = update l.accounts key zero; lamports = lamports; tokens = l.tokens })

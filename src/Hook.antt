-- ===== src/Hook.antt =====
-- The transfer hook of the credits mint (contracts/programs/kraph-credits-hook/src/lib.rs): the
-- allowlist, the instructions of its admin, and the check that Token-2022 runs on every transfer.
use kraph_core.Prelude.{
  ℕ, ◌+◌, Bool, true, false, not, ◌||◌, Option, none, some, List, [], ◌∷◌, ◌++◌, ◌==◌, ltb, any,
  length, if◌then◌else◌,
}
pub mod Allowlists
pub mod Tests

abbrev pub Pubkey : Type 0
Pubkey = ℕ

pub data HookError : Type 0 where
  transfer_not_allowed unauthorized allowlist_full : HookError
  -- what Anchor and the system program report
  already_in_use not_initialized constraint_mint constraint_seeds create_failed : HookError

pub data Result {ℓ} (A : Type ℓ) : Type ℓ where
  ok : A → Result A
  err : HookError → Result A

pub record Allowlist : Type 0 where
  pub admin : Pubkey
  pub bump : ℕ
  pub entries : List Pubkey

abbrev pub max_entries : ℕ
max_entries = 64

pub data Event : Type 0 where
  allowlist_initialized : (admin first_entry : Pubkey) → Event
  allowlist_added allowlist_removed : (wallet : Pubkey) → Event
  admin_transferred : (old_admin new_admin : Pubkey) → Event

-- `Vec::contains` and `Vec::retain(|w| w != &wallet)`
abbrev pub contains : List Pubkey → Pubkey → Bool
contains entries wallet = any (λ w. w == wallet) entries

abbrev pub retain_others : Pubkey → List Pubkey → List Pubkey
retain_others wallet [] = []
retain_others wallet (w ∷ ws) =
    let rest = retain_others wallet ws in if w == wallet then rest else w ∷ rest

-- The accounts of a transfer, of which the hook reads the owners and the mints.
pub record TransferHook : Type 0 where
  pub source_mint : Pubkey
  pub source_owner : Pubkey
  pub mint : Pubkey
  pub destination_mint : Pubkey
  pub destination_owner : Pubkey
  pub extra_account_meta_list : Pubkey

-- The account at the address derived from `b"allowlist"`, which is there once it is initialized.
abbrev pub State : Type 0
State = Option Allowlist

abbrev pub Outcome : Type 0
Outcome = State × List Event

-- `init`: whether the system program creates the account, which is not there yet, is the platform's.
unfoldable pub initialize_allowlist :
    (created : Bool) (bump : ℕ) (admin first_entry : Pubkey) → State → Result Outcome
initialize_allowlist created bump admin first_entry (some a) = err already_in_use
initialize_allowlist created bump admin first_entry none =
    if created
    then ok (
      some (record { admin = admin; bump = bump; entries = first_entry ∷ [] }),
      allowlist_initialized admin first_entry ∷ [],
    )
    else err create_failed

unfoldable pub add_to_allowlist : (signer wallet : Pubkey) → State → Result Outcome
add_to_allowlist signer wallet none = err not_initialized
add_to_allowlist signer wallet (some a) =
    if not (a.admin == signer)
    then err unauthorized
    else if not (ltb (length a.entries) max_entries)
    then err allowlist_full
    else if contains a.entries wallet
    then ok (some a, [])
    else ok (some (record a { entries = a.entries ++ wallet ∷ [] }), allowlist_added wallet ∷ [])

unfoldable pub remove_from_allowlist : (signer wallet : Pubkey) → State → Result Outcome
remove_from_allowlist signer wallet none = err not_initialized
remove_from_allowlist signer wallet (some a) =
    let left = retain_others wallet a.entries in
    if not (a.admin == signer)
    then err unauthorized
    else ok (
      some (record a { entries = left }),
      if length left == length a.entries then [] else allowlist_removed wallet ∷ [],
    )

unfoldable pub transfer_admin : (signer new_admin : Pubkey) → State → Result Outcome
transfer_admin signer new_admin none = err not_initialized
transfer_admin signer new_admin (some a) =
    if not (a.admin == signer)
    then err unauthorized
    else ok (some (record a { admin = new_admin }), admin_transferred a.admin new_admin ∷ [])

-- `meta_list_address` is `find_program_address` of the mint's list of extra accounts.
unfoldable pub transfer_hook :
    (meta_list_address : Pubkey → Pubkey) → TransferHook → (amount : ℕ) → State → Result Outcome
transfer_hook meta_list_address ctx amount none = err not_initialized
transfer_hook meta_list_address ctx amount (some a) =
    if not (ctx.source_mint == ctx.mint)
    then err constraint_mint
    else if not (ctx.destination_mint == ctx.mint)
    then err constraint_mint
    else if not (meta_list_address ctx.mint == ctx.extra_account_meta_list)
    then err constraint_seeds
    else if contains a.entries ctx.source_owner || contains a.entries ctx.destination_owner
    then ok (some a, [])
    else err transfer_not_allowed

pub data Instruction : Type 0 where
  initialize : (created : Bool) (bump : ℕ) (admin first_entry : Pubkey) → Instruction
  add remove set_admin : (signer argument : Pubkey) → Instruction
  transfer : (meta_list_address : Pubkey → Pubkey) → TransferHook → (amount : ℕ) → Instruction

unfoldable pub execute : Instruction → State → Result Outcome
execute (initialize created bump admin first) s = initialize_allowlist created bump admin first s
execute (add signer wallet) s = add_to_allowlist signer wallet s
execute (remove signer wallet) s = remove_from_allowlist signer wallet s
execute (set_admin signer admin) s = transfer_admin signer admin s
execute (transfer address ctx amount) s = transfer_hook address ctx amount s

-- A failed instruction changes nothing.
abbrev pub settle : State → Result Outcome → State
settle s (ok (s', events)) = s'
settle s (err e) = s

unfoldable pub run : List Instruction → State → State
run [] s = s
run (i ∷ rest) s = run rest (settle s (execute i s))

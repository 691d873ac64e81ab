-- ===== src/Registry/Config.antt =====
-- `initialize_config` of contracts/programs/supaba-registry/src/lib.rs, and how the other
-- instructions read the configuration account.
use kraph_core.Prelude.{ℕ, ◌+◌, [], ◌∷◌, leb}
use kraph_core.Prelude.Int.{ℤ, pos, leb_ℤ}
use kraph_core.Registry.Types.{
  Pubkey, NetworkConfig, zero_config, invalid_slash_percentage, invalid_cooldown,
  config_initialized,
}
use kraph_core.Registry.Ledger.{
  Result, ok, ◌>>=◌, ◌>>◌, require, config_account, as_config, Ledger, store, Platform, Outcome,
  config_seeds, check_seeds, init_account,
}

abbrev pub network_config_size : ℕ
network_config_size = 8 + 32 + 8 + 8 + 32 + 8 + 1 + 1

pub record InitializeConfig : Type 0 where
  pub config : Pubkey
  pub authority : Pubkey

module _ (p : Platform) where
  unfoldable pub initialize_config :
      InitializeConfig
      → (min_stake default_rate : ℕ) (usdc_mint : Pubkey) (cooldown : ℤ) (slash_pct : ℕ) → Ledger
      → Result Outcome
  initialize_config ctx min_stake default_rate usdc_mint cooldown slash_pct l = do
    l₁ ←
        init_account p ctx.authority ctx.config network_config_size config_seeds
          (config_account zero_config) l
    require (leb slash_pct 100) invalid_slash_percentage
    require (leb_ℤ (pos 0) cooldown) invalid_cooldown
    let config : NetworkConfig = record {
      authority = ctx.authority;
      min_stake = min_stake;
      default_rate_per_hour = default_rate;
      usdc_mint = usdc_mint;
      deregistration_cooldown = cooldown;
      slash_percentage = slash_pct;
      bump = (p.find_program_address config_seeds).1;
    }
    ok (
      store l₁ ctx.config (config_account config),
      config_initialized ctx.authority min_stake default_rate usdc_mint ∷ [],
    )

  -- `seeds = [b"config"], bump = config.bump`
  unfoldable pub load_config : Ledger → Pubkey → Result NetworkConfig
  load_config l key = do
    config ← as_config (l.accounts key)
    check_seeds p config_seeds config.bump key
    ok config

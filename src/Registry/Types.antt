-- ===== src/Registry/Types.antt =====
-- The enums, error codes, account structs and events of the Anchor program
-- contracts/programs/supaba-registry. A `Pubkey`, an instance id and a Merkle root are byte arrays
-- of a fixed length that the program only compares and copies: each is the number that its bytes
-- spell. A `String` is the list of its UTF-8 bytes. A `u8` or `u64` is a number whose range
-- `IsValid` (Registry/Validity) states, and an `i64` is an integer.
use kraph_core.Prelude.{ℕ, List, [], Bool, ◌==◌}
use kraph_core.Prelude.Int.{ℤ, pos}

abbrev pub Pubkey : Type 0
Pubkey = ℕ

abbrev pub Bytes : Type 0
Bytes = List ℕ

pub data NodeStatus : Type 0 where
  active suspended deregistering deregistered : NodeStatus

pub data InstanceStatus : Type 0 where
  provisioning active migrating suspended destroyed : InstanceStatus

pub data SlashProofType : Type 0 where
  downtime integrity_violation other : SlashProofType

-- The derived `PartialEq` compares the discriminants.
abbrev pub node_status_code : NodeStatus → ℕ
node_status_code NodeStatus.active = 0
node_status_code NodeStatus.suspended = 1
node_status_code NodeStatus.deregistering = 2
node_status_code NodeStatus.deregistered = 3

abbrev pub instance_status_code : InstanceStatus → ℕ
instance_status_code InstanceStatus.provisioning = 0
instance_status_code InstanceStatus.active = 1
instance_status_code InstanceStatus.migrating = 2
instance_status_code InstanceStatus.suspended = 3
instance_status_code InstanceStatus.destroyed = 4

abbrev pub has_status : NodeStatus → NodeStatus → Bool
has_status s t = node_status_code s == node_status_code t

abbrev pub has_instance_status : InstanceStatus → InstanceStatus → Bool
has_instance_status s t = instance_status_code s == instance_status_code t

pub data SupabaError : Type 0 where
  endpoint_too_long region_too_long invalid_capacity node_not_active : SupabaError
  node_not_deregistering cooldown_not_elapsed active_instances_remaining : SupabaError
  node_at_capacity too_many_replicas dek_too_long unauthorized : SupabaError
  invalid_status_transition instance_not_active invalid_mint invalid_amount : SupabaError
  overflow insufficient_funds invalid_slash_percentage invalid_cooldown : SupabaError
  capacity_below_active replica_account_mismatch invalid_replica_node : SupabaError
  replica_node_not_active invalid_primary_node : SupabaError

-- What Anchor itself reports about an account.
pub data AnchorError : Type 0 where
  account_not_initialized account_owned_by_wrong_program : AnchorError
  account_discriminator_mismatch constraint_seeds constraint_raw : AnchorError

-- `external` is an error of the runtime or of a program that is called.
pub data Error : Type 0 where
  supaba : SupabaError → Error
  anchor : AnchorError → Error
  external : ℕ → Error

pub record NetworkConfig : Type 0 where
  pub authority : Pubkey
  pub min_stake : ℕ
  pub default_rate_per_hour : ℕ
  pub usdc_mint : Pubkey
  pub deregistration_cooldown : ℤ
  pub slash_percentage : ℕ
  pub bump : ℕ

pub record NodeRecord : Type 0 where
  pub operator : Pubkey
  pub endpoint : Bytes
  pub capacity : ℕ
  pub active_instances : ℕ
  pub stake : ℕ
  pub registered_at : ℤ
  pub last_heartbeat : ℤ
  pub status : NodeStatus
  pub region : Bytes
  pub bump : ℕ

pub record InstanceRecord : Type 0 where
  pub agent : Pubkey
  pub instance_id : ℕ
  pub primary_node : Pubkey
  pub replica_nodes : List Pubkey
  pub encrypted_dek : Bytes
  pub merkle_root : ℕ
  pub status : InstanceStatus
  pub created_at : ℤ
  pub updated_at : ℤ
  pub bump : ℕ

pub record PaymentEscrow : Type 0 where
  pub agent : Pubkey
  pub instance_id : ℕ
  pub deposited : ℕ
  pub distributed : ℕ
  pub rate_per_hour : ℕ
  pub last_distribution_at : ℤ
  pub bump : ℕ

-- What an account that `init` has just allocated reads as: every byte is zero.
abbrev pub zero_config : NetworkConfig
zero_config = record {
  authority = 0;
  min_stake = 0;
  default_rate_per_hour = 0;
  usdc_mint = 0;
  deregistration_cooldown = pos 0;
  slash_percentage = 0;
  bump = 0;
}

abbrev pub zero_node : NodeRecord
zero_node = record {
  operator = 0;
  endpoint = [];
  capacity = 0;
  active_instances = 0;
  stake = 0;
  registered_at = pos 0;
  last_heartbeat = pos 0;
  status = NodeStatus.active;
  region = [];
  bump = 0;
}

abbrev pub zero_instance : InstanceRecord
zero_instance = record {
  agent = 0;
  instance_id = 0;
  primary_node = 0;
  replica_nodes = [];
  encrypted_dek = [];
  merkle_root = 0;
  status = InstanceStatus.provisioning;
  created_at = pos 0;
  updated_at = pos 0;
  bump = 0;
}

abbrev pub zero_escrow : PaymentEscrow
zero_escrow = record {
  agent = 0;
  instance_id = 0;
  deposited = 0;
  distributed = 0;
  rate_per_hour = 0;
  last_distribution_at = pos 0;
  bump = 0;
}

pub data Event : Type 0 where
  config_initialized :
      (authority : Pubkey) (min_stake default_rate : ℕ) (usdc_mint : Pubkey) → Event
  node_registered : (operator : Pubkey) (endpoint : Bytes) (capacity stake : ℕ) → Event
  node_updated : (operator : Pubkey) → Event
  heartbeat_recorded : (operator : Pubkey) (timestamp : ℤ) → Event
  node_deregistering : (operator : Pubkey) (deregistering_at : ℤ) → Event
  stake_claimed : (operator : Pubkey) (amount : ℕ) → Event
  instance_allocated : (agent : Pubkey) (instance_id : ℕ) (primary_node : Pubkey) → Event
  instance_activated : (instance_id : ℕ) → Event
  instance_status_updated : (instance_id : ℕ) → Event
  instance_destroyed : (instance_id : ℕ) (agent : Pubkey) → Event
  payment_deposited : (agent : Pubkey) (instance_id amount total_deposited : ℕ) → Event
  payment_distributed : (instance_id amount remaining : ℕ) → Event
  merkle_root_committed : (instance_id root : ℕ) → Event
  node_slashed : (operator : Pubkey) (slash_amount : ℕ) (proof_type : SlashProofType) → Event
  instance_migrated : (instance_id : ℕ) (old_primary new_primary : Pubkey) → Event

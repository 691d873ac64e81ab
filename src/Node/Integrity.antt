-- ===== src/Node/Integrity.antt =====
-- The chain of hashes over WAL segments (node-rs/src/integrity.rs). SHA-256 is a parameter.
use kraph_core.Prelude.{
  Bool, true, false, not, Option, none, some, List, [], ◌∷◌, ◌++◌, if◌then◌else◌,
}
use kraph_core.Prelude.Bytes.{Bytes, eq_bytes}
pub mod Chains
pub mod Merkle

module _ (sha256 : Bytes → Bytes) where
  unfoldable pub compute_wal_hash : (segment_data : Bytes) (previous_hash : Option Bytes) → Bytes
  compute_wal_hash segment_data none = sha256 segment_data
  compute_wal_hash segment_data (some prev) = sha256 (prev ++ segment_data)

  -- The loop of `verify_wal_chain`, from what it has as the previous hash.
  unfoldable pub verify_wal_from :
      (previous_hash : Option Bytes) → (segments : List (Bytes × Bytes)) → Bool
  verify_wal_from previous_hash [] = true
  verify_wal_from previous_hash ((data_bytes, expected_hash) ∷ rest) =
      let later = verify_wal_from (some expected_hash) rest in
      if not (eq_bytes (compute_wal_hash data_bytes previous_hash) expected_hash)
      then false
      else later

  unfoldable pub verify_wal_chain : (segments : List (Bytes × Bytes)) → Bool
  verify_wal_chain segments = verify_wal_from none segments

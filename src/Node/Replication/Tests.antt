-- ===== src/Node/Replication/Tests.antt =====
-- Runs of the replication of node-rs/src/replication.rs on two segments, with toy cryptography: a
-- hash is a sum, and what is encoded or encrypted stands there as it was.
use kraph_core.Prelude.{
  ℕ, ◌+◌, ◌≤◌, ◌≡◌, ◌≢◌, ◌↔◌, refl, arith, true, false, none, some, [], ◌∷◌, ◌++◌, map, length,
}
use kraph_core.Prelude.Int.{ℤ, pos}
use kraph_core.Prelude.Bytes.{Bytes}
use kraph_core.Node.Replication.Primary.Names.{is_valid_wal_name_lem}
use kraph_core.Node.Paths.{
  Str, accepted, validate_instance_id_component, validate_segment_name, check_component,
}
use kraph_core.Node.Replication.{Crypto, Segment, Files, rows_of, chain_hash, ok}
use kraph_core.Node.Replication.Signing.{
  verify_replication_sig, signed_message, IsAuthentic, verify_replication_sig-IsAuthentic,
}
use kraph_core.Node.Replication.Queue.{Queue, get_pending_shipments}
use kraph_core.Node.Replication.Chain.{IsChain, IsLinked}
use kraph_core.Node.Replication.Primary.{
  Primary, Fetched, copied, is_valid_wal_name, process_instance_wal,
}
use kraph_core.Node.Replication.Primary.Chained.{process_instance_wal-IsLinked}
use kraph_core.Node.Replication.Replica.{Replica, Host, Post, written, receive_segment}
use kraph_core.Node.Replication.Replica.Link.{IsHistory}
use kraph_core.Node.Replication.Replica.Gaps.{receive_all, receive_all_refused}
use kraph_core.Node.Replication.Shipping.{
  World, Weather, answered, lost, ship_pending_segments, post_for,
}
use kraph_core.Node.Replication.Shipping.Retries.{ship_passes}
use kraph_core.Node.Replication.Shipping.Delivery.{Due, shipment_of, IsFair, marked}
use kraph_core.Node.Replication.Shipping.Pass.{Holds, ship_pending_segments-Holds}
pub mod Shipping

abbrev pub sum : Bytes → ℕ
sum [] = 0
sum (b ∷ bs) = b + sum bs

abbrev pub tag : Bytes
tag = 0 ∷ 0 ∷ 0 ∷ 0 ∷ 0 ∷ 0 ∷ 0 ∷ 0 ∷ 0 ∷ 0 ∷ 0 ∷ 0 ∷ 0 ∷ 0 ∷ 0 ∷ 0 ∷ []

abbrev pub nonce : Bytes
nonce = 7 ∷ 7 ∷ 7 ∷ 7 ∷ 7 ∷ 7 ∷ 7 ∷ 7 ∷ 7 ∷ 7 ∷ 7 ∷ 7 ∷ []

abbrev pub print_toy : ℤ → Str
print_toy (pos n) = n ∷ []
print_toy _ = []

pub tag-length :
    (message : Bytes) {sealed : Bytes} → some (tag ++ message) ≡ some sealed → 16 ≤ length sealed
tag-length message {sealed} h = let q : tag ++ message ≡ sealed = cc in rw (← q) (omega arith)

pub hash_full : (b : Bytes) → 1 ∷ sum b ∷ [] ≢ []
hash_full b h = absurd (cc)

abbrev pub toy : Crypto
toy = record {
  sha256 = λ b. 1 ∷ sum b ∷ [];
  hex = λ b. b;
  unhex = λ s. some s;
  hmac = λ secret message. sum secret ∷ sum message ∷ [];
  encrypt = λ key nonce aad message. some (tag ++ message);
  utf8 = λ s. s;
  print_i64 = print_toy;
  trim = λ s. s;
  unhex-hex = λ b. refl;
  trim-hex = λ b. refl;
  hex-sha256 = λ b. hash_full b;
  encrypt-tag = λ key nonce aad message h. tag-length message h;
}

abbrev pub secret : Bytes
secret = 5 ∷ 6 ∷ []

abbrev pub instance_id : Str
instance_id = 100 ∷ 98 ∷ []

-- "000000010000000000000000" and "000000010000000000000001"
abbrev pub name_ending : ℕ → Str
name_ending c =
    48 ∷ 48 ∷ 48 ∷ 48 ∷ 48 ∷ 48 ∷ 48 ∷ 49 ∷ 48 ∷ 48 ∷ 48 ∷ 48 ∷ 48 ∷ 48 ∷ 48 ∷ 48 ∷ 48 ∷ 48 ∷ 48
    ∷ 48 ∷ 48 ∷ 48 ∷ 48 ∷ c ∷ []

abbrev first_name : Str
first_name = name_ending 48

abbrev second_name : Str
second_name = name_ending 49

abbrev pub no_blobs : Files
no_blobs id name = none

abbrev empty_queue : Queue
empty_queue = record { next_id = 1; shipments = [] }

abbrev fresh_primary : Primary
fresh_primary = record { wal_segments = []; encrypted = no_blobs; queue = empty_queue }

abbrev fetch_all : Str → Fetched
fetch_all name = copied name nonce

abbrev pub endpoint : Str
endpoint = 104 ∷ []

abbrev key : Str
key = tag ++ tag

process_instance_wal-IsLinked_example :
    let q =
      (process_instance_wal toy instance_id key
        (endpoint ∷ [])
        fetch_all
        (first_name ∷ second_name ∷ [])
        fresh_primary).1 in
    IsLinked toy q.encrypted q.wal_segments
process_instance_wal-IsLinked_example =
    process_instance_wal-IsLinked toy instance_id key (endpoint ∷ []) fetch_all
      (first_name ∷ second_name ∷ []) fresh_primary ((refl, tt), (tt, tt)) (λ n. refl) (omega arith)
      (λ id. (none, refl))

verify_replication_sig-IsAuthentic_example :
    (verify_replication_sig toy true
        (some secret)
        (some (11 ∷ 7 ∷ []))
        instance_id
        first_name
        []
        []
        (pos 0)
      ≡ ok tt)
    ↔ IsAuthentic toy true
        (some secret)
        (some (11 ∷ 7 ∷ []))
        (signed_message toy instance_id first_name [] [] (pos 0))
verify_replication_sig-IsAuthentic_example =
    verify_replication_sig-IsAuthentic toy true (some secret) (some (11 ∷ 7 ∷ [])) instance_id
      first_name [] [] (pos 0)

abbrev pub blob : Bytes
blob = nonce ++ tag ++ 3 ∷ []

abbrev pub first_hash : Bytes
first_hash = chain_hash toy none blob

abbrev pub second_hash : Bytes
second_hash = chain_hash toy (some first_hash) blob

abbrev pub first_segment : Segment
first_segment = record {
  instance_id = instance_id;
  segment_name = first_name;
  hash = first_hash;
  previous_hash = [];
  size = 29;
  chain_index = pos 0;
}

abbrev pub second_segment : Segment
second_segment = record {
  instance_id = instance_id;
  segment_name = second_name;
  hash = second_hash;
  previous_hash = first_hash;
  size = 29;
  chain_index = pos 1;
}

pub first-IsChain :
    (files : Files)
    → files instance_id first_name ≡ some blob
    → IsChain toy files instance_id (first_segment ∷ []) (some first_hash)
first-IsChain files at = (none, blob, at, refl, (refl, refl, refl, refl, omega arith), refl)

is_valid_wal_name_lem_example :
    (is_valid_wal_name second_name ≡ some true) ↔ (validate_segment_name second_name ≡ accepted)
is_valid_wal_name_lem_example = is_valid_wal_name_lem second_name

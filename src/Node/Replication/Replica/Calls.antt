-- ===== src/Node/Replication/Replica/Calls.antt =====
-- Calls of `receive_segment` of node-rs/src/replication.rs that run at the same time: the handler of
-- node-rs/src/main.rs takes no lock, and a call that has passed its checks awaits the file system
-- before it inserts its row, while other calls go on.
use kraph_core.Prelude.{ℕ, zero, suc, ◌≡◌, refl, Option, none, some, List, [], ◌∷◌}
use kraph_core.Node.Replication.{Result, ok, err, Crypto, latest}
use kraph_core.Node.Replication.Replica.{
  Replica, Host, Post, check_post, store_post, receive_segment,
}

pub record Call : Type 0 where
  pub host : Host
  pub post : Post

-- The replica, and the calls that have passed their checks and await the file system.
pub record Server : Type 0 where
  pub replica : Replica
  pub awaiting : List Call

-- A POST arrives, or the file system answers to one of the calls that await it.
pub data Event : Type 0 where
  arrives : Call → Event
  resumes : ℕ → Event

abbrev pub admit : Call → Result (Unit {0}) → Server → Server
admit call (err why) s = s
admit call (ok done) s = record { replica = s.replica; awaiting = call ∷ s.awaiting }

abbrev pub call_at : ℕ → List Call → Option Call
call_at n [] = none
call_at zero (call ∷ calls) = some call
call_at (suc n) (call ∷ calls) = call_at n calls

abbrev pub without : ℕ → List Call → List Call
without n [] = []
without zero (call ∷ calls) = calls
without (suc n) (call ∷ calls) = call ∷ without n calls

abbrev pub resume : Option Call → ℕ → Server → Server
resume none n s = s
resume (some call) n s = record {
  replica = (store_post call.host call.post (ok tt) s.replica).1;
  awaiting = without n s.awaiting;
}

-- The checks of a call are made when it arrives, against the last row there is then.
unfoldable pub serve : Crypto → Event → Server → Server
serve c (arrives call) s =
    let last = latest call.post.instance_id s.replica.replica_segments in
    admit call (check_post c call.host call.post last) s
serve c (resumes n) s = resume (call_at n s.awaiting) n s

unfoldable pub run_server : Crypto → List Event → Server → Server
run_server c [] s = s
run_server c (event ∷ events) s = run_server c events (serve c event s)

abbrev idle : Replica → Server
idle r = record { replica = r; awaiting = [] }

two_steps :
    (call : Call) (r : Replica) (checked : Result (Unit {0}))
    → (let s = admit call checked (idle r) in resume (call_at zero s.awaiting) zero s)
      ≡ idle (store_post call.host call.post checked r).1
two_steps call r (err why) = refl
two_steps call r (ok done) = refl

-- A call that no other one interrupts is `receive_segment`.
receive_segment_lem :
    (c : Crypto) (call : Call) (r : Replica)
    → run_server c (arrives call ∷ resumes 0 ∷ []) (idle r)
      ≡ idle (receive_segment c call.host call.post r).1
unfolding run_server serve receive_segment
receive_segment_lem c call r = two_steps call r _

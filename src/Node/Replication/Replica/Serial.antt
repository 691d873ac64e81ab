-- ===== src/Node/Replication/Replica/Serial.antt =====
-- The rows that a replica of node-rs/src/replication.rs holds follow each other while the calls of one
-- instance do not overlap.
use kraph_core.Prelude.{
  ℕ, zero, suc, ◌≡◌, refl, Option, none, some, List, [], ◌∷◌, All, false, Bool-cases, Option-cases,
  inl, inr,
}
use kraph_core.Prelude.Int.{◌<ℤ◌, i64_max}
use kraph_core.Prelude.Bytes.{Bytes, eq_bytes, eq_bytes_lem, eq_bytes_refl}
use kraph_core.Node.Paths.{Str}
use kraph_core.Node.Replication.{
  Result, ok, err, Crypto, Segment, rows_of, latest, find_segment, insert_segment,
}
use kraph_core.Node.Replication.Chain.{rows_of-insert_segment_other}
use kraph_core.Node.Replication.Replica.{Replica, check_link, check_segment, check_post, row_of}
use kraph_core.Node.Replication.Replica.Calls.{
  Call, Server, Event, arrives, resumes, admit, call_at, without, resume, serve, run_server,
}
use kraph_core.Node.Replication.Replica.Link.{
  IsHistory, ok->>, highest-IsHistory, check_link-Follows, store_outcome, insert-IsHistory,
}

eq_bytes_sym : (a b : Bytes) → eq_bytes a b ≡ false → eq_bytes b a ≡ false
eq_bytes_sym a b h = elim (Bool-cases (eq_bytes b a)) [
  | inl same ↦
      let q : b ≡ a = eq_bytes_lem b a same in
      let h' : eq_bytes a a ≡ false = rw q at h in absurd (cc (rw (eq_bytes_refl a) at h'))
  | inr apart ↦ apart
]

-- Calls of two instances.
abbrev IsApart : Call → Call → Type 0
IsApart x y = eq_bytes y.post.instance_id x.post.instance_id ≡ false

-- The awaiting calls are each of another instance.
abbrev Separate : List Call → Type 0
Separate [] = Unit
Separate (x ∷ calls) = All (IsApart x) calls × Separate calls

-- A call links to the rows that are there.
abbrev Linked : List Segment → Call → Type 0
Linked rows x =
    (x.post.chain_index <ℤ i64_max) × (check_link (latest x.post.instance_id rows) x.post ≡ ok tt)

abbrev InOrder : Server → Type 0
InOrder s =
    ((id : Str) → IsHistory (rows_of id s.replica.replica_segments))
    × All (Linked s.replica.replica_segments) s.awaiting
    × Separate s.awaiting

kept_at :
    (P : Call → Type 0) (n : ℕ) (calls : List Call) (x : Call)
    → call_at n calls ≡ some x
    → All P calls
    → P x
kept_at P n [] x at all = absurd (cc)
kept_at P zero (y ∷ calls) x at (here, all) = let q : y ≡ x = cc in rw q at here
kept_at P (suc n) (y ∷ calls) x at (here, all) = kept_at P n calls x at all

kept_without :
    (P : Call → Type 0) (n : ℕ) (calls : List Call) → All P calls → All P (without n calls)
kept_without P n [] all = tt
kept_without P zero (y ∷ calls) (here, all) = all
kept_without P (suc n) (y ∷ calls) (here, all) = (here, kept_without P n calls all)

without-Separate : (n : ℕ) (calls : List Call) → Separate calls → Separate (without n calls)
without-Separate n [] separate = tt
without-Separate zero (y ∷ calls) (here, separate) = separate
without-Separate (suc n) (y ∷ calls) (here, separate) =
    (kept_without (IsApart y) n calls here, without-Separate n calls separate)

-- The calls that are left are of other instances than the one that resumes.
left-IsApart :
    (n : ℕ) (calls : List Call) (x : Call)
    → call_at n calls ≡ some x
    → Separate calls
    → All (IsApart x) (without n calls)
left-IsApart n [] x at separate = tt
left-IsApart zero (y ∷ calls) x at (here, separate) = let q : y ≡ x = cc in rw q at here
left-IsApart (suc n) (y ∷ calls) x at (here, separate) = (
  eq_bytes_sym x.post.instance_id y.post.instance_id (kept_at (IsApart y) n calls x at here),
  left-IsApart n calls x at separate,
)

insert-Linked :
    (x : Call) (rows : List Segment) (calls : List Call)
    → All (IsApart x) calls
    → All (Linked rows) calls
    → All (Linked (insert_segment (row_of x.post) rows)) calls
unfolding insert_segment latest
insert-Linked x rows [] apart linked = tt
insert-Linked x rows (y ∷ calls) (other, apart) ((small, link), linked) =
    let s = row_of x.post in
    let rest = insert-Linked x rows calls apart linked in
    let other' = eq_bytes_sym y.post.instance_id x.post.instance_id other in
    elim (Option-cases (find_segment s.instance_id s.segment_name rows)) [
      | inr (old, held) ↦ ((small, rw held link), rest)
      | inl new ↦
          let same = rows_of-insert_segment_other s y.post.instance_id rows new other' in
          ((small, rw same link), rest)
    ]

resume-InOrder :
    (n : ℕ) (s : Server) (o : Option Call)
    → call_at n s.awaiting ≡ o
    → InOrder s
    → InOrder (resume o n s)
unfolding latest
resume-InOrder n s none at order = order
resume-InOrder n s (some x) at (history, linked, separate) =
    let rows = s.replica.replica_segments in
    let id = x.post.instance_id in
    let left = kept_without (Linked rows) n s.awaiting linked in
    let separate' = without-Separate n s.awaiting separate in
    elim (store_outcome x.host x.post (ok tt) s.replica) [
      | inl same ↦ (λ i. rw same (history i), rw same left, separate')
      | inr (checked, stored) ↦
          let (small, link) = kept_at (Linked rows) n s.awaiting x at linked in
          let top = highest-IsHistory (rows_of id rows) (history id) in
          let follows = check_link-Follows x.post (rows_of id rows) (rw top at link) in
          let apart = left-IsApart n s.awaiting x at separate in
          (
            λ i. rw stored (insert-IsHistory (row_of x.post) rows i small follows history),
            rw stored (insert-Linked x rows (without n s.awaiting) apart left),
            separate',
          )
    ]

admit-InOrder :
    (x : Call) (s : Server) (checked : Result (Unit {0}))
    → (checked ≡ ok tt → Linked s.replica.replica_segments x)
    → All (IsApart x) s.awaiting
    → InOrder s
    → InOrder (admit x checked s)
admit-InOrder x s (err why) links apart order = order
admit-InOrder x s (ok done) links apart (history, linked, separate) =
    (history, (links refl, linked), (apart, separate))

-- When a POST arrives, no call of its instance awaits the file system, and its index is below the
-- largest `i64`.
abbrev pub IsAlone : Event → Server → Type 0
IsAlone (arrives x) s = (x.post.chain_index <ℤ i64_max) × All (IsApart x) s.awaiting
IsAlone (resumes n) s = Unit

abbrev pub IsSerial : Crypto → List Event → Server → Type 0
IsSerial c [] s = Unit
IsSerial c (event ∷ events) s = IsAlone event s × IsSerial c events (serve c event s)

serve-InOrder :
    (c : Crypto) (event : Event) (s : Server)
    → IsAlone event s
    → InOrder s
    → InOrder (serve c event s)
unfolding serve
serve-InOrder c (resumes n) s alone order = resume-InOrder n s (call_at n s.awaiting) refl order
serve-InOrder c (arrives x) s (small, apart) order =
    let last = latest x.post.instance_id s.replica.replica_segments in
    admit-InOrder x s (check_post c x.host x.post last)
      (λ checked.
        (small, (ok->> (check_segment c x.host x.post) (check_link last x.post) checked).1))
      apart order

run-InOrder :
    (c : Crypto) (events : List Event) (s : Server)
    → IsSerial c events s
    → InOrder s
    → InOrder (run_server c events s)
unfolding run_server
run-InOrder c [] s serial order = order
run-InOrder c (event ∷ events) s (alone, serial) order =
    run-InOrder c events (serve c event s) serial (serve-InOrder c event s alone order)

-- Whoever posts segments, whatever they say, and however the calls of different instances overlap,
-- the rows that the replica holds for each instance follow each other: the indexes are consecutive,
-- and each row's previous hash is the hash of the row before. It is so as long as no POST arrives
-- while a call of the same instance awaits the file system, and for indexes below the largest `i64`.
pub run_server-IsHistory :
    (c : Crypto) (events : List Event) (r : Replica)
    → let start : Server = record { replica = r; awaiting = [] } in
      IsSerial c events start
      → ((id : Str) → IsHistory (rows_of id r.replica_segments))
      → (id : Str) → IsHistory (rows_of id (run_server c events start).replica.replica_segments)
run_server-IsHistory c events r serial history =
    (run-InOrder c events (record { replica = r; awaiting = [] }) serial (history, tt, tt)).0

-- ===== src/Node/Replication/Replica/Link.antt =====
-- What a row that a replica of node-rs/src/replication.rs inserts makes of a history.
use kraph_core.Prelude.{
  ◌≡◌, ◌⊎◌, refl, arith, Bool, true, false, List, [], ◌∷◌, Bool-cases, Option-cases, inl, inr,
}
use kraph_core.Prelude.Int.{ℤ, pos, negsuc, ltb_ℤ, ◌+ℤ◌, ◌<ℤ◌, i64_max}
use kraph_core.Prelude.Bytes.{eq_bytes, eq_bytes_lem}
use kraph_core.Node.Paths.{Str}
use kraph_core.Node.Replication.{
  ReplicationError, Result, ok, err, ◌>>◌, ensure, Segment, rows_of, highest, find_segment,
  insert_segment, next_index,
}
use kraph_core.Node.Replication.Chain.{
  first_of, highest_head, rows_of-insert_segment, rows_of-insert_segment_other,
}
use kraph_core.Node.Replication.Replica.{
  Replica, Disk, no_directory, written, not_written, Host, Post, eq_ℤ, check_link, row_of,
  join_and_write, store_post,
}

pub ok->> :
    (first second : Result (Unit {0}))
    → first >> second ≡ ok tt
    → (first ≡ ok tt) × (second ≡ ok tt)
ok->> (err why) second h = absurd (cc)
ok->> (ok done) second h = (refl, h)

pub ok-ensure : (holds : Bool) (why : ReplicationError) → ensure holds why ≡ ok tt → holds ≡ true
ok-ensure true why h = refl
ok-ensure false why h = absurd (cc)

pub eq_ℤ_lem : (a b : ℤ) → eq_ℤ a b ≡ true → a ≡ b
eq_ℤ_lem (pos a) (pos b) h = ground arith
eq_ℤ_lem (pos a) (negsuc b) h = absurd (ground arith)
eq_ℤ_lem (negsuc a) (pos b) h = absurd (ground arith)
eq_ℤ_lem (negsuc a) (negsuc b) h = ground arith

abbrev pub Follows : Segment → List Segment → Type 0
Follows s [] = Unit
Follows s (t ∷ rows) = (s.previous_hash ≡ t.hash) × (s.chain_index ≡ next_index t.chain_index)

-- Each row, the last first, follows the one before it, with an index below the largest `i64`.
abbrev pub IsHistory : List Segment → Type 0
IsHistory [] = Unit
IsHistory (s ∷ rows) = (s.chain_index <ℤ i64_max) × Follows s rows × IsHistory rows

after_index : (i : ℤ) → i <ℤ i64_max → ltb_ℤ (next_index i) i ≡ false
unfolding ◌+ℤ◌
after_index (pos n) h = ground arith
after_index (negsuc n) h = ground arith

pub highest-IsHistory : (rows : List Segment) → IsHistory rows → highest rows ≡ first_of rows
highest-IsHistory [] h = refl
highest-IsHistory (s ∷ []) h = refl
highest-IsHistory (s ∷ t ∷ rows) (small, (link, index), rest) =
    highest_head s t (t ∷ rows) (highest-IsHistory (t ∷ rows) rest)
      (rw index (after_index t.chain_index rest.0))

pub check_link-Follows :
    (post : Post) (rows : List Segment)
    → check_link (first_of rows) post ≡ ok tt
    → Follows (row_of post) rows
check_link-Follows post [] h = tt
check_link-Follows post (t ∷ rows) h =
    let (a, b) = ok->> _ _ h in
    (
      eq_bytes_lem post.previous_hash t.hash (ok-ensure _ _ a),
      eq_ℤ_lem post.chain_index (next_index t.chain_index) (ok-ensure _ _ b),
    )

-- The rows after a POST are those before it, or the checks held and the row was inserted.
abbrev pub Outcome : Post → Replica → Result (Unit {0}) → Result Segment × Replica → Type 0
Outcome post r checked (answer, r') =
    (r'.replica_segments ≡ r.replica_segments)
    ⊎ ((checked ≡ ok tt) × (r'.replica_segments ≡ insert_segment (row_of post) r.replica_segments))

joined_outcome :
    (post : Post) (disk : Disk) (joined : Result (Unit {0})) (r : Replica)
    → Outcome post r (ok tt) (join_and_write post disk joined r)
joined_outcome post no_directory joined r = inl refl
joined_outcome post written (err why) r = inl refl
joined_outcome post written (ok done) r = inr (refl, refl)
joined_outcome post (not_written left) (err why) r = inl refl
joined_outcome post (not_written left) (ok done) r = inl refl

pub store_outcome :
    (host : Host) (post : Post) (checked : Result (Unit {0})) (r : Replica)
    → Outcome post r checked (store_post host post checked r)
store_outcome host post (err why) r = inl refl
store_outcome host post (ok done) r = joined_outcome post host.disk _ r

pub insert-IsHistory :
    (s : Segment) (rows : List Segment) (id : Str)
    → s.chain_index <ℤ i64_max
    → Follows s (rows_of s.instance_id rows)
    → ((i : Str) → IsHistory (rows_of i rows))
    → IsHistory (rows_of id (insert_segment s rows))
unfolding insert_segment
insert-IsHistory s rows id small follows history =
    elim (Option-cases (find_segment s.instance_id s.segment_name rows)) [
      | inr (old, held) ↦ rw held (history id)
      | inl new ↦ elim (Bool-cases (eq_bytes s.instance_id id)) [
        | inl same ↦
            let q = eq_bytes_lem s.instance_id id same in
            rw (← q)
              (rw (rows_of-insert_segment s rows new) (small, follows, history s.instance_id))
        | inr other ↦ rw (rows_of-insert_segment_other s id rows new other) (history id)
      ]
    ]

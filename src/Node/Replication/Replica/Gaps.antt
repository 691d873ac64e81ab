-- ===== src/Node/Replication/Replica/Gaps.antt =====
-- What a replica of node-rs/src/replication.rs refuses once it holds a chain.
use kraph_core.Prelude.{
  ℕ, suc, ◌^◌, ◌<◌, ◌≡◌, ◌≢◌, refl, sym, arith, Bool, false, ◌||◌, Option, some, List, [], ◌∷◌,
  length, All, Bool-cases, inl, inr,
}
use mathlib.Core.Path.{subst}
use kraph_core.Prelude.Int.{pos}
use kraph_core.Prelude.Bytes.{Bytes, eq_bytes}
use kraph_core.Node.Paths.{Str}
use kraph_core.Node.Replication.{
  ReplicationError, Result, ok, err, ◌>>◌, Crypto, Segment, rows_of, highest, latest, next_index,
  chain_break, index_gap,
}
use kraph_core.Node.Replication.Chain.{IsChain, highest-IsChain, next_index_lem}
use kraph_core.Node.Replication.Replica.{
  Replica, Host, Post, eq_ℤ, check_segment, check_link, store_post, is_success, receive_segment,
}
use kraph_core.Node.Replication.Replica.Link.{eq_ℤ_lem}

-- The replica after POSTs, and whether one of them was answered with success.
unfoldable pub receive_all : Crypto → Host → List Post → Replica → Bool × Replica
receive_all c host [] r = (false, r)
receive_all c host (post ∷ posts) r =
    let (answer, r') = receive_segment c host post r in
    let (later, r'') = receive_all c host posts r' in (is_success answer || later, r'')

abbrev IsRefused : Replica → Result Segment × Replica → Type 0
IsRefused r answer = (why : ReplicationError) × (answer ≡ (err why, r))

err-cases :
    (host : Host) (post : Post) (r : Replica) (first second : Result (Unit {0}))
    (why : ReplicationError)
    → second ≡ err why
    → IsRefused r (store_post host post (first >> second) r)
err-cases host post r (err e) second why h = (e, refl)
err-cases host post r (ok done) second why h = (why, rw h refl)

link_gap :
    (post : Post) (t : Segment) (k : ℕ)
    → next_index t.chain_index ≡ pos k
    → post.chain_index ≢ pos k
    → (why : ReplicationError) × (check_link (some t) post ≡ err why)
link_gap post t k next other = elim (Bool-cases (eq_bytes post.previous_hash t.hash)) [
  | inr broken ↦ (chain_break, rw broken refl)
  | inl linked ↦ elim (Bool-cases (eq_ℤ post.chain_index (next_index t.chain_index))) [
    | inr gap ↦ (index_gap, rw (linked, gap) refl)
    | inl same ↦
        let q = eq_ℤ_lem post.chain_index (next_index t.chain_index) same in absurd (other (cc))
  ]
]

refused :
    (c : Crypto) (host : Host) (post : Post) (r : Replica) (rows : List Segment)
    (tip : Option Bytes)
    → rows_of post.instance_id r.replica_segments ≡ rows
    → IsChain c r.stored post.instance_id rows tip
    → rows ≢ []
    → length rows < 2 ^ 63
    → post.chain_index ≢ pos (length rows)
    → IsRefused r (receive_segment c host post r)
unfolding receive_segment latest
refused c host post r [] tip at chain some_rows few other = absurd (some_rows refl)
refused c host post r (t ∷ rows) tip at chain some_rows few other =
    let (prev, body, blob, q, (h, p, z, i, w), rest) = chain in
    let top = highest-IsChain c r.stored post.instance_id (t ∷ rows) tip chain in
    let next = next_index_lem (length rows) (omega arith) in
    let (why, gap) = link_gap post t (suc (length rows)) (rw i next) other in
    let last : highest (rows_of post.instance_id r.replica_segments) ≡ some t = rw at top in
    rw last (err-cases host post r (check_segment c host post) (check_link (some t) post) why gap)

-- A replica that holds the first `k` segments of a chain, `k` not 0, refuses every segment of the
-- instance but that of index `k`, and stays as it is: while that one does not come, as when it was
-- given up, no later one is taken, and a segment that it has taken is refused when it comes again.
pub receive_all_refused :
    (c : Crypto) (host : Host) (id : Str) (posts : List Post) (r : Replica) (tip : Option Bytes)
    → let rows = rows_of id r.replica_segments in
      IsChain c r.stored id rows tip
      → rows ≢ []
      → length rows < 2 ^ 63
      → All (λ post. (post.instance_id ≡ id) × (post.chain_index ≢ pos (length rows))) posts
      → receive_all c host posts r ≡ (false, r)
unfolding receive_all
receive_all_refused c host id [] r tip chain some_rows few gap = refl
receive_all_refused c host id (post ∷ posts) r tip chain some_rows few ((same, here), gap) =
    let rows = rows_of id r.replica_segments in
    let chain' = subst (λ i. IsChain c r.stored i rows tip) (sym same) chain in
    let (why, q) = refused c host post r rows tip (rw same refl) chain' some_rows few here in
    rw (q, receive_all_refused c host id posts r tip chain some_rows few gap) refl

-- ===== src/Node/Replication/Chain.antt =====
-- The chain of an instance's segments in a table and its blobs, as both the primary and a replica of
-- node-rs/src/replication.rs keep it.
use kraph_core.Prelude.{
  ℕ, suc, ◌-◌, ◌^◌, ◌≤◌, ◌<◌, ◌≡◌, ◌≢◌, refl, arith, false, Option, none, some, List, [], ◌∷◌, ◌++◌,
  length, All, Bool-cases, Option-cases, inl, inr,
}
use kraph_core.Prelude.Int.{pos, ltb_ℤ, ◌+ℤ◌}
use kraph_core.Prelude.Bytes.{Bytes, eq_bytes, eq_bytes_lem, eq_bytes_refl, eq_bytes_sym}
use kraph_core.Node.Paths.{Str}
use kraph_core.Node.Replication.{
  Crypto, Segment, Files, write_file, rows_of, highest, find_segment, insert_segment, next_index,
  chain_hash, previous_hex,
}

-- A row for a blob that follows a hash.
abbrev pub Describes :
    Crypto → Segment → (prev : Option Bytes) → (body : Bytes) → (index : ℕ) → Type 0
Describes c s prev body index =
    (s.hash ≡ c.hex (chain_hash c prev body))
    × (s.previous_hash ≡ previous_hex c prev)
    × (s.size ≡ length body)
    × (s.chain_index ≡ pos index)
    × (28 ≤ length body)

-- The rows, the last first, count down to 0, and each holds the hash of the blob that is stored under
-- its name, chained to the hash of the row before it. `tip` is the last hash.
abbrev pub IsChain : Crypto → Files → Str → List Segment → (tip : Option Bytes) → Type 0
IsChain c files id [] tip = tip ≡ none
IsChain c files id (s ∷ rows) tip =
    (prev : Option Bytes) × (body : Bytes) × (files id s.segment_name ≡ some body)
    × (tip ≡ some (chain_hash c prev body))
    × Describes c s prev body (length rows)
    × IsChain c files id rows prev

-- Every instance's rows are a chain.
abbrev pub IsLinked : Crypto → Files → List Segment → Type 0
IsLinked c files rows = (id : Str) → (tip : Option Bytes) × IsChain c files id (rows_of id rows) tip

abbrev pub first_of : List Segment → Option Segment
first_of [] = none
first_of (s ∷ rows) = some s

pub highest_head :
    (s t : Segment) (rows : List Segment)
    → highest rows ≡ some t
    → ltb_ℤ s.chain_index t.chain_index ≡ false
    → highest (s ∷ rows) ≡ some s
highest_head s t rows below apart = rw below (rw apart refl)

pub highest-IsChain :
    (c : Crypto) (files : Files) (id : Str) (rows : List Segment) (tip : Option Bytes)
    → IsChain c files id rows tip
    → highest rows ≡ first_of rows
highest-IsChain c files id [] tip chain = refl
highest-IsChain c files id (s ∷ []) tip chain = refl
highest-IsChain c files id (s ∷ t ∷ rows) tip (prev, body, at, q, (h, p, z, i, w), rest) =
    let (prev', body', at', q', (h', p', z', i', w'), rest') = rest in
    let below = highest-IsChain c files id (t ∷ rows) prev rest in
    let apart : ltb_ℤ s.chain_index t.chain_index ≡ false = rw (i, i') (ground arith) in
    highest_head s t (t ∷ rows) below apart

-- The rows of an instance whose segment is not there have other names.
fresh_names :
    (id name : Str) (rows : List Segment)
    → find_segment id name rows ≡ none
    → All (λ s. eq_bytes s.segment_name name ≡ false) (rows_of id rows)
fresh_names id name [] h = tt
fresh_names id name (s ∷ rows) h = elim (Bool-cases (eq_bytes s.instance_id id)) [
  | inl same ↦ elim (Bool-cases (eq_bytes s.segment_name name)) [
    | inl found ↦ absurd (cc (rw (same, found) at h))
    | inr other ↦ rw same (other, fresh_names id name rows (rw (same, other) at h))
  ]
  | inr other ↦ rw other (fresh_names id name rows (rw other at h))
]

-- A chain stays one where the blobs of its rows do.
IsChain-files :
    (c : Crypto) (files files' : Files) (id : Str) (rows : List Segment) (tip : Option Bytes)
    → All (λ s. files' id s.segment_name ≡ files id s.segment_name) rows
    → IsChain c files id rows tip
    → IsChain c files' id rows tip
IsChain-files c files files' id [] tip same chain = chain
IsChain-files c files files' id (s ∷ rows) tip (here, same) (prev, body, at, q, d, rest) =
    (prev, body, cc, q, d, IsChain-files c files files' id rows prev same rest)

write_elsewhere :
    (files : Files) (id name : Str) (body : Bytes) (rows : List Segment)
    → All (λ s. eq_bytes s.segment_name name ≡ false) rows
    → All (λ s. write_file files id name body id s.segment_name ≡ files id s.segment_name) rows
write_elsewhere files id name body [] apart = tt
write_elsewhere files id name body (s ∷ rows) (here, apart) =
    (rw (eq_bytes_refl id) (rw here refl), write_elsewhere files id name body rows apart)

write_other :
    (files : Files) (id id' name : Str) (body : Bytes) (rows : List Segment)
    → eq_bytes id' id ≡ false
    → All (λ s. write_file files id name body id' s.segment_name ≡ files id' s.segment_name) rows
write_other files id id' name body [] other = tt
write_other files id id' name body (s ∷ rows) other =
    (rw other refl, write_other files id id' name body rows other)

pub IsChain-write_file :
    (c : Crypto) (files : Files) (rows : List Segment) (id name : Str) (body : Bytes)
    (tip : Option Bytes)
    → find_segment id name rows ≡ none
    → IsChain c files id (rows_of id rows) tip
    → IsChain c (write_file files id name body) id (rows_of id rows) tip
IsChain-write_file c files rows id name body tip fresh chain =
    let keep =
      write_elsewhere files id name body (rows_of id rows) (fresh_names id name rows fresh) in
    IsChain-files c files (write_file files id name body) id (rows_of id rows) tip keep chain

-- A blob of a name that is not in the table does not matter to its chains.
pub IsLinked-write_file :
    (c : Crypto) (files : Files) (rows : List Segment) (id name : Str) (body : Bytes)
    → find_segment id name rows ≡ none
    → IsLinked c files rows
    → IsLinked c (write_file files id name body) rows
IsLinked-write_file c files rows id name body fresh linked id' =
    elim (Bool-cases (eq_bytes id' id)) [
      | inl same ↦
          let q = eq_bytes_lem id' id same in
          let (tip, chain) = linked id in
          rw q (tip, IsChain-write_file c files rows id name body tip fresh chain)
      | inr other ↦
          let (tip, chain) = linked id' in
          let keep = write_other files id id' name body (rows_of id' rows) other in
          (
            tip,
            IsChain-files c files (write_file files id name body) id' (rows_of id' rows) tip keep
                chain,
          )
    ]

pub rows_of-insert_segment :
    (s : Segment) (rows : List Segment)
    → find_segment s.instance_id s.segment_name rows ≡ none
    → rows_of s.instance_id (insert_segment s rows) ≡ s ∷ rows_of s.instance_id rows
unfolding insert_segment
rows_of-insert_segment s rows fresh = rw fresh (rw (eq_bytes_refl s.instance_id) refl)

pub rows_of-insert_segment_other :
    (s : Segment) (id : Str) (rows : List Segment)
    → find_segment s.instance_id s.segment_name rows ≡ none
    → eq_bytes s.instance_id id ≡ false
    → rows_of id (insert_segment s rows) ≡ rows_of id rows
unfolding insert_segment
rows_of-insert_segment_other s id rows fresh other = rw fresh (rw other refl)

-- A row that describes the blob under its name, after the last hash of its instance's chain, goes on
-- with the chain.
module _ (c : Crypto) (files : Files) (rows : List Segment) (s : Segment) (tip : Option Bytes)
    (body : Bytes) (fresh : find_segment s.instance_id s.segment_name rows ≡ none)
    (stored : files s.instance_id s.segment_name ≡ some body)
    (chain : IsChain c files s.instance_id (rows_of s.instance_id rows) tip)
    (row : Describes c s tip body (length (rows_of s.instance_id rows))) where
  pub insert_segment-IsChain :
      IsChain c files s.instance_id
        (rows_of s.instance_id (insert_segment s rows))
        (some (chain_hash c tip body))
  insert_segment-IsChain =
      rw (rows_of-insert_segment s rows fresh) (tip, body, stored, refl, row, chain)

  pub insert_segment-IsLinked : IsLinked c files rows → IsLinked c files (insert_segment s rows)
  insert_segment-IsLinked linked id = elim (Bool-cases (eq_bytes s.instance_id id)) [
    | inl same ↦
        let q = eq_bytes_lem s.instance_id id same in
        rw (← q) (some (chain_hash c tip body), insert_segment-IsChain)
    | inr other ↦ rw (rows_of-insert_segment_other s id rows fresh other) (linked id)
  ]

hex-chain_hash :
    (c : Crypto) (prev : Option Bytes) (body : Bytes) → c.hex (chain_hash c prev body) ≢ []
hex-chain_hash c none body = c.hex-sha256 body
hex-chain_hash c (some prev) body = c.hex-sha256 (prev ++ body)

-- What the latest row says of the last hash.
pub latest-IsChain :
    (c : Crypto) (files : Files) (id : Str) (rows : List Segment) (s : Segment) (tip : Option Bytes)
    → IsChain c files id (s ∷ rows) tip
    → (c.unhex s.hash ≡ tip) × (previous_hex c tip ≡ s.hash) × (s.hash ≢ [])
latest-IsChain c files id rows s tip (prev, body, at, q, (h, p, z, i, w), rest) =
    let back = c.unhex-hex (chain_hash c prev body) in
    (rw (h, q) back, rw (h, q) refl, λ empty. hex-chain_hash c prev body (cc))

pub next_index_lem : (n : ℕ) → n < 2 ^ 63 - 1 → next_index (pos n) ≡ pos (suc n)
unfolding ◌+ℤ◌
next_index_lem n h = ground arith

-- A row leaves the other names new.
pub find_segment-insert_segment :
    (s : Segment) (id name : Str) (rows : List Segment)
    → eq_bytes name s.segment_name ≡ false
    → find_segment id name rows ≡ none
    → find_segment id name (insert_segment s rows) ≡ none
unfolding insert_segment
find_segment-insert_segment s id name rows other fresh =
    elim (Option-cases (find_segment s.instance_id s.segment_name rows)) [
      | inl new ↦
          let back : eq_bytes s.segment_name name ≡ false = cc (eq_bytes_sym name s.segment_name) in
          elim (Bool-cases (eq_bytes s.instance_id id)) [
            | inl same ↦ rw new (rw (same, back) fresh)
            | inr apart ↦ rw new (rw apart fresh)
          ]
      | inr (old, held) ↦ rw held fresh
    ]

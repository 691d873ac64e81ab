-- ===== src/Node/Ports/Sorting.antt =====
-- The order of the allocated ports in node-rs/src/db/mod.rs.
use kraph_core.Prelude.{ℕ, ◌≤◌, arith, List, [], ◌∷◌, leb, All, Bool-cases, inl, inr}
use kraph_core.Node.Ports.{insert_sorted, sorted}

abbrev pub IsSorted : List ℕ → Type 0
IsSorted [] = Unit
IsSorted (q ∷ ports) = All (λ p. q ≤ p) ports × IsSorted ports

module _ (P : ℕ → Type 0) where
  All-insert_sorted : (p : ℕ) (ports : List ℕ) → P p → All P ports → All P (insert_sorted p ports)
  All-insert_sorted p [] h hs = (h, tt)
  All-insert_sorted p (q ∷ ports) h (g, hs) = elim (Bool-cases (leb p q)) [
    | inl le ↦ rw le (h, (g, hs))
    | inr gt ↦ rw gt (g, All-insert_sorted p ports h hs)
  ]

  pub All-sorted : (ports : List ℕ) → All P ports → All P (sorted ports)
  All-sorted [] hs = tt
  All-sorted (p ∷ ports) (h, hs) = All-insert_sorted p (sorted ports) h (All-sorted ports hs)

  insert_sorted-All : (p : ℕ) (ports : List ℕ) → All P (insert_sorted p ports) → P p × All P ports
  insert_sorted-All p [] (h, hs) = (h, tt)
  insert_sorted-All p (q ∷ ports) h = elim (Bool-cases (leb p q)) [
    | inl le ↦ rw le at h
    | inr gt ↦
        let (g, hs) = rw gt at h in
        let (mine, rest) = insert_sorted-All p ports hs in (mine, (g, rest))
  ]

  pub sorted-All : (ports : List ℕ) → All P (sorted ports) → All P ports
  sorted-All [] h = tt
  sorted-All (p ∷ ports) h =
      let (mine, rest) = insert_sorted-All p (sorted ports) h in (mine, sorted-All ports rest)

All-le : (p q : ℕ) (ports : List ℕ) → p ≤ q → All (λ r. q ≤ r) ports → All (λ r. p ≤ r) ports
All-le p q [] le h = tt
All-le p q (r ∷ ports) le (h, hs) = (omega arith, All-le p q ports le hs)

insert_sorted-IsSorted :
    (p : ℕ) (ports : List ℕ) → IsSorted ports → IsSorted (insert_sorted p ports)
insert_sorted-IsSorted p [] h = (tt, tt)
insert_sorted-IsSorted p (q ∷ ports) (least, rest) = elim (Bool-cases (leb p q)) [
  | inl le ↦
      let small : p ≤ q = ground arith in
      rw le ((small, All-le p q ports small least), (least, rest))
  | inr gt ↦
      let small : q ≤ p = ground arith in
      rw gt
        (All-insert_sorted (λ r. q ≤ r) p ports small least, insert_sorted-IsSorted p ports rest)
]

pub sorted-IsSorted : (ports : List ℕ) → IsSorted (sorted ports)
sorted-IsSorted [] = tt
sorted-IsSorted (p ∷ ports) = insert_sorted-IsSorted p (sorted ports) (sorted-IsSorted ports)

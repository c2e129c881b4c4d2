-- ===== src/Plan/Leaves.antt =====
-- `Leaves` of plan/plan.go: a valid plan has a terminal output.
use sibyl.Prelude.{
  ℕ, zero, suc, ◌+◌, ◌<◌, ◌≤◌, ◌≡◌, ◌∙◌, String, true, false, not, ◌&&◌, some, List, [], ◌∷◌, arith,
  contains, contains-append, contains-keep, keep, IsNodup, All-get, ok, inl, inr, is_empty, eq_iff,
  eq_refl, Bool-cases,
}
use sibyl.Prelude.Sorting.{contains-sort}
use sibyl.Plan.Graph.{Node, Plan, ids, find_node, required, leaves, validate}
use sibyl.Plan.Validation.Loops.{find_node-contains}
use sibyl.Plan.Validation.Exact.{IsWellFormed, validate_iff}

pub contains-leaves :
    (p : Plan) (k : String)
    → contains (leaves p) k ≡ (contains (ids p.nodes) k && not (contains (required p.nodes) k))
unfolding leaves
contains-leaves p k =
    contains-sort (keep (λ id. not (contains (required p.nodes) id)) (ids p.nodes)) k
    ∙ contains-keep _ (ids p.nodes) k

-- A required ID is required by some node.
required_by :
    (ns : List Node) (k : String)
    → IsNodup (ids ns)
    → contains (required ns) k ≡ true
    → (j : String) × (n : Node) × (find_node ns j ≡ some n) × (contains n.requires k ≡ true)
unfolding find_node
required_by [] k u h = cc
required_by (m ∷ ns) k u h = elim (Bool-cases (contains m.requires k)) [
  | inl here ↦ (m.id, m, ground (arith, eq_refl m.id), here)
  | inr later ↦
      let (j, n, f, c) =
        required_by ns k u.1 (ground (arith, contains-append m.requires (required ns) k)) in
      (j, n, ground (arith, find_node-contains ns j n f, eq_iff m.id j, u.0), c)
]

-- A number above the rank of every node.
abbrev rank_bound : (String → ℕ) → List String → ℕ
rank_bound rank [] = 0
rank_bound rank (k ∷ ks) = suc (rank k) + rank_bound rank ks

rank-lt-bound :
    (rank : String → ℕ) (ks : List String) (k : String)
    → contains ks k ≡ true
    → rank k < rank_bound rank ks
rank-lt-bound rank [] k h = cc
rank-lt-bound rank (j ∷ ks) k h = ground (arith, rank-lt-bound rank ks k, eq_iff j k)

-- From any node, dependents lead to a leaf.
leaf_above :
    (p : Plan) (w : IsWellFormed p) (steps : ℕ) (k : String)
    → contains (ids p.nodes) k ≡ true
    → rank_bound w.rank (ids p.nodes) ≤ w.rank k + steps
    → (leaf : String) × (contains (leaves p) leaf ≡ true)
leaf_above p w zero k m h = absurd (omega (arith, rank-lt-bound w.rank (ids p.nodes) k m))
leaf_above p w (suc steps) k m h = elim (Bool-cases (contains (required p.nodes) k)) [
  | inl used ↦
      let (j, n, f, c) = required_by p.nodes k w.distinct_ids used in
      leaf_above p w steps j (find_node-contains p.nodes j n f)
        (omega (arith, All-get (λ r. w.rank r < w.rank j) n.requires k c (w.acyclic.below j n f)))
  | inr free ↦ (k, ground (arith, contains-leaves p k))
]

first_id : (ns : List Node) → is_empty ns ≡ false → (k : String) × (contains (ids ns) k ≡ true)
first_id [] h = cc
first_id (n ∷ ns) h = (n.id, ground (arith, eq_refl n.id))

-- The leaves are the nodes that no node requires, and a valid plan has at least one.
pub leaves-validate :
    (p : Plan)
    → validate p ≡ ok tt
    → ((k : String)
        → contains (leaves p) k ≡ (contains (ids p.nodes) k && not (contains (required p.nodes) k)))
      × ((leaf : String) × (contains (leaves p) leaf ≡ true))
leaves-validate p valid =
    let w = (validate_iff p).0 valid in
    let (k, m) = first_id p.nodes w.not_empty in
    (contains-leaves p, leaf_above p w (rank_bound w.rank (ids p.nodes)) k m (omega arith))

-- ===== src/Plan/Validation/Loops.antt =====
-- The two loops of `Validate` of plan/plan.go, and what they check of the nodes.
use sibyl.Prelude.{
  ◌≡◌, ◌↔◌, some, subst, refl, sym, ap, ◌∙◌, String, true, false, ◌||◌, List, [], ◌∷◌, arith,
  contains, IsNodup, All, eq_iff, eq_refl, ◌==◌, Bool-cases, ok, inl, inr,
}
use sibyl.Plan.Options.{check}
use sibyl.Plan.Graph.{Node, ids, find_node, check_nodes, check_requires, check_edges}

-- What is asked of each node by itself.
pub record IsNodeValid (n : Node) : Type 0 where
  pub has_id : (n.id == "") ≡ false
  pub has_activity : (n.activity == "") ≡ false
  pub options_checked : check n.options ≡ ok tt

check_nodes-cons :
    (seen : List String) (n : Node) (ns : List Node)
    → IsNodeValid n
    → contains seen n.id ≡ false
    → check_nodes seen (n ∷ ns) ≡ check_nodes (n.id ∷ seen) ns
unfolding check_nodes
check_nodes-cons seen n ns v fresh = ground arith

check_nodes-cons-eq-ok :
    (seen known : List String) (n : Node) (ns : List Node)
    → check_nodes seen (n ∷ ns) ≡ ok known
    → IsNodeValid n × (contains seen n.id ≡ false) × (check_nodes (n.id ∷ seen) ns ≡ ok known)
unfolding check_nodes
check_nodes-cons-eq-ok seen known n ns h = (ground arith, ground arith, ground arith)

pub record IsChecked (seen known : List String) (ns : List Node) : Type 0 where
  pub nodes_valid : All IsNodeValid ns
  pub distinct_ids : IsNodup (ids ns)
  pub known_ids : (k : String) → contains known k ≡ (contains (ids ns) k || contains seen k)
  pub not_seen : (k : String) → contains (ids ns) k ≡ true → contains seen k ≡ false

pub check_nodes-IsChecked :
    (seen known : List String) (ns : List Node)
    → check_nodes seen ns ≡ ok known
    → IsChecked seen known ns
unfolding check_nodes
check_nodes-IsChecked seen known [] h =
    let same : seen ≡ known = ground arith in
    record {
      nodes_valid = tt;
      distinct_ids = tt;
      known_ids = λ k. ap (λ s. contains s k) (sym same);
      not_seen = λ k m. cc;
    }
check_nodes-IsChecked seen known (n ∷ ns) h =
    let (valid, fresh, rest) = check_nodes-cons-eq-ok seen known n ns h in
    let ih = check_nodes-IsChecked (n.id ∷ seen) known ns rest in
    record {
      nodes_valid = (valid, ih.nodes_valid);
      distinct_ids = (ground (arith, ih.not_seen n.id, eq_refl n.id), ih.distinct_ids);
      known_ids = λ k. ground (arith, ih.known_ids k);
      not_seen = λ k m. ground (arith, ih.not_seen k, eq_iff n.id k);
    }

pub check_nodes_ok :
    (seen : List String) (ns : List Node)
    → All IsNodeValid ns
    → IsNodup (ids ns)
    → ((k : String) → contains (ids ns) k ≡ true → contains seen k ≡ false)
    → (known : List String) × (check_nodes seen ns ≡ ok known)
unfolding check_nodes
check_nodes_ok seen [] v u f = (seen, refl)
check_nodes_ok seen (n ∷ ns) v u f =
    let (known, e) =
      check_nodes_ok (n.id ∷ seen) ns v.1 u.1 (λ k m. ground (arith, f k, eq_iff n.id k, u.0)) in
    (known, check_nodes-cons seen n ns v.0 (f n.id (ground (arith, eq_refl n.id))) ∙ e)

check_requires_iff :
    (known : List String) (id : String) (rs : List String)
    → (check_requires known id rs ≡ ok tt)
      ↔ All (λ r. (contains known r ≡ true) × ((r == id) ≡ false)) rs
unfolding check_requires
check_requires_iff known id [] = (λ h. tt, λ h. refl)
check_requires_iff known id (r ∷ rs) = ground (arith, check_requires_iff known id rs)

pub check_edges_iff :
    (known : List String) (ns : List Node)
    → (check_edges known ns ≡ ok tt)
      ↔ All (λ n. All (λ r. (contains known r ≡ true) × ((r == n.id) ≡ false)) n.requires) ns
unfolding check_edges
check_edges_iff known [] = (λ h. tt, λ h. refl)
check_edges_iff known (n ∷ ns) =
    ground (arith, check_requires_iff known n.id n.requires, check_edges_iff known ns)

pub find_node-All :
    (P : Node → Type 0) (ns : List Node) (k : String) (n : Node)
    → All P ns
    → find_node ns k ≡ some n
    → P n
unfolding find_node
find_node-All P [] k n h f = cc
find_node-All P (m ∷ ns) k n h f = elim (Bool-cases (m.id == k)) [
  | inl here ↦ let same : m ≡ n = ground arith in subst P same h.0
  | inr other ↦ find_node-All P ns k n h.1 (rw other at f)
]

pub find_node-id : (ns : List Node) (k : String) (n : Node) → find_node ns k ≡ some n → n.id ≡ k
unfolding find_node
find_node-id [] k n f = cc
find_node-id (m ∷ ns) k n f = ground (arith, find_node-id ns k n, eq_iff m.id k)

pub find_node-contains :
    (ns : List Node) (k : String) (n : Node) → find_node ns k ≡ some n → contains (ids ns) k ≡ true
unfolding find_node
find_node-contains [] k n f = cc
find_node-contains (m ∷ ns) k n f = ground (arith, find_node-contains ns k n)

pub All-of_find :
    (P : Node → Type 0) (ns : List Node)
    → IsNodup (ids ns)
    → ((k : String) (n : Node) → find_node ns k ≡ some n → P n)
    → All P ns
unfolding find_node
All-of_find P [] u h = tt
All-of_find P (m ∷ ns) u h = (
  h m.id m (ground (arith, eq_refl m.id)),
  All-of_find P ns u.1
      (λ k n f. h k n (ground (arith, find_node-contains ns k n f, eq_iff m.id k, u.0))),
)

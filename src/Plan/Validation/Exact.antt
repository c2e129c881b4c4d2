-- ===== src/Plan/Validation/Exact.antt =====
-- `Validate` of plan/plan.go accepts exactly the well-formed plans.
use sibyl.Prelude.{
  ℕ, ◌<◌, ◌≡◌, ◌↔◌, some, refl, ap, String, true, false, List, [], arith, contains, count, IsNodup,
  All, All-mono, All-zip, eq_iff, ◌==◌, Bool-cases, Result-cases, ok, inl, inr, is_empty, flatten,
  contains-eq-count_pos,
}
use sibyl.Plan.Options.{check}
use sibyl.Plan.Graph.{Node, Plan, ids, find_node, layers, check_nodes, check_edges, validate}
use sibyl.Plan.Validation.Loops.{
  IsNodeValid, IsChecked, check_nodes-IsChecked, check_nodes_ok, check_edges_iff, find_node-All,
  find_node-id, find_node-contains, All-of_find,
}
use sibyl.Plan.Layers.Sound.{count-layers, layers-IsLayered}
use sibyl.Plan.Layers.Complete.{IsRanked, layers_ok, layer_index, layer_index-lt}

pub record IsWellFormed (p : Plan) : Type 0 where
  pub not_empty : is_empty p.nodes ≡ false
  pub defaults_checked : check p.defaults ≡ ok tt
  pub nodes_valid : All IsNodeValid p.nodes
  pub distinct_ids : IsNodup (ids p.nodes)
  pub rank : String → ℕ
  pub acyclic : IsRanked rank p.nodes

-- What the second loop of `Validate` checks, at a node that `find_node` finds.
abbrev HasEdges : List String → Node → Type 0
HasEdges known n = All (λ r. (contains known r ≡ true) × ((r == n.id) ≡ false)) n.requires

-- A plan that passes both loops and the layering.
record Passed (p : Plan) (known : List String) (ls : List (List String)) : Type 0 where
  not_empty : is_empty p.nodes ≡ false
  defaults_checked : check p.defaults ≡ ok tt
  nodes_checked : check_nodes [] p.nodes ≡ ok known
  edges_checked : check_edges known p.nodes ≡ ok tt
  layered : layers p ≡ ok ls

validate-eq-ok :
    (p : Plan)
    → validate p ≡ ok tt
    → (known : List String) × (ls : List (List String)) × Passed p known ls
unfolding validate
validate-eq-ok p h = elim (Result-cases (check_nodes [] p.nodes)) [
  | inl (e, failed) ↦ absurd (ground arith)
  | inr (known, done) ↦ elim (Result-cases (layers p)) [
    | inl (e, failed) ↦ absurd (ground arith)
    | inr (ls, layered) ↦ (
      known,
      ls,
      record {
        not_empty = ground arith;
        defaults_checked = ground arith;
        nodes_checked = done;
        edges_checked = ground arith;
        layered = layered;
      },
    )
  ]
]

validate_of_Passed :
    (p : Plan) (known : List String) (ls : List (List String))
    → Passed p known ls
    → validate p ≡ ok tt
unfolding validate
validate_of_Passed p known ls q = ground arith

module _ (p : Plan) (known : List String) (ls : List (List String)) (q : Passed p known ls) where
  checked : IsChecked [] known p.nodes
  checked = check_nodes-IsChecked [] known p.nodes q.nodes_checked

  layers-count : (k : String) → count k (flatten ls) ≡ count k (ids p.nodes)
  layers-count k = count-layers p ls k checked.distinct_ids q.layered

  edges : (k : String) (n : Node) → find_node p.nodes k ≡ some n → HasEdges known n
  edges k n f =
      find_node-All (HasEdges known) p.nodes k n ((check_edges_iff known p.nodes).0 q.edges_checked)
        f

  Passed-IsRanked : IsRanked (layer_index ls) p.nodes
  Passed-IsRanked = record {
    known = λ k n f.
        All-mono _ _ n.requires (λ r e. ground (arith, checked.known_ids r, e.0)) (edges k n f);
    below = λ k n f.
        All-mono _ _ n.requires (λ r c. ground (arith, c))
          (layer_index-lt p.nodes [] ls k n (layers-IsLayered p ls checked.distinct_ids q.layered)
            (ground (
              arith,
              find_node-contains p.nodes k n f,
              layers-count k,
              contains-eq-count_pos (flatten ls) k,
              contains-eq-count_pos (ids p.nodes) k,
            ))
            f);
  }

  Passed-IsWellFormed : IsWellFormed p
  Passed-IsWellFormed = record {
    not_empty = q.not_empty;
    defaults_checked = q.defaults_checked;
    nodes_valid = checked.nodes_valid;
    distinct_ids = checked.distinct_ids;
    rank = layer_index ls;
    acyclic = Passed-IsRanked;
  }

-- A well-formed plan passes the second loop.
edges_of_IsWellFormed :
    (p : Plan) (known : List String)
    → IsWellFormed p
    → check_nodes [] p.nodes ≡ ok known
    → All (HasEdges known) p.nodes
edges_of_IsWellFormed p known w e =
    let c = check_nodes-IsChecked [] known p.nodes e in
    All-of_find (HasEdges known) p.nodes w.distinct_ids λ k n f.
      let id = find_node-id p.nodes k n f in
      All-zip _ _ _ n.requires
        (λ r m lt. (ground (arith, c.known_ids r), not_itself r n.id (rw id lt)))
        (w.acyclic.known k n f) (w.acyclic.below k n f)
  where
    not_itself : (r id : String) → w.rank r < w.rank id → (r == id) ≡ false
    not_itself r id lt = elim (Bool-cases (r == id)) [
      | inl same ↦ absurd (omega (arith, ap w.rank ((eq_iff r id).0 same)))
      | inr other ↦ other
    ]

-- `Validate` accepts a plan exactly if it is not empty, its options are not negative, its nodes
-- have distinct IDs that are not empty and name activities, every requirement is a node, and some
-- ranking of the IDs puts each requirement below the node, so the graph has no cycle.
pub validate_iff : (p : Plan) → (validate p ≡ ok tt) ↔ IsWellFormed p
validate_iff p = (
  λ h. let (known, ls, q) = validate-eq-ok p h in Passed-IsWellFormed p known ls q,
  λ w.
      let (known, e) = check_nodes_ok [] p.nodes w.nodes_valid w.distinct_ids (λ k m. refl) in
      let (ls, layered) = layers_ok p.nodes w.distinct_ids w.rank w.acyclic p.defaults in
      validate_of_Passed p known ls (record {
        not_empty = w.not_empty;
        defaults_checked = w.defaults_checked;
        nodes_checked = e;
        edges_checked = (check_edges_iff known p.nodes).1 (edges_of_IsWellFormed p known w e);
        layered = layered;
      }),
)

-- The layering that `Validate` tries, and that `Workflow` asks for again, is there.
pub validate-layers :
    (p : Plan) → validate p ≡ ok tt → (ls : List (List String)) × (layers p ≡ ok ls)
validate-layers p h = let (known, ls, q) = validate-eq-ok p h in (ls, q.layered)

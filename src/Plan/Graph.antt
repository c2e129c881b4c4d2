-- ===== src/Plan/Graph.antt =====
-- `Node`, `Plan`, `Validate`, `Layers`, `Node` and `Leaves` of plan/plan.go.
use sibyl.Prelude.{
  ℕ, zero, suc, ◌-◌, String, not, ◌&&◌, Option, none, some, List, [], ◌∷◌, ◌++◌, Result, ok, err,
  ◌>>=◌, ◌>>◌, fail_if, map_err, contains, keep, is_empty, length, nat_eq, if◌then◌else◌, ◌==◌,
}
use sibyl.Prelude.Int.{ℤ, pos, dec_ℤ, is_zero}
use sibyl.Prelude.Maps.{GoMap, put, get_or, keys}
use sibyl.Prelude.Sorting.{sort}
use sibyl.Plan.Options.{Options, OptionsError, default_options, over, check}

pub record Node : Type 0 where
  pub id : String
  pub activity : String
  pub args : List String
  pub requires : List String
  pub options : Options

pub record Plan : Type 0 where
  pub nodes : List Node
  pub defaults : Options

unfoldable pub options_for : Plan → Node → Options
unfolding over
options_for p n = over (over default_options p.defaults) n.options

-- `out_of_fuel` is not an error of the code: the loop of `layers` never meets it.
pub data PlanError : Type 0 where
  no_nodes : PlanError
  bad_defaults : OptionsError → PlanError
  empty_id : PlanError
  duplicate_id : String → PlanError
  no_activity : String → PlanError
  bad_options : String → OptionsError → PlanError
  unknown_requirement : String → String → PlanError
  requires_itself : String → PlanError
  cycle_detected : (remaining : ℕ) → PlanError
  out_of_fuel : PlanError

abbrev pub ids : List Node → List String
ids [] = []
ids (n ∷ ns) = n.id ∷ ids ns

-- The first loop of `Validate`; the set `ids` of the code is `seen`.
unfoldable pub check_nodes : List String → List Node → Result PlanError (List String)
check_nodes seen [] = ok seen
check_nodes seen (n ∷ ns) = do
  fail_if (n.id == "") empty_id
  fail_if (contains seen n.id) (duplicate_id n.id)
  fail_if (n.activity == "") (no_activity n.id)
  map_err (bad_options n.id) (check n.options)
  check_nodes (n.id ∷ seen) ns

unfoldable pub check_requires : List String → String → List String → Result PlanError (Unit {0})
check_requires known id [] = ok tt
check_requires known id (req ∷ reqs) = do
  fail_if (not (contains known req)) (unknown_requirement id req)
  fail_if (req == id) (requires_itself id)
  check_requires known id reqs

-- The second loop of `Validate`.
unfoldable pub check_edges : List String → List Node → Result PlanError (Unit {0})
check_edges known [] = ok tt
check_edges known (n ∷ ns) = do check_requires known n.id n.requires; check_edges known ns

-- The two maps that `Layers` builds first.
pub record Index : Type 0 where
  pub indegree : GoMap ℤ
  pub dependents : GoMap (List String)

unfoldable pub add_dependents : String → List String → GoMap (List String) → GoMap (List String)
add_dependents id [] deps = deps
add_dependents id (req ∷ reqs) deps =
    add_dependents id reqs (put deps req (get_or deps req [] ++ id ∷ []))

abbrev pub index_node : Node → Index → Index
index_node n s = record {
  indegree = put s.indegree n.id (pos (length n.requires));
  dependents = add_dependents n.id n.requires s.dependents;
}

unfoldable pub index_nodes : List Node → Index → Index
index_nodes [] s = s
index_nodes (n ∷ ns) s = index_nodes ns (index_node n s)

-- `indegree[dep]--` for each of the dependents
unfoldable pub decrement : List String → GoMap ℤ → GoMap ℤ
decrement [] m = m
decrement (dep ∷ deps) m = decrement deps (put m dep (dec_ℤ (get_or m dep (pos 0))))

pub record Progress : Type 0 where
  pub indegree : GoMap ℤ
  pub done : List String

abbrev pub finish_node : GoMap (List String) → String → Progress → Progress
finish_node dependents id s = record {
  indegree = decrement (get_or dependents id []) s.indegree;
  done = id ∷ s.done;
}

-- The loop over the nodes of a layer, after it was chosen.
unfoldable pub finish : GoMap (List String) → List String → Progress → Progress
finish dependents [] s = s
finish dependents (id ∷ rest) s = finish dependents rest (finish_node dependents id s)

-- The range over `indegree`. Go's order of iteration is lost when the layer is sorted.
unfoldable pub runnable : Progress → List String
runnable s =
    keep (λ id. is_zero (get_or s.indegree id (pos 0)) && not (contains s.done id))
      (keys s.indegree)

-- `for remaining > 0`. A layer is not empty, so `remaining` rounds are enough. It holds at most
-- the nodes that remain, so the truncated `-` is the one of the code.
unfoldable pub layers_from :
    GoMap (List String) → ℕ → ℕ → Progress → Result PlanError (List (List String))
layers_from dependents zero remaining s = if nat_eq remaining 0 then ok [] else err out_of_fuel
layers_from dependents (suc fuel) remaining s =
    let layer = sort (runnable s) in
    let rest = layers_from dependents fuel (remaining - length layer) (finish dependents layer s) in
    if nat_eq remaining 0
    then ok []
    else if is_empty layer
    then err (cycle_detected remaining)
    else (do later ← rest; ok (layer ∷ later))

unfoldable pub layers : Plan → Result PlanError (List (List String))
layers p =
    let s = index_nodes p.nodes (record { indegree = []; dependents = [] }) in
    layers_from s.dependents (length p.nodes) (length p.nodes)
      (record { indegree = s.indegree; done = [] })

unfoldable pub validate : Plan → Result PlanError (Unit {0})
validate p = do
  fail_if (is_empty p.nodes) no_nodes
  map_err bad_defaults (check p.defaults)
  known ← check_nodes [] p.nodes
  check_edges known p.nodes
  _ ← layers p
  ok tt

unfoldable pub find_node : List Node → String → Option Node
find_node [] id = none
find_node (n ∷ ns) id = if n.id == id then some n else find_node ns id

-- The keys of `hasDependents`.
abbrev pub required : List Node → List String
required [] = []
required (n ∷ ns) = n.requires ++ required ns

unfoldable pub leaves : Plan → List String
leaves p = sort (keep (λ id. not (contains (required p.nodes) id)) (ids p.nodes))

-- ===== src/Examples/PlanRuns.antt =====
-- plan/: a plan of four nodes, run with `Echo` as every activity.
use sibyl.Prelude.{
  ◌≡◌, ◌≢◌, ◌⊎◌, ◌↔◌, refl, String, true, false, not, ◌&&◌, none, List, [], ◌∷◌, contains, count,
  flatten, IsNodup, Result, ok, err,
}
use sibyl.Prelude.Int.{pos}
use sibyl.Prelude.Maps.{get, put, keys}
use sibyl.Prelude.Sorting.{sort}
use sibyl.Prelude.Texts.{join}
use sibyl.Plan.Options.{Options, no_options, over, check, dedup}
use sibyl.Plan.Graph.{
  Node, Plan, PlanError, out_of_fuel, cycle_detected, ids, required, options_for, layers,
  layers_from, index_nodes, add_dependents, decrement, finish, runnable, validate, check_nodes,
  check_requires, check_edges, find_node, leaves,
}
use sibyl.Plan.Layers.Sound.{IsLayered, layers-ne-out_of_fuel, count-layers, layers-IsLayered}
use sibyl.Plan.Validation.Exact.{IsWellFormed, validate_iff}
use sibyl.Plan.Leaves.{leaves-validate}
use sibyl.Plan.Run.{
  Input, ActivityOptions, PlanResult, RunError, invalid_plan, workflow, echo, dispatch, collect,
  run_layers, activity_options, input_for, upstream_of,
}
use sibyl.Plan.Run.Outcome.{workflow-Solves}
use sibyl.Plan.Run.Dataflow.{Solves}
use sibyl.Plan.Run.Failure.{Failed, workflow_outcome}

abbrev node : String → List String → List String → Node
node id args requires = record {
  id = id;
  activity = "Echo";
  args = args;
  requires = requires;
  options = no_options;
}

-- "d" joins "b" and "c", which both read "a"; the plan lists them in another order.
abbrev diamond : Plan
diamond = record {
  nodes =
      node "d" [] ("b" ∷ "c" ∷ [])
      ∷ node "c" ("x" ∷ []) ("a" ∷ [])
      ∷ node "b" [] ("a" ∷ [])
      ∷ node "a" ("hi" ∷ []) []
      ∷ [];
  defaults = no_options;
}

abbrev loop : Plan
loop = record {
  nodes = node "a" [] ("b" ∷ []) ∷ node "b" [] ("a" ∷ []) ∷ [];
  defaults = no_options;
}

abbrev diamond_layers : List (List String)
diamond_layers = ("a" ∷ []) ∷ ("b" ∷ "c" ∷ []) ∷ ("d" ∷ []) ∷ []

diamond_runs : layers diamond ≡ ok diamond_layers
unfolding layers layers_from index_nodes add_dependents decrement finish runnable sort get put keys
diamond_runs = refl

diamond_valid : validate diamond ≡ ok tt
unfolding validate check check_nodes check_edges check_requires layers layers_from index_nodes
    add_dependents decrement finish runnable sort get put keys
diamond_valid = refl

loop_refused : validate loop ≡ err (cycle_detected 2)
unfolding validate check check_nodes check_edges check_requires layers layers_from index_nodes
    add_dependents decrement finish runnable sort get put keys
loop_refused = refl

validate_iff_example : (validate diamond ≡ ok tt) ↔ IsWellFormed diamond
validate_iff_example = validate_iff diamond

layers-ne-out_of_fuel_example : layers loop ≢ err out_of_fuel
layers-ne-out_of_fuel_example = layers-ne-out_of_fuel loop

diamond_distinct : IsNodup (ids diamond.nodes)
diamond_distinct = (refl, (refl, (refl, (refl, tt))))

count-layers_example : count "b" (flatten diamond_layers) ≡ count "b" (ids diamond.nodes)
count-layers_example = count-layers diamond diamond_layers "b" diamond_distinct diamond_runs

layers-IsLayered_example : IsLayered diamond.nodes [] diamond_layers
layers-IsLayered_example = layers-IsLayered diamond diamond_layers diamond_distinct diamond_runs

leaves-validate_example :
    ((k : String)
      → contains (leaves diamond) k
        ≡ (contains (ids diamond.nodes) k && not (contains (required diamond.nodes) k)))
    × ((leaf : String) × (contains (leaves diamond) leaf ≡ true))
leaves-validate_example = leaves-validate diamond diamond_valid

abbrev quick : Options
quick = record no_options { timeout = pos 5; non_retryable = "Quota" ∷ [] }

abbrev thrifty : Plan
thrifty = record diamond { defaults = quick }

quick_checks : check quick ≡ ok tt
unfolding check
quick_checks = refl

no_options-check : check no_options ≡ ok tt
unfolding check
no_options-check = refl

abbrev lone : Node
lone = node "a" [] []

abbrev echoes : ActivityOptions → String → Input → Result String String
echoes o name i = ok (echo i)

abbrev diamond_result : PlanResult
diamond_result = record {
  outputs = ("a", "hi") ∷ ("b", "hi") ∷ ("c", "x | hi") ∷ ("d", "hi x | hi") ∷ [];
  leaves = "d" ∷ [];
  duration_ms = 7;
}

diamond-echoes : workflow echoes 3 10 diamond ≡ ok diamond_result
unfolding workflow run_layers dispatch collect find_node activity_options options_for over dedup
    input_for upstream_of echo join leaves validate check check_nodes check_edges check_requires
    layers layers_from index_nodes add_dependents decrement finish runnable sort get put keys
diamond-echoes = refl

workflow-Solves_example :
    (validate diamond ≡ ok tt)
    × ((k : String)
        → (contains (ids diamond.nodes) k ≡ true) × Solves echoes diamond diamond_result.outputs k
          ⊎ (contains (ids diamond.nodes) k ≡ false) × (get diamond_result.outputs k ≡ none))
workflow-Solves_example = workflow-Solves echoes diamond 3 10 diamond_result diamond-echoes

workflow_outcome_example :
    ((e : PlanError) × (validate loop ≡ err e) × (workflow echoes 0 0 loop ≡ err (invalid_plan e)))
    ⊎ ((validate loop ≡ ok tt) × ((r : PlanResult) × (workflow echoes 0 0 loop ≡ ok r)))
    ⊎ ((validate loop ≡ ok tt)
        × ((e : RunError String) × (workflow echoes 0 0 loop ≡ err e) × Failed echoes loop e))
workflow_outcome_example = workflow_outcome echoes loop 0 0

-- ===== src/Plan/Run.antt =====
-- plan/workflow.go: `Workflow`, `activityOptions`, `Echo` and `Submit`. Temporal is a parameter: what
-- an activity returns, after Temporal's retries, is a function of its options, name and input, and
-- the two readings of the clock are arguments.
pub mod Dataflow
pub mod Outcome
pub mod Failure
use sibyl.Prelude.{
  ℕ, zero, suc, ◌-◌, String, Bool, not, ◌&&◌, Option, none, some, List, [], ◌∷◌, ◌++◌, Result, ok,
  err, ◌>>=◌, ◌>>◌, fail_if, map_err, is_empty, keep, if◌then◌else◌, ◌==◌,
}
use sibyl.Prelude.Int.{ℤ, pos}
use sibyl.Prelude.Maps.{GoMap, put, get_or, keys}
use sibyl.Prelude.Sorting.{sort}
use sibyl.Prelude.Texts.{join, joined}
use sibyl.Plan.Options.{Options, no_options}
use sibyl.Plan.Graph.{Node, Plan, PlanError, options_for, validate, layers, find_node, leaves}

pub record Input : Type 0 where
  pub node_id : String
  pub args : List String
  pub upstream : GoMap String

pub record PlanResult : Type 0 where
  pub outputs : GoMap String
  pub leaves : List String
  pub duration_ms : ℕ

pub record ActivityOptions : Type 0 where
  pub task_queue : String
  pub start_to_close_timeout : ℤ
  pub heartbeat_timeout : ℤ
  pub initial_interval : ℤ
  pub backoff_coefficient : ℕ
  pub maximum_attempts : ℤ
  pub non_retryable_error_types : List String

unfoldable pub activity_options : Options → ActivityOptions
activity_options o = record {
  task_queue = o.task_queue;
  start_to_close_timeout = o.timeout;
  heartbeat_timeout = o.heartbeat;
  initial_interval = pos 1_000_000_000;
  backoff_coefficient = 2;
  maximum_attempts = o.max_attempts;
  non_retryable_error_types = o.non_retryable;
}

pub data RunError (E : Type 0) : Type 0 where
  invalid_plan : PlanError → RunError E
  node_failed : String → E → RunError E

-- The zero `Node`, which `p.Node` returns for an unknown ID.
abbrev zero_node : Node
zero_node = record { id = ""; activity = ""; args = []; requires = []; options = no_options }

abbrev pub node_or_zero : Option Node → Node
node_or_zero none = zero_node
node_or_zero (some n) = n

unfoldable pub upstream_of : GoMap String → List String → GoMap String → GoMap String
upstream_of outputs [] up = up
upstream_of outputs (req ∷ reqs) up = upstream_of outputs reqs (put up req (get_or outputs req ""))

unfoldable pub input_for : GoMap String → Node → Input
input_for outputs n = record {
  node_id = n.id;
  args = n.args;
  upstream = upstream_of outputs n.requires [];
}

-- A pending node: its ID and what its activity comes to.
abbrev pub Future : Type 0 → Type 0
Future E = String × Result E String

module _ {E : Type 0} (activity : ActivityOptions → String → Input → Result E String) where
  abbrev pub execute : Plan → GoMap String → Node → Result E String
  execute p outputs n =
      activity (activity_options (options_for p n)) n.activity (input_for outputs n)

  -- The first loop over a layer: every node is dispatched with the outputs of the layers before.
  unfoldable pub dispatch : Plan → GoMap String → List String → List (Future E)
  dispatch p outputs [] = []
  dispatch p outputs (id ∷ rest) =
      let n = node_or_zero (find_node p.nodes id) in
      (n.id, execute p outputs n) ∷ dispatch p outputs rest

  -- The second loop: the futures are awaited in order, and the first failure ends the workflow.
  unfoldable pub collect : GoMap String → List (Future E) → Result (RunError E) (GoMap String)
  collect outputs [] = ok outputs
  collect outputs ((id, future) ∷ futures) = do
    out ← map_err (node_failed id) future
    collect (put outputs id out) futures

  unfoldable pub run_layers :
      Plan → GoMap String → List (List String) → Result (RunError E) (GoMap String)
  run_layers p outputs [] = ok outputs
  run_layers p outputs (layer ∷ rest) = do
    outputs' ← collect outputs (dispatch p outputs layer)
    run_layers p outputs' rest

  unfoldable pub workflow : ℕ → ℕ → Plan → Result (RunError E) PlanResult
  workflow start end p = do
    map_err invalid_plan (validate p)
    ls ← map_err invalid_plan (layers p)
    outputs ← run_layers p [] ls
    ok (record { outputs = outputs; leaves = leaves p; duration_ms = end - start })

-- `joinNonEmpty`
unfoldable pub join_non_empty : List String → String
join_non_empty parts = join " " (keep (λ p. not (p == "")) parts)

abbrev values : GoMap String → List String → List String
values m [] = []
values m (k ∷ ks) = get_or m k "" ∷ values m ks

unfoldable pub echo : Input → String
unfolding join_non_empty
echo i =
    let arg_text = join_non_empty i.args in
    let up_text = join_non_empty (values i.upstream (sort (keys i.upstream))) in
    if not (arg_text == "") && not (up_text == "")
    then joined arg_text (joined " | " up_text)
    else if not (arg_text == "")
    then arg_text
    else up_text

pub data SubmitError (E : Type 0) : Type 0 where
  no_client no_task_queue : SubmitError E
  rejected : PlanError → SubmitError E
  not_started : E → SubmitError E

-- The client's `ExecuteWorkflow`, as a function of the task queue and the plan.
abbrev pub Client : Type 0 → Type 0 → Type 0
Client E Handle = String → Plan → Result E Handle

unfoldable pub submit :
    {E Handle : Type 0} → Option (Client E Handle) → String → Plan → Result (SubmitError E) Handle
submit none task_queue p = err no_client
submit (some client) task_queue p = do
  fail_if (task_queue == "") no_task_queue
  map_err rejected (validate p)
  map_err not_started (client task_queue p)

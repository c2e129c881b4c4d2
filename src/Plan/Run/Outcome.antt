-- ===== src/Plan/Run/Outcome.antt =====
-- The results and the errors of `Workflow` of plan/workflow.go.
use sibyl.Prelude.{
  ℕ, ◌≡◌, ◌⊎◌, none, ◌∙◌, String, true, false, List, [], arith, contains, count-le-one, IsNodup,
  IsNodup-of_count, contains-eq-count_pos, Bool-cases, Result, Result-cases, ok, inl, inr, flatten,
}
use sibyl.Prelude.Maps.{get}
use sibyl.Plan.Graph.{Plan, ids, layers, validate, leaves}
use sibyl.Plan.Run.{Input, ActivityOptions, PlanResult, run_layers, workflow}
use sibyl.Plan.Layers.Sound.{count-layers, layers-IsLayered}
use sibyl.Plan.Validation.Exact.{validate_iff}
use sibyl.Plan.Run.Dataflow.{Solves, run_layers-Solves, get-run_layers_other}

module _ {E : Type 0} (activity : ActivityOptions → String → Input → Result E String)
    (p : Plan) where
  record Ran (result : PlanResult) (ls : List (List String)) : Type 0 where
    valid : validate p ≡ ok tt
    layered : layers p ≡ ok ls
    ran : run_layers activity p [] ls ≡ ok result.outputs
    sinks : result.leaves ≡ leaves p

  workflow-Ran :
      (start end : ℕ) (result : PlanResult)
      → workflow activity start end p ≡ ok result
      → (ls : List (List String)) × Ran result ls
  unfolding workflow
  workflow-Ran start end result h = elim (Result-cases (validate p)) [
    | inl (e, failed) ↦ absurd (ground arith)
    | inr (_, valid) ↦ elim (Result-cases (layers p)) [
      | inl (e, failed) ↦ absurd (ground arith)
      | inr (ls, layered) ↦ elim (Result-cases (run_layers activity p [] ls)) [
        | inl (e, failed) ↦ absurd (ground arith)
        | inr (outputs, ran) ↦ (
          ls,
          record { valid = valid; layered = layered; ran = ground arith; sinks = ground arith },
        )
      ]
    ]
  ]

  module _ (ls : List (List String)) (valid : validate p ≡ ok tt) (layered : layers p ≡ ok ls) where
    distinct : IsNodup (ids p.nodes)
    distinct = ((validate_iff p).0 valid).distinct_ids

    layers-mem : (k : String) → contains (flatten ls) k ≡ contains (ids p.nodes) k
    layers-mem k = ground (
      arith,
      count-layers p ls k distinct layered,
      contains-eq-count_pos (flatten ls) k,
      contains-eq-count_pos (ids p.nodes) k,
    )

    layers-IsNodup : IsNodup (flatten ls)
    layers-IsNodup = IsNodup-of_count (flatten ls) λ k.
        omega (arith, count-layers p ls k distinct layered, count-le-one (ids p.nodes) k distinct)

  -- If the workflow succeeds, every node of the plan has as its output what its activity returns
  -- for the options, name and arguments of the node and the outputs of the nodes it requires, no
  -- other ID has an output, and the plan is valid.
  pub workflow-Solves :
      (start end : ℕ) (result : PlanResult)
      → workflow activity start end p ≡ ok result
      → (validate p ≡ ok tt)
        × ((k : String)
            → (contains (ids p.nodes) k ≡ true) × Solves activity p result.outputs k
              ⊎ (contains (ids p.nodes) k ≡ false) × (get result.outputs k ≡ none))
  unfolding get
  workflow-Solves start end result h =
      let (ls, r) = workflow-Ran start end result h in
      let layered = layers-IsLayered p ls (distinct ls r.valid r.layered) r.layered in
      let mem = layers-mem ls r.valid r.layered in
      (
        r.valid,
        λ k. elim (Bool-cases (contains (ids p.nodes) k)) [
          | inl known ↦ inl (
            known,
            run_layers-Solves activity p [] result.outputs [] ls k layered
                (layers-IsNodup ls r.valid r.layered) (λ j c. cc) r.ran (mem k ∙ known),
          )
          | inr unknown ↦ inr (
            unknown,
            get-run_layers_other activity p [] result.outputs [] ls k layered r.ran
                (mem k ∙ unknown),
          )
        ],
      )

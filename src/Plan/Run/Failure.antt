-- ===== src/Plan/Run/Failure.antt =====
-- How `Workflow` of plan/workflow.go fails.
use sibyl.Prelude.{
  ℕ, ◌-◌, ◌≡◌, ◌⊎◌, some, String, List, [], ◌∷◌, ◌++◌, arith, eq_refl, Result, Result-cases, ok,
  err, inl, inr,
}
use sibyl.Prelude.Maps.{GoMap, put}
use sibyl.Plan.Graph.{Node, Plan, PlanError, find_node, validate, leaves}
use sibyl.Plan.Run.{
  Input, ActivityOptions, PlanResult, RunError, invalid_plan, node_failed, execute, dispatch,
  collect, run_layers, workflow,
}
use sibyl.Plan.Layers.Sound.{IsLayered, layers-IsLayered}
use sibyl.Plan.Validation.Exact.{validate_iff, validate-layers}
use sibyl.Plan.Run.Dataflow.{AllFound, layer-AllFound, dispatch-nil, dispatch-cons}

module _ {E : Type 0} (activity : ActivityOptions → String → Input → Result E String)
    (p : Plan) where
  -- The activity of this node failed with this error, for some outputs of other nodes.
  abbrev pub Failed : RunError E → Type 0
  Failed (invalid_plan e) = ⊥
  Failed (node_failed k e) =
      (n : Node) × (outputs : GoMap String) × (find_node p.nodes k ≡ some n)
      × (execute activity p outputs n ≡ err e)

  -- Either all goes well, or an activity failed.
  abbrev IsExplained : Result (RunError E) (GoMap String) → Type 0
  IsExplained (ok o) = Unit
  IsExplained (err e) = Failed e

  collect-IsExplained :
      (before o : GoMap String) (l : List String)
      → AllFound activity p l
      → IsExplained (collect activity o (dispatch activity p before l))
  unfolding collect
  collect-IsExplained before o [] found = rw (dispatch-nil activity p before) tt
  collect-IsExplained before o (id ∷ l) found =
      let (n, f) = found id (ground (arith, eq_refl id)) in
      rw (dispatch-cons activity p before id l n f)
        (elim (Result-cases (execute activity p before n)) [
          | inl (e, failed) ↦ rw failed (n, before, f, failed)
          | inr (out, done) ↦
              rw done (collect-IsExplained before (put o id out) l (λ j c. found j (ground arith)))
        ])

  run_layers-IsExplained :
      (o : GoMap String) (seen : List String) (ls : List (List String))
      → IsLayered p.nodes seen ls
      → IsExplained (run_layers activity p o ls)
  unfolding run_layers
  run_layers-IsExplained o seen [] h = tt
  run_layers-IsExplained o seen (l ∷ ls) h =
      let first = collect-IsExplained o o l (layer-AllFound activity p seen l h.0) in
      elim (Result-cases (collect activity o (dispatch activity p o l))) [
        | inl (e, failed) ↦ rw failed (rw failed at first)
        | inr (o1, done) ↦ rw done (run_layers-IsExplained o1 (l ++ seen) ls h.1)
      ]

  abbrev result_of : ℕ → ℕ → GoMap String → PlanResult
  result_of start end o = record { outputs = o; leaves = leaves p; duration_ms = end - start }

  -- On a plan that `Validate` refuses the workflow returns that error, whatever the activities
  -- would return. On a valid plan it returns a result, or the error that an activity of one of the
  -- plan's nodes returned, for some outputs of other nodes.
  pub workflow_outcome :
      (start end : ℕ)
      → ((e : PlanError) × (validate p ≡ err e)
          × (workflow activity start end p ≡ err (invalid_plan e)))
        ⊎ ((validate p ≡ ok tt) × ((r : PlanResult) × (workflow activity start end p ≡ ok r)))
        ⊎ ((validate p ≡ ok tt)
            × ((e : RunError E) × (workflow activity start end p ≡ err e) × Failed e))
  unfolding workflow
  workflow_outcome start end = elim (Result-cases (validate p)) [
    | inl (e, failed) ↦ inl (e, failed, ground arith)
    | inr (_, valid) ↦
        let (ls, layered) = validate-layers p valid in
        let distinct = ((validate_iff p).0 valid).distinct_ids in
        let run = run_layers-IsExplained [] [] ls (layers-IsLayered p ls distinct layered) in
        inr (elim (Result-cases (run_layers activity p [] ls)) [
          | inl (e, failed) ↦ inr (valid, (e, ground arith, rw failed at run))
          | inr (o, done) ↦ inl (valid, (result_of start end o, ground arith))
        ])
  ]

-- ===== src/Plan/Run/Dataflow.antt =====
-- What `Workflow` of plan/workflow.go returns: the outputs solve the equations of the plan.
use sibyl.Prelude.{
  ◌≡◌, some, subst, refl, ap, ◌∙◌, String, true, false, List, [], ◌∷◌, ◌++◌, arith, contains,
  contains-append, IsNodup, All, All-mono, All-get, eq_iff, eq_refl, ◌==◌, Bool-cases, Result,
  Result-cases, ok, err, inl, inr, flatten, IsNodup-append_left, IsNodup-append_right,
  IsNodup-append_apart,
}
use sibyl.Prelude.Maps.{GoMap, get, put, get_or, get-put}
use sibyl.Plan.Graph.{Node, Plan, find_node}
use sibyl.Plan.Run.{
  Input, ActivityOptions, upstream_of, input_for, Future, execute, dispatch, collect, run_layers,
}
use sibyl.Plan.Validation.Loops.{find_node-id}
use sibyl.Plan.Layers.Sound.{IsLayered, IsReady}

upstream_of_ext :
    (o o' : GoMap String) (rs : List String) (up : GoMap String)
    → All (λ r. get o r ≡ get o' r) rs
    → upstream_of o rs up ≡ upstream_of o' rs up
unfolding upstream_of
upstream_of_ext o o' [] up h = refl
upstream_of_ext o o' (r ∷ rs) up h =
    rw h.0 (upstream_of_ext o o' rs (put up r (get_or o' r "")) h.1)

module _ {E : Type 0} (activity : ActivityOptions → String → Input → Result E String)
    (p : Plan) where
  -- Node `n`, given these outputs of the nodes that it requires, has the output that stands there.
  abbrev pub Solves : GoMap String → String → Type 0
  Solves outputs k =
      (n : Node) × (out : String) × (find_node p.nodes k ≡ some n)
      × (execute activity p outputs n ≡ ok out)
      × (get outputs k ≡ some out)

  execute_ext :
      (o o' : GoMap String) (n : Node)
      → All (λ r. get o r ≡ get o' r) n.requires
      → execute activity p o n ≡ execute activity p o' n
  unfolding input_for
  execute_ext o o' n h = rw (upstream_of_ext o o' n.requires [] h)

  collect-cons :
      (o o' : GoMap String) (id : String) (future : Result E String) (futures : List (Future E))
      → collect activity o ((id, future) ∷ futures) ≡ ok o'
      → (out : String) × (future ≡ ok out) × (collect activity (put o id out) futures ≡ ok o')
  unfolding collect
  collect-cons o o' id (ok out) futures h = (out, refl, h)
  collect-cons o o' id (err e) futures h = cc

  abbrev pub AllFound : List String → Type 0
  AllFound l = (k : String) → contains l k ≡ true → (n : Node) × (find_node p.nodes k ≡ some n)

  pub dispatch-nil : (o : GoMap String) → dispatch activity p o [] ≡ []
  unfolding dispatch
  dispatch-nil o = refl

  pub dispatch-cons :
      (o : GoMap String) (id : String) (rest : List String) (n : Node)
      → find_node p.nodes id ≡ some n
      → dispatch activity p o (id ∷ rest)
        ≡ (id, execute activity p o n) ∷ dispatch activity p o rest
  unfolding dispatch
  dispatch-cons o id rest n f = rw (f, find_node-id p.nodes id n f)

  collect-nil :
      (before o o' : GoMap String)
      → collect activity o (dispatch activity p before []) ≡ ok o'
      → o' ≡ o
  unfolding collect dispatch
  collect-nil before o o' h = ground arith

  -- A layer leaves the other outputs alone.
  get-collect_other :
      (before o o' : GoMap String) (l : List String) (k : String)
      → AllFound l
      → collect activity o (dispatch activity p before l) ≡ ok o'
      → contains l k ≡ false
      → get o' k ≡ get o k
  get-collect_other before o o' [] k found r m = ap (λ o. get o k) (collect-nil before o o' r)
  get-collect_other before o o' (id ∷ l) k found r m =
      let (n, f) = found id (ground (arith, eq_refl id)) in
      let (out, ran, rest) =
        collect-cons o o' id (execute activity p before n) (dispatch activity p before l)
          (rw (dispatch-cons before id l n f) at r) in
      get-collect_other before (put o id out) o' l k (λ j c. found j (ground arith)) rest
        (ground arith)
      ∙ ground (arith, get-put o id k out)

  get-collect :
      (before o o' : GoMap String) (l : List String) (k : String)
      → AllFound l
      → IsNodup l
      → collect activity o (dispatch activity p before l) ≡ ok o'
      → contains l k ≡ true
      → (n : Node) × (out : String) × (find_node p.nodes k ≡ some n)
        × (execute activity p before n ≡ ok out)
        × (get o' k ≡ some out)
  get-collect before o o' [] k found u r m = cc
  get-collect before o o' (id ∷ l) k found u r m =
      let (n, f) = found id (ground (arith, eq_refl id)) in
      let (out, ran, rest) =
        collect-cons o o' id (execute activity p before n) (dispatch activity p before l)
          (rw (dispatch-cons before id l n f) at r) in
      elim (Bool-cases (id == k)) [
        | inl here ↦ (
          n,
          out,
          ground (arith, eq_iff id k),
          ran,
          get-collect_other before (put o id out) o' l k (λ j c. found j (ground arith)) rest
                (ground (arith, eq_iff id k, u.0))
              ∙ ground (arith, get-put o id k out),
        )
        | inr other ↦
            get-collect before (put o id out) o' l k (λ j c. found j (ground arith)) u.1 rest
              (ground arith)
      ]

  pub layer-AllFound :
      (seen : List String) (l : List String) → All (IsReady p.nodes seen) l → AllFound l
  layer-AllFound seen l h k m = let (n, f, ready) = All-get (IsReady p.nodes seen) l k m h in (n, f)

  run_layers-cons :
      (o o' : GoMap String) (l : List String) (ls : List (List String))
      → run_layers activity p o (l ∷ ls) ≡ ok o'
      → (o1 : GoMap String) × (collect activity o (dispatch activity p o l) ≡ ok o1)
        × (run_layers activity p o1 ls ≡ ok o')
  unfolding run_layers
  run_layers-cons o o' l ls h = elim (Result-cases (collect activity o (dispatch activity p o l))) [
    | inl (e, failed) ↦ absurd (ground arith)
    | inr (o1, done) ↦ (o1, done, ground arith)
  ]

  -- Later layers leave the outputs of other nodes alone.
  pub get-run_layers_other :
      (o o' : GoMap String) (seen : List String) (ls : List (List String)) (k : String)
      → IsLayered p.nodes seen ls
      → run_layers activity p o ls ≡ ok o'
      → contains (flatten ls) k ≡ false
      → get o' k ≡ get o k
  unfolding run_layers
  get-run_layers_other o o' seen [] k h r m = ground arith
  get-run_layers_other o o' seen (l ∷ ls) k h r m =
      let (o1, first, rest) = run_layers-cons o o' l ls r in
      get-run_layers_other o1 o' (l ++ seen) ls k h.1 rest
        (ground (arith, contains-append l (flatten ls) k))
      ∙ get-collect_other o o o1 l k (layer-AllFound seen l h.0) first
          (ground (arith, contains-append l (flatten ls) k))

  pub run_layers-Solves :
      (o o' : GoMap String) (seen : List String) (ls : List (List String)) (k : String)
      → IsLayered p.nodes seen ls
      → IsNodup (flatten ls)
      → ((j : String) → contains seen j ≡ true → contains (flatten ls) j ≡ false)
      → run_layers activity p o ls ≡ ok o'
      → contains (flatten ls) k ≡ true
      → Solves o' k
  run_layers-Solves o o' seen [] k h u apart r m = cc
  run_layers-Solves o o' seen (l ∷ ls) k h u apart r m =
      let (o1, first, rest) = run_layers-cons o o' l ls r in
      elim (Bool-cases (contains l k)) [
        | inl here ↦
            let (n, out, f, ran, got) =
              get-collect o o o1 l k (layer-AllFound seen l h.0)
                (IsNodup-append_left l (flatten ls) u) first here in
            let (n', f', ready) = All-get (IsReady p.nodes seen) l k here h.0 in
            let same : n' ≡ n = cc in
            let old : All (λ j. get o' j ≡ get o j) n'.requires =
              All-mono _ _ n'.requires
                (λ j s. get-run_layers_other o o' seen (l ∷ ls) j h r (apart j s)) ready in
            (
              n,
              out,
              f,
              execute_ext o' o n
                    (subst (λ (i : Node). All (λ j. get o' j ≡ get o j) i.requires) same old)
                  ∙ ran,
              get-run_layers_other o1 o' (l ++ seen) ls k h.1 rest
                    (IsNodup-append_apart l (flatten ls) k u here)
                  ∙ got,
            )
        | inr there ↦
            run_layers-Solves o1 o' (l ++ seen) ls k h.1 (IsNodup-append_right l (flatten ls) u)
              (λ j c. ground (
                arith,
                contains-append l seen j,
                apart j,
                contains-append l (flatten ls) j,
                IsNodup-append_apart l (flatten ls) j u,
              ))
              rest (ground (arith, contains-append l (flatten ls) k))
      ]

-- ===== src/Agents.antt =====
-- agents/agent.go, agents/verdict.go and agents/predicates.go: agents, the behaviours that wrap them,
-- and the human verdict. A Go function that returns a value together with an error is a function into
-- Returned. The context is the AgentContext that it carries.
pub mod Verdict
pub mod Asking
pub mod Credentials
pub mod Policies
use sibyl.Prelude.{
  ℕ, String, Bool, true, false, List, [], ◌∷◌, Option, none, some, Result, ok, err, ◌>>=◌, ◌>>◌,
  fail_if, if◌then◌else◌, ◌==◌, leb, ltb,
}
use sibyl.Prelude.Maps.{GoMap}

-- `(Resp, error)`
pub record Returned (F R : Type 0) : Type 0 where
  pub value : R
  pub error : Option F

pub record AgentContext : Type 0 where
  pub agent_id : String
  pub workflow_id : String
  pub run_id : String
  pub invoked_by : String
  pub extra : GoMap String

abbrev pub Arrow : Type 0 → Type 0 → Type 0 → Type 0
Arrow F Q R = AgentContext → Q → Returned F R

abbrev pub Behavior : Type 0 → Type 0 → Type 0 → Type 0
Behavior F Q R = Arrow F Q R → Arrow F Q R

pub record Agent (F Q R : Type 0) : Type 0 where
  pub id : String
  pub vendors : List String
  pub run : Arrow F Q R

-- A nil function is `none`.
pub record Spec (F Q R : Type 0) : Type 0 where
  pub id : String
  pub vendors : List String
  pub run : Option (Arrow F Q R)
  pub behaviors : List (Option (Behavior F Q R))

pub data RegisterError : Type 0 where
  id_required run_required nil_behavior : RegisterError

module _ {F Q R : Type 0} where
  unfoldable pub compose :
      Arrow F Q R → List (Option (Behavior F Q R)) → Result RegisterError (Arrow F Q R)
  compose run [] = ok run
  compose run (none ∷ bs) = err nil_behavior
  compose run (some b ∷ bs) = compose (b run) bs

  abbrev composed : Spec F Q R → Option (Arrow F Q R) → Result RegisterError (Arrow F Q R)
  composed spec none = err run_required
  composed spec (some run) = compose run spec.behaviors

  unfoldable pub register : Spec F Q R → Result RegisterError (Agent F Q R)
  register spec = do
    fail_if (spec.id == "") id_required
    run ← composed spec spec.run
    ok (record { id = spec.id; vendors = spec.vendors; run = run })

-- `PolicyPredicate`; a nil one is `none`.
abbrev pub PolicyPredicate : Type 0 → Type 0
PolicyPredicate R = AgentContext → R → Bool

unfoldable pub any_of_predicate :
    {R : Type 0} → List (Option (PolicyPredicate R)) → PolicyPredicate R
any_of_predicate [] ctx output = false
any_of_predicate (none ∷ ps) ctx output = any_of_predicate ps ctx output
any_of_predicate (some p ∷ ps) ctx output =
    let rest = any_of_predicate ps ctx output in if p ctx output then true else rest

unfoldable pub all_of_predicate :
    {R : Type 0} → List (Option (PolicyPredicate R)) → PolicyPredicate R
all_of_predicate [] ctx output = true
all_of_predicate (none ∷ ps) ctx output = false
all_of_predicate (some p ∷ ps) ctx output =
    let rest = all_of_predicate ps ctx output in if p ctx output then rest else false

unfoldable pub severity_rank : String → ℕ
severity_rank s =
    if s == "CRITICAL"
    then 5
    else if s == "HIGH"
    then 4
    else if s == "MEDIUM"
    then 3
    else if s == "LOW"
    then 2
    else if s == "INFO"
    then 1
    else 0

unfoldable pub severity_at_least : {R : Type 0} → (R → String) → String → PolicyPredicate R
severity_at_least severity minimum ctx output =
    leb (severity_rank minimum) (severity_rank (severity output))

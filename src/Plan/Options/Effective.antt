-- ===== src/Plan/Options/Effective.antt =====
-- The options that a node of a valid plan is run with: `OptionsFor` of plan/plan.go.
use sibyl.Prelude.{ℕ, suc, ◌≡◌, refl, String, false, ◌||◌, arith, contains, ok, if◌then◌else◌}
use sibyl.Prelude.Int.{ℤ, pos, negsuc, is_zero, is_neg}
use sibyl.Plan.Options.{Options, check, default_options, over}
use sibyl.Plan.Options.Precedence.{contains-over}
use sibyl.Plan.Graph.{Node, Plan, options_for}

positive :
    (a b : ℤ) (d : ℕ)
    → is_neg a ≡ false
    → is_neg b ≡ false
    → (m : ℕ) × ((if is_zero b then (if is_zero a then pos (suc d) else a) else b) ≡ pos (suc m))
positive a (pos (suc n)) d h k = (n, refl)
positive (pos ℕ.zero) (pos ℕ.zero) d h k = (d, refl)
positive (pos (suc m)) (pos ℕ.zero) d h k = (m, refl)
positive (negsuc m) (pos ℕ.zero) d h k = absurd (cc)
positive a (negsuc n) d h k = absurd (cc)

check-eq-ok :
    (o : Options) → check o ≡ ok tt → (is_neg o.timeout ≡ false) × (is_neg o.max_attempts ≡ false)
unfolding check
check-eq-ok o h = ground arith

-- If the options of the plan and of the node pass their check, the node is run with a positive
-- timeout, at least one attempt and not without limit, and is never retried on exactly the error
-- types that the defaults, the plan or the node list.
pub options_for_bounded :
    (p : Plan) (n : Node)
    → check p.defaults ≡ ok tt
    → check n.options ≡ ok tt
    → ((t : ℕ) × ((options_for p n).timeout ≡ pos (suc t)))
      × ((m : ℕ) × ((options_for p n).max_attempts ≡ pos (suc m)))
      × ((t : String)
          → contains (options_for p n).non_retryable t ≡ (
              contains default_options.non_retryable t
              || contains p.defaults.non_retryable t
              || contains n.options.non_retryable t))
unfolding options_for
options_for_bounded p n hp hn =
    let (tp, mp) = check-eq-ok p.defaults hp in
    let (tn, mn) = check-eq-ok n.options hn in
    (
      positive p.defaults.timeout n.options.timeout 179_999_999_999 tp tn,
      positive p.defaults.max_attempts n.options.max_attempts 2 mp mn,
      λ t. ground (
        arith,
        contains-over (over default_options p.defaults) n.options t,
        contains-over default_options p.defaults t,
      ),
    )

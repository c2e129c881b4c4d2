-- ===== src/Plan/Options.antt =====
-- `Options` of plan/plan.go. Durations (int64 nanoseconds) and attempts (int32) are only compared
-- and copied, so they are integers.
pub mod Precedence
pub mod Effective
use sibyl.Prelude.{
  String, Bool, true, false, List, [], ◌∷◌, ◌++◌, Result, ok, err, ◌>>=◌, ◌>>◌, fail_if, contains,
  is_empty, if◌then◌else◌, ◌==◌,
}
use sibyl.Prelude.Int.{ℤ, pos, is_zero, is_neg}

pub record Options : Type 0 where
  pub task_queue : String
  pub timeout : ℤ
  pub heartbeat : ℤ
  pub max_attempts : ℤ
  pub non_retryable : List String

abbrev pub no_options : Options
no_options = record {
  task_queue = "";
  timeout = pos 0;
  heartbeat = pos 0;
  max_attempts = pos 0;
  non_retryable = [];
}

-- 3 * time.Minute, in nanoseconds
abbrev pub default_options : Options
default_options = record {
  task_queue = "";
  timeout = pos 180_000_000_000;
  heartbeat = pos 0;
  max_attempts = pos 3;
  non_retryable = "InvalidInput" ∷ "InvalidPlan" ∷ "ConfigurationError" ∷ [];
}

-- The loop over the two lists, with its `seen` map: the first of equal entries stays.
unfoldable pub dedup : List String → List String → List String
dedup seen [] = []
dedup seen (t ∷ ts) =
    let skipped = dedup seen ts in
    let kept = t ∷ dedup (t ∷ seen) ts in if contains seen t then skipped else kept

abbrev add_types : List String → List String → List String
add_types old [] = old
add_types old (t ∷ ts) = dedup [] (old ++ t ∷ ts)

unfoldable pub over : Options → Options → Options
over o o' = record {
  task_queue = if o'.task_queue == "" then o.task_queue else o'.task_queue;
  timeout = if is_zero o'.timeout then o.timeout else o'.timeout;
  heartbeat = if is_zero o'.heartbeat then o.heartbeat else o'.heartbeat;
  max_attempts = if is_zero o'.max_attempts then o.max_attempts else o'.max_attempts;
  non_retryable = add_types o.non_retryable o'.non_retryable;
}

pub data OptionsError : Type 0 where
  negative_timeout negative_heartbeat negative_max_attempts : ℤ → OptionsError

unfoldable pub check : Options → Result OptionsError (Unit {0})
check o = do
  fail_if (is_neg o.timeout) (negative_timeout o.timeout)
  fail_if (is_neg o.heartbeat) (negative_heartbeat o.heartbeat)
  fail_if (is_neg o.max_attempts) (negative_max_attempts o.max_attempts)
  ok tt

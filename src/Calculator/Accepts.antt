-- ===== src/Calculator/Accepts.antt =====
-- The results of CalculatorTool of agent/tools_builtin.go.
use sibyl.Prelude.{
  ℕ, ◌+◌, ◌*◌, ◌≡◌, ◌∙◌, sym, List, [], ◌∷◌, Result, ok, err, ◌>>=◌, length, is_empty, Bool-cases,
  inl, inr, arith,
}
use mathlib.Core.Path.{subst}
use mathlib.Core.List.{append-nil}
use sibyl.Prelude.Bytes.{trim_space}
use sibyl.Calculator.{
  Floats, CalculatorError, out_of_fuel, skip_spaces, Parsed, parse_expression, finish, calculate,
}
use sibyl.Calculator.Syntax.{Expr, expression, Denotes, value}
use sibyl.Calculator.Readings.{Reads, IsReading, skip_spaces-Reads_after}
use sibyl.Calculator.Sound.{parse_expression-IsReading}

module _ {F : Type 0} (floats : Floats F) (src : List ℕ) where
  -- The result is the value of a tree that the whole text denotes; or an error that is one of the code.
  abbrev pub IsResult : Result CalculatorError F → Type 0
  IsResult (ok v) = (e : Expr) × Denotes expression src e × (value floats e ≡ ok v)
  IsResult (err out_of_fuel) = ⊥
  IsResult (err _) = Unit

  finish-IsResult :
      (v : F) (rest : List ℕ)
      → Reads floats expression src v rest
      → IsResult (finish floats (v, rest))
  finish-IsResult v [] (t, e, same, d, worth) =
      (e, subst (λ x. Denotes expression x e) (sym (same ∙ append-nil t)) d, worth)
  finish-IsResult v (c ∷ rest) r = tt

  parsed-IsResult :
      (r : Parsed F)
      → IsReading floats expression src (length src) r
      → IsResult (r >>= λ (v, rest). finish floats (v, skip_spaces rest))
  parsed-IsResult (ok (v, rest)) h =
      finish-IsResult v (skip_spaces rest)
        (skip_spaces-Reads_after floats expression src v rest h.0)
  parsed-IsResult (err out_of_fuel) h = h
  parsed-IsResult (err _) h = tt

  -- The calculator ends on every text: three times its length and three is fuel enough. A number that
  -- it returns is the value of a tree that the whole text denotes in the grammar, with its precedences
  -- and with operators of one level taken from the left.
  pub calculate-IsResult : IsResult (calculate floats src)
  unfolding calculate
  calculate-IsResult = elim (Bool-cases (is_empty (trim_space src))) [
    | inl blank ↦ rw blank tt
    | inr given ↦ rw given (
        parsed-IsResult (parse_expression floats (3 * length src + 3) src)
          (parse_expression-IsReading floats (3 * length src + 3) src (omega arith)))
  ]

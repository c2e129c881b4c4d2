-- ===== src/Calculator/Sound.antt =====
-- The parser of agent/tools_builtin.go reads what it accepts, and it ends.
use sibyl.Prelude.{ℕ, zero, suc, ◌+◌, ◌*◌, ◌≤◌, List, [], ◌∷◌, length, nat_eq, arith}
use sibyl.Calculator.{
  Floats, skip_spaces, parse_expression, expression_loop, parse_term, term_loop, parse_factor,
}
use sibyl.Calculator.Syntax.{plus, minus, times, over, factor, term, expression}
use sibyl.Calculator.Readings.{
  Reads, IsReading, skip_spaces-Reads_after, length-skip_spaces-le, IsReading-bind, IsReading-mono,
  IsReading-if, parse_number-IsReading,
}
use sibyl.Calculator.Steps.{
  Reads-negated, Reads-term, Reads-expression, spaced-IsReading, Reads-first, kept-IsReading,
  grouped-IsReading, operand-IsReading, Reads-symbol,
}

module _ {F : Type 0} (floats : Floats F) where
  mutual
    unfolding parse_expression expression_loop parse_term term_loop parse_factor

    pub parse_expression-IsReading :
        (f : ℕ) (s : List ℕ)
        → 3 * length s + 3 ≤ f
        → IsReading floats expression s (length s) (parse_expression floats f s)
    parse_expression-IsReading zero s h = absurd (omega arith)
    parse_expression-IsReading (suc f) s h =
        IsReading-bind floats term expression s s (length s) (length s) (parse_term floats f s) _
          (parse_term-IsReading f s (omega arith))
          (λ v rest r n.
            IsReading-mono floats expression s (suc (length (skip_spaces rest))) (length s) _
              (omega (arith, n, length-skip_spaces-le floats rest))
              (expression_loop-IsReading f s v (skip_spaces rest)
                (omega (arith, h, n, length-skip_spaces-le floats rest))
                (skip_spaces-Reads_after floats expression s v rest
                  (Reads-expression floats s rest v r))))

    -- `whole` is what was read before the operand `left` ended, and the rest.
    expression_loop-IsReading :
        (f : ℕ) (whole : List ℕ) (left : F) (s : List ℕ)
        → 3 * length s + 1 ≤ f
        → Reads floats expression whole left s
        → IsReading floats expression whole (suc (length s)) (expression_loop floats f left s)
    expression_loop-IsReading zero whole left s h r = absurd (omega arith)
    expression_loop-IsReading (suc f) whole left [] h r = (r, omega arith)
    expression_loop-IsReading (suc f) whole left (op ∷ s) h r =
        IsReading-if floats expression whole (suc (length (op ∷ s))) (nat_eq op b'+') _ _
          (λ p.
            operand-IsReading floats plus whole s left (parse_term floats f s)
              (expression_loop floats f) (parse_term-IsReading f s (omega arith))
              (Reads-symbol floats plus expression whole s left op p r)
              (λ v rest q n. expression_loop-IsReading f whole v rest (omega arith) q))
          (λ p.
            IsReading-if floats expression whole (suc (length (op ∷ s))) (nat_eq op b'-') _ _
              (λ q.
                operand-IsReading floats minus whole s left (parse_term floats f s)
                  (expression_loop floats f) (parse_term-IsReading f s (omega arith))
                  (Reads-symbol floats minus expression whole s left op q r)
                  (λ v rest q n. expression_loop-IsReading f whole v rest (omega arith) q))
              (λ q. (r, omega arith)))

    parse_term-IsReading :
        (f : ℕ) (s : List ℕ)
        → 3 * length s + 2 ≤ f
        → IsReading floats term s (length s) (parse_term floats f s)
    parse_term-IsReading zero s h = absurd (omega arith)
    parse_term-IsReading (suc f) s h =
        IsReading-bind floats factor term s s (length s) (length s)
          (parse_factor floats f (skip_spaces s)) _
          (spaced-IsReading floats s (parse_factor floats f (skip_spaces s)) (
            parse_factor-IsReading f (skip_spaces s)
              (omega (arith, h, length-skip_spaces-le floats s))))
          (λ v rest r n.
            IsReading-mono floats term s (suc (length (skip_spaces rest))) (length s) _
              (omega (arith, n, length-skip_spaces-le floats rest))
              (term_loop-IsReading f s v (skip_spaces rest)
                (omega (arith, h, n, length-skip_spaces-le floats rest))
                (skip_spaces-Reads_after floats term s v rest (Reads-term floats s rest v r))))

    term_loop-IsReading :
        (f : ℕ) (whole : List ℕ) (left : F) (s : List ℕ)
        → 3 * length s + 1 ≤ f
        → Reads floats term whole left s
        → IsReading floats term whole (suc (length s)) (term_loop floats f left s)
    term_loop-IsReading zero whole left s h r = absurd (omega arith)
    term_loop-IsReading (suc f) whole left [] h r = (r, omega arith)
    term_loop-IsReading (suc f) whole left (op ∷ s) h r =
        IsReading-if floats term whole (suc (length (op ∷ s))) (nat_eq op b'*') _ _
          (λ p.
            operand-IsReading floats times whole s left (parse_factor floats f (skip_spaces s))
              (term_loop floats f)
              (spaced-IsReading floats s (parse_factor floats f (skip_spaces s)) (
                parse_factor-IsReading f (skip_spaces s)
                  (omega (arith, h, length-skip_spaces-le floats s))))
              (Reads-symbol floats times term whole s left op p r)
              (λ v rest q n. term_loop-IsReading f whole v rest (omega arith) q))
          (λ p.
            IsReading-if floats term whole (suc (length (op ∷ s))) (nat_eq op b'/') _ _
              (λ q.
                operand-IsReading floats over whole s left (parse_factor floats f (skip_spaces s))
                  (term_loop floats f)
                  (spaced-IsReading floats s (parse_factor floats f (skip_spaces s)) (
                    parse_factor-IsReading f (skip_spaces s)
                      (omega (arith, h, length-skip_spaces-le floats s))))
                  (Reads-symbol floats over term whole s left op q r)
                  (λ v rest q n. term_loop-IsReading f whole v rest (omega arith) q))
              (λ q. (r, omega arith)))

    parse_factor-IsReading :
        (f : ℕ) (s : List ℕ)
        → 3 * length s + 1 ≤ f
        → IsReading floats factor s (length s) (parse_factor floats f s)
    parse_factor-IsReading zero s h = absurd (omega arith)
    parse_factor-IsReading (suc f) [] h = tt
    parse_factor-IsReading (suc f) (c ∷ s) h =
        IsReading-if floats factor (c ∷ s) (suc (length s)) (nat_eq c b'-') _ _
          (λ p.
            IsReading-bind floats factor factor s (c ∷ s) (length s) (suc (length s))
              (parse_factor floats f (skip_spaces s)) _
              (spaced-IsReading floats s (parse_factor floats f (skip_spaces s)) (
                parse_factor-IsReading f (skip_spaces s)
                  (omega (arith, h, length-skip_spaces-le floats s))))
              (λ v rest r n. (
                Reads-first floats c b'-' s (floats.negate v) rest p
                    (Reads-negated floats s rest v r),
                omega arith,
              )))
          (λ p.
            IsReading-if floats factor (c ∷ s) (suc (length s)) (nat_eq c b'+') _ _
              (λ p. kept-IsReading floats c s (parse_factor floats f (skip_spaces s)) p (
                spaced-IsReading floats s (parse_factor floats f (skip_spaces s)) (
                  parse_factor-IsReading f (skip_spaces s)
                    (omega (arith, h, length-skip_spaces-le floats s)))))
              (λ p.
                IsReading-if floats factor (c ∷ s) (suc (length s)) (nat_eq c b'(') _ _
                  (λ p.
                    grouped-IsReading floats c s (parse_expression floats f s) p
                      (parse_expression-IsReading f s (omega arith)))
                  (λ p. parse_number-IsReading floats (c ∷ s))))

-- ===== src/Examples/CalculatorRuns.antt =====
-- agent/tools_builtin.go: the calculator over numbers without a fraction.
use sibyl.Prelude.{ℕ, ◌+◌, ◌-◌, ◌*◌, ◌≡◌, refl, List, [], ◌∷◌, some, ok, nat_eq}
use sibyl.Prelude.Bytes.{trim_space, trim_right, trim_left, trim_from, cut_first, cut_prefix}
use sibyl.Calculator.{Floats, skip_spaces, digits_of, after_digits, parse_expression, calculate}
use sibyl.Calculator.Accepts.{IsResult, calculate-IsResult}

abbrev decimal_from : ℕ → List ℕ → ℕ
decimal_from n [] = n
decimal_from n (c ∷ s) = decimal_from (10 * n + (c - b'0')) s

abbrev whole_numbers : Floats ℕ
whole_numbers = record {
  add = λ m n. m + n;
  subtract = λ m n. m - n;
  multiply = λ m n. m * n;
  divide = λ m n. m;
  negate = λ n. n;
  is_zero = λ n. nat_eq n 0;
  parse = λ s. some (decimal_from 0 s);
  format = λ n. "";
}

-- "(2 +3)*4"
abbrev product_of_sum : List ℕ
product_of_sum = b'(' ∷ b'2' ∷ b' ' ∷ b'+' ∷ b'3' ∷ b')' ∷ b'*' ∷ b'4' ∷ []

-- "2*3+4"
abbrev sum_of_product : List ℕ
sum_of_product = b'2' ∷ b'*' ∷ b'3' ∷ b'+' ∷ b'4' ∷ []

product_first : calculate whole_numbers sum_of_product ≡ ok 10
unfolding calculate parse_expression skip_spaces digits_of after_digits trim_space trim_right
    trim_left trim_from cut_first cut_prefix
product_first = refl

calculate-IsResult_example : IsResult whole_numbers product_of_sum (ok 20)
unfolding calculate parse_expression skip_spaces digits_of after_digits trim_space trim_right
    trim_left trim_from cut_first cut_prefix
calculate-IsResult_example = calculate-IsResult whole_numbers product_of_sum

-- ===== src/Calculator.antt =====
-- agent/tools_builtin.go: CalculatorTool. A text is its bytes, and what the parser has not read yet
-- stands for its position. float64 with its arithmetic, ParseFloat and FormatFloat is a parameter.
pub mod Syntax
pub mod Readings
pub mod Steps
pub mod Sound
pub mod Accepts
use sibyl.Prelude.{
  ℕ, zero, suc, ◌+◌, ◌*◌, String, Bool, true, false, ◌||◌, List, [], ◌∷◌, ◌++◌, Option, none, some,
  Result, ok, err, ◌>>=◌, ◌>>◌, fail_if, if◌then◌else◌, length, nat_eq, leb, ltb, is_empty, ◌&&◌,
}
use sibyl.Prelude.Bytes.{trim_space}

-- float64, with what strconv does.
pub record Floats (F : Type 0) : Type 0 where
  pub add : F → F → F
  pub subtract : F → F → F
  pub multiply : F → F → F
  pub divide : F → F → F
  pub negate : F → F
  pub is_zero : F → Bool
  pub parse : List ℕ → Option F
  pub format : F → String

-- `expected_number`, `unexpected_input` and `missing_paren` carry what is left, for the position.
-- `out_of_fuel` is not an error of the code.
pub data CalculatorError : Type 0 where
  expression_required unexpected_end division_by_zero out_of_fuel : CalculatorError
  missing_paren expected_number unexpected_input bad_number : List ℕ → CalculatorError

-- `unicode.IsSpace(rune(b))` of a byte
abbrev pub is_space : ℕ → Bool
is_space c = (leb 9 c && leb c 13) || nat_eq c 32 || nat_eq c 133 || nat_eq c 160

unfoldable pub skip_spaces : List ℕ → List ℕ
skip_spaces [] = []
skip_spaces (c ∷ s) = let rest = skip_spaces s in if is_space c then rest else c ∷ s

abbrev pub is_digit : ℕ → Bool
is_digit c = (leb b'0' c && leb c b'9') || nat_eq c b'.'

-- The bytes of the number that a text starts with, and what comes after them.
unfoldable pub digits_of : List ℕ → List ℕ
digits_of [] = []
digits_of (c ∷ s) = let rest = digits_of s in if is_digit c then c ∷ rest else []

unfoldable pub after_digits : List ℕ → List ℕ
after_digits [] = []
after_digits (c ∷ s) = let rest = after_digits s in if is_digit c then rest else c ∷ s

abbrev pub Parsed : Type 0 → Type 0
Parsed F = Result CalculatorError (F × List ℕ)

module _ {F : Type 0} (floats : Floats F) where
  abbrev pub number_or : List ℕ → List ℕ → Option F → Parsed F
  number_or digits rest none = err (bad_number digits)
  number_or digits rest (some v) = ok (v, rest)

  abbrev pub parse_number : List ℕ → Parsed F
  parse_number s =
      if is_empty (digits_of s)
      then err (expected_number s)
      else number_or (digits_of s) (after_digits s) (floats.parse (digits_of s))

  abbrev pub divided : F → F → Result CalculatorError F
  divided left right =
      if floats.is_zero right then err division_by_zero else ok (floats.divide left right)

  -- After an expression in parentheses.
  abbrev pub close_paren : F → List ℕ → Parsed F
  close_paren v [] = err (missing_paren [])
  close_paren v (c ∷ s) = if nat_eq c b')' then ok (v, s) else err (missing_paren (c ∷ s))

  -- A call needs one unit of fuel more than the calls it makes.
  unfoldable mutual
    pub parse_expression : ℕ → List ℕ → Parsed F
    parse_expression zero s = err out_of_fuel
    parse_expression (suc f) s = do
      (left, rest) ← parse_term f s
      expression_loop f left (skip_spaces rest)

    -- The loops have skipped the spaces already.
    pub expression_loop : ℕ → F → List ℕ → Parsed F
    expression_loop zero left s = err out_of_fuel
    expression_loop (suc f) left [] = ok (left, [])
    expression_loop (suc f) left (op ∷ s) =
        let plus = (do
          (right, rest) ← parse_term f s
          expression_loop f (floats.add left right) (skip_spaces rest)) in
        let minus = (do
          (right, rest) ← parse_term f s
          expression_loop f (floats.subtract left right) (skip_spaces rest)) in
        if nat_eq op b'+' then plus else if nat_eq op b'-' then minus else ok (left, op ∷ s)

    pub parse_term : ℕ → List ℕ → Parsed F
    parse_term zero s = err out_of_fuel
    parse_term (suc f) s = do
      (left, rest) ← parse_factor f (skip_spaces s)
      term_loop f left (skip_spaces rest)

    pub term_loop : ℕ → F → List ℕ → Parsed F
    term_loop zero left s = err out_of_fuel
    term_loop (suc f) left [] = ok (left, [])
    term_loop (suc f) left (op ∷ s) =
        let times = (do
          (right, rest) ← parse_factor f (skip_spaces s)
          term_loop f (floats.multiply left right) (skip_spaces rest)) in
        let over = (do
          (right, rest) ← parse_factor f (skip_spaces s)
          quotient ← divided left right
          term_loop f quotient (skip_spaces rest)) in
        if nat_eq op b'*' then times else if nat_eq op b'/' then over else ok (left, op ∷ s)

    -- The spaces before a factor are skipped already.
    pub parse_factor : ℕ → List ℕ → Parsed F
    parse_factor zero s = err out_of_fuel
    parse_factor (suc f) [] = err unexpected_end
    parse_factor (suc f) (c ∷ s) =
        let negated = (do (v, rest) ← parse_factor f (skip_spaces s); ok (floats.negate v, rest)) in
        let kept = parse_factor f (skip_spaces s) in
        let grouped = (do (v, rest) ← parse_expression f s; close_paren v (skip_spaces rest)) in
        if nat_eq c b'-'
        then negated
        else if nat_eq c b'+'
        then kept
        else if nat_eq c b'('
        then grouped
        else parse_number (c ∷ s)

  abbrev pub finish : F × List ℕ → Result CalculatorError F
  finish (v, []) = ok v
  finish (v, c ∷ s) = err (unexpected_input (c ∷ s))

  -- `Run`, before the result is formatted.
  unfoldable pub calculate : List ℕ → Result CalculatorError F
  calculate src = do
    fail_if (is_empty (trim_space src)) expression_required
    (v, rest) ← parse_expression (3 * length src + 3) src
    finish (v, skip_spaces rest)

  -- The text that `Run` returns.
  unfoldable pub run_calculator : List ℕ → Result CalculatorError String
  run_calculator src = do v ← calculate src; ok (floats.format v)

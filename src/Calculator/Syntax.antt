-- ===== src/Calculator/Syntax.antt =====
-- Arithmetic expressions as trees: which text stands for which tree, and what a tree is worth. This
-- is the grammar above `arithParser` of agent/tools_builtin.go, with the unary plus that the parser
-- also takes and the spaces that it skips.
use sibyl.Prelude.{
  ℕ, ◌≡◌, true, false, List, [], ◌∷◌, ◌++◌, Option, none, some, Result, ok, err, ◌>>=◌, is_empty,
  All,
}
use sibyl.Calculator.{Floats, CalculatorError, bad_number, is_space, is_digit, divided}

pub data Operator : Type 0 where
  plus minus times over : Operator

pub data Expr : Type 0 where
  number : List ℕ → Expr
  negated kept grouped : Expr → Expr
  binary : Operator → Expr → Expr → Expr

pub data Level : Type 0 where
  factor term expression : Level

abbrev pub symbol : Operator → ℕ
symbol plus = b'+'
symbol minus = b'-'
symbol times = b'*'
symbol over = b'/'

-- The level of what an operator makes and has on its left, and of what it has on its right.
abbrev pub result_level : Operator → Level
result_level plus = expression
result_level minus = expression
result_level times = term
result_level over = term

abbrev pub right_level : Operator → Level
right_level plus = term
right_level minus = term
right_level times = factor
right_level over = factor

pub data Denotes : Level → List ℕ → Expr → Type 0 where
  is_number :
      (s : List ℕ)
      → is_empty s ≡ false
      → All (λ c. is_digit c ≡ true) s
      → Denotes factor s (number s)
  is_negated : (s : List ℕ) (e : Expr) → Denotes factor s e → Denotes factor (b'-' ∷ s) (negated e)
  is_kept : (s : List ℕ) (e : Expr) → Denotes factor s e → Denotes factor (b'+' ∷ s) (kept e)
  is_grouped :
      (s t : List ℕ) (e : Expr)
      → t ≡ b'(' ∷ (s ++ b')' ∷ [])
      → Denotes expression s e
      → Denotes factor t (grouped e)
  is_term : (s : List ℕ) (e : Expr) → Denotes factor s e → Denotes term s e
  is_expression : (s : List ℕ) (e : Expr) → Denotes term s e → Denotes expression s e
  is_binary :
      (o : Operator) (s t u : List ℕ) (e f : Expr)
      → u ≡ s ++ symbol o ∷ t
      → Denotes (result_level o) s e
      → Denotes (right_level o) t f
      → Denotes (result_level o) u (binary o e f)
  space_before :
      (l : Level) (c : ℕ) (s : List ℕ) (e : Expr)
      → is_space c ≡ true
      → Denotes l s e
      → Denotes l (c ∷ s) e
  space_after :
      (l : Level) (c : ℕ) (s t : List ℕ) (e : Expr)
      → is_space c ≡ true
      → t ≡ s ++ c ∷ []
      → Denotes l s e
      → Denotes l t e

module _ {F : Type 0} (floats : Floats F) where
  abbrev pub apply : Operator → F → F → Result CalculatorError F
  apply plus v w = ok (floats.add v w)
  apply minus v w = ok (floats.subtract v w)
  apply times v w = ok (floats.multiply v w)
  apply over v w = divided floats v w

  abbrev read_number : List ℕ → Option F → Result CalculatorError F
  read_number s none = err (bad_number s)
  read_number s (some v) = ok v

  unfoldable pub value : Expr → Result CalculatorError F
  value (number s) = read_number s (floats.parse s)
  value (negated e) = do v ← value e; ok (floats.negate v)
  value (kept e) = value e
  value (grouped e) = value e
  value (binary o e f) = do v ← value e; w ← value f; apply o v w

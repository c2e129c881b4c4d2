-- ===== src/Calculator/Steps.antt =====
-- What one step of the parser of agent/tools_builtin.go reads, given what the calls in it read.
use sibyl.Prelude.{
  ℕ, suc, ◌<◌, ◌≡◌, refl, ap, true, List, ◌∷◌, ok, err, ◌>>=◌, length, nat_eq, arith, Bool-cases,
  inl, inr,
}
use mathlib.Core.Path.{subst}
use sibyl.Calculator.{Floats, out_of_fuel, skip_spaces, Parsed, close_paren}
use sibyl.Calculator.Syntax.{
  Operator, plus, minus, times, over, negated, kept, Level, factor, term, expression, symbol,
  result_level, right_level, is_negated, is_kept, is_term, is_expression, apply, value,
}
use sibyl.Calculator.Readings.{
  Reads, IsReading, skip_spaces-Reads_before, skip_spaces-Reads_after, length-skip_spaces-le,
  IsReading-bind, IsReading-mono, Reads-binary, close_paren-IsReading,
}

module _ {F : Type 0} (floats : Floats F) where
  pub Reads-negated :
      (s rest : List ℕ) (v : F)
      → Reads floats factor s v rest
      → Reads floats factor (b'-' ∷ s) (floats.negate v) rest
  unfolding value
  Reads-negated s rest v (t, e, same, d, worth) =
      (b'-' ∷ t, negated e, ap (λ x. b'-' ∷ x) same, is_negated t e d, rw worth refl)

  Reads-kept :
      (s rest : List ℕ) (v : F)
      → Reads floats factor s v rest
      → Reads floats factor (b'+' ∷ s) v rest
  unfolding value
  Reads-kept s rest v (t, e, same, d, worth) =
      (b'+' ∷ t, kept e, ap (λ x. b'+' ∷ x) same, is_kept t e d, worth)

  pub Reads-term :
      (s rest : List ℕ) (v : F) → Reads floats factor s v rest → Reads floats term s v rest
  Reads-term s rest v (t, e, same, d, worth) = (t, e, same, is_term t e d, worth)

  pub Reads-expression :
      (s rest : List ℕ) (v : F) → Reads floats term s v rest → Reads floats expression s v rest
  Reads-expression s rest v (t, e, same, d, worth) = (t, e, same, is_expression t e d, worth)

  -- A factor after spaces.
  pub spaced-IsReading :
      (s : List ℕ) (r : Parsed F)
      → IsReading floats factor (skip_spaces s) (length (skip_spaces s)) r
      → IsReading floats factor s (length s) r
  spaced-IsReading s (ok (v, rest)) h = (
    skip_spaces-Reads_before floats factor s v rest h.0,
    omega (arith, h.1, length-skip_spaces-le floats s),
  )
  spaced-IsReading s (err out_of_fuel) h = h
  spaced-IsReading s (err _) h = tt

  pub Reads-first :
      (c d : ℕ) (s : List ℕ) (v : F) (rest : List ℕ)
      → nat_eq c d ≡ true
      → Reads floats factor (d ∷ s) v rest
      → Reads floats factor (c ∷ s) v rest
  Reads-first c d s v rest p r =
      let same : d ≡ c = ground (arith, p) in subst (λ x. Reads floats factor (x ∷ s) v rest) same r

  pub kept-IsReading :
      (c : ℕ) (s : List ℕ) (r : Parsed F)
      → nat_eq c b'+' ≡ true
      → IsReading floats factor s (length s) r
      → IsReading floats factor (c ∷ s) (suc (length s)) r
  kept-IsReading c s (ok (v, rest)) p h =
      (Reads-first c b'+' s v rest p (Reads-kept s rest v h.0), omega (arith, h.1))
  kept-IsReading c s (err out_of_fuel) p h = h
  kept-IsReading c s (err _) p h = tt

  pub grouped-IsReading :
      (c : ℕ) (s : List ℕ) (r : Parsed F)
      → nat_eq c b'(' ≡ true
      → IsReading floats expression s (length s) r
      → IsReading floats factor
          (c ∷ s)
          (suc (length s))
          (r >>= λ (v, rest). close_paren floats v (skip_spaces rest))
  grouped-IsReading c s r p h =
      let same : b'(' ≡ c = ground (arith, p) in
      IsReading-bind floats expression factor s (c ∷ s) (length s) (suc (length s)) r _ h
        (λ v rest q n.
          subst
            (λ x.
              IsReading floats factor (x ∷ s) (suc (length s))
                (close_paren floats v (skip_spaces rest)))
            same
            (close_paren-IsReading floats s v (skip_spaces rest)
              (skip_spaces-Reads_after floats expression s v rest q)
              (omega (arith, n, length-skip_spaces-le floats rest))))

  apply-IsReading :
      (o : Operator) (l : Level) (s : List ℕ) (n : ℕ) (left right : F) (k : F → Parsed F)
      → ((v : F) → apply floats o left right ≡ ok v → IsReading floats l s n (k v))
      → IsReading floats l s n (apply floats o left right >>= k)
  apply-IsReading plus l s n left right k h = h _ refl
  apply-IsReading minus l s n left right k h = h _ refl
  apply-IsReading times l s n left right k h = h _ refl
  apply-IsReading over l s n left right k h = elim (Bool-cases (floats.is_zero right)) [
    | inl none_left ↦ rw none_left tt
    | inr fine ↦ rw fine (h (floats.divide left right) (rw fine refl))
  ]

  -- An operand on the right, and what the loop reads after it.
  pub operand-IsReading :
      (o : Operator) (whole s : List ℕ) (left : F) (r : Parsed F) (later : F → List ℕ → Parsed F)
      → IsReading floats (right_level o) s (length s) r
      → Reads floats (result_level o) whole left (symbol o ∷ s)
      → ((v : F) (rest : List ℕ)
          → Reads floats (result_level o) whole v rest
          → length rest < length s
          → IsReading floats (result_level o) whole (suc (length rest)) (later v rest))
      → IsReading floats
          (result_level o)
          whole
          (suc (suc (length s)))
          (r >>= λ (right, rest). apply floats o left right >>= λ v. later v (skip_spaces rest))
  operand-IsReading o whole s left r later h reads next =
      IsReading-bind floats (right_level o) (result_level o) s whole (length s)
        (suc (suc (length s))) r _ h
        (λ right rest q n. apply-IsReading o (result_level o) whole _ left right _ (λ v worth.
          IsReading-mono floats (result_level o) whole (suc (length (skip_spaces rest))) _ _
            (omega (arith, n, length-skip_spaces-le floats rest))
            (next v (skip_spaces rest)
              (skip_spaces-Reads_after floats (result_level o) whole v rest
                (Reads-binary floats o whole s rest left right v reads q worth))
              (omega (arith, n, length-skip_spaces-le floats rest)))))

  -- The operator that the code tests for.
  pub Reads-symbol :
      (o : Operator) (l : Level) (whole s : List ℕ) (left : F) (op : ℕ)
      → nat_eq op (symbol o) ≡ true
      → Reads floats l whole left (op ∷ s)
      → Reads floats l whole left (symbol o ∷ s)
  Reads-symbol o l whole s left op p r =
      let same : op ≡ symbol o = ground (arith, p) in
      subst (λ x. Reads floats l whole left (x ∷ s)) same r

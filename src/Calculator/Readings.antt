-- ===== src/Calculator/Readings.antt =====
-- What it means that the parser of agent/tools_builtin.go has read a text; its spaces and numbers.
use sibyl.Prelude.{
  ℕ, suc, ◌≤◌, ◌<◌, ◌≡◌, ◌∙◌, refl, sym, ap, Bool, true, false, List, [], ◌∷◌, ◌++◌, Option, none,
  some, ok, err, ◌>>=◌, if◌then◌else◌, length, length-append, nat_eq, is_empty, All, arith,
  Bool-cases, inl, inr,
}
use mathlib.Core.Path.{subst}
use mathlib.Core.List.{append_assoc}
use sibyl.Calculator.{
  Floats, out_of_fuel, is_space, skip_spaces, is_digit, digits_of, after_digits, Parsed, number_or,
  parse_number, close_paren,
}
use sibyl.Calculator.Syntax.{
  Operator, Expr, number, grouped, binary, Level, factor, expression, symbol, result_level,
  right_level, Denotes, is_number, is_grouped, is_binary, space_before, space_after, apply, value,
}

module _ {F : Type 0} (floats : Floats F) where
  -- The text is that of a tree with this value, and the rest.
  abbrev pub Reads : Level → List ℕ → F → List ℕ → Type 0
  Reads l s v rest =
      (t : List ℕ) × (e : Expr) × (s ≡ t ++ rest) × Denotes l t e × (value floats e ≡ ok v)

  -- The parser has not run out of fuel, and what it has read is right.
  abbrev pub IsReading : Level → List ℕ → ℕ → Parsed F → Type 0
  IsReading l s n (ok (v, rest)) = Reads l s v rest × (length rest < n)
  IsReading l s n (err out_of_fuel) = ⊥
  IsReading l s n (err _) = Unit

  pub skip_spaces-Reads_before :
      (l : Level) (s : List ℕ) (v : F) (rest : List ℕ)
      → Reads l (skip_spaces s) v rest
      → Reads l s v rest
  unfolding skip_spaces
  skip_spaces-Reads_before l [] v rest r = r
  skip_spaces-Reads_before l (c ∷ s) v rest r = elim (Bool-cases (is_space c)) [
    | inl space ↦
        let (t, e, same, d, worth) = skip_spaces-Reads_before l s v rest (rw space at r) in
        (c ∷ t, e, ap (λ x. c ∷ x) same, space_before l c t e space d, worth)
    | inr other ↦ rw other at r
  ]

  pub skip_spaces-Reads_after :
      (l : Level) (s : List ℕ) (v : F) (rest : List ℕ)
      → Reads l s v rest
      → Reads l s v (skip_spaces rest)
  unfolding skip_spaces
  skip_spaces-Reads_after l s v [] r = r
  skip_spaces-Reads_after l s v (c ∷ rest) (t, e, same, d, worth) = elim (Bool-cases (is_space c)) [
    | inl space ↦ rw space (
        skip_spaces-Reads_after l s v rest (
          t ++ c ∷ [],
          e,
          same ∙ sym (append_assoc t (c ∷ []) rest),
          space_after l c t (t ++ c ∷ []) e space refl d,
          worth,
        ))
    | inr other ↦ rw other (t, e, same, d, worth)
  ]

  pub length-skip_spaces-le : (s : List ℕ) → length (skip_spaces s) ≤ length s
  unfolding skip_spaces
  length-skip_spaces-le [] = omega arith
  length-skip_spaces-le (c ∷ s) = ground (arith, length-skip_spaces-le s)

  pub IsReading-bind :
      (l m : Level) (s t : List ℕ) (n k : ℕ) (r : Parsed F) (f : F × List ℕ → Parsed F)
      → IsReading l s n r
      → ((v : F) (rest : List ℕ)
          → Reads l s v rest
          → length rest < n
          → IsReading m t k (f (v, rest)))
      → IsReading m t k (r >>= f)
  IsReading-bind l m s t n k (ok (v, rest)) f h next = next v rest h.0 h.1
  IsReading-bind l m s t n k (err out_of_fuel) f h next = h
  IsReading-bind l m s t n k (err _) f h next = tt

  pub IsReading-mono :
      (l : Level) (s : List ℕ) (n k : ℕ) (r : Parsed F)
      → n ≤ k
      → IsReading l s n r
      → IsReading l s k r
  IsReading-mono l s n k (ok (v, rest)) le h = (h.0, omega (arith, le, h.1))
  IsReading-mono l s n k (err out_of_fuel) le h = h
  IsReading-mono l s n k (err _) le h = tt

  pub IsReading-if :
      (l : Level) (s : List ℕ) (n : ℕ) (b : Bool) (x y : Parsed F)
      → (b ≡ true → IsReading l s n x)
      → (b ≡ false → IsReading l s n y)
      → IsReading l s n (if b then x else y)
  IsReading-if l s n true x y h k = h refl
  IsReading-if l s n false x y h k = k refl

  -- An operator between what is read and what comes next.
  pub Reads-binary :
      (o : Operator) (whole s rest : List ℕ) (left right v : F)
      → Reads (result_level o) whole left (symbol o ∷ s)
      → Reads (right_level o) s right rest
      → apply floats o left right ≡ ok v
      → Reads (result_level o) whole v rest
  unfolding value
  Reads-binary o whole s rest left right v (t, e, same, d, worth) (u, e', same', d', worth') h = (
    t ++ symbol o ∷ u,
    binary o e e',
    same ∙ ap (λ x. t ++ symbol o ∷ x) same' ∙ sym (append_assoc t (symbol o ∷ u) rest),
    is_binary o t u (t ++ symbol o ∷ u) e e' refl d d',
    rw (worth, worth') h,
  )

  Reads-grouped :
      (s rest : List ℕ) (v : F)
      → Reads expression s v (b')' ∷ rest)
      → Reads factor (b'(' ∷ s) v rest
  unfolding value
  Reads-grouped s rest v (t, e, same, d, worth) = (
    b'(' ∷ (t ++ b')' ∷ []),
    grouped e,
    ap (λ x. b'(' ∷ x) (same ∙ sym (append_assoc t (b')' ∷ []) rest)),
    is_grouped t (b'(' ∷ (t ++ b')' ∷ [])) e refl d,
    worth,
  )

  pub close_paren-IsReading :
      (s : List ℕ) (v : F) (rest : List ℕ)
      → Reads expression s v rest
      → length rest ≤ length s
      → IsReading factor (b'(' ∷ s) (suc (length s)) (close_paren floats v rest)
  close_paren-IsReading s v [] r n = tt
  close_paren-IsReading s v (c ∷ rest) r n =
      IsReading-if factor (b'(' ∷ s) (suc (length s)) (nat_eq c b')') (ok (v, rest)) _
        (λ p.
          let same : c ≡ b')' = ground (arith, p) in
          (
            Reads-grouped s rest v (subst (λ x. Reads expression s v (x ∷ rest)) same r),
            omega (arith, n),
          ))
        (λ p. tt)

  digits_of-append : (s : List ℕ) → s ≡ digits_of s ++ after_digits s
  unfolding digits_of after_digits
  digits_of-append [] = refl
  digits_of-append (c ∷ s) = elim (Bool-cases (is_digit c)) [
    | inl digit ↦ rw digit (ap (λ x. c ∷ x) (digits_of-append s))
    | inr other ↦ rw other refl
  ]

  All-digits_of : (s : List ℕ) → All (λ c. is_digit c ≡ true) (digits_of s)
  unfolding digits_of
  All-digits_of [] = tt
  All-digits_of (c ∷ s) = elim (Bool-cases (is_digit c)) [
    | inl digit ↦ rw digit (digit, All-digits_of s)
    | inr other ↦ rw other tt
  ]

  read_number-IsReading :
      (s : List ℕ) (o : Option F)
      → floats.parse (digits_of s) ≡ o
      → is_empty (digits_of s) ≡ false
      → length (after_digits s) < length s
      → IsReading factor s (length s) (number_or floats (digits_of s) (after_digits s) o)
  unfolding value
  read_number-IsReading s none p some_digit n = tt
  read_number-IsReading s (some v) p some_digit n = (
    (
      digits_of s,
      number (digits_of s),
      digits_of-append s,
      is_number (digits_of s) some_digit (All-digits_of s),
      rw p refl,
    ),
    n,
  )

  length-pos : (s : List ℕ) → is_empty s ≡ false → 1 ≤ length s
  length-pos [] h = cc
  length-pos (c ∷ s) h = omega arith

  length-after_digits :
      (s : List ℕ) → is_empty (digits_of s) ≡ false → length (after_digits s) < length s
  length-after_digits s some_digit = omega (
    arith,
    ap length (digits_of-append s),
    length-append (digits_of s) (after_digits s),
    length-pos (digits_of s) some_digit,
  )

  pub parse_number-IsReading : (s : List ℕ) → IsReading factor s (length s) (parse_number floats s)
  parse_number-IsReading s = elim (Bool-cases (is_empty (digits_of s))) [
    | inl none_read ↦ rw none_read tt
    | inr some_digit ↦ rw some_digit (
        read_number-IsReading s (floats.parse (digits_of s)) refl some_digit
          (length-after_digits s some_digit))
  ]

-- ===== src/Plan/Options/Precedence.antt =====
-- How layers of options combine: `Over` of plan/plan.go is associative, and types that are never
-- retried are only added.
use sibyl.Prelude.{
  String, ◌≡◌, refl, sym, ap, ◌∙◌, true, inl, inr, ◌&&◌, ◌||◌, not, List, [], ◌∷◌, ◌++◌, contains,
  contains-append, IsNodup, arith, eq_iff, eq_refl, Bool-cases,
}
use mathlib.Core.List.{append_assoc}
use sibyl.Plan.Options.{Options, dedup, add_types, over}

pub contains-dedup :
    (seen xs : List String) (k : String)
    → contains (dedup seen xs) k ≡ (contains xs k && not (contains seen k))
unfolding dedup
contains-dedup seen [] k = refl
contains-dedup seen (x ∷ xs) k =
    ground (arith, contains-dedup seen xs k, contains-dedup (x ∷ seen) xs k, eq_iff x k)

-- Only the elements of the set `seen` matter.
dedup_ext :
    (s t xs : List String) → ((k : String) → contains s k ≡ contains t k) → dedup s xs ≡ dedup t xs
unfolding dedup
dedup_ext s t [] h = refl
dedup_ext s t (x ∷ xs) h =
    ground (arith, h x, dedup_ext s t xs h, dedup_ext (x ∷ s) (x ∷ t) xs (λ k. ground (arith, h k)))

-- Adding a string that is there, or adding it further down, changes nothing.
dedup_again :
    (s t : List String) (x : String) (xs : List String)
    → contains (s ++ t) x ≡ true
    → dedup (s ++ x ∷ t) xs ≡ dedup (s ++ t) xs
dedup_again s t x xs h = dedup_ext (s ++ x ∷ t) (s ++ t) xs λ k.
    ground
      (arith, contains-append s (x ∷ t) k, contains-append s t k, contains-append s t x, eq_iff x k)

dedup_middle :
    (s t : List String) (x : String) (xs : List String)
    → dedup (s ++ x ∷ t) xs ≡ dedup (x ∷ s ++ t) xs
dedup_middle s t x xs =
    dedup_ext (s ++ x ∷ t) (x ∷ s ++ t) xs
      λ k. ground (arith, contains-append s (x ∷ t) k, contains-append s t k)

dedup-append : (s xs ys : List String) → dedup s (xs ++ ys) ≡ dedup s xs ++ dedup (xs ++ s) ys
unfolding dedup
dedup-append s [] ys = refl
dedup-append s (x ∷ xs) ys = elim (Bool-cases (contains s x)) [
  | inl old ↦
      ground (arith, dedup-append s xs ys, contains-append xs s x, dedup_again [] (xs ++ s) x ys)
  | inr new ↦ ground (arith, dedup-append (x ∷ s) xs ys, dedup_middle xs s x ys)
]

dedup-dedup : (s t xs : List String) → dedup s (dedup t xs) ≡ dedup (t ++ s) xs
unfolding dedup
dedup-dedup s t [] = refl
dedup-dedup s t (x ∷ xs) = ground (
  arith,
  contains-append t s x,
  dedup-dedup s t xs,
  dedup-dedup s (x ∷ t) xs,
  dedup-dedup (x ∷ s) (x ∷ t) xs,
  eq_refl x,
  dedup_again (x ∷ t) s x xs,
  dedup_again [] (t ++ s) x xs,
)

-- Removing the repetitions of a part first changes nothing.
dedup-append_left : (xs ys : List String) → dedup [] (dedup [] xs ++ ys) ≡ dedup [] (xs ++ ys)
dedup-append_left xs ys =
    rw (dedup-append [] (dedup [] xs) ys, dedup-append [] xs ys, dedup-dedup [] [] xs, same)
  where
    same : dedup (dedup [] xs ++ []) ys ≡ dedup (xs ++ []) ys
    same = dedup_ext (dedup [] xs ++ []) (xs ++ []) ys λ k.
        ground (
          arith,
          contains-append (dedup [] xs) [] k,
          contains-append xs [] k,
          contains-dedup [] xs k,
        )

dedup-append_right : (xs ys : List String) → dedup [] (xs ++ dedup [] ys) ≡ dedup [] (xs ++ ys)
dedup-append_right xs ys =
    rw (dedup-append [] xs (dedup [] ys), dedup-append [] xs ys, dedup-dedup (xs ++ []) [] ys)

add_types_assoc : (a b c : List String) → add_types (add_types a b) c ≡ add_types a (add_types b c)
unfolding dedup
add_types_assoc a b [] = refl
add_types_assoc a [] (z ∷ c) = sym (dedup-append_right a (z ∷ c))
add_types_assoc a (y ∷ b) (z ∷ c) =
    dedup-append_left (a ++ y ∷ b) (z ∷ c)
    ∙ ap (dedup []) (append_assoc a (y ∷ b) (z ∷ c))
    ∙ sym (dedup-append_right a (y ∷ b ++ z ∷ c))

contains-add_types :
    (old new : List String) (t : String)
    → contains (add_types old new) t ≡ (contains old t || contains new t)
contains-add_types old [] t = ground arith
contains-add_types old (x ∷ new) t =
    ground (arith, contains-dedup [] (old ++ x ∷ new) t, contains-append old (x ∷ new) t)

-- Three layers of options combine the same way in either order of combination.
pub over_assoc : (a b c : Options) → over (over a b) c ≡ over a (over b c)
unfolding over
over_assoc a b c = ground (arith, add_types_assoc a.non_retryable b.non_retryable c.non_retryable)

pub IsNodup-dedup : (s xs : List String) → IsNodup (dedup s xs)
unfolding dedup
IsNodup-dedup s [] = tt
IsNodup-dedup s (x ∷ xs) =
    ground
      (arith, IsNodup-dedup s xs, IsNodup-dedup (x ∷ s) xs, contains-dedup (x ∷ s) xs x, eq_iff x x)

-- A type that some layer marks as never worth a retry stays so, and no other type is.
pub contains-over :
    (o o' : Options) (t : String)
    → contains (over o o').non_retryable t
      ≡ (contains o.non_retryable t || contains o'.non_retryable t)
unfolding over
contains-over o o' t = contains-add_types o.non_retryable o'.non_retryable t

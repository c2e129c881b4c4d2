-- ===== src/Plan/Layers/Counts.antt =====
-- Counting in a list of requirements, and in the partition of a list by a test.
use sibyl.Prelude.{
  ◌+◌, ◌≡◌, refl, String, Bool, true, false, not, ◌&&◌, ◌||◌, List, [], ◌∷◌, arith, contains, count,
  keep, length, All, eq_iff,
}

-- How many of the requirements are not done.
abbrev pub pending : List String → List String → List String
pending done xs = keep (λ x. not (contains done x)) xs

pub length-pending-cons :
    (done : List String) (id : String) (xs : List String)
    → contains done id ≡ false
    → length (pending (id ∷ done) xs) + count id xs ≡ length (pending done xs)
length-pending-cons done id [] h = omega arith
length-pending-cons done id (x ∷ xs) h =
    ground (arith, length-pending-cons done id xs h, eq_iff x id, eq_iff id x)

pub length-pending-nil : (xs : List String) → length (pending [] xs) ≡ length xs
length-pending-nil [] = refl
length-pending-nil (x ∷ xs) = omega (arith, length-pending-nil xs)

pub pending-eq-nil :
    (done xs : List String) → length (pending done xs) ≡ 0 → All (λ x. contains done x ≡ true) xs
pending-eq-nil done [] h = tt
pending-eq-nil done (x ∷ xs) h = ground (arith, pending-eq-nil done xs)

pub pending_of_done :
    (done xs : List String) → All (λ x. contains done x ≡ true) xs → length (pending done xs) ≡ 0
pending_of_done done [] h = refl
pending_of_done done (x ∷ xs) h = ground (arith, pending_of_done done xs h.1)

-- Where `p` is what `q` and `r` make together and they do not meet.
module _ (p q r : String → Bool) where
  abbrev pub Splits : String → Type 0
  Splits x = (p x ≡ (q x || r x)) × ((q x && r x) ≡ false)

  pub length-keep_split :
      (xs : List String)
      → All Splits xs
      → length (keep p xs) ≡ length (keep q xs) + length (keep r xs)
  length-keep_split [] h = omega arith
  length-keep_split (x ∷ xs) h = ground (arith, length-keep_split xs h.1)

  pub count-keep_split :
      (k : String) (xs : List String)
      → All Splits xs
      → count k (keep p xs) ≡ count k (keep q xs) + count k (keep r xs)
  count-keep_split k [] h = omega arith
  count-keep_split k (x ∷ xs) h = ground (arith, count-keep_split k xs h.1)

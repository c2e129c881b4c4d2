-- ===== src/Prelude/Sorting.antt =====
-- `sort.Slice` and `sort.Strings` on strings: insertion sort by Go's `<`, which compares bytes. On
-- valid UTF-8 that is the order of the code points, in which `compare` walks the text.
use sibyl.Prelude.Tests.{if◌then◌else◌}
use sibyl.Prelude.Keys.{contains, count, IsNodup, IsNodup-of_count, count-le-one}
use sibyl.Prelude.Lists.{length}
use Prim.Native.Nat.{suc, Ordering}
use Prim.Native.String.{String, compare}
use mathlib.Core.Path.{◌≡◌, refl}
use mathlib.Core.Bool.{Bool, true, false, ◌||◌}
use mathlib.Core.List.{List, [], ◌∷◌}
use native.Mathlib.Omega.{arith}
use text.Mathlib.Text.{◌==◌}

-- a <= b
abbrev pub str_le : String → String → Bool
str_le a b = elim (compare a b) [ Ordering.gt ↦ false | _ ↦ true ]

unfoldable pub insert_sorted : String → List String → List String
insert_sorted a [] = a ∷ []
insert_sorted a (x ∷ xs) = if str_le a x then a ∷ x ∷ xs else x ∷ insert_sorted a xs

unfoldable pub sort : List String → List String
unfolding insert_sorted
sort [] = []
sort (x ∷ xs) = insert_sorted x (sort xs)

length-insert_sorted :
    (a : String) (xs : List String) → length (insert_sorted a xs) ≡ suc (length xs)
unfolding insert_sorted
length-insert_sorted a [] = refl
length-insert_sorted a (x ∷ xs) = ground (arith, length-insert_sorted a xs)

pub length-sort : (xs : List String) → length (sort xs) ≡ length xs
unfolding sort
length-sort [] = refl
length-sort (x ∷ xs) = omega (arith, length-insert_sorted x (sort xs), length-sort xs)

count-insert_sorted :
    (k a : String) (xs : List String) → count k (insert_sorted a xs) ≡ count k (a ∷ xs)
unfolding insert_sorted
count-insert_sorted k a [] = refl
count-insert_sorted k a (x ∷ xs) = ground (arith, count-insert_sorted k a xs)

pub count-sort : (k : String) (xs : List String) → count k (sort xs) ≡ count k xs
unfolding sort
count-sort k [] = refl
count-sort k (x ∷ xs) = ground (arith, count-insert_sorted k x (sort xs), count-sort k xs)

contains-insert_sorted :
    (a : String) (xs : List String) (k : String)
    → contains (insert_sorted a xs) k ≡ (a == k || contains xs k)
unfolding insert_sorted
contains-insert_sorted a [] k = refl
contains-insert_sorted a (x ∷ xs) k = ground (arith, contains-insert_sorted a xs k)

pub contains-sort : (xs : List String) (k : String) → contains (sort xs) k ≡ contains xs k
unfolding sort
contains-sort [] k = refl
contains-sort (x ∷ xs) k = ground (arith, contains-insert_sorted x (sort xs) k, contains-sort xs k)

pub IsNodup-sort : (xs : List String) → IsNodup xs → IsNodup (sort xs)
IsNodup-sort xs u =
    IsNodup-of_count (sort xs) (λ k. omega (arith, count-sort k xs, count-le-one xs k u))

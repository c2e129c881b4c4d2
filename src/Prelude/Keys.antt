-- ===== src/Prelude/Keys.antt =====
-- Lists of strings as sets and as multisets: membership and number of occurrences as functions.
use Prim.Native.Nat.{ℕ, suc, ◌+◌, ◌<◌, ◌≤◌}
use Prim.Native.String.{String}
use mathlib.Core.Path.{◌≡◌, refl}
use mathlib.Core.Logic.{◌↔◌}
use mathlib.Core.Bool.{Bool, true, false, ◌||◌, ◌&&◌}
use mathlib.Core.List.{List, [], ◌∷◌, ◌++◌}
use native.Mathlib.Omega.{arith}
use text.Mathlib.Text.{◌==◌}
use text.Mathlib.TextEquality.{eq_iff}
use text.Mathlib.TextPositions.{eq_refl}
use sibyl.Prelude.Tests.{if◌then◌else◌}
use sibyl.Prelude.Lists.{keep, All}

abbrev pub contains : List String → String → Bool
contains [] k = false
contains (x ∷ xs) k = x == k || contains xs k

abbrev pub count : String → List String → ℕ
count k [] = 0
count k (x ∷ xs) = let rest = count k xs in if x == k then suc rest else rest

abbrev pub one_if : Bool → ℕ
one_if true = 1
one_if false = 0

-- No string occurs twice.
abbrev pub IsNodup : List String → Type 0
IsNodup [] = Unit
IsNodup (x ∷ xs) = (contains xs x ≡ false) × IsNodup xs

pub count-append : (k : String) (xs ys : List String) → count k (xs ++ ys) ≡ count k xs + count k ys
count-append k [] ys = omega arith
count-append k (x ∷ xs) ys = ground (arith, count-append k xs ys)

pub contains-append :
    (xs ys : List String) (k : String) → contains (xs ++ ys) k ≡ (contains xs k || contains ys k)
contains-append [] ys k = refl
contains-append (x ∷ xs) ys k = ground (arith, contains-append xs ys k)

pub contains-eq-count_pos :
    (xs : List String) (k : String) → (contains xs k ≡ true) ↔ (0 < count k xs)
contains-eq-count_pos [] k = ground arith
contains-eq-count_pos (x ∷ xs) k = ground (arith, contains-eq-count_pos xs k)

pub contains-keep :
    (p : String → Bool) (xs : List String) (k : String)
    → contains (keep p xs) k ≡ (contains xs k && p k)
contains-keep p [] k = refl
contains-keep p (x ∷ xs) k = ground (arith, contains-keep p xs k, eq_iff x k)

pub All-get :
    (P : String → Type 0) (xs : List String) (k : String) → contains xs k ≡ true → All P xs → P k
All-get P [] k m h = cc
All-get P (x ∷ xs) k m h = ground (arith, All-get P xs k, eq_iff x k)

pub IsNodup-keep : (p : String → Bool) (xs : List String) → IsNodup xs → IsNodup (keep p xs)
IsNodup-keep p [] u = tt
IsNodup-keep p (x ∷ xs) u = ground (arith, IsNodup-keep p xs u.1, contains-keep p xs x)

pub IsNodup-of_count : (xs : List String) → ((k : String) → count k xs ≤ 1) → IsNodup xs
IsNodup-of_count [] h = tt
IsNodup-of_count (x ∷ xs) h = (
  ground (arith, h x, contains-eq-count_pos xs x, eq_refl x),
  IsNodup-of_count xs (λ k. ground (arith, h k)),
)

pub count-le-one : (xs : List String) (k : String) → IsNodup xs → count k xs ≤ 1
count-le-one [] k u = omega arith
count-le-one (x ∷ xs) k u =
    ground (arith, count-le-one xs k u.1, contains-eq-count_pos xs k, eq_iff x k)

pub All-of_contains :
    (P : String → Type 0) (xs : List String)
    → ((k : String) → contains xs k ≡ true → P k)
    → All P xs
All-of_contains P [] h = tt
All-of_contains P (x ∷ xs) h =
    (h x (ground (arith, eq_refl x)), All-of_contains P xs (λ k m. h k (ground arith)))

pub IsNodup-append_left : (xs ys : List String) → IsNodup (xs ++ ys) → IsNodup xs
IsNodup-append_left [] ys u = tt
IsNodup-append_left (x ∷ xs) ys u =
    (ground (arith, contains-append xs ys x, u.0), IsNodup-append_left xs ys u.1)

pub IsNodup-append_right : (xs ys : List String) → IsNodup (xs ++ ys) → IsNodup ys
IsNodup-append_right [] ys u = u
IsNodup-append_right (x ∷ xs) ys u = IsNodup-append_right xs ys u.1

pub IsNodup-append_apart :
    (xs ys : List String) (k : String)
    → IsNodup (xs ++ ys)
    → contains xs k ≡ true
    → contains ys k ≡ false
IsNodup-append_apart [] ys k u m = cc
IsNodup-append_apart (x ∷ xs) ys k u m =
    ground (arith, IsNodup-append_apart xs ys k u.1, contains-append xs ys x, u.0, eq_iff x k)

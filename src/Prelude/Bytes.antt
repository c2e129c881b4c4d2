-- ===== src/Prelude/Bytes.antt =====
-- Texts as lists of bytes in UTF-8, and what package strings does with them.
use sibyl.Prelude.Tests.{leb, nat_eq, if◌then◌else◌}
use sibyl.Prelude.Lists.{length, length-append}
use Prim.Native.Nat.{ℕ, zero, suc, ◌≤◌}
use mathlib.Core.Path.{◌≡◌, refl, sym}
use native.Mathlib.Omega.{arith}
use mathlib.Core.Bool.{Bool, true, false, true≢false, ◌&&◌, ◌||◌}
use mathlib.Core.List.{List, [], ◌∷◌, ◌++◌, reverse, map}
use mathlib.Core.Option
use mathlib.Core.Option.{Option, none, some}

-- What is left of a text after a prefix.
unfoldable pub cut_prefix : List ℕ → List ℕ → Option (List ℕ)
cut_prefix [] s = some s
cut_prefix (p ∷ ps) [] = none
cut_prefix (p ∷ ps) (c ∷ s) = let rest = cut_prefix ps s in if nat_eq p c then rest else none

-- `==` on texts
abbrev pub same_bytes : List ℕ → List ℕ → Bool
same_bytes [] [] = true
same_bytes [] (c ∷ s) = false
same_bytes (b ∷ t) [] = false
same_bytes (b ∷ t) (c ∷ s) = let rest = same_bytes t s in if nat_eq b c then rest else false

abbrev pub is_found : Option (List ℕ) → Bool
is_found none = false
is_found (some rest) = true

abbrev pub is_prefix : List ℕ → List ℕ → Bool
is_prefix p s = is_found (cut_prefix p s)

pub cut_prefix_sound : (p s rest : List ℕ) → cut_prefix p s ≡ some rest → s ≡ p ++ rest
unfolding cut_prefix
cut_prefix_sound [] s rest h = cc
cut_prefix_sound (b ∷ p) [] rest h = cc
cut_prefix_sound (b ∷ p) (c ∷ s) rest h = grind (arith, cut_prefix_sound p s rest)

pub cut_prefix-append : (p rest : List ℕ) → cut_prefix p (p ++ rest) ≡ some rest
unfolding cut_prefix
cut_prefix-append [] rest = refl
cut_prefix-append (b ∷ p) rest = ground (arith, cut_prefix-append p rest)

length-found :
    (p s : List ℕ) (o : Option (List ℕ))
    → cut_prefix p s ≡ o
    → is_found o ≡ true
    → length p ≤ length s
length-found p s none h found = absurd (true≢false (sym found))
length-found p s (some rest) h found =
    rw (cut_prefix_sound p s rest h) (omega (arith, length-append p rest))

pub length-is_prefix : (p s : List ℕ) → is_prefix p s ≡ true → length p ≤ length s
length-is_prefix p s h = length-found p s (cut_prefix p s) refl h

-- strings.Index
unfoldable pub index : List ℕ → List ℕ → Option ℕ
index sep [] = if is_prefix sep [] then some 0 else none
index sep (c ∷ s) =
    let later = index sep s in if is_prefix sep (c ∷ s) then some 0 else Option.map suc later

-- The bytes of the white space of Unicode that is more than one byte long: U+0085, U+00A0, U+1680,
-- U+2000 to U+200A, U+2028, U+2029, U+202F, U+205F and U+3000.
abbrev long_spaces : List (List ℕ)
long_spaces =
    (194 ∷ 133 ∷ [])
      ∷ (194 ∷ 160 ∷ [])
      ∷ (225 ∷ 154 ∷ 128 ∷ [])
      ∷ map (λ b. 226 ∷ 128 ∷ b ∷ [])
          (128 ∷ 129 ∷ 130 ∷ 131 ∷ 132 ∷ 133 ∷ 134 ∷ 135 ∷ 136 ∷ 137 ∷ 138 ∷ 168 ∷ 169 ∷ 175 ∷ [])
    ++ (226 ∷ 129 ∷ 159 ∷ []) ∷ (227 ∷ 128 ∷ 128 ∷ []) ∷ []

unfoldable pub cut_first : List (List ℕ) → List ℕ → Option (List ℕ)
cut_first [] s = none
cut_first (p ∷ ps) s = elim (cut_prefix p s) [ none ↦ cut_first ps s | some rest ↦ some rest ]

abbrev pub is_ascii_space : ℕ → Bool
is_ascii_space c = (leb 9 c && leb c 13) || nat_eq c 32

-- One space less, if the text starts with one.
abbrev pub cut_space : List (List ℕ) → List ℕ → Option (List ℕ)
cut_space spaces [] = none
cut_space spaces (c ∷ s) = if is_ascii_space c then some s else cut_first spaces (c ∷ s)

-- The length of the text is enough fuel, since a space is at least a byte.
unfoldable pub trim_from : List (List ℕ) → ℕ → List ℕ → List ℕ
trim_from spaces zero s = s
trim_from spaces (suc f) s = elim (cut_space spaces s) [
  | none ↦ s
  | some rest ↦ trim_from spaces f rest
]

unfoldable pub trim_left : List ℕ → List ℕ
trim_left s = trim_from long_spaces (length s) s

unfoldable pub trim_right : List ℕ → List ℕ
trim_right s = reverse (trim_from (map reverse long_spaces) (length s) (reverse s))

-- strings.TrimSpace
unfoldable pub trim_space : List ℕ → List ℕ
trim_space s = trim_right (trim_left s)

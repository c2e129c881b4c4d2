-- ===== src/Prelude/Texts.antt =====
-- `+` and `strings.Join` on Go's strings.
pub mod Joining
use Prim.Native.Nat.{ℕ, zero, suc, ◌/◌, ◌%◌}
use sibyl.Prelude.Tests.{ltb, leb, nat_eq, if◌then◌else◌}
use Prim.Native.Char.{Char, code}
use mathlib.Core.Bool.{Bool, ◌&&◌, ◌||◌}
use text.Mathlib.Text.{◌==◌}
use Prim.Native.String
use Prim.Native.String.{String}
use mathlib.Core.List.{List, [], ◌∷◌}

abbrev pub joined : String → String → String
joined a b = String.◌++◌ a b

unfoldable pub join : String → List String → String
join sep [] = ""
join sep (x ∷ []) = x
join sep (x ∷ y ∷ xs) = joined x (joined sep (join sep (y ∷ xs)))

-- `%d` of a number that is not negative, by its digits.
abbrev digit : ℕ → String
digit zero = "0"
digit (suc zero) = "1"
digit (suc (suc zero)) = "2"
digit (suc (suc (suc zero))) = "3"
digit (suc (suc (suc (suc zero)))) = "4"
digit (suc (suc (suc (suc (suc zero))))) = "5"
digit (suc (suc (suc (suc (suc (suc zero)))))) = "6"
digit (suc (suc (suc (suc (suc (suc (suc zero))))))) = "7"
digit (suc (suc (suc (suc (suc (suc (suc (suc zero)))))))) = "8"
digit _ = "9"

digits_from : ℕ → ℕ → String
digits_from zero n = digit (n % 10)
digits_from (suc fuel) n =
    let more = joined (digits_from fuel (n / 10)) (digit (n % 10)) in
    if ltb n 10 then digit n else more

unfoldable pub decimal : ℕ → String
unfolding digits_from
decimal n = digits_from n n

-- strings.TrimLeftFunc and strings.TrimRightFunc
unfoldable pub trim_left_where : (Char → Bool) → String → String
trim_left_where cut String.[] = ""
trim_left_where cut (String.◌∷◌ c s) =
    let rest = trim_left_where cut s in if cut c then rest else String.◌∷◌ c s

unfoldable pub trim_right_where : (Char → Bool) → String → String
trim_right_where cut String.[] = ""
trim_right_where cut (String.◌∷◌ c s) =
    let rest = trim_right_where cut s in if cut c && (rest == "") then "" else String.◌∷◌ c rest

-- `strings.TrimRight` with one character as the cut set.
abbrev pub trim_right_char : Char → String → String
trim_right_char k = trim_right_where (λ c. nat_eq (code c) (code k))

-- unicode.IsSpace
abbrev pub is_white_space : Char → Bool
is_white_space c =
    let n = code c in
    (leb 9 n && leb n 13)
    || nat_eq n 32
    || nat_eq n 133
    || nat_eq n 160
    || nat_eq n 5760
    || (leb 8192 n && leb n 8202)
    || nat_eq n 8232
    || nat_eq n 8233
    || nat_eq n 8239
    || nat_eq n 8287
    || nat_eq n 12288

-- strings.TrimSpace
abbrev pub trim_white : String → String
trim_white s = trim_right_where is_white_space (trim_left_where is_white_space s)

-- ===== src/OAuth/Fields.antt =====
-- auth/oauth/providers/okta/okta.go: stringField, numberField and the expiry that a reply gives. `N` is
-- Go's float64, and `O` what else Go's `any` may hold.
use sibyl.Prelude.{ℕ, ◌+◌, ◌-◌, ◌*◌, ◌%◌, String, Option, none, some, if◌then◌else◌, ltb, nat_eq}
use sibyl.Prelude.Int.{ℤ, pos, negsuc}
use sibyl.Prelude.Maps.{GoMap, get}

-- A decoded JSON value, by the cases of the type switches.
pub data AnyValue (N O : Type 0) : Type 0 where
  string : String → AnyValue N O
  float64 : N → AnyValue N O
  int : ℤ → AnyValue N O
  other : O → AnyValue N O

abbrev pub number_or_zero : Option ℤ → ℤ
number_or_zero none = pos 0
number_or_zero (some n) = n

module _ {N O : Type 0} where
  -- v.(string), with the zero value where it is something else
  abbrev pub text_of : Option (AnyValue N O) → String
  text_of none = ""
  text_of (some (string s)) = s
  text_of (some (float64 n)) = ""
  text_of (some (int n)) = ""
  text_of (some (other o)) = ""

  abbrev pub string_field : GoMap (AnyValue N O) → String → String
  string_field m key = text_of (get m key)

  -- `truncate` is the conversion of a float64 to an int, and `atoi` is strconv.Atoi.
  module _ (truncate : N → ℤ) (atoi : String → Option ℤ) where
    abbrev pub number_of : Option (AnyValue N O) → ℤ
    number_of none = pos 0
    number_of (some (string s)) = number_or_zero (atoi s)
    number_of (some (float64 n)) = truncate n
    number_of (some (int n)) = n
    number_of (some (other o)) = pos 0

    abbrev pub number_field : GoMap (AnyValue N O) → String → ℤ
    number_field m key = number_of (get m key)

-- now.Add(d) for the bits of an int64; the upper half are the negative durations
abbrev pub add_duration : ℕ → ℕ → ℕ
add_duration now d = if ltb d 9223372036854775808 then now + d else now - (18446744073709551616 - d)

-- The product wraps around as an int64; the zero time where the reply has no positive number.
abbrev pub expiry_after : ℕ → ℤ → ℕ
expiry_after now (pos n) =
    if nat_eq n 0 then 0 else add_duration now (n * 1000000000 % 18446744073709551616)
expiry_after now (negsuc n) = 0

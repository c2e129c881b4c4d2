-- ===== src/Supervisor/Split.antt =====
-- agent/decompose.go: splitHeuristic and splitCaseInsensitive, on the bytes of a question. `lower` is
-- strings.ToLower.
use sibyl.Prelude.{
  ℕ, zero, suc, ◌+◌, ◌-◌, ◌||◌, List, [], ◌∷◌, ◌++◌, map, Option, none, some, Result, ok, err,
  ◌>>=◌, if◌then◌else◌, nat_eq, leb, ltb, length, take, drop, keep, is_empty, not,
}
use sibyl.Prelude.Bytes.{index, trim_space}

-- `slice_out_of_range` is a panic; `out_of_fuel` is not an outcome of the code.
pub data SplitError : Type 0 where
  slice_out_of_range out_of_fuel : SplitError

abbrev pub slice_from : List ℕ → ℕ → Result SplitError (List ℕ)
slice_from s i = if ltb (length s) i then err slice_out_of_range else ok (drop i s)

abbrev pub slice : List ℕ → ℕ → ℕ → Result SplitError (List ℕ)
slice s i j =
    if ltb j i || ltb (length s) j then err slice_out_of_range else ok (take (j - i) (drop i s))

-- The loop, for a text, its lower case, and the separator with its lower case. `more` goes on from a
-- position.
module _ (s lower_s sep lower_sep : List ℕ) where
  abbrev pub split_at :
      (ℕ → Result SplitError (List (List ℕ))) → ℕ → Option ℕ → Result SplitError (List (List ℕ))
  split_at more start none = do last ← slice_from s start; ok (last ∷ [])
  split_at more start (some idx) = do
    piece ← slice s start (start + idx)
    pieces ← more (start + (idx + length sep))
    ok (piece ∷ pieces)

  unfoldable pub split_loop : ℕ → ℕ → Result SplitError (List (List ℕ))
  split_loop zero start = err out_of_fuel
  split_loop (suc f) start = do
    rest ← slice_from lower_s start
    split_at (split_loop f) start (index lower_sep rest)

-- strings.Split around one byte
abbrev pub grow : ℕ → List (List ℕ) → List (List ℕ)
grow c [] = (c ∷ []) ∷ []
grow c (p ∷ ps) = (c ∷ p) ∷ ps

unfoldable pub split_byte : ℕ → List ℕ → List (List ℕ)
split_byte b [] = [] ∷ []
split_byte b (c ∷ s) = let more = split_byte b s in if nat_eq c b then [] ∷ more else grow c more

abbrev pub count_byte : ℕ → List ℕ → ℕ
count_byte b [] = 0
count_byte b (c ∷ s) = let more = count_byte b s in if nat_eq c b then suc more else more

-- The pieces without the space around them, and without those that are only space.
abbrev pub trimmed : List (List ℕ) → List (List ℕ)
trimmed pieces = keep (λ p. not (is_empty p)) (map trim_space pieces)

abbrev pub with_question_mark : List ℕ → List ℕ
with_question_mark p = p ++ b'?' ∷ []

abbrev pub questions : List ℕ → List (List ℕ)
questions text = map with_question_mark (trimmed (split_byte b'?' text))

-- "; ", " versus ", " compared to ", " vs. ", " vs ", " and "
abbrev pub splitters : List (List ℕ)
splitters =
    (b';' ∷ b' ' ∷ [])
    ∷ (b' ' ∷ b'v' ∷ b'e' ∷ b'r' ∷ b's' ∷ b'u' ∷ b's' ∷ b' ' ∷ [])
    ∷ (b' ' ∷ b'c' ∷ b'o' ∷ b'm' ∷ b'p' ∷ b'a' ∷ b'r' ∷ b'e' ∷ b'd' ∷ b' ' ∷ b't' ∷ b'o' ∷ b' '
        ∷ [])
    ∷ (b' ' ∷ b'v' ∷ b's' ∷ b'.' ∷ b' ' ∷ [])
    ∷ (b' ' ∷ b'v' ∷ b's' ∷ b' ' ∷ [])
    ∷ (b' ' ∷ b'a' ∷ b'n' ∷ b'd' ∷ b' ' ∷ [])
    ∷ []

module _ (lower : List ℕ → List ℕ) where
  -- A round of the loop passes at least the separator, which is not empty: the length of the text and
  -- one is fuel enough.
  unfoldable pub split_case_insensitive : List ℕ → List ℕ → Result SplitError (List (List ℕ))
  split_case_insensitive s sep =
      if is_empty sep
      then ok (s ∷ [])
      else split_loop s (lower s) sep (lower sep) (suc (length s)) 0

  abbrev pub enough_or :
      Result SplitError (List (List ℕ)) → List (List ℕ) → Result SplitError (List (List ℕ))
  enough_or rest out = if leb 2 (length out) then ok out else rest

  abbrev pub try_splitter :
      List ℕ
      → List ℕ
      → Option ℕ
      → Result SplitError (List (List ℕ))
      → Result SplitError (List (List ℕ))
  try_splitter text sep none rest = rest
  try_splitter text sep (some idx) rest = do
    pieces ← split_case_insensitive text sep
    enough_or rest (trimmed pieces)

  unfoldable pub try_splitters : List ℕ → List (List ℕ) → Result SplitError (List (List ℕ))
  try_splitters text [] = ok (text ∷ [])
  try_splitters text (sep ∷ seps) =
      let rest = try_splitters text seps in try_splitter text sep (index sep (lower text)) rest

  abbrev pub split_trimmed : List ℕ → Result SplitError (List (List ℕ))
  split_trimmed text =
      let rest = try_splitters text splitters in
      if is_empty text
      then ok []
      else if leb 2 (count_byte b'?' text)
      then enough_or rest (questions text)
      else rest

  unfoldable pub split_heuristic : List ℕ → Result SplitError (List (List ℕ))
  split_heuristic text = split_trimmed (trim_space text)

-- ===== src/Supervisor/Parts.antt =====
-- The parts that splitHeuristic of agent/decompose.go splits a question into.
use sibyl.Prelude.{
  ℕ, zero, suc, ◌+◌, ◌-◌, ◌≤◌, ◌<◌, ◌≡◌, ◌⊎◌, refl, Bool, true, false, List, [], ◌∷◌, map, Option,
  none, some, Result, ok, err, ◌>>=◌, if◌then◌else◌, leb, ltb, length, take, drop, is_empty, All,
  All-zip, Bool-cases, inl, inr, arith,
}
use mathlib.Core.Option
use sibyl.Prelude.Bytes.{index, is_prefix, length-is_prefix, trim_space}
use sibyl.Supervisor.Split.{
  SplitError, slice_from, slice, split_at, split_loop, trimmed, with_question_mark, questions,
  splitters, split_case_insensitive, enough_or, try_splitter, try_splitters, count_byte,
  split_trimmed, split_heuristic,
}

length-drop : (n : ℕ) (s : List ℕ) → length (drop n s) ≡ length s - n
length-drop zero s = omega arith
length-drop (suc n) [] = omega arith
length-drop (suc n) (c ∷ s) = omega (arith, length-drop n s)

-- The place of a separator leaves room for it.
abbrev Fits : List ℕ → List ℕ → Option ℕ → Type 0
Fits sep s none = Unit
Fits sep s (some i) = i + length sep ≤ length s

found-Fits :
    (b : Bool) (sep s : List ℕ) (o : Option ℕ)
    → is_prefix sep s ≡ b
    → Fits sep s o
    → Fits sep s (if b then some 0 else o)
found-Fits true sep s o h k = omega (arith, length-is_prefix sep s h)
found-Fits false sep s o h k = k

suc-Fits :
    (c : ℕ) (sep s : List ℕ) (o : Option ℕ) → Fits sep s o → Fits sep (c ∷ s) (Option.map suc o)
suc-Fits c sep s none h = tt
suc-Fits c sep s (some i) h = omega (arith, h)

index-Fits : (sep s : List ℕ) → Fits sep s (index sep s)
unfolding index
index-Fits sep [] = found-Fits (is_prefix sep []) sep [] none refl tt
index-Fits sep (c ∷ s) =
    found-Fits (is_prefix sep (c ∷ s)) sep (c ∷ s) _ refl
      (suc-Fits c sep s (index sep s) (index-Fits sep s))

slice_from-ok : (s : List ℕ) (i : ℕ) → i ≤ length s → slice_from s i ≡ ok (drop i s)
slice_from-ok s i h = let apart : ltb (length s) i ≡ false = ground (arith, h) in rw apart refl

slice-ok :
    (s : List ℕ) (i j : ℕ) → i ≤ j → j ≤ length s → slice s i j ≡ ok (take (j - i) (drop i s))
slice-ok s i j h k =
    let ordered : ltb j i ≡ false = ground (arith, h) in
    let inside : ltb (length s) j ≡ false = ground (arith, k) in rw (ordered, inside) refl

abbrev Succeeds : {A : Type 0} → Result SplitError A → Type 0
Succeeds (ok a) = Unit
Succeeds (err e) = ⊥

cons-Succeeds :
    {A : Type 0} (p : A) (r : Result SplitError (List A))
    → Succeeds r
    → Succeeds (r >>= λ ps. ok (p ∷ ps))
cons-Succeeds p (ok ps) h = tt
cons-Succeeds p (err e) h = h

module _ (s lower_s sep : List ℕ) (same : length lower_s ≡ length s) (long : 1 ≤ length sep) where
  split_at-Succeeds :
      (more : ℕ → Result SplitError (List (List ℕ))) (start : ℕ) (o : Option ℕ)
      → start ≤ length s
      → Fits sep (drop start lower_s) o
      → ((next : ℕ) → start < next → next ≤ length s → Succeeds (more next))
      → Succeeds (split_at s lower_s sep sep more start o)
  split_at-Succeeds more start none inside fits go = rw (slice_from-ok s start inside) tt
  split_at-Succeeds more start (some idx) inside fits go =
      let room = length-drop start lower_s in
      rw (slice-ok s start (start + idx) (omega arith) (omega (arith, fits, room, same, inside))) (
        cons-Succeeds _ (more (start + (idx + length sep)))
          (go _ (omega (arith, long)) (omega (arith, fits, room, same, inside))))

  split_loop-Succeeds :
      (f start : ℕ)
      → start ≤ length s
      → length s < f + start
      → Succeeds (split_loop s lower_s sep sep f start)
  unfolding split_loop
  split_loop-Succeeds zero start inside fuel = absurd (omega (arith, inside, fuel))
  split_loop-Succeeds (suc f) start inside fuel =
      rw (slice_from-ok lower_s start (omega (arith, inside, same))) (
        split_at-Succeeds (split_loop s lower_s sep sep f) start (index sep (drop start lower_s))
          inside (index-Fits sep (drop start lower_s))
          (λ next later within. split_loop-Succeeds f next within (omega (arith, fuel, later))))

split_case_insensitive-Succeeds :
    (lower : List ℕ → List ℕ) (s sep : List ℕ)
    → length (lower s) ≡ length s
    → lower sep ≡ sep
    → 1 ≤ length sep
    → Succeeds (split_case_insensitive lower s sep)
unfolding split_case_insensitive
split_case_insensitive-Succeeds lower s [] same fixed long = tt
split_case_insensitive-Succeeds lower s (c ∷ sep) same fixed long = rw fixed (
    split_loop-Succeeds s (lower s) (c ∷ sep) same long (suc (length s)) 0 (omega arith)
      (omega arith))

abbrev NonEmpty : List ℕ → Type 0
NonEmpty p = is_empty p ≡ false

trimmed-NonEmpty : (pieces : List (List ℕ)) → All NonEmpty (trimmed pieces)
trimmed-NonEmpty [] = tt
trimmed-NonEmpty (p ∷ pieces) = elim (Bool-cases (is_empty (trim_space p))) [
  | inl blank ↦ rw blank (trimmed-NonEmpty pieces)
  | inr kept ↦ rw kept (kept, trimmed-NonEmpty pieces)
]

marked-NonEmpty : (pieces : List (List ℕ)) → All NonEmpty (map with_question_mark pieces)
marked-NonEmpty [] = tt
marked-NonEmpty ([] ∷ pieces) = (refl, marked-NonEmpty pieces)
marked-NonEmpty ((c ∷ p) ∷ pieces) = (refl, marked-NonEmpty pieces)

-- The question itself, or at least two parts that are not empty.
abbrev pub AreParts : List ℕ → List (List ℕ) → Type 0
AreParts text parts = (parts ≡ text ∷ []) ⊎ (2 ≤ length parts) × All NonEmpty parts

abbrev GivesParts : List ℕ → Result SplitError (List (List ℕ)) → Type 0
GivesParts text (ok parts) = AreParts text parts
GivesParts text (err e) = ⊥

module _ (lower : List ℕ → List ℕ) where
  enough_or-GivesParts :
      (text : List ℕ) (rest : Result SplitError (List (List ℕ))) (out : List (List ℕ))
      → GivesParts text rest
      → All NonEmpty out
      → GivesParts text (enough_or lower rest out)
  enough_or-GivesParts text rest out h full = elim (Bool-cases (leb 2 (length out))) [
    | inl enough ↦ rw enough (inr (ground (arith, enough), full))
    | inr few ↦ rw few h
  ]

  pieces-GivesParts :
      (text : List ℕ) (pieces rest : Result SplitError (List (List ℕ)))
      → Succeeds pieces
      → GivesParts text rest
      → GivesParts text (pieces >>= λ ps. enough_or lower rest (trimmed ps))
  pieces-GivesParts text (ok ps) rest go h =
      enough_or-GivesParts text rest (trimmed ps) h (trimmed-NonEmpty ps)
  pieces-GivesParts text (err e) rest go h = absurd go

  abbrev IsFixed : List ℕ → Type 0
  IsFixed sep = lower sep ≡ sep

  module _ (text : List ℕ) (same : length (lower text) ≡ length text) where
    try_splitter-GivesParts :
        (sep : List ℕ) (o : Option ℕ) (rest : Result SplitError (List (List ℕ)))
        → IsFixed sep × (1 ≤ length sep)
        → GivesParts text rest
        → GivesParts text (try_splitter lower text sep o rest)
    try_splitter-GivesParts sep none rest (fixed, long) h = h
    try_splitter-GivesParts sep (some i) rest (fixed, long) h =
        pieces-GivesParts text (split_case_insensitive lower text sep) rest
          (split_case_insensitive-Succeeds lower text sep same fixed long) h

    try_splitters-GivesParts :
        (seps : List (List ℕ))
        → All (λ sep. IsFixed sep × (1 ≤ length sep)) seps
        → GivesParts text (try_splitters lower text seps)
    unfolding try_splitters
    try_splitters-GivesParts [] h = inl refl
    try_splitters-GivesParts (sep ∷ seps) (h, hs) =
        try_splitter-GivesParts sep (index sep (lower text)) _ h (try_splitters-GivesParts seps hs)

    -- What comes of a trimmed question.
    abbrev pub IsSplit : Result SplitError (List (List ℕ)) → Type 0
    IsSplit (ok parts) =
        (is_empty text ≡ true) × (parts ≡ []) ⊎ (is_empty text ≡ false) × AreParts text parts
    IsSplit (err e) = ⊥

    parts-IsSplit :
        (r : Result SplitError (List (List ℕ)))
        → is_empty text ≡ false
        → GivesParts text r
        → IsSplit r
    parts-IsSplit (ok parts) given h = inr (given, h)
    parts-IsSplit (err e) given h = h

    split_trimmed-IsSplit : All IsFixed splitters → IsSplit (split_trimmed lower text)
    split_trimmed-IsSplit fixed =
        let rest = try_splitters-GivesParts splitters (
          All-zip IsFixed (λ sep. 1 ≤ length sep) (λ sep. IsFixed sep × (1 ≤ length sep)) splitters
            (λ sep f l. (f, l)) fixed
            (
              omega arith,
              (omega arith, (omega arith, (omega arith, (omega arith, (omega arith, tt))))),
            )) in
        elim (Bool-cases (is_empty text)) [
          | inl blank ↦ rw blank (inl (blank, refl))
          | inr given ↦ elim (Bool-cases (leb 2 (count_byte b'?' text))) [
            | inl many ↦
                rw (given, many)
                  (parts-IsSplit _ given
                    (enough_or-GivesParts text _ (questions text) rest (marked-NonEmpty _)))
            | inr few ↦ rw (given, few) (parts-IsSplit _ given rest)
          ]
        ]

-- If lower case takes as many bytes as the trimmed question, and the separators are in lower case,
-- then splitHeuristic does not panic and its loop ends: a question that is only space has no parts,
-- and any other has itself, trimmed, as its only part, or at least two parts of which none is empty.
pub split_heuristic-IsSplit :
    (lower : List ℕ → List ℕ) (text : List ℕ)
    → (same : length (lower (trim_space text)) ≡ length (trim_space text))
    → All (λ sep. lower sep ≡ sep) splitters
    → IsSplit lower (trim_space text) same (split_heuristic lower text)
unfolding split_heuristic
split_heuristic-IsSplit lower text same fixed =
    split_trimmed-IsSplit lower (trim_space text) same fixed

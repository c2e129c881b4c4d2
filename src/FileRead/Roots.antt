-- ===== src/FileRead/Roots.antt =====
-- The test of FileReadTool of agent/tools_builtin.go that a path is in an allowed directory.
use sibyl.Prelude.{
  ℕ, ◌≡◌, ◌⊎◌, refl, sym, Bool, true, false, List, [], ◌∷◌, ◌++◌, Option, none, some, Any, ◌||◌,
  Bool-cases, inl, inr, arith, true≢false,
}
use sibyl.Prelude.Bytes.{
  same_bytes, cut_prefix, cut_prefix_sound, cut_prefix-append, is_found, is_prefix,
}
use sibyl.FileRead.{FilePath, is_under, is_allowed}

same_bytes_sound : (s t : List ℕ) → same_bytes s t ≡ true → s ≡ t
same_bytes_sound [] [] h = refl
same_bytes_sound [] (c ∷ t) h = absurd (true≢false (sym h))
same_bytes_sound (b ∷ s) [] h = absurd (true≢false (sym h))
same_bytes_sound (b ∷ s) (c ∷ t) h = grind (arith, same_bytes_sound s t)

same_bytes_refl : (s : List ℕ) → same_bytes s s ≡ true
same_bytes_refl [] = refl
same_bytes_refl (b ∷ s) = ground (arith, same_bytes_refl s)

-- A path is a directory, or below it: the path of the directory, a slash, and what comes after.
abbrev pub Under : FilePath → FilePath → Type 0
Under p root = ((rest : List ℕ) × (p ≡ (root ++ b'/' ∷ []) ++ rest)) ⊎ (p ≡ root)

abbrev pub UnderAny : List FilePath → FilePath → Type 0
UnderAny roots p = Any (Under p) roots

below-Under :
    (p root : FilePath) (o : Option (List ℕ))
    → cut_prefix (root ++ b'/' ∷ []) p ≡ o
    → (is_found o ≡ false) ⊎ Under p root
below-Under p root none h = inl refl
below-Under p root (some rest) h = inr (inl (rest, cut_prefix_sound (root ++ b'/' ∷ []) p rest h))

is_under-Under : (p root : FilePath) → is_under p root ≡ true → Under p root
is_under-Under p root h = elim (below-Under p root _ refl) [
  | inl apart ↦ inr (same_bytes_sound p root (rw apart at h))
  | inr below ↦ below
]

or_true : (a : Bool) {b : Bool} → b ≡ true → a || b ≡ true
or_true true h = refl
or_true false h = h

Under-is_under : (p root : FilePath) → Under p root → is_under p root ≡ true
Under-is_under p root (inl (rest, e)) =
    rw (e, is_prefix, cut_prefix-append (root ++ b'/' ∷ []) rest) refl
Under-is_under p root (inr e) =
    let same : same_bytes p root ≡ true = rw e (same_bytes_refl root) in
    or_true (is_prefix (root ++ b'/' ∷ []) p) same

pub is_allowed-UnderAny :
    (roots : List FilePath) (p : FilePath) → is_allowed roots p ≡ true → UnderAny roots p
unfolding is_allowed
is_allowed-UnderAny [] p h = absurd (true≢false (sym h))
is_allowed-UnderAny (root ∷ roots) p h = elim (Bool-cases (is_under p root)) [
  | inl under ↦ inl (is_under-Under p root under)
  | inr apart ↦ inr (is_allowed-UnderAny roots p (rw apart at h))
]

pub UnderAny-is_allowed :
    (roots : List FilePath) (p : FilePath) → UnderAny roots p → is_allowed roots p ≡ true
unfolding is_allowed
UnderAny-is_allowed [] p u = elim u [ ]
UnderAny-is_allowed (root ∷ roots) p (inl u) = rw (Under-is_under p root u) refl
UnderAny-is_allowed (root ∷ roots) p (inr u) = ground (arith, UnderAny-is_allowed roots p u)

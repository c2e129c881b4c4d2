-- ===== src/Supervisor/Synthesis.antt =====
-- `synthesizeArrow` of agent/decompose.go.
use sibyl.Prelude.{
  ◌≡◌, refl, String, Bool, true, false, not, List, [], ◌∷◌, ◌++◌, map, inl, inr, sym, ap,
  true≢false, Bool-cases, ◌∙◌, if◌then◌else◌, ◌==◌, keep, eq_iff,
}
use sibyl.Prelude.Texts.{joined, join}
use sibyl.Prelude.Texts.Joining.{
  join_none, join_one, join-joined, join-append_one, join-joined_first,
}
use mathlib.Core.List.{append-nil}
use text.Mathlib.TextLemmas.{append_assoc, append-eq-nil_iff, nil-append}
use sibyl.Supervisor.{SubAnswer}

abbrev pub has_failed : SubAnswer → Bool
has_failed a = not (a.error == "")

abbrev pub section_text : SubAnswer → String
section_text a = joined "## " (joined a.sub_question.text (joined "\n\n" a.answer))

abbrev spaced : String → String
spaced b = if b == "" then b else joined b "\n\n"

-- What the strings.Builder holds after the loop over the answers.
unfoldable pub write_sections : String → List SubAnswer → String
write_sections b [] = b
write_sections b (a ∷ rest) =
    let skipped = write_sections b rest in
    let written = write_sections (joined (spaced b) (section_text a)) rest in
    if has_failed a then skipped else written

module _ (quote : String → String) where
  -- `quote` is the verb `%q` of package fmt.
  unfoldable pub write_failures : String → List SubAnswer → String
  write_failures b [] = b
  write_failures b (f ∷ rest) =
      write_failures
        (joined b
          (joined "\n- " (joined (quote f.sub_question.text) (joined " (" (joined f.error ")")))))
        rest

  abbrev pub write_tail : String → List SubAnswer → String
  write_tail b [] = b
  write_tail b (f ∷ rest) =
      write_failures (joined (spaced b) "---\n\nThe following sub-questions could not be answered:")
        (f ∷ rest)

  unfoldable pub synthesize_answers : List SubAnswer → String
  synthesize_answers [] = ""
  synthesize_answers (a ∷ rest) =
      write_tail (write_sections "" (a ∷ rest)) (keep has_failed (a ∷ rest))

-- A text that ends in a section is not empty.
section-ne-empty : (b : String) (a : SubAnswer) → (joined b (section_text a) == "") ≡ false
section-ne-empty b a = elim (Bool-cases (joined b (section_text a) == "")) [
  | inl empty ↦
      let nothing = (append-eq-nil_iff.0 ((eq_iff (joined b (section_text a)) "").0 empty)).1 in
      absurd (true≢false (sym ((eq_iff "## " "").1 (append-eq-nil_iff.0 nothing).0)))
  | inr some_text ↦ some_text
]

abbrev opened : String → List String
opened b = if b == "" then [] else b ∷ []

join-opened :
    (sep b s : String) (rest : List String)
    → sep ≡ "\n\n"
    → join sep (joined (spaced b) s ∷ rest) ≡ join sep (opened b ++ s ∷ rest)
join-opened sep b s rest e = elim (Bool-cases (b == "")) [
  | inl empty ↦
      rw empty (
        ap (λ t. join sep (t ∷ rest)) (ap (λ c. joined c s) ((eq_iff b "").0 empty) ∙ nil-append s))
  | inr some_text ↦ rw (some_text, sym e) (join-joined sep b s rest)
]

write_sections-join :
    (b : String) (answers : List SubAnswer)
    → write_sections b answers
      ≡ join "\n\n" (opened b ++ map section_text (keep (λ a. not (has_failed a)) answers))
unfolding write_sections
write_sections-join b [] = elim (Bool-cases (b == "")) [
  | inl empty ↦ rw empty ((eq_iff b "").0 empty ∙ join_none)
  | inr some_text ↦ rw some_text (join_one b)
]
write_sections-join b (a ∷ rest) =
    let sections = map section_text (keep (λ c. not (has_failed c)) rest) in
    let later = write_sections-join (joined (spaced b) (section_text a)) rest in
    elim (Bool-cases (has_failed a)) [
      | inl failed ↦ rw failed (write_sections-join b rest)
      | inr good ↦ rw good (
          (rw (section-ne-empty (spaced b) a) at later)
          ∙ join-opened "\n\n" b (section_text a) sections refl)
    ]

-- The parts that have an answer, each with its text as the title and the answer below.
abbrev pub sections : List SubAnswer → List String
sections answers =
    map (λ a. joined "## " (joined a.sub_question.text (joined "\n\n" a.answer)))
      (keep (λ a. a.error == "") answers)

not-not : (b : Bool) → not (not b) ≡ b
not-not true = refl
not-not false = refl

section_text-sections :
    (answers : List SubAnswer)
    → map section_text (keep (λ a. not (has_failed a)) answers) ≡ sections answers
section_text-sections answers =
    ap (λ t. map section_text (keep t answers)) (λ i. λ a. not-not (a.error == "") i)

heading-ne-empty : (t : String) → (joined "## " t == "") ≡ false
heading-ne-empty t = elim (Bool-cases (joined "## " t == "")) [
  | inl empty ↦
      let nothing = (append-eq-nil_iff.0 ((eq_iff (joined "## " t) "").0 empty)).0 in
      absurd (true≢false (sym ((eq_iff "## " "").1 nothing)))
  | inr some_text ↦ some_text
]

join-sections-some_text :
    (a : SubAnswer) (rest : List String) → (join "\n\n" (section_text a ∷ rest) == "") ≡ false
unfolding join
join-sections-some_text a [] = heading-ne-empty _
join-sections-some_text a (r ∷ rest) =
    ap (λ t. t == "") (append_assoc "## " _ (joined "\n\n" (join "\n\n" (r ∷ rest))))
    ∙ heading-ne-empty _

-- A block after the sections goes a blank line below them.
spaced-sections :
    (s : String) (answered : List SubAnswer)
    → joined (spaced (join "\n\n" (map section_text answered))) s
      ≡ join "\n\n" (map section_text answered ++ s ∷ [])
unfolding join
spaced-sections s [] = nil-append s
spaced-sections s (a ∷ rest) =
    rw (join-sections-some_text a (map section_text rest))
      (join-append_one "\n\n" (section_text a) s (map section_text rest))

module _ (quote : String → String) where
  abbrev bullet : SubAnswer → String
  bullet f = joined "- " (joined (quote f.sub_question.text) (joined " (" (joined f.error ")")))

  -- The parts that failed, each with its quoted text and its error.
  abbrev pub bullets : List SubAnswer → List String
  bullets answers = map bullet (keep (λ a. not (a.error == "")) answers)

  write_failures-join :
      (b : String) (failed : List SubAnswer)
      → write_failures quote b failed ≡ join "\n" (b ∷ map bullet failed)
  unfolding write_failures join
  write_failures-join b [] = refl
  write_failures-join b (f ∷ rest) =
      let x = joined (quote f.sub_question.text) (joined " (" (joined f.error ")")) in
      let later = map bullet rest in
      write_failures-join (joined b (joined "\n- " x)) rest
      ∙ join-joined_first "\n" b (joined "\n- " x) later
      ∙ ap (λ t. joined b (join "\n" (t ∷ later))) (append_assoc "\n" "- " x)
      ∙ ap (joined b) (join-joined_first "\n" "\n" (joined "- " x) later)

-- The list of the parts that failed, under its heading; nothing where none failed.
abbrev pub tail_of : List String → List String
tail_of [] = []
tail_of (b ∷ bs) =
    join "\n" ("---\n\nThe following sub-questions could not be answered:" ∷ b ∷ bs) ∷ []

module _ (quote : String → String) where
  write_tail-join :
      (answered failed : List SubAnswer)
      → write_tail quote (join "\n\n" (map section_text answered)) failed
        ≡ join "\n\n" (map section_text answered ++ tail_of (map (bullet quote) failed))
  write_tail-join answered [] = ap (join "\n\n") (sym (append-nil (map section_text answered)))
  write_tail-join answered (f ∷ rest) =
      let heading : String = "---\n\nThe following sub-questions could not be answered:" in
      write_failures-join quote (joined (spaced (join "\n\n" (map section_text answered))) heading)
        (f ∷ rest)
      ∙ join-joined_first "\n" (spaced (join "\n\n" (map section_text answered))) heading
          (map (bullet quote) (f ∷ rest))
      ∙ spaced-sections (join "\n" (heading ∷ map (bullet quote) (f ∷ rest))) answered

  -- The text is made of blocks with a blank line between any two: for every part that has an answer,
  -- in order, its text as a heading and the answer; and last, if some part failed, a heading with a
  -- line for each part that did, in order, with its quoted text and its error.
  pub synthesize_answers-join :
      (answers : List SubAnswer)
      → synthesize_answers quote answers
        ≡ join "\n\n" (sections answers ++ tail_of (bullets quote answers))
  unfolding synthesize_answers join
  synthesize_answers-join [] = refl
  synthesize_answers-join (a ∷ rest) =
      ap (λ b. write_tail quote b (keep has_failed (a ∷ rest))) (write_sections-join "" (a ∷ rest))
      ∙ write_tail-join (keep (λ c. not (has_failed c)) (a ∷ rest)) (keep has_failed (a ∷ rest))
      ∙ ap (λ s. join "\n\n" (s ++ tail_of (bullets quote (a ∷ rest))))
          (section_text-sections (a ∷ rest))

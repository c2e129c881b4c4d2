-- ===== src/ClaudeCode.antt =====
-- agent/claudecode.go: NewClaudeCodeClient and Complete. The subprocess and encoding/json are
-- parameters, `F` their errors.
use sibyl.Prelude.{
  ◌≡◌, refl, sym, ap, ◌∙◌, String, Bool, false, List, [], ◌∷◌, ◌++◌, Option, none, Result,
  Result-cases, ok, ok-inj, err-ne-ok, ◌>>=◌, ◌>>◌, fail_if, fail_on, map_err, if◌then◌else◌, ◌==◌,
  Bool-cases, Option-cases, inl, inr,
}
use sibyl.Prelude.Int.{ℤ, pos, is_zero}

pub record ClaudeCodeConfig : Type 0 where
  pub binary : String
  pub model : String
  pub permission_mode : String
  pub max_turns : ℤ
  pub extra_args : List String

abbrev default_text : String → String → String
default_text default s = if s == "" then default else s

abbrev pub new_claude_code_client : ClaudeCodeConfig → ClaudeCodeConfig
new_claude_code_client cfg = record cfg {
  binary = default_text "claude" cfg.binary;
  permission_mode = default_text "bypassPermissions" cfg.permission_mode;
  max_turns = if is_zero cfg.max_turns then pos 1 else cfg.max_turns;
}

-- claudeCodePrintResponse, as far as it is read.
pub record PrintResponse : Type 0 where
  pub is_error : Bool
  pub result : String

-- What a run of the command gave: its error, and the two outputs.
pub record CommandRun (F : Type 0) : Type 0 where
  pub error : Option F
  pub stdout : String
  pub stderr : String

pub data ClaudeCodeError (F : Type 0) : Type 0 where
  empty_user_message : ClaudeCodeError F
  command_failed : (binary : String) (error : F) (stderr : String) → ClaudeCodeError F
  empty_output : (stderr : String) → ClaudeCodeError F
  parse_failed : (error : F) (raw : String) → ClaudeCodeError F
  cli_error : (result : String) → ClaudeCodeError F
  empty_result : (raw : String) → ClaudeCodeError F

abbrev pub flag : String → String → List String
flag name value = if value == "" then [] else name ∷ value ∷ []

-- `int_text` is the verb `%d`.
abbrev pub command_args : (ℤ → String) → ClaudeCodeConfig → String → String → List String
command_args int_text cfg system user =
    ("-p"
      ∷ user
      ∷ "--output-format"
      ∷ "json"
      ∷ "--permission-mode"
      ∷ cfg.permission_mode
      ∷ "--max-turns"
      ∷ int_text cfg.max_turns
      ∷ [])
    ++ flag "--append-system-prompt" system
    ++ flag "--model" cfg.model
    ++ cfg.extra_args

not-error :
    (b : Bool) (s out : String)
    → b ≡ false
    → s ≡ out
    → Path PrintResponse
        (record { is_error = b; result = s })
        (record { is_error = false; result = out })
not-error b s out hb hs = rw (hb, hs) refl

module _ {F : Type 0} (decode : String → Result F PrintResponse) where
  abbrev pub read_output : String → CommandRun F → Result (ClaudeCodeError F) String
  read_output binary run = do
    map_err (λ e. command_failed binary e run.stderr) (fail_on run.error)
    fail_if (run.stdout == "") (empty_output run.stderr)
    parsed ← map_err (λ e. parse_failed e run.stdout) (decode run.stdout)
    fail_if parsed.is_error (cli_error parsed.result)
    fail_if (parsed.result == "") (empty_result run.stdout)
    ok parsed.result

  -- `execute` runs a binary with its arguments.
  unfoldable pub claude_code_complete :
      (ℤ → String)
      → (String → List String → CommandRun F)
      → ClaudeCodeConfig
      → String
      → String
      → Result (ClaudeCodeError F) String
  claude_code_complete int_text execute cfg system user = do
    fail_if (user == "") empty_user_message
    read_output cfg.binary (execute cfg.binary (command_args int_text cfg system user))

  read_output-ok :
      (binary : String) (run : CommandRun F) (out : String)
      → read_output binary run ≡ ok out
      → (run.error ≡ none)
        × ((decode run.stdout ≡ ok (record { is_error = false; result = out }))
            × ((out == "") ≡ false))
  read_output-ok binary run out h = elim (Option-cases run.error) [
    | inr (e, failed) ↦ err-ne-ok (rw failed at h)
    | inl exited ↦ elim (Bool-cases (run.stdout == "")) [
      | inl silent ↦ err-ne-ok (rw (exited, silent) at h)
      | inr printed ↦ elim (Result-cases (decode run.stdout)) [
        | inl (e, unreadable) ↦ err-ne-ok (rw (exited, printed, unreadable) at h)
        | inr (p, read) ↦ elim (Bool-cases p.is_error) [
          | inl reported ↦ err-ne-ok (rw (exited, printed, read, reported) at h)
          | inr fine ↦ elim (Bool-cases (p.result == "")) [
            | inl blank ↦ err-ne-ok (rw (exited, printed, read, fine, blank) at h)
            | inr said ↦
                let same = ok-inj (rw (exited, printed, read, fine, said) at h) in
                (
                  exited,
                  (read ∙ ap ok (not-error p.is_error p.result out fine same), rw (sym same) said),
                )
          ]
        ]
      ]
    ]
  ]

  -- A completion gives only texts that are not empty: the result of a run without an error, of an
  -- output that says it is none. The user message is never empty, and is the argument after `-p`.
  pub claude_code_complete-ok :
      (int_text : ℤ → String) (execute : String → List String → CommandRun F)
      (cfg : ClaudeCodeConfig) (system user out : String)
      → claude_code_complete int_text execute cfg system user ≡ ok out
      → let run = execute cfg.binary (command_args int_text cfg system user) in
        ((user == "") ≡ false)
        × ((run.error ≡ none)
            × ((decode run.stdout ≡ ok (record { is_error = false; result = out }))
                × ((out == "") ≡ false)))
  unfolding claude_code_complete
  claude_code_complete-ok int_text execute cfg system user out h = elim (Bool-cases (user == "")) [
    | inl silent ↦ err-ne-ok (rw silent at h)
    | inr asked ↦ (
      asked,
      read_output-ok cfg.binary (execute cfg.binary (command_args int_text cfg system user)) out
          (rw asked at h),
    )
  ]

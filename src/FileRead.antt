-- ===== src/FileRead.antt =====
-- agent/tools_builtin.go: FileReadTool. A path and what a file holds are bytes. The file system is a
-- parameter: package filepath, os.Open and io.ReadFull.
pub mod Roots
pub mod Allowed
use sibyl.Prelude.{
  ℕ, zero, suc, ◌+◌, String, Bool, true, false, List, [], ◌∷◌, ◌++◌, map, Option, none, some, ◌||◌,
  Result, ok, err, ◌>>=◌, ◌>>◌, fail_if, map_err, if◌then◌else◌, length, take, is_empty, ltb, not,
  nat_eq,
}
use sibyl.Prelude.Bytes.{same_bytes, cut_prefix, is_found, is_prefix}
use sibyl.Prelude.Int.{ℤ, pos, negsuc}

abbrev pub FilePath : Type 0
FilePath = List ℕ

-- `read_full` gives at most as many bytes as asked for, and fewer at the end of the file, which the
-- code does not take for an error.
pub record FileSystem (H F : Type 0) : Type 0 where
  pub absolute : FilePath → Result F FilePath
  pub without_links : FilePath → Result F FilePath
  pub opened : FilePath → Result F H
  pub read_full : H → ℕ → Result F (List ℕ)

pub data FileReadError (F : Type 0) : Type 0 where
  path_required : FileReadError F
  abs_failed open_failed read_failed : F → FileReadError F
  outside_roots : FilePath → FileReadError F

pub record FileReadTool : Type 0 where
  pub allowed_roots : List FilePath
  pub max_bytes : ℤ

abbrev or_kept : {F : Type 0} → FilePath → Result F FilePath → FilePath
or_kept p (ok q) = q
or_kept p (err e) = p

abbrev pub is_under : FilePath → FilePath → Bool
is_under p root = is_prefix (root ++ b'/' ∷ []) p || same_bytes p root

unfoldable pub is_allowed : List FilePath → FilePath → Bool
is_allowed [] p = false
is_allowed (root ∷ roots) p = if is_under p root then true else is_allowed roots p

-- 64 * 1024 where no limit is set
abbrev pub limit_of : ℤ → ℕ
limit_of (pos zero) = 65536
limit_of (pos (suc n)) = suc n
limit_of (negsuc n) = 65536

-- What is returned of the bytes that were read; `notice` is the text that says where it was cut.
abbrev pub clipped : (ℕ → List ℕ) → ℕ → List ℕ → List ℕ
clipped notice limit bytes =
    if ltb limit (length bytes) then take limit bytes ++ notice limit else bytes

module _ {H F : Type 0} (files : FileSystem H F) where
  abbrev pub canonical_root : FilePath → FilePath
  canonical_root root =
      or_kept (or_kept root (files.absolute root))
        (files.without_links (or_kept root (files.absolute root)))

  unfoldable pub new_file_read : List FilePath → FileReadTool
  new_file_read roots = record { allowed_roots = map canonical_root roots; max_bytes = pos 65536 }

  -- The path that the code checks and opens.
  abbrev pub canonical : FilePath → Result (FileReadError F) FilePath
  canonical requested = do
    p ← map_err abs_failed (files.absolute requested)
    ok (or_kept p (files.without_links p))

  module _ (notice : ℕ → List ℕ) (tool : FileReadTool) where
    abbrev pub contents : FilePath → Result (FileReadError F) (List ℕ)
    contents p = do
      file ← map_err open_failed (files.opened p)
      bytes ← map_err read_failed (files.read_full file (limit_of tool.max_bytes + 1))
      ok (clipped notice (limit_of tool.max_bytes) bytes)

    unfoldable pub run_file_read : FilePath → Result (FileReadError F) (List ℕ)
    run_file_read requested = do
      fail_if (is_empty requested) path_required
      p ← canonical requested
      fail_if (not (is_allowed tool.allowed_roots p)) (outside_roots requested)
      contents p

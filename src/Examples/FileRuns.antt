-- ===== src/Examples/FileRuns.antt =====
-- agent/tools_builtin.go: a file in an allowed directory.
use sibyl.Prelude.{ℕ, ◌≡◌, ◌↔◌, refl, String, List, [], ◌∷◌, ok, err, take}
use sibyl.Prelude.Bytes.{cut_prefix}
use sibyl.Prelude.Int.{pos}
use sibyl.FileRead.{FileSystem, FileReadTool, outside_roots, is_allowed, run_file_read}
use sibyl.FileRead.Allowed.{IsRead, run_file_read-IsRead}

-- Every file holds five bytes.
abbrev five_bytes : FileSystem ℕ String
five_bytes = record {
  absolute = λ p. ok p;
  without_links = λ p. err "no such file";
  opened = λ p. ok 0;
  read_full = λ h n. ok (take n (1 ∷ 2 ∷ 3 ∷ 4 ∷ 5 ∷ []));
}

abbrev four_at_most : FileReadTool
four_at_most = record { allowed_roots = (b'/' ∷ b'a' ∷ []) ∷ []; max_bytes = pos 4 }

abbrev cut_here : ℕ → List ℕ
cut_here n = b'!' ∷ []

-- "/a/b"
abbrev file_in_root : List ℕ
file_in_root = b'/' ∷ b'a' ∷ b'/' ∷ b'b' ∷ []

run_file_read-IsRead_example :
    run_file_read five_bytes cut_here four_at_most file_in_root ≡ ok (1 ∷ 2 ∷ 3 ∷ 4 ∷ b'!' ∷ [])
    ↔ IsRead five_bytes cut_here four_at_most file_in_root (1 ∷ 2 ∷ 3 ∷ 4 ∷ b'!' ∷ [])
run_file_read-IsRead_example =
    run_file_read-IsRead five_bytes cut_here four_at_most file_in_root (1 ∷ 2 ∷ 3 ∷ 4 ∷ b'!' ∷ [])
      refl

file_in_root_reads :
    run_file_read five_bytes cut_here four_at_most file_in_root ≡ ok (1 ∷ 2 ∷ 3 ∷ 4 ∷ b'!' ∷ [])
unfolding run_file_read is_allowed cut_prefix
file_in_root_reads = refl

-- A file below the root of the file system, where that root is allowed.
below_slash_is_outside :
    run_file_read five_bytes cut_here
      (record { allowed_roots = (b'/' ∷ []) ∷ []; max_bytes = pos 4 })
      file_in_root
    ≡ err (outside_roots file_in_root)
unfolding run_file_read is_allowed cut_prefix
below_slash_is_outside = refl

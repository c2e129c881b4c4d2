-- ===== src/FileRead/Allowed.antt =====
-- Which files FileReadTool of agent/tools_builtin.go reads.
use sibyl.Prelude.{
  ℕ, zero, suc, ◌+◌, ◌≤◌, ◌<◌, ◌≡◌, ◌≢◌, ◌⊎◌, ◌↔◌, ◌∙◌, ap, length, take, ltb, refl, sym, true,
  false, List, ◌++◌, Result, ok, err, ◌>>=◌, ◌>>◌, is_empty, not, Bool-cases, Result-cases, ok-inj,
  err-ne-ok, inl, inr, arith, fail_if,
}
use mathlib.Core.Path.{subst}
use sibyl.Prelude.Int.{ℤ, pos, negsuc}
use sibyl.FileRead.Roots.{UnderAny, is_allowed-UnderAny, UnderAny-is_allowed}
use sibyl.FileRead.{
  FilePath, FileSystem, FileReadError, FileReadTool, outside_roots, is_allowed, limit_of, clipped,
  canonical, contents, run_file_read,
}

-- The limit that is set, where it is positive, and otherwise 64 KiB.
abbrev pub IsLimit : ℤ → ℕ → Type 0
IsLimit set limit =
    ((1 ≤ limit) × (set ≡ pos limit)) ⊎ (((n : ℕ) → 1 ≤ n → set ≢ pos n) × (limit ≡ 65536))

limit_of-IsLimit : (set : ℤ) → IsLimit set (limit_of set)
limit_of-IsLimit (pos zero) = inr (λ n some_n e. grind arith, refl)
limit_of-IsLimit (pos (suc n)) = inl (omega arith, refl)
limit_of-IsLimit (negsuc n) = inr (λ k some_k e. grind arith, refl)

limit_of-pos : (limit : ℕ) → 1 ≤ limit → limit ≡ limit_of (pos limit)
limit_of-pos zero h = absurd (omega arith)
limit_of-pos (suc n) h = refl

IsLimit-limit_of : (set : ℤ) (limit : ℕ) → IsLimit set limit → limit ≡ limit_of set
IsLimit-limit_of set limit (inl (some_limit, e)) =
    limit_of-pos limit some_limit ∙ ap limit_of (sym e)
IsLimit-limit_of (pos zero) limit (inr (apart, e)) = e
IsLimit-limit_of (pos (suc n)) limit (inr (apart, e)) = absurd (apart (suc n) (omega arith) refl)
IsLimit-limit_of (negsuc n) limit (inr (apart, e)) = e

module _ {H F : Type 0} (files : FileSystem H F) (notice : ℕ → List ℕ) (tool : FileReadTool) where
  -- The path that a request stands for: made absolute, and with its links resolved unless that
  -- fails.
  abbrev IsPathOf : FilePath → FilePath → Type 0
  IsPathOf requested p =
      (a : FilePath) × (files.absolute requested ≡ ok a)
      × ((files.without_links a ≡ ok p) ⊎ ((e : F) × (files.without_links a ≡ err e) × (p ≡ a)))

  -- All that was read, where that is within the limit, and otherwise its start with the notice.
  abbrev IsCut : ℕ → List ℕ → List ℕ → Type 0
  IsCut limit bytes out =
      (length bytes ≤ limit) × (out ≡ bytes)
      ⊎ (limit < length bytes) × (out ≡ take limit bytes ++ notice limit)

  -- What is returned: what the file at that path holds, which is under an allowed root, up to the
  -- limit.
  abbrev pub IsRead : FilePath → List ℕ → Type 0
  IsRead requested out =
      (p : FilePath) × IsPathOf requested p
      × UnderAny tool.allowed_roots p
      × (file : H) × (files.opened p ≡ ok file)
      × (limit : ℕ) × IsLimit tool.max_bytes limit
      × (bytes : List ℕ) × (files.read_full file (limit + 1) ≡ ok bytes)
      × IsCut limit bytes out

  clipped-IsCut : (limit : ℕ) (bytes : List ℕ) → IsCut limit bytes (clipped notice limit bytes)
  clipped-IsCut limit bytes = elim (Bool-cases (ltb limit (length bytes))) [
    | inl more ↦ rw more (inr (ground (arith, more), refl))
    | inr fits ↦ rw fits (inl (ground (arith, fits), refl))
  ]

  IsCut-clipped :
      (limit : ℕ) (bytes out : List ℕ) → IsCut limit bytes out → clipped notice limit bytes ≡ out
  IsCut-clipped limit bytes out (inl (fits, e)) =
      let within : ltb limit (length bytes) ≡ false = ground (arith, fits) in rw within (sym e)
  IsCut-clipped limit bytes out (inr (more, e)) =
      let beyond : ltb limit (length bytes) ≡ true = ground (arith, more) in rw beyond (sym e)

  canonical-IsPathOf :
      (requested p : FilePath) → canonical files requested ≡ ok p → IsPathOf requested p
  canonical-IsPathOf requested p named = elim (Result-cases (files.absolute requested)) [
    | inl (e, failed) ↦ err-ne-ok (rw failed at named)
    | inr (a, made) ↦ elim (Result-cases (files.without_links a)) [
      | inl (e, broken) ↦ (a, made, inr (e, broken, sym (ok-inj (rw (made, broken) at named))))
      | inr (q, resolved) ↦
          (a, made, inl (resolved ∙ ap ok (ok-inj (rw (made, resolved) at named))))
    ]
  ]

  IsPathOf-canonical :
      (requested p : FilePath) → IsPathOf requested p → canonical files requested ≡ ok p
  IsPathOf-canonical requested p (a, made, inl resolved) = rw (made, resolved) refl
  IsPathOf-canonical requested p (a, made, inr (e, broken, same)) =
      rw (made, broken) (ap ok (sym same))

  contents_sound :
      (p : FilePath) (out : List ℕ) (r : Result F H)
      → files.opened p ≡ r
      → contents files notice tool p ≡ ok out
      → (file : H) × (files.opened p ≡ ok file)
        × (bytes : List ℕ) × (files.read_full file (limit_of tool.max_bytes + 1) ≡ ok bytes)
        × IsCut (limit_of tool.max_bytes) bytes out
  contents_sound p out (err e) h done = err-ne-ok (rw h at done)
  contents_sound p out (ok file) h done =
      let done' = rw h at done in
      elim (Result-cases (files.read_full file (limit_of tool.max_bytes + 1))) [
        | inl (e, failed) ↦ err-ne-ok (rw failed at done')
        | inr (bytes, read) ↦ (
          file,
          h,
          bytes,
          read,
          subst (IsCut (limit_of tool.max_bytes) bytes) (ok-inj (rw read at done'))
              (clipped-IsCut (limit_of tool.max_bytes) bytes),
        )
      ]

  checked-IsRead :
      (requested p : FilePath) (out : List ℕ)
      → canonical files requested ≡ ok p
      → (fail_if (not (is_allowed tool.allowed_roots p)) (outside_roots requested)
          >> contents files notice tool p)
        ≡ ok out
      → IsRead requested out
  checked-IsRead requested p out named done = elim (Bool-cases (is_allowed tool.allowed_roots p)) [
    | inl allowed ↦
        let (file, opens, bytes, read, same) =
          contents_sound p out (files.opened p) refl (rw allowed at done) in
        (
          p,
          canonical-IsPathOf requested p named,
          is_allowed-UnderAny tool.allowed_roots p allowed,
          file,
          opens,
          limit_of tool.max_bytes,
          limit_of-IsLimit tool.max_bytes,
          bytes,
          read,
          same,
        )
    | inr outside ↦ err-ne-ok (rw outside at done)
  ]

  run-IsRead :
      (requested : FilePath) (out : List ℕ) (r : Result (FileReadError F) FilePath)
      → canonical files requested ≡ r
      → (r >>= λ p.
          fail_if (not (is_allowed tool.allowed_roots p)) (outside_roots requested)
          >> contents files notice tool p)
        ≡ ok out
      → IsRead requested out
  run-IsRead requested out (err e) named done = err-ne-ok done
  run-IsRead requested out (ok p) named done = checked-IsRead requested p out named done

  -- FileReadTool returns a text for a path that is not empty exactly when the path, made absolute
  -- and with its links resolved where that is possible, is an allowed root or below one, and that
  -- very file opens and reads. The text is what was read, or where that is longer than the limit,
  -- as much of it as the limit allows with the notice that it was cut; the limit is that of the
  -- tool where it is positive, and otherwise 64 KiB.
  pub run_file_read-IsRead :
      (requested : FilePath) (out : List ℕ)
      → is_empty requested ≡ false
      → (run_file_read files notice tool requested ≡ ok out ↔ IsRead requested out)
  unfolding run_file_read
  run_file_read-IsRead requested out given = (
    λ done. run-IsRead requested out (canonical files requested) refl (rw given at done),
    λ (p, named, under, file, opens, limit, limits, bytes, read, cut).
        rw
          (
            given,
            IsPathOf-canonical requested p named,
            UnderAny-is_allowed tool.allowed_roots p under,
            opens,
            sym (IsLimit-limit_of tool.max_bytes limit limits),
            read,
          )
          (ap ok (IsCut-clipped limit bytes out cut)),
  )

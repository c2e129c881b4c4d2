-- ===== src/Prelude/Maps.antt =====
-- Go's `map[string]V` as an association list with each key once. The order of the entries is the
-- order of the first insertions; Go's iteration order is unspecified, and the models that iterate
-- over a map say why the order does not show.
use sibyl.Prelude.Tests.{if◌then◌else◌}
use sibyl.Prelude.Keys.{contains}
use Prim.Native.String.{String}
use mathlib.Core.Path.{◌≡◌, refl}
use mathlib.Core.List.{List, [], ◌∷◌, ◌++◌}
use mathlib.Core.Option.{Option, none, some}
use native.Mathlib.Omega.{arith}
use text.Mathlib.Text.{◌==◌}
use text.Mathlib.TextEquality.{eq_iff}

abbrev pub GoMap {ℓ} : Type ℓ → Type ℓ
GoMap V = List (String × V)

abbrev pub or_else {ℓ} : {A : Type ℓ} → Option A → A → A
or_else none d = d
or_else (some a) d = a

module _ {ℓ} {V : Type ℓ} where
  -- v, ok := m[k]
  unfoldable pub get : GoMap V → String → Option V
  get [] k = none
  get ((j, v) ∷ m) k = if j == k then some v else get m k

  -- m[k] = v
  unfoldable pub put : GoMap V → String → V → GoMap V
  put [] k v = (k, v) ∷ []
  put ((j, w) ∷ m) k v = if j == k then (j, v) ∷ m else (j, w) ∷ put m k v

  -- delete(m, k)
  unfoldable pub delete : GoMap V → String → GoMap V
  delete [] k = []
  delete ((j, v) ∷ m) k = let rest = delete m k in if j == k then rest else (j, v) ∷ rest

  unfoldable pub keys : GoMap V → List String
  keys [] = []
  keys ((j, v) ∷ m) = j ∷ keys m

  -- m[k], which is the zero value where there is no entry
  abbrev pub get_or : GoMap V → String → V → V
  get_or m k d = or_else (get m k) d

  pub get-put :
      (m : GoMap V) (k j : String) (v : V)
      → get (put m k v) j ≡ (if k == j then some v else get m j)
  unfolding get put
  get-put [] k j v = refl
  get-put ((i, w) ∷ m) k j v = ground (arith, eq_iff k j, eq_iff i k, eq_iff i j, get-put m k j v)

  pub get-delete :
      (m : GoMap V) (k j : String) → get (delete m k) j ≡ (if k == j then none else get m j)
  unfolding get delete
  get-delete [] k j = ground arith
  get-delete ((i, w) ∷ m) k j = ground (arith, eq_iff k j, eq_iff i k, eq_iff i j, get-delete m k j)

  -- A new key goes to the end; a known one stays where it is.
  pub keys-put :
      (m : GoMap V) (k : String) (v : V)
      → keys (put m k v) ≡ (if contains (keys m) k then keys m else keys m ++ k ∷ [])
  unfolding keys put
  keys-put [] k v = refl
  keys-put ((i, w) ∷ m) k v = ground (arith, eq_iff i k, keys-put m k v)

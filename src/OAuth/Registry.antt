-- ===== src/OAuth/Registry.antt =====
-- auth/oauth/provider.go: Registry and Use. `F` are errors; `not_registered` is
-- ErrProviderNotRegistered.
use sibyl.Prelude.{
  ◌≡◌, refl, sym, String, Bool, true, false, not, List, Option, none, some, Result, ok, err, ◌>>=◌,
  ◌>>◌, fail_if, ◌==◌, if◌then◌else◌, Bool-cases, ok-inj, err-ne-ok, inl, inr,
}
use sibyl.Prelude.Maps.{GoMap, get, put, keys, get-put}
use sibyl.OAuth.Types.{Provider}

abbrev pub or_not_registered : {F T : Type 0} → F → Option T → Result F T
or_not_registered not_registered none = err not_registered
or_not_registered not_registered (some t) = ok t

module _ {A F : Type 0} (not_registered : F) where
  abbrev pub registered_as : Option (Provider A F) → Bool
  registered_as none = false
  registered_as (some p) = true

  -- `has_arrows` says that the four arrows that a provider needs are not nil.
  unfoldable pub register_provider :
      Bool → Provider A F → GoMap (Provider A F) → Result F (GoMap (Provider A F))
  register_provider has_arrows p providers = do
    fail_if (p.name == "") not_registered
    fail_if (registered_as (get providers p.name)) not_registered
    fail_if (not has_arrows) not_registered
    ok (put providers p.name p)

  abbrev pub get_provider : GoMap (Provider A F) → String → Result F (Provider A F)
  get_provider providers name = or_not_registered not_registered (get providers name)

  -- In one of the orders of Go's iteration.
  abbrev pub provider_names : GoMap (Provider A F) → List String
  provider_names providers = keys providers

  -- A nil arrow is `none`.
  unfoldable pub use_provider :
      {I O : Type 0}
      → GoMap (Provider A F)
      → String
      → (Provider A F → Option (I → Result F O))
      → I
      → Result F O
  use_provider providers name choose input = do
    p ← get_provider providers name
    arrow ← or_not_registered not_registered (choose p)
    arrow input

  get_provider-put :
      (providers : GoMap (Provider A F)) (p : Provider A F) (name : String)
      → get_provider (put providers p.name p) name
        ≡ (if p.name == name then ok p else get_provider providers name)
  get_provider-put providers p name = elim (Bool-cases (p.name == name)) [
    | inl same ↦ rw (get-put providers p.name name p, same) refl
    | inr other ↦ rw (get-put providers p.name name p, other) refl
  ]

  -- After a Register that succeeded, the name gives the provider, which it did not before, and all
  -- other names what they gave.
  pub get_provider-register_provider :
      (has_arrows : Bool) (p : Provider A F) (providers after : GoMap (Provider A F))
      (name : String)
      → register_provider has_arrows p providers ≡ ok after
      → (registered_as (get providers p.name) ≡ false)
        × (get_provider after name ≡ (if p.name == name then ok p else get_provider providers name))
  unfolding register_provider
  get_provider-register_provider has_arrows p providers after name h =
      elim (Bool-cases (p.name == "")) [
        | inl blank ↦ err-ne-ok (rw blank at h)
        | inr named ↦ elim (Bool-cases (registered_as (get providers p.name))) [
          | inl known ↦ err-ne-ok (rw (named, known) at h)
          | inr unknown ↦ elim (Bool-cases has_arrows) [
            | inr missing ↦ err-ne-ok (rw (named, unknown, missing) at h)
            | inl complete ↦
                let same = ok-inj (rw (named, unknown, complete) at h) in
                (unknown, rw (sym same) (get_provider-put providers p name))
          ]
        ]
      ]

-- ===== src/Services/Migration/Chain.antt =====
-- The chain ends at the target version.
use backhouse_dff.Base.{
  ◌≡◌, refl, ap, ◌∙◌, inl, inr, String, true, some, text_key, ◌==◌, Bool-cases, arith,
}
use backhouse_dff.Services.Json.{
  Json, null, str, num, flag, list, obj, Fields, get, get_or, set, get-set_self,
}
use backhouse_dff.Services.Migration.{
  is_text, migrated_fields, migrate_1_0_0_to_2_0_0, migrate_loop, migrate_config,
}

-- The version of a configuration.
abbrev pub version_of : Fields → Json
version_of d = get_or "config_version" (str "1.0.0") d

is_text-eq : (v : Json) (target : String) → is_text v target ≡ true → v ≡ str target
is_text-eq (str v) target h = ap str ((text_key.eqb_iff v target).0 h)
is_text-eq null target h = ground arith
is_text-eq (num n) target h = ground arith
is_text-eq (flag b) target h = ground arith
is_text-eq (list xs) target h = ground arith
is_text-eq (obj d) target h = ground arith

-- The version is text, and so is the directory where there is one.
pub record IsConfig (default_dir : String) (d : Fields) : Type 0 where
  pub version : String
  pub has_version : version_of d ≡ str version
  pub dir : String
  pub has_dir : get_or "data_dir" (str default_dir) d ≡ str dir

set-version :
    (target : String) (d : Fields) → version_of (set "config_version" (str target) d) ≡ str target
set-version target d = rw (get-set_self "config_version" (str target) d, get_or) refl

module _ (normal : String → String) (join : String → String → String) (default_dir : String) where
  second_step :
      (target home : String) (d : Fields)
      → (d' : Fields) × (migrate_loop normal join default_dir 1 target (str "2.0.0") d ≡ some d')
        × (version_of d ≡ str "2.0.0" → version_of d' ≡ str target)
  unfolding migrate_loop
  second_step target home d = elim (Bool-cases ("2.0.0" == target)) [
    | inl reached ↦
        (d, rw reached refl, λ h. h ∙ ap str ((text_key.eqb_iff "2.0.0" target).0 reached))
    | inr other ↦ (set "config_version" (str target) d, rw other refl, λ h. set-version target d)
  ]

  -- The migration of a configuration whose version and directory are texts ends, and the version of
  -- the result is the target.
  pub migrate_config-version_of :
      (target : String) (d : Fields)
      → IsConfig default_dir d
      → (d' : Fields) × (migrate_config normal join default_dir target d ≡ some d')
        × (version_of d' ≡ str target)
  unfolding migrate_config migrate_loop migrate_1_0_0_to_2_0_0 get
  migrate_config-version_of target d c = elim (Bool-cases (c.version == target)) [
    | inl same ↦ (
      d,
      rw (c.has_version, same) refl,
      c.has_version ∙ ap str ((text_key.eqb_iff c.version target).0 same),
    )
    | inr other ↦ elim (Bool-cases (c.version == "1.0.0")) [
      | inl old ↦
          let next =
            second_step target (normal c.dir)
              (migrated_fields normal join default_dir (normal c.dir) d) in
          (next.0, rw (c.has_version, other, old, c.has_dir) next.1, next.2 refl)
      | inr new ↦ (
        set "config_version" (str target) d,
        rw (c.has_version, other, new) refl,
        set-version target d,
      )
    ]
  ]

-- ===== src/Config/Defaults.antt =====
-- The table of the options and the readers (internal/config/config.go): no reader panics.
use bitbucket_cli.Prelude.{String, ◌≡◌, refl, some, value_or, Option-cases, inl, inr, All}
use bitbucket_cli.External.{Platform}
use bitbucket_cli.World.{World}
use bitbucket_cli.Config.{get, get_or_default, default_for, readers}
use bitbucket_cli.Config.Options.{ConfigOption, value_of, options}

module _ {P : Platform} (w : World P) where
  -- What the option reads for a host: the setting, or else its default.
  abbrev pub ReadsSetting : ConfigOption → Type 0
  ReadsSetting co =
      (hostname : String)
      → co.current_value (readers w) hostname
        ≡ some (value_or (get w hostname co.key) co.default_value)

  value-get_or_default :
      (hostname key d : String)
      → default_for options key ≡ some d
      → value_of (get_or_default w hostname key) ≡ some (value_or (get w hostname key) d)
  unfolding get_or_default
  value-get_or_default hostname key d e = elim (Option-cases (get w hostname key)) [
    | inl unset ↦ rw (unset, e)
    | inr (v, set) ↦ rw set
  ]

  -- Every option of the table reads, for every host, the setting under its own key, or else the
  -- default that the table gives it; no reader panics.
  pub options_read : All ReadsSetting options
  unfolding readers default_for
  options_read =
      let read = λ (key d : String) (e : default_for options key ≡ some d) (hostname : String).
        value-get_or_default hostname key d e in
      (
        read _ _ refl,
        (
          read _ _ refl,
          (
            read _ _ refl,
            (
              read _ _ refl,
              (
                read _ _ refl,
                (
                  read _ _ refl,
                  (
                    read _ _ refl,
                    (read _ _ refl, (read _ _ refl, (read _ _ refl, (read _ _ refl, tt)))),
                  ),
                ),
              ),
            ),
          ),
        ),
      )

-- ===== src/Config.antt =====
-- internal/config/config.go: `cfg`, the general settings. The settings of a host stand under
-- `hosts`, those of an account under the host's `users`.
pub mod Keys
pub mod Options
pub mod Settings
pub mod Defaults
pub mod Migrate
use mathlib.Core.Option
use bitbucket_cli.Prelude.{
  String, Option, none, some, List, [], ◌∷◌, Bool, true, false, ◌==◌, is_some, value_or,
  if◌then◌else◌,
}
use bitbucket_cli.Prelude.Result.{Error, wrap, errorf, Result, ok, err}
use bitbucket_cli.External.{Platform}
use bitbucket_cli.Action.{Action, pure, raise, annotate, ◌>>=◌, ◌>>◌}
use bitbucket_cli.World.{World, value_at, set_key, write}
use Keys.{
  hosts_key, user_key, users_key, version_key, accessible_colors_key, accessible_prompter_key,
  browser_key, color_labels_key, editor_key, git_protocol_key, http_unix_socket_key, pager_key,
  prompt_key, prefer_editor_prompt_key, spinner_key,
}
use Options.{
  ConfigOption, ConfigEntry, ConfigSource, user_provided, default_provided, options, Readers,
}

-- `defaultFor`: the default of the first option with the key.
unfoldable pub default_for : List ConfigOption → String → Option String
default_for [] key = none
default_for (co ∷ rest) key =
    let later = default_for rest key in if co.key == key then some co.default_value else later

abbrev pub to_config_entry : ConfigSource → String → ConfigEntry
to_config_entry source val = record { value = val; source = source }

-- A migration of the configuration (`gh.Migration`).
pub record Migration (P : Platform) : Type 0 where
  pub pre_version : String
  pub post_version : String
  pub run : Action (World P) (Unit {0})

module _ {P : Platform} where
  -- `cfg.get`, with its fallback from the host's setting to the general one.
  unfoldable pub get : World P → String → String → Option String
  get w hostname key =
      let for_host = P.config.get w.file (hosts_key ∷ hostname ∷ key ∷ []) in
      let general = P.config.get w.file (key ∷ []) in
      if hostname == "" then general else if is_some for_host then for_host else general

  unfoldable pub get_or_default : World P → String → String → Option ConfigEntry
  unfolding get default_for
  get_or_default w hostname key =
      let val = get w hostname key in
      if is_some val
      then Option.map (to_config_entry user_provided) val
      else Option.map (to_config_entry default_provided) (default_for options key)

  -- The copy under the host's active user, the last part of `Set`.
  set_for_user : String → String → String → World P → World P
  set_for_user hostname key value w =
      let user = value_at w (hosts_key ∷ hostname ∷ user_key ∷ []) in
      if user == ""
      then w
      else (set_key (hosts_key ∷ hostname ∷ users_key ∷ user ∷ key ∷ []) value w).1

  unfoldable pub set : String → String → String → World P → World P
  unfolding set_for_user
  set hostname key value w =
      if hostname == ""
      then (set_key (key ∷ []) value w).1
      else set_for_user hostname key value (set_key (hosts_key ∷ hostname ∷ key ∷ []) value w).1

  -- The readers; `Unwrap` panics where there is neither a setting nor a default.
  unfoldable pub readers : World P → Readers
  unfolding get_or_default
  readers w = record {
    git_protocol = λ hostname. get_or_default w hostname git_protocol_key;
    editor = λ hostname. get_or_default w hostname editor_key;
    prompt = λ hostname. get_or_default w hostname prompt_key;
    prefer_editor_prompt = λ hostname. get_or_default w hostname prefer_editor_prompt_key;
    pager = λ hostname. get_or_default w hostname pager_key;
    http_unix_socket = λ hostname. get_or_default w hostname http_unix_socket_key;
    browser = λ hostname. get_or_default w hostname browser_key;
    color_labels = λ hostname. get_or_default w hostname color_labels_key;
    accessible_colors = λ hostname. get_or_default w hostname accessible_colors_key;
    accessible_prompter = λ hostname. get_or_default w hostname accessible_prompter_key;
    spinner = λ hostname. get_or_default w hostname spinner_key;
  }

  unfoldable pub version : World P → Option String
  unfolding get
  version w = get w "" version_key

  unfoldable pub migrate : Migration P → Action (World P) (Unit {0})
  unfolding version set
  migrate m w =
      let current = value_or (version w) "" in
      if m.post_version == current
      then (ok tt, w)
      else if m.pre_version == current
      then (do
        annotate (wrap "failed to migrate config: %s" []) m.run
        (λ w'. (ok tt, set "" version_key m.post_version w'))
        annotate (wrap "failed to write config after migration: %s" []) write)
          w
      else (
        err (
            errorf "failed to migrate as %q pre migration version did not match config version %q"
              (m.pre_version ∷ current ∷ [])),
        w,
      )

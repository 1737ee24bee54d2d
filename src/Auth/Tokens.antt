-- ===== src/Auth/Tokens.antt =====
-- internal/config/config.go: the settings of `AuthConfig` for tests, and what it reads: tokens, users and
-- hosts.
use bitbucket_cli.Prelude.{
  String, Option, none, some, List, [], ◌∷◌, Bool, false, ◌==◌, ◌!=◌, ◌||◌, value_or, if◌then◌else◌,
}
use bitbucket_cli.Prelude.Result
use bitbucket_cli.Prelude.Result.{Error, errorf, wrap, join, panic, Result, ok, err}
use bitbucket_cli.External.{Platform}
use bitbucket_cli.Keyring
use bitbucket_cli.World.{World, found}
use bitbucket_cli.Auth.Paths.{user_path, users_path, account_token_path, service}

-- The overrides are for tests.
pub record AuthConfig : Type 0 where
  pub default_host_override : Option (String × String)
  pub hosts_override : Option (List String)
  pub token_override : Option (String → String × String)

abbrev pub no_overrides : AuthConfig
no_overrides = record { default_host_override = none; hosts_override = none; token_override = none }

abbrev pub set_active_token : String → String → AuthConfig → AuthConfig
set_active_token token source c = record c { token_override = some (λ _. (token, source)) }

abbrev pub set_hosts : List String → AuthConfig → AuthConfig
set_hosts hosts c = record c { hosts_override = some hosts }

abbrev pub set_default_host : String → String → AuthConfig → AuthConfig
set_default_host host source c = record c { default_host_override = some (host, source) }

from_keyring : String → Result String → String × String
from_keyring source (ok token) = (token, "keyring")
from_keyring source (err e) = ("", source)

abbrev overridden : Option (String → String × String) → String → Bool
overridden none hostname = false
overridden (some override) hostname = (override hostname).0 != ""

in_config : String → Result String → Result (String × String)
in_config user (ok token) = ok (token, "oauth_token")
in_config user (err e) = err (errorf "no token found for '%s'" (user ∷ []))

module _ {P : Platform} where
  -- `ActiveUser`
  abbrev pub active_user : World P → String → Result String
  active_user w hostname = found (P.config.get w.file (user_path hostname))

  -- `TokenFromKeyring`
  abbrev pub token_from_keyring : World P → String → Result String
  token_from_keyring w hostname = Keyring.get P.keyring w.ring (service hostname) ""

  -- `TokenFromKeyringForUser`
  unfoldable pub token_from_keyring_for_user : World P → String → String → Result String
  token_from_keyring_for_user w hostname username =
      if username == ""
      then err (errorf "username cannot be blank" [])
      else Keyring.get P.keyring w.ring (service hostname) username

  -- The keyring part of `ActiveToken`: the active account's token, or else the host's own.
  or_host_token : World P → String → Result String → Result String
  or_host_token w hostname (ok token) = ok token
  or_host_token w hostname (err e) = token_from_keyring w hostname

  unfoldable pub keyring_token : World P → String → Result String
  unfolding or_host_token token_from_keyring_for_user
  keyring_token w hostname =
      or_host_token w hostname
        (Result.◌>>=◌ (active_user w hostname) (token_from_keyring_for_user w hostname))

  unfoldable pub active_token : AuthConfig → World P → String → String × String
  unfolding keyring_token from_keyring
  active_token c w hostname = elim c.token_override [
    | some override ↦ override hostname
    | none ↦
        let (token, source) = P.token_from_env_or_config w.file hostname in
        if token == "" then from_keyring source (keyring_token w hostname) else (token, source)
  ]

  unfoldable pub has_active_token : AuthConfig → World P → String → Bool
  unfolding active_token
  has_active_token c w hostname = (active_token c w hostname).0 != ""

  unfoldable pub has_env_token : AuthConfig → World P → Bool
  has_env_token c w =
      overridden c.token_override "example.com"
      || (P.token_from_env_or_config w.file "example.com").0 != ""

  unfoldable pub hosts : AuthConfig → World P → List String
  hosts c w = value_or c.hosts_override (P.known_hosts w.file)

  unfoldable pub default_host : AuthConfig → World P → String × String
  default_host c w = value_or c.default_host_override (P.default_host w.file)

  -- `UsersForHost`; Go's nil slice is the empty list.
  unfoldable pub users_for_host : World P → String → List String
  users_for_host w hostname = value_or (P.config.keys w.file (users_path hostname)) []

  -- `TokenForUser`: the token and its source.
  unfoldable pub token_for_user : World P → String → String → Result (String × String)
  unfolding in_config
  token_for_user w hostname user = elim (Keyring.get P.keyring w.ring (service hostname) user) [
    | ok token ↦ ok (token, "keyring")
    | err e ↦ in_config user (found (P.config.get w.file (account_token_path hostname user)))
  ]

-- ===== src/Migration.antt =====
-- internal/config/migration/multi_account.go: the migration that moves each host's settings under an
-- entry for its account. The query for the name of a token's user is a parameter.
pub mod Hosts
pub mod Secrets
use Prim.Native.String
use bitbucket_cli.Prelude.{
  String, List, [], ◌∷◌, Bool, true, false, ◌==◌, ◌!=◌, ◌&&◌, if◌then◌else◌, none, some, value_or,
}
use bitbucket_cli.Prelude.Result.{
  Error, errorf, wrap, secret_not_found, key_not_found, Result, ok, err,
}
use bitbucket_cli.External.{Platform}
use bitbucket_cli.Action.{Action, pure, raise, lift, attempt, annotate, ◌>>=◌, ◌>>◌}
use bitbucket_cli.Keyring
use bitbucket_cli.World.{World, value_at, get_key, set_key, remove_key, set_secret}
use bitbucket_cli.Config.{Migration}
use bitbucket_cli.Config.Keys.{hosts_key}
use bitbucket_cli.Auth.Paths.{host_path, user_path, token_path, account_path, account_token_path}

-- `keyringServiceName` of the migration.
unfoldable pub migration_service : String → String
migration_service hostname = String.◌++◌ "gh:" hostname

pub record TokenSource : Type 0 where
  pub token : String
  pub in_keyring : Bool

-- What `getToken` returns; `no_token` is its sentinel error.
pub data TokenLookup : Type 0 where
  token_found : TokenSource → TokenLookup
  no_token : TokenLookup
  lookup_failed : Error → TokenLookup

-- `CowardlyRefusalError`
abbrev pub cowardly_refusal : Error → Error
cowardly_refusal = wrap "cowardly refusing to continue with multi account migration: %s" []

from_secret : Result String → TokenLookup
from_secret (ok token) =
    if token == "" then no_token else token_found (record { token = token; in_keyring = true })
from_secret (err secret_not_found) = no_token
from_secret (err e) = lookup_failed e

-- Go calls the API for a host without a user's name.
abbrev pub ViewerQuery : Type 0
ViewerQuery = String → String → Result String

module _ {P : Platform} where
  unfoldable pub get_token : World P → String → TokenLookup
  unfolding from_secret
  get_token w hostname =
      let token = value_at w (token_path hostname) in
      if token != ""
      then token_found (record { token = token; in_keyring = false })
      else from_secret (Keyring.get P.keyring w.ring (migration_service hostname) "")

  unfoldable pub get_username : ViewerQuery → World P → String → String → Result String
  get_username viewer w hostname token =
      let username = value_at w (user_path hostname) in
      if username != "" && username != "x-access-token" then ok username else viewer hostname token

  unfoldable pub migrate_token : String → String → TokenSource → Action (World P) (Unit {0})
  migrate_token hostname username source =
      if source.in_keyring
      then set_secret (migration_service hostname) username source.token
      else pure tt

  copy_token : String → String → Result String → Action (World P) (Unit {0})
  copy_token hostname username (ok insecure_token) =
      set_key (account_token_path hostname username) insecure_token
  copy_token hostname username (err key_not_found) = pure tt
  copy_token hostname username (err e) =
      raise (wrap "couldn't get oauth token for %s: %s" (hostname ∷ []) e)

  unfoldable pub migrate_config : String → String → Action (World P) (Unit {0})
  unfolding copy_token
  migrate_config hostname username = do
    set_key (user_path hostname) username
    set_key (account_path hostname username) ""
    insecure_token ← attempt (get_key (token_path hostname))
    copy_token hostname username insecure_token

  -- The body of the loop in `Do`.
  migrate_found : ViewerQuery → String → TokenLookup → Action (World P) (Unit {0})
  migrate_found viewer hostname no_token = do attempt (remove_key (host_path hostname)); pure tt
  migrate_found viewer hostname (lookup_failed e) =
      raise (cowardly_refusal (wrap "couldn't find oauth token for %q: %w" (hostname ∷ []) e))
  migrate_found viewer hostname (token_found source) = do
    username ←
        annotate
          (λ e. cowardly_refusal (
            wrap "couldn't get user name for %q please visit %s for help: %w"
              (hostname ∷ "https://github.com/cli/cli/issues/8441" ∷ []) e))
          (lift (λ w. get_username viewer w hostname source.token))
    annotate (λ e. cowardly_refusal (wrap "couldn't migrate config for %q: %w" (hostname ∷ []) e))
        (migrate_config hostname username)
    annotate
        (λ e. cowardly_refusal (wrap "couldn't migrate oauth token for %q: %w" (hostname ∷ []) e))
        (migrate_token hostname username source)

  unfoldable pub migrate_host : ViewerQuery → String → Action (World P) (Unit {0})
  unfolding migrate_found
  migrate_host viewer hostname w = migrate_found viewer hostname (get_token w hostname) w

  unfoldable pub migrate_hosts : ViewerQuery → List String → Action (World P) (Unit {0})
  migrate_hosts viewer [] = pure tt
  migrate_hosts viewer (hostname ∷ rest) = do
    migrate_host viewer hostname
    migrate_hosts viewer rest

  -- `MultiAccount`. Without a `hosts` key there is nothing to do.
  unfoldable pub multi_account : ViewerQuery → Migration P
  unfolding migrate_hosts
  multi_account viewer = record {
    pre_version = "";
    post_version = "1";
    run = λ w. migrate_hosts viewer (value_or (P.config.keys w.file (hosts_key ∷ [])) []) w;
  }

-- ===== src/Commands/Token.antt =====
-- pkg/cmd/auth/token/token.go: `bb auth token`. What a run prints is its result.
pub mod AfterLogin
use Prim.Native.String
use bitbucket_cli.Prelude.{String, List, [], ◌∷◌, Bool, ◌==◌, if◌then◌else◌}
use bitbucket_cli.Prelude.Result
use bitbucket_cli.Prelude.Result.{Error, Result, ok, err, errorf}
use bitbucket_cli.External.{Platform}
use bitbucket_cli.World.{World}
use bitbucket_cli.Auth.{AuthConfig, default_host, active_token, token_for_user}
use bitbucket_cli.Auth.{token_from_keyring, token_from_keyring_for_user}
use bitbucket_cli.Commands.Status.{user_or_blank, token_or_blank}

pub record TokenOptions : Type 0 where
  pub config : Result AuthConfig
  pub hostname : String
  pub username : String
  pub secure_storage : Bool

no_token : TokenOptions → String → Error
no_token opts hostname =
    if opts.username == ""
    then errorf "no token found for %s" (hostname ∷ [])
    else errorf "no token found for %s account %s" (hostname ∷ opts.username ∷ [])

printed : Error → String → Result String
printed e value = if value == "" then err e else ok value

module _ {P : Platform} where
  -- The value that is looked up, blank where there is an error.
  unfoldable pub token_value : TokenOptions → AuthConfig → World P → String → String
  token_value opts c w hostname =
      if opts.secure_storage
      then (if opts.username == ""
          then user_or_blank (token_from_keyring w hostname)
          else user_or_blank (token_from_keyring_for_user w hostname opts.username))
      else if opts.username == ""
      then (active_token c w hostname).0
      else (token_or_blank (token_for_user w hostname opts.username)).0

  -- `tokenRun`
  unfoldable pub token_run : TokenOptions → World P → Result String
  unfolding no_token printed
  token_run opts w = Result.◌>>=◌ opts.config (λ c.
      let hostname = if opts.hostname == "" then (default_host c w).0 else opts.hostname in
      printed (no_token opts hostname) (token_value opts c w hostname))

-- ===== src/Commands/Logout.antt =====
-- pkg/cmd/auth/logout/logout.go: `bb auth logout`.
pub mod Outcome
use Prim.Native.String
use bitbucket_cli.Prelude.{
  String, List, [], ◌∷◌, ◌++◌, map, Bool, true, false, ◌==◌, ◌!=◌, ◌&&◌, not, ℕ, if◌then◌else◌,
  contains, length, nat_eq,
}
use bitbucket_cli.Prelude.Result
use bitbucket_cli.Prelude.Result.{Error, Result, ok, err, errorf, wrap, silent}
use bitbucket_cli.External.{Platform}
use bitbucket_cli.Action.{Action, pure, raise, lift, attempt, re_error, ◌>>=◌, ◌>>◌}
use bitbucket_cli.World.{World, value_at}
use bitbucket_cli.Auth.Paths.{user_path}
use bitbucket_cli.Auth.{AuthConfig, hosts, users_for_host, logout}
use bitbucket_cli.Commands.{Console, Select, on_world, print, auth_token_writeable, at}
use bitbucket_cli.Commands.Switch.{check_known}

pub record LogoutOptions : Type 0 where
  pub config : Result AuthConfig
  pub can_prompt : Bool
  pub select : Select
  pub hostname : String
  pub username : String

-- The host and the user of a candidate.
unfoldable pub host_accounts : String → String → List String → List (String × String)
host_accounts username host [] = []
host_accounts username host (user ∷ rest) =
    let later = host_accounts username host rest in
    if username != "" && user != username then later else (host, user) ∷ later

account_text : String × String → String
account_text (host, user) = String.◌++◌ user (String.◌++◌ " (" (String.◌++◌ host ")"))

unfoldable pub choose_account : LogoutOptions → List (String × String) → Result (String × String)
unfolding account_text
choose_account opts [] = err (errorf "no accounts matched that criteria" [])
choose_account opts (c ∷ []) = ok c
choose_account opts (c ∷ d ∷ rest) =
    if opts.can_prompt
    then Result.◌>>=◌
        (re_error (wrap "could not prompt: %w" [])
          (opts.select "What account do you want to log out of?" (map account_text (c ∷ d ∷ rest))))
        (at (c ∷ d ∷ rest))
    else err (
        errorf
          "unable to determine which account to log out of, please specify `--hostname` and `--user`"
          [])

module _ {P : Platform} where
  unfoldable pub accounts : World P → String → String → List String → List (String × String)
  accounts w hostname username [] = []
  accounts w hostname username (host ∷ rest) =
      let later = accounts w hostname username rest in
      if hostname != "" && host != hostname
      then later
      else host_accounts username host (users_for_host w host) ++ later

  -- The guards, the search and the choice of `logoutRun`: the account to log out of.
  unfoldable pub logout_target : LogoutOptions → AuthConfig → World P → Result (String × String)
  logout_target opts c w =
      Result.◌>>=◌ (check_known c w opts.hostname opts.username)
        (λ _. choose_account opts (accounts w opts.hostname opts.username (hosts c w)))

  refuse_env : AuthConfig → String → Action (Console P) (Unit {0})
  refuse_env c hostname s =
      let (src, writeable) = auth_token_writeable c s.world hostname in
      if writeable
      then (ok tt, s)
      else (do
        print "The value of the %s environment variable is being used for authentication.\n"
            (src ∷ [])
        print
            "To erase credentials stored in Bitbucket CLI, first clear the value from the environment.\n"
            []
        raise silent)
          s

  report : String → String → String → String → Action (Console P) (Unit {0})
  report hostname username before after = do
    print "%s Logged out of %s account %s\n" (hostname ∷ username ∷ [])
    if before != after && after != ""
        then print "%s Switched active account for %s to %s\n" (hostname ∷ after ∷ [])
        else pure tt

  -- `logoutRun`
  unfoldable pub logout_run : LogoutOptions → Action (Console P) (Unit {0})
  unfolding refuse_env report
  logout_run opts = do
    c ← lift (λ s. opts.config)
    target ← lift (λ s. logout_target opts c s.world)
    refuse_env c target.0
    before ← lift (λ s. ok (value_at s.world (user_path target.0)))
    on_world (logout target.0 target.1)
    after ← lift (λ s. ok (value_at s.world (user_path target.0)))
    report target.0 target.1 before after

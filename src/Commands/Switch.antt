-- ===== src/Commands/Switch.antt =====
-- pkg/cmd/auth/switch/switch.go: `bb auth switch`.
pub mod Candidates
pub mod Outcome
use Prim.Native.String
use bitbucket_cli.Prelude.{
  String, List, [], ◌∷◌, ◌++◌, map, Bool, true, false, ◌==◌, ◌!=◌, ◌&&◌, not, ℕ, if◌then◌else◌,
  contains, length, nat_eq,
}
use bitbucket_cli.Prelude.Result
use bitbucket_cli.Prelude.Result.{Error, Result, ok, err, errorf, wrap, silent}
use bitbucket_cli.External.{Platform}
use bitbucket_cli.Action.{Action, pure, raise, lift, attempt, re_error, ◌>>=◌, ◌>>◌}
use bitbucket_cli.World.{World}
use bitbucket_cli.Auth.{AuthConfig, hosts, users_for_host, active_user, switch_user}
use bitbucket_cli.Commands.{Console, Select, on_world, print, auth_token_writeable, at}

-- `config` is what `opts.Config` returns.
pub record SwitchOptions : Type 0 where
  pub config : Result AuthConfig
  pub can_prompt : Bool
  pub select : Select
  pub hostname : String
  pub username : String

pub record HostUser : Type 0 where
  pub host : String
  pub user : String
  pub active : Bool

-- The accounts of a host that the name given selects.
unfoldable pub host_candidates : String → String → String → List String → List HostUser
host_candidates username host active_name [] = []
host_candidates username host active_name (user ∷ rest) =
    let later = host_candidates username host active_name rest in
    if username != "" && user != username
    then later
    else record { host = host; user = user; active = user == active_name } ∷ later

-- The text of a choice.
choice_text : HostUser → String
choice_text c =
    let prompt = String.◌++◌ c.user (String.◌++◌ " (" (String.◌++◌ c.host ")")) in
    if c.active then String.◌++◌ prompt " - active" else prompt

module _ (opts : SwitchOptions) where
  ask : List HostUser → Result (String × String)
  unfolding choice_text
  ask candidates =
      if opts.can_prompt
      then Result.◌>>=◌
          (re_error (wrap "could not prompt: %w" [])
            (opts.select "What account do you want to switch to?" (map choice_text candidates)))
          (λ selected. Result.◌>>=◌ (at candidates selected) (λ c. ok (c.host, c.user)))
      else err (
          errorf
            "unable to determine which account to switch to, please specify `--hostname` and `--user`"
            [])

  unfoldable pub choose : List HostUser → Result (String × String)
  unfolding ask
  choose [] = err (errorf "no accounts matched that criteria" [])
  choose (c ∷ []) = ok (c.host, c.user)
  choose (c ∷ d ∷ []) =
      if c.host == d.host
      then ok (c.host, if c.active then d.user else c.user)
      else ask (c ∷ d ∷ [])
  choose (c ∷ d ∷ e ∷ rest) = ask (c ∷ d ∷ e ∷ rest)

module _ {P : Platform} where
  unfoldable pub candidates : World P → String → String → List String → Result (List HostUser)
  candidates w hostname username [] = ok []
  candidates w hostname username (host ∷ rest) =
      let later = candidates w hostname username rest in
      if hostname != "" && host != hostname
      then later
      else Result.◌>>=◌ (active_user w host) (λ active_name.
        Result.◌>>=◌ later
          (λ l. ok (host_candidates username host active_name (users_for_host w host) ++ l)))

  -- The checks before the candidates are gathered.
  unfoldable pub check_known : AuthConfig → World P → String → String → Result (Unit {0})
  check_known c w hostname username =
      let known = hosts c w in
      if nat_eq (length known) 0
      then err (errorf "not logged in to any hosts" [])
      else if hostname != "" && not (contains known hostname)
      then err (errorf "not logged in to %s" (hostname ∷ []))
      else if hostname != ""
          && username != ""
          && not (contains (users_for_host w hostname) username)
      then err (errorf "not logged in to %s account %s" (hostname ∷ username ∷ []))
      else ok tt

  -- The guards, the search and the choice of `switchRun`: the account to switch to.
  unfoldable pub switch_target : SwitchOptions → AuthConfig → World P → Result (String × String)
  switch_target opts c w =
      Result.◌>>=◌ (check_known c w opts.hostname opts.username)
        (λ _. Result.◌>>=◌ (candidates w opts.hostname opts.username (hosts c w)) (choose opts))

  refuse_env : AuthConfig → String → Action (Console P) (Unit {0})
  refuse_env c hostname s =
      let (src, writeable) = auth_token_writeable c s.world hostname in
      if writeable
      then (ok tt, s)
      else (do
        print "The value of the %s environment variable is being used for authentication.\n"
            (src ∷ [])
        print
            "To have GitHub CLI manage credentials instead, first clear the value from the environment.\n"
            []
        raise silent)
          s

  report : String → String → Result (Unit {0}) → Action (Console P) (Unit {0})
  report hostname username (ok _) =
      print "%s Switched active account for %s to %s\n" (hostname ∷ username ∷ [])
  report hostname username (err e) = do
    print "%s Failed to switch account for %s to %s\n" (hostname ∷ username ∷ [])
    raise e

  -- `switchRun`
  unfoldable pub switch_run : SwitchOptions → Action (Console P) (Unit {0})
  unfolding refuse_env report
  switch_run opts = do
    c ← lift (λ s. opts.config)
    target ← lift (λ s. switch_target opts c s.world)
    refuse_env c target.0
    switched ← attempt (on_world (switch_user c target.0 target.1))
    report target.0 target.1 switched

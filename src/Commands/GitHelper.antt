-- ===== src/Commands/GitHelper.antt =====
-- pkg/cmd/auth/shared/gitcredentials/helper_config.go and pkg/cmd/auth/setupgit/setupgit.go: the
-- settings that make the program a credential helper of git. shlex's `Split` is a parameter, and what
-- setupGitRun prints is left out.
pub mod Settings
pub mod Written
use bitbucket_cli.Prelude.{
  ℕ, Bool, true, false, ◌&&◌, ◌||◌, not, Option, none, some, List, [], ◌∷◌, ◌++◌, if◌then◌else◌,
}
use bitbucket_cli.Prelude.Codes.{
  Text, codes, text_eq, has_prefix, has_code, trim_suffix, equal_fold, slash,
}
use bitbucket_cli.Prelude.Result.{Error, text_error, wrap, silent, Result, ok, err}
use bitbucket_cli.Action.{Action, pure, raise, lift, attempt, annotate, ◌>>=◌, ◌>>◌}
use bitbucket_cli.Github.{GhAuth, github_host_prefix, gist_host}
use bitbucket_cli.GitClient.{GitLib, Git, execute}
use bitbucket_cli.GitClient.Operations.{config, path_base}

-- `keyFor`
unfoldable pub key_for : Text → Text
key_for hostname =
    codes "credential." ++ trim_suffix (github_host_prefix hostname) (slash ∷ []) ++ codes ".helper"

-- `shellQuote`
unfoldable pub shell_quote : Text → Text
shell_quote s = if has_code 32 s || has_code 36 s || has_code 92 s then 39 ∷ s ++ 39 ∷ [] else s

-- The keys of ConfigureOurs: that of the host, and that of its gists where they have a host.
unfoldable pub helper_keys : GhAuth → Text → List Text
unfolding key_for
helper_keys auth hostname =
    let gists = trim_suffix (gist_host auth hostname) (slash ∷ []) in
    key_for hostname ∷ (if has_prefix gists (codes "gist.") then key_for gists ∷ [] else [])

-- The arguments of the two calls for a key: the first ends the chain of helpers, the second adds ours.
abbrev pub clear_arguments : Text → List Text
clear_arguments key = codes "config" ∷ codes "--global" ∷ codes "--replace-all" ∷ key ∷ [] ∷ []

abbrev pub add_arguments : Text → Text → List Text
add_arguments self key =
    codes "config"
    ∷ codes "--global"
    ∷ codes "--add"
    ∷ key
    ∷ (codes "!" ++ shell_quote self ++ codes " auth git-credential")
    ∷ []

-- The field `Cmd` of a `Helper`, and its two tests.
abbrev pub is_configured : Text → Bool
is_configured cmd = not (text_eq cmd [])

names_ours : Option (List Text) → Bool
names_ours none = false
names_ours (some []) = false
names_ours (some (program ∷ rest)) =
    text_eq (trim_suffix (path_base program) (codes ".exe")) (codes "gh")

unfoldable pub is_ours : (Text → Option (List Text)) → Text → Bool
unfolding names_ours
is_ours split [] = false
is_ours split (c ∷ cmd) = if has_prefix (c ∷ cmd) (codes "!") then names_ours (split cmd) else false

-- The value that `Config` returns beside its error.
abbrev pub value_of : Result Text → Text
value_of (ok value) = value
value_of (err e) = []

abbrev pub error_of : Result Text → Option Error
error_of (ok value) = none
error_of (err e) = some e

abbrev pub beside : Text → Option Error → Result Text
beside cmd none = ok cmd
beside cmd (some e) = err e

module _ {L : GitLib} (auth : GhAuth) where
  configure_keys : Text → List Text → Action (Git L) (Unit {0})
  configure_keys self [] = pure tt
  configure_keys self (key ∷ keys) = do
    execute (clear_arguments key)
    execute (add_arguments self key)
    configure_keys self keys

  -- `ConfigureOurs`
  unfoldable pub configure_ours : Text → Text → Action (Git L) (Unit {0})
  unfolding configure_keys
  configure_ours self hostname = configure_keys self (helper_keys auth hostname)

  -- `ConfiguredHelper`
  unfoldable pub configured_helper : Text → Action (Git L) Text
  unfolding key_for
  configured_helper hostname = do
    own ← attempt (config (key_for hostname))
    if text_eq (value_of own) []
        then (do
          other ← attempt (config (codes "credential.helper"))
          lift (λ s.
              if text_eq (value_of other) []
              then ok []
              else beside (value_of other) (error_of other)))
        else lift (λ s. beside (value_of own) (error_of own))

-- `has`
unfoldable pub has_host : Text → List Text → Bool
has_host needle [] = false
has_host needle (s ∷ rest) = equal_fold s needle || has_host needle rest

-- `hosts` is what the configuration gives, or its error; `self` the executable.
pub record SetupGitOptions : Type 0 where
  pub hosts : Result (List Text)
  pub hostname : Text
  pub force : Bool
  pub self : Text

abbrev not_logged_in : Text → Error
not_logged_in hostname =
    text_error
      "You are not logged into the GitHub host %q. Run %s to authenticate or provide `--force`"
      (hostname ∷ (codes "gh auth login -h " ++ hostname) ∷ [])

module _ {L : GitLib} (auth : GhAuth) where
  set_up : Text → Text → Action (Git L) (Unit {0})
  set_up self hostname =
      annotate (wrap "failed to set up git credential helper: %s" [])
        (configure_ours auth self hostname)

  set_up_all : Text → List Text → Action (Git L) (Unit {0})
  unfolding set_up
  set_up_all self [] = pure tt
  set_up_all self (hostname ∷ rest) = do set_up self hostname; set_up_all self rest

  set_up_known : Text → List Text → Action (Git L) (Unit {0})
  unfolding set_up_all
  set_up_known self [] = raise silent
  set_up_known self (hostname ∷ rest) = set_up_all self (hostname ∷ rest)

  -- `setupGitRun`
  unfoldable pub setup_git_run : SetupGitOptions → Action (Git L) (Unit {0})
  unfolding set_up set_up_known
  setup_git_run opts = do
    hosts ← lift (λ s. opts.hosts)
    if text_eq opts.hostname []
        then set_up_known opts.self hosts
        else if not opts.force && not (has_host opts.hostname hosts)
        then raise (not_logged_in opts.hostname)
        else set_up opts.self opts.hostname

-- ===== src/GitClient/Credentials.antt =====
-- git/client.go: the commands that reach the network, with bb as the credential helper of git; and the
-- exit code of an error.
use bitbucket_cli.Prelude.{
  ℕ, Bool, false, Option, none, some, List, [], ◌∷◌, ◌++◌, nat_eq, if◌then◌else◌,
}
use bitbucket_cli.Prelude.Codes.{Text, codes, text_eq, trim_suffix, slash}
use bitbucket_cli.Prelude.Int.{ℤ, pos, negsuc}
use bitbucket_cli.Prelude.Result.{Error, errorf, wrap, git_error, Result, ok, err}
use bitbucket_cli.Action.{Action, lift, ◌>>=◌}
use bitbucket_cli.GitUrl.{GitUrl, parse_git_url}
use bitbucket_cli.Github.{github_host_prefix}
use bitbucket_cli.GitClient.{GitLib, Git, Command, command}

-- The GitError among an error and those that it wraps: its exit code.
unfoldable pub exit_code : Error → Option ℤ
exit_code (git_error code stderr cause) = some code
exit_code (wrap format arguments e) = exit_code e
exit_code other = none

abbrev pub is_code : ℕ → ℤ → Bool
is_code n (pos m) = nat_eq m n
is_code n (negsuc m) = false

unfoldable pub has_exit_code : ℕ → Error → Bool
has_exit_code n e = elim (exit_code e) [ none ↦ false | some code ↦ is_code n code ]

-- `CredentialPattern`
pub data CredentialPattern : Type 0 where
  all_matching : CredentialPattern
  pattern : Text → CredentialPattern

-- `CredentialPatternFromHost`
unfoldable pub credential_pattern_from_host : Text → CredentialPattern
credential_pattern_from_host host = pattern (trim_suffix (github_host_prefix host) (slash ∷ []))

pattern_of : Option GitUrl → Result CredentialPattern
pattern_of none = err (errorf "failed to parse remote URL: %w" [])
pattern_of (some u) = ok (credential_pattern_from_host u.host)

-- `CredentialPatternFromGitURL`
unfoldable pub credential_pattern_from_git_url :
    (Text → Option GitUrl) → Text → Result CredentialPattern
unfolding pattern_of
credential_pattern_from_git_url parse_url git_url = pattern_of (parse_git_url parse_url git_url)

-- The settings that make bb the credential helper; an empty pattern is refused.
unfoldable pub helper_arguments : CredentialPattern → Text → Result (List Text)
helper_arguments all_matching helper = ok (
    codes "-c"
    ∷ codes "credential.helper="
    ∷ codes "-c"
    ∷ (codes "credential.helper=" ++ helper)
    ∷ [])
helper_arguments (pattern p) helper =
    if text_eq p []
    then err (errorf "empty credential pattern is not allowed unless provided explicitly" [])
    else ok (
        codes "-c"
        ∷ (codes "credential." ++ p ++ codes ".helper=")
        ∷ codes "-c"
        ∷ (codes "credential." ++ p ++ codes ".helper=" ++ helper)
        ∷ [])

module _ {L : GitLib} where
  -- Without a path of its own bb is assumed to be "gh" in the PATH.
  unfoldable pub find_gh : Action (Git L) Text
  find_gh s =
      if text_eq s.client.gh_path []
      then (ok (codes "gh"), record s { client = record s.client { gh_path = codes "gh" } })
      else (ok s.client.gh_path, s)

  -- `AuthenticatedCommand`
  unfoldable pub authenticated_command : CredentialPattern → List Text → Action (Git L) Command
  authenticated_command p arguments = do
    gh ← find_gh
    helpers ←
        lift (λ s. helper_arguments p (codes "!" ++ L.quote gh ++ codes " auth git-credential"))
    command (helpers ++ arguments)

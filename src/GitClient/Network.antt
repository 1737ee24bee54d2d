-- ===== src/GitClient/Network.antt =====
-- git/client.go: the operations that make network calls, for which bb gives the credentials.
use bitbucket_cli.Prelude.{Bool, false, ◌&&◌, ◌||◌, not, List, [], ◌∷◌, ◌++◌, if◌then◌else◌}
use bitbucket_cli.Prelude.Codes.{Text, codes, text_eq, trim_suffix}
use bitbucket_cli.Action.{Action, pure, lift, ◌>>=◌, ◌>>◌}
use bitbucket_cli.GitClient.{GitLib, Git, run_command}
use bitbucket_cli.GitClient.Credentials.{
  CredentialPattern, all_matching, credential_pattern_from_git_url, authenticated_command,
}
use bitbucket_cli.GitClient.Output.{parse_clone_args}
use bitbucket_cli.GitClient.Operations.{path_base}

-- `slices.Contains`
abbrev pub has_argument : Text → List Text → Bool
has_argument x [] = false
has_argument x (a ∷ rest) = text_eq a x || has_argument x rest

-- Where git clones to, of the arguments with the URL: the target that was given, or else the last
-- part of the URL's path.
unfoldable pub clone_target : Text → Text → List Text → Text
clone_target target url arguments =
    if text_eq target []
    then path_base (trim_suffix url (codes ".git"))
      ++ (if has_argument (codes "--bare") arguments then codes ".git" else [])
    else target

module _ {L : GitLib} where
  unfoldable pub run_authenticated : CredentialPattern → List Text → Action (Git L) (Unit {0})
  run_authenticated p arguments = do cmd ← authenticated_command p arguments; run_command cmd

  unfoldable pub fetch : Text → Text → Action (Git L) (Unit {0})
  fetch remote refspec =
      run_authenticated all_matching
        (codes "fetch" ∷ remote ∷ (if text_eq refspec [] then [] else refspec ∷ []))

  unfoldable pub pull : Text → Text → Action (Git L) (Unit {0})
  pull remote branch = run_authenticated all_matching (
      codes "pull"
      ∷ codes "--ff-only"
      ∷ (if not (text_eq remote []) && not (text_eq branch []) then remote ∷ branch ∷ [] else []))

  unfoldable pub push : Text → Text → Action (Git L) (Unit {0})
  push remote ref =
      run_authenticated all_matching (codes "push" ∷ codes "--set-upstream" ∷ remote ∷ ref ∷ [])

  -- `Clone`: where the repository was cloned to.
  unfoldable pub clone : Text → List Text → Action (Git L) Text
  clone url arguments = do
    p ← lift (λ s. credential_pattern_from_git_url L.parse_url url)
    let parsed = parse_clone_args arguments
    let with_url = parsed.0 ++ url ∷ []
    run_authenticated p
        (codes "clone" ∷ (if text_eq parsed.1 [] then with_url else with_url ++ parsed.1 ∷ []))
    pure (clone_target parsed.1 url with_url)

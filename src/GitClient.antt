-- ===== src/GitClient.antt =====
-- git/client.go, git/command.go and git/errors.go: the client that runs the git executable. A command
-- is a path and its arguments; the processes that were started are kept in order.
pub mod Output
pub mod Credentials
pub mod Network
pub mod Placed
pub mod Everywhere
pub mod Operations
use bitbucket_cli.Prelude.{
  ℕ, String, Bool, true, false, ◌&&◌, not, Option, none, some, List, [], ◌∷◌, ◌++◌, if◌then◌else◌,
}
use bitbucket_cli.Prelude.Codes.{Text, codes, text_eq, trim_suffix, slash}
use bitbucket_cli.Prelude.Int.{ℤ, pos}
use bitbucket_cli.Prelude.Result.{Error, errorf, text_error, wrap, git_error, Result, ok, err}
use bitbucket_cli.Action.{Action, pure, raise, lift, annotate, ◌>>=◌, ◌>>◌}
use bitbucket_cli.Repo.{Url}
use bitbucket_cli.GitUrl.{GitUrl, parse_git_url}

-- How a process ends: what it wrote to standard output, and where it fails the exit code, which is 0
-- where it did not start, what it wrote to standard error, and the error of the call.
pub record Failure : Type 0 where
  pub exit_code : ℤ
  pub stderr : Text
  pub cause : Error

pub record Ending : Type 0 where
  pub out : Text
  pub failure : Option Failure

-- What the client calls: `look_path` is safeexec's LookPath of git, `is_not_found` tells its error
-- ErrNotFound, `parse_url` is `url.Parse`, `run` starts a process and waits for it, and `quote` is
-- `%q`.
pub record GitLib : Type 1 where
  pub Files : Type 0
  pub look_path : Files → Result Text
  pub is_not_found : Error → Bool
  pub windows : Bool
  pub parse_url : Text → Option GitUrl
  pub quote : Text → Text
  pub run : Text → List Text → Files → Ending × Files

-- `captures_stderr`: the field Stderr is set.
pub record Client : Type 0 where
  pub gh_path : Text
  pub repo_dir : Text
  pub git_path : Text
  pub captures_stderr : Bool

-- A prepared `exec.Cmd`.
pub record Command : Type 0 where
  pub path : Text
  pub arguments : List Text

pub record Git (L : GitLib) : Type 0 where
  pub client : Client
  pub files : L.Files
  pub ran : List Command

-- `NotInstalled` of resolveGitPath wraps the error of LookPath.
resolve_error : (L : GitLib) → Error → Error
resolve_error L e =
    if L.is_not_found e
    then wrap "unable to find git executable in PATH; please install %s before retrying"
        ((if L.windows then "Git for Windows" else "git") ∷ []) e
    else e

resolved : (L : GitLib) → Result Text → Result Text
unfolding resolve_error
resolved L (ok path) = ok path
resolved L (err e) = err (resolve_error L e)

-- `resolveGitPath`
unfoldable pub resolve_git_path : (L : GitLib) → L.Files → Result Text
unfolding resolved
resolve_git_path L files = resolved L (L.look_path files)

-- The arguments, in the directory of the repository where the client has one.
unfoldable pub in_repo_dir : Client → List Text → List Text
in_repo_dir c arguments =
    if text_eq c.repo_dir [] then arguments else codes "-C" ∷ c.repo_dir ∷ arguments

abbrev pub error_of : Option Failure → Option Error
error_of none = none
error_of (some f) = some (git_error f.exit_code f.stderr f.cause)

abbrev pub or_error : Text × Option Error → Result Text
or_error (out, none) = ok out
or_error (out, some e) = err e

-- The error of `Run`, which has what git wrote where the client gives standard error no other place.
abbrev pub run_error : Bool → Option Failure → Result (Unit {0})
run_error captured none = ok tt
run_error captured (some f) =
    err (git_error f.exit_code (if captured then [] else f.stderr) f.cause)

module _ {L : GitLib} where
  keep_path : Result Text → Git L → Result Text × Git L
  keep_path (ok path) s = (ok path, record s { client = record s.client { git_path = path } })
  keep_path (err e) s = (err e, record s { client = record s.client { git_path = [] } })

  -- The path of git, which is looked up once.
  unfoldable pub find_git : Action (Git L) Text
  unfolding keep_path
  find_git s =
      if text_eq s.client.git_path []
      then keep_path (resolve_git_path L s.files) s
      else (ok s.client.git_path, s)

  -- `Command`
  unfoldable pub command : List Text → Action (Git L) Command
  command arguments = do
    placed ← lift (λ s. ok (in_repo_dir s.client arguments))
    path ← find_git
    pure (record { path = path; arguments = placed })

  -- The process runs; standard output comes back beside the error.
  unfoldable pub run_process : Command → Git L → Ending × Git L
  run_process cmd s =
      let (ending, files) = L.run cmd.path cmd.arguments s.files in
      (ending, record s { files = files; ran = s.ran ++ cmd ∷ [] })

  -- `Output`: what git wrote, and the error.
  unfoldable pub output_and_error : Command → Action (Git L) (Text × Option Error)
  output_and_error cmd s =
      let (ending, t) = run_process cmd s in (ok (ending.out, error_of ending.failure), t)

  -- `Run`
  unfoldable pub run_command : Command → Action (Git L) (Unit {0})
  run_command cmd s =
      let (ending, t) = run_process cmd s in (run_error s.client.captures_stderr ending.failure, t)

  -- `Command` and then `Output`, with the output beside its error.
  unfoldable pub ask : List Text → Action (Git L) (Text × Option Error)
  ask arguments = do cmd ← command arguments; output_and_error cmd

  -- The same where the caller returns the error.
  unfoldable pub run : List Text → Action (Git L) Text
  run arguments = do answer ← ask arguments; lift (λ s. or_error answer)

  -- A command of which only the error is returned.
  unfoldable pub execute : List Text → Action (Git L) (Unit {0})
  execute arguments = do run arguments; pure tt

-- ===== src/PullRequest/Target.antt =====
-- The start of closeRun, reviewRun, checksRun and diffRun in pkg/cmd/pr: the pull request that an
-- argument names. The base repository is asked for only where the argument names none.
use bitbucket_cli.Prelude.{Option, none, some}
use bitbucket_cli.Prelude.Codes.{Text}
use bitbucket_cli.Prelude.Decimal.{ℤ}
use bitbucket_cli.Prelude.Result.{Result, ok, ◌>>=◌}
use bitbucket_cli.Repo.{Repo}
use bitbucket_cli.Selector.{parse_pr_arg}

-- The options that the four commands share.
pub record Target : Type 0 where
  pub http_client : Result (Unit {0})
  pub base_repo : Result Repo
  pub selector_arg : Text

abbrev pub or_base : Result Repo → Option Repo → Result Repo
or_base base none = base
or_base base (some repo) = ok repo

unfoldable pub find_target : Target → Result (ℤ × Repo)
find_target opts = do
  _ ← opts.http_client
  named ← parse_pr_arg opts.selector_arg
  repo ← or_base opts.base_repo named.1
  ok (named.0, repo)

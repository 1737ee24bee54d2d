-- ===== src/PullRequest/Close.antt =====
-- pkg/cmd/pr/close/close.go: `bb pr close`.
pub mod Outcome
use bitbucket_cli.Prelude.{String, not, none, [], ◌∷◌, nat_eq, if◌then◌else◌}
use bitbucket_cli.Prelude.Codes.{Text, codes, text_eq}
use bitbucket_cli.Prelude.Decimal.{ℤ, show_int}
use bitbucket_cli.Prelude.Result.{text_error, wrap, silent, Result}
use bitbucket_cli.Action.{Action, pure, raise, lift, annotate, ◌>>=◌, ◌>>◌}
use bitbucket_cli.Repo.{Repo}
use bitbucket_cli.Api.{
  HttpLib, Session, Request, do_request, handle_http_error, content_json, print_err,
}
use bitbucket_cli.PullRequest.{
  PullRequest, merged_state, declined_state, pr_url, fetch_pull_request,
}
use bitbucket_cli.PullRequest.Target.{Target, find_target}

unfoldable pub decline_request : Repo → ℤ → Request
decline_request repo id = record {
  method = "POST";
  url = pr_url repo id (codes "/decline");
  headers = content_json ∷ [];
  body = none;
}

module _ {H : HttpLib} where
  -- `declinePR`
  unfoldable pub decline_pr : Repo → ℤ → Action (Session H) (Unit {0})
  decline_pr repo id = do
    r ← do_request (decline_request repo id)
    if nat_eq r.status 404
        then raise (text_error "pull request #%d not found" (show_int id ∷ []))
        else if not (nat_eq r.status 200)
        then raise (handle_http_error H (pr_url repo id (codes "/decline")) r)
        else pure tt

  -- What follows once the pull request is fetched.
  unfoldable pub close_fetched : Repo → ℤ → PullRequest → Action (Session H) (Unit {0})
  close_fetched repo id pr =
      if text_eq pr.state merged_state
      then (do
        print_err "%s Pull request #%d (%s) can't be closed because it was already merged\n"
            (show_int pr.id ∷ pr.title ∷ [])
        raise silent)
      else if text_eq pr.state declined_state
      then print_err "%s Pull request #%d (%s) is already closed (declined)\n"
          (show_int pr.id ∷ pr.title ∷ [])
      else (do
        annotate (wrap "failed to close pull request: %w" []) (decline_pr repo id)
        print_err "%s Closed pull request #%d (%s)\n" (show_int pr.id ∷ pr.title ∷ []))

  -- `closeRun`
  unfoldable pub close_run : (Text → Result PullRequest) → Target → Action (Session H) (Unit {0})
  close_run decode opts = do
    target ← lift (λ s. find_target opts)
    pr ← fetch_pull_request decode target.1 target.0
    close_fetched target.1 target.0 pr

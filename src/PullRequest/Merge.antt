-- ===== src/PullRequest/Merge.antt =====
-- pkg/cmd/pr/merge/merge.go: `bb pr merge`.
pub mod Outcome
use bitbucket_cli.Prelude.{
  String, Bool, not, Option, none, some, List, [], ◌∷◌, ◌++◌, nat_eq, value_or, if◌then◌else◌,
}
use bitbucket_cli.Prelude.Codes.{Text, codes, text_eq}
use bitbucket_cli.Prelude.Decimal.{ℤ, show_int}
use bitbucket_cli.Prelude.Result.{Error, text_error, Result, ok, err}
use bitbucket_cli.Action.{Action, pure, raise, lift, ◌>>=◌, ◌>>◌}
use bitbucket_cli.Repo.{Repo}
use bitbucket_cli.Selector.{parse_pr_arg}
use bitbucket_cli.Api.{
  HttpLib, Scalar, text, flag, Session, Request, do_request, handle_http_error, accept_json,
  content_json, print_out,
}
use bitbucket_cli.PullRequest.{PullRequest, open_state, state_display, pr_url, fetch_pull_request}

-- `http_client` and `base_repo` are what the functions of the options return.
pub record MergeOptions : Type 0 where
  pub http_client : Result (Unit {0})
  pub base_repo : Result Repo
  pub selector_arg : Text
  pub merge_strategy : Text
  pub message : Text
  pub close_source : Bool

-- A field of the body, where it is not empty.
abbrev pub optional_field : String → Text → List (String × Scalar)
optional_field name value = if text_eq value [] then [] else (name, text value) ∷ []

-- The body of the request.
unfoldable pub merge_body : MergeOptions → List (String × Scalar)
merge_body opts =
    ("close_source_branch", flag opts.close_source)
    ∷ (optional_field "merge_strategy" opts.merge_strategy ++ optional_field "message" opts.message)

unfoldable pub merge_request : Repo → ℤ → Text → Request
merge_request repo id body = record {
  method = "POST";
  url = pr_url repo id (codes "/merge");
  headers = content_json ∷ accept_json ∷ [];
  body = some body;
}

module _ {H : HttpLib} where
  -- `mergePullRequest`
  unfoldable pub merge_pull_request : Repo → ℤ → MergeOptions → Action (Session H) (Unit {0})
  merge_pull_request repo id opts = do
    body ← lift (λ s. H.marshal (merge_body opts))
    r ← do_request (merge_request repo id body)
    if not (nat_eq r.status 200)
        then raise (handle_http_error H (pr_url repo id (codes "/merge")) r)
        else pure tt

  -- What follows once the pull request is fetched.
  unfoldable pub merge_open : Repo → ℤ → MergeOptions → PullRequest → Action (Session H) (Unit {0})
  merge_open repo id opts pr =
      if not (text_eq pr.state open_state)
      then raise (
          text_error "pull request #%d is not open (state: %s)"
            (show_int id ∷ state_display pr ∷ []))
      else (do
        merge_pull_request repo id opts
        print_out "%s Merged pull request #%d\n" (show_int id ∷ []))

  -- `mergeRun`
  unfoldable pub merge_run :
      (Text → Result PullRequest) → MergeOptions → Action (Session H) (Unit {0})
  merge_run decode opts = do
    lift (λ s. opts.http_client)
    base ← lift (λ s. opts.base_repo)
    named ← lift (λ s. parse_pr_arg opts.selector_arg)
    let repo = value_or named.1 base
    pr ← fetch_pull_request decode repo named.0
    merge_open repo named.0 opts pr

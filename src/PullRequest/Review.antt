-- ===== src/PullRequest/Review.antt =====
-- pkg/cmd/pr/review/review.go: `bb pr review`.
pub mod Outcome
use bitbucket_cli.Prelude.{
  ℕ, zero, suc, ◌+◌, String, Bool, true, false, not, ◌&&◌, ◌==◌, Option, none, some, List, [], ◌∷◌,
  nat_eq, ltb, if◌then◌else◌,
}
use bitbucket_cli.Prelude.Codes.{Text, codes, text_eq}
use bitbucket_cli.Prelude.Decimal.{ℤ, show_int}
use bitbucket_cli.Prelude.Result.{Error, errorf, text_error, wrap, Result, ok, err}
use bitbucket_cli.Action.{Action, pure, raise, lift, annotate, ◌>>=◌, ◌>>◌}
use bitbucket_cli.Repo.{Repo}
use bitbucket_cli.Api.{
  HttpLib, Session, Request, Response, do_request, handle_http_error, content_json, present,
  print_err,
}
use bitbucket_cli.PullRequest.{pr_url}
use bitbucket_cli.PullRequest.Target.{Target, find_target}

abbrev pub count : Bool → ℕ
count true = 1
count false = 0

-- The type of review that the three flags ask for, of which just one must be set.
unfoldable pub review_type : Bool → Bool → Bool → Result String
review_type approve unapprove request_changes =
    let found = count approve + count unapprove + count request_changes in
    if nat_eq found 0
    then err (errorf "--approve, --unapprove, or --request-changes required" [])
    else if ltb 1 found
    then err (errorf "need exactly one of --approve, --unapprove, or --request-changes" [])
    else if request_changes
    then ok "request-changes"
    else if unapprove
    then ok "unapprove"
    else ok "approve"

unfoldable pub approve_request : Repo → ℤ → Request
approve_request repo id = record {
  method = "POST";
  url = pr_url repo id (codes "/approve");
  headers = content_json ∷ [];
  body = none;
}

unfoldable pub unapprove_request : Repo → ℤ → Request
unapprove_request repo id = record {
  method = "DELETE";
  url = pr_url repo id (codes "/approve");
  headers = [];
  body = none;
}

unfoldable pub changes_request : Repo → ℤ → Request
changes_request repo id = record {
  method = "POST";
  url = pr_url repo id (codes "/request-changes");
  headers = content_json ∷ [];
  body = some (codes "{}");
}

-- The message of an error response, where there is one that is not empty, or else another error.
message_or : Error → Option Text → Error
message_or e none = e
message_or e (some message) = if text_eq message [] then e else text_error "%s" (message ∷ [])

-- What `approvePR` makes of the answer.
unfoldable pub approve_error : (H : HttpLib) → Repo → ℤ → Response → Option Error
unfolding message_or
approve_error H repo id r =
    if nat_eq r.status 404
    then some (text_error "pull request #%d not found" (show_int id ∷ []))
    else if nat_eq r.status 400
    then some (
        message_or
          (errorf "cannot approve pull request (you may not be able to approve your own PR)" [])
          (H.error_message r.body))
    else if not (nat_eq r.status 200) && not (nat_eq r.status 409)
    then some (handle_http_error H (pr_url repo id (codes "/approve")) r)
    else none

-- What `unapprovePR` makes of the answer.
unfoldable pub unapprove_error : (H : HttpLib) → Repo → ℤ → Response → Option Error
unapprove_error H repo id r =
    if nat_eq r.status 404
    then some (text_error "pull request #%d not found or not approved" (show_int id ∷ []))
    else if not (nat_eq r.status 204) && not (nat_eq r.status 200)
    then some (handle_http_error H (pr_url repo id (codes "/approve")) r)
    else none

-- What `requestChangesPR` makes of the answer. The error of the API is made of what the decoding
-- leaves of the body.
unfoldable pub changes_error : (H : HttpLib) → Repo → ℤ → Response → Option Error
unfolding message_or
changes_error H repo id r =
    if nat_eq r.status 404
    then some (text_error "pull request #%d not found" (show_int id ∷ []))
    else if not (nat_eq r.status 200) && not (nat_eq r.status 201) && not (nat_eq r.status 409)
    then some (
        message_or
          (handle_http_error H (pr_url repo id (codes "/request-changes"))
            (record { status = r.status; body = H.unread r.body }))
          (H.error_message r.body))
    else none

module _ {H : HttpLib} where
  -- `approvePR`, `unapprovePR` and `requestChangesPR`: the request, and the error of the answer.
  unfoldable pub send_review : Request → (Response → Option Error) → Action (Session H) (Unit {0})
  send_review request error_of = do r ← do_request request; lift (λ s. present (error_of r))

  unfoldable pub approve_pr : Repo → ℤ → Action (Session H) (Unit {0})
  approve_pr repo id = send_review (approve_request repo id) (approve_error H repo id)

  unfoldable pub unapprove_pr : Repo → ℤ → Action (Session H) (Unit {0})
  unapprove_pr repo id = send_review (unapprove_request repo id) (unapprove_error H repo id)

  unfoldable pub request_changes_pr : Repo → ℤ → Action (Session H) (Unit {0})
  request_changes_pr repo id = send_review (changes_request repo id) (changes_error H repo id)

  -- A message for the terminal, where standard output is one.
  unfoldable pub report : Bool → String → ℤ → Action (Session H) (Unit {0})
  report is_tty format id = if is_tty then print_err format (show_int id ∷ []) else pure tt

  -- The switch of `reviewRun` over the type of review.
  unfoldable pub review : Bool → String → Repo → ℤ → Action (Session H) (Unit {0})
  review is_tty kind repo id =
      if kind == "approve"
      then (do
        annotate (wrap "failed to approve pull request: %w" []) (approve_pr repo id)
        report is_tty "%s Approved pull request #%d\n" id)
      else if kind == "unapprove"
      then (do
        annotate (wrap "failed to unapprove pull request: %w" []) (unapprove_pr repo id)
        report is_tty "%s Removed approval from pull request #%d\n" id)
      else if kind == "request-changes"
      then (do
        annotate (wrap "failed to request changes: %w" []) (request_changes_pr repo id)
        report is_tty "%s Requested changes on pull request #%d\n" id)
      else pure tt

  -- `reviewRun`
  unfoldable pub review_run : Target → Bool → String → Action (Session H) (Unit {0})
  review_run opts is_tty kind = do
    target ← lift (λ s. find_target opts)
    review is_tty kind target.1 target.0

-- ===== src/Tests/Api.antt =====
-- Runs of the commands that call the API, against a server that gives its answers in turn.
use bitbucket_cli.Prelude.{
  ℕ, String, ◌≡◌, ◌<◌, refl, true, false, Option, none, some, List, [], ◌∷◌,
}
use bitbucket_cli.Prelude.Codes.{Text, codes}
use bitbucket_cli.Prelude.Int.{pos}
use bitbucket_cli.Prelude.Decimal.{show_nat, show_int, digits, atoi}
use bitbucket_cli.Prelude.Result.{Result, ok, err, silent}
use bitbucket_cli.Repo.{Repo, rest_prefix, is_cloud, new_with_host}
use bitbucket_cli.Api.{
  get, rest, rest_with_url, send_json, rest_headers, HttpLib, Request, Response, Session,
  do_request, accept_json,
}
use bitbucket_cli.Pipeline.{
  Pipeline, find_pipeline, first_pipeline, fetch_pipeline, stop_pipeline, number_path, stop_path,
  is_running, cancel_run,
}
use bitbucket_cli.Pipeline.Cancelled.{Cancelled, cancel_run_done}
use bitbucket_cli.PullRequest.{
  Links, User, Branch, PullRequest, Comment, Page, empty_page, pr_url, repository_path,
  fetch_pull_request, merged_state,
}
use bitbucket_cli.PullRequest.Comments.{fetch_page, after_page, fetch_pages, fetch_comments}
use bitbucket_cli.PullRequest.Comments.Walk.{Walk, fetch_comments_iff}
use bitbucket_cli.PullRequest.Merge.{MergeOptions, merge_pull_request, merge_open, merge_run}
use bitbucket_cli.PullRequest.Merge.Outcome.{Merged, merge_run_done}
use bitbucket_cli.PullRequest.Target.{Target, find_target}
use bitbucket_cli.PullRequest.Close.{decline_pr, close_fetched, close_run}
use bitbucket_cli.PullRequest.Close.Outcome.{Closed, close_run_done}
use bitbucket_cli.PullRequest.Review.{
  approve_error, approve_pr, send_review, report, review, review_run, review_type,
}
use bitbucket_cli.PullRequest.Review.Outcome.{Reviewed, review_run_done}
use bitbucket_cli.Selector.{
  parse_pr_arg, parse_pipeline_arg, parse_arg, pr_path, pipeline_path, leading_digits,
}
use bitbucket_cli.Selector.RoundTrip.{IsPart, page, parse_args-page}

unfoldable pub scripted : Request → List Response → Result Response × List Response
scripted r [] = (err silent, [])
scripted r (a ∷ rest) = (ok a, rest)

abbrev pub sample_http : HttpLib
sample_http = record {
  Server = List Response;
  new_request = λ method url. none;
  send = scripted;
  status_text = λ n. [];
  marshal = λ members. ok [];
  error_response = λ body. none;
  next_page = λ body. none;
  error_message = λ body. none;
  unread = λ body. [];
}

abbrev pub reply : ℕ → String → Response
reply status body = record { status = status; body = codes body }

abbrev pub session : List Response → Session sample_http
session answers = record { server = answers; sent = []; out = []; err_out = [] }

abbrev no_links : Links
no_links = record { html = []; self = []; avatar = [] }

abbrev nobody : User
nobody = record { display_name = []; uuid = []; account_id = []; nickname = []; links = no_links }

abbrev no_branch : Branch
no_branch = record {
  name = [];
  hash = [];
  repository = record { full_name = []; uuid = []; name = []; links = no_links };
}

-- A pull request whose state is the body of the reply.
abbrev decode_pr : Text → Result PullRequest
decode_pr state = ok (record {
  id = pos 7;
  title = [];
  description = [];
  state = state;
  author = nobody;
  source = no_branch;
  destination = no_branch;
  created_on = [];
  updated_on = [];
  close_source = false;
  links = no_links;
  reviewers = [];
  merge_commit = none;
  comment_count = pos 0;
  task_count = pos 0;
})

abbrev base : Repo
base = record { workspace = codes "acme"; slug = codes "site"; hostname = codes "bitbucket.org" }

abbrev target : Target
target = record { http_client = ok tt; base_repo = ok base; selector_arg = codes "7" }

abbrev merge_options : MergeOptions
merge_options = record {
  http_client = ok tt;
  base_repo = ok base;
  selector_arg = codes "7";
  merge_strategy = codes "squash";
  message = [];
  close_source = true;
}

-- Tests of the commands name this on their `unfolding` line.
unfoldable pub api : Unit {0}
unfolding scripted do_request fetch_pull_request pr_url repository_path rest_prefix is_cloud
    show_int show_nat digits codes parse_pr_arg parse_arg atoi find_target
api = tt

-- The state after a run.
abbrev after : {A : Type 0} → Result A × Session sample_http → Session sample_http
after r = r.1

merges : merge_run decode_pr merge_options (session (reply 200 "OPEN" ∷ reply 200 "" ∷ [])) ≡ (
  ok tt,
  after (merge_run decode_pr merge_options (session (reply 200 "OPEN" ∷ reply 200 "" ∷ []))),
)
unfolding api merge_run merge_open merge_pull_request
merges = refl

merge_run_done_example :
    Merged decode_pr merge_options
      (session (reply 200 "OPEN" ∷ reply 200 "" ∷ []))
      (after (merge_run decode_pr merge_options (session (reply 200 "OPEN" ∷ reply 200 "" ∷ []))))
merge_run_done_example =
    merge_run_done decode_pr merge_options (session (reply 200 "OPEN" ∷ reply 200 "" ∷ []))
      (after (merge_run decode_pr merge_options (session (reply 200 "OPEN" ∷ reply 200 "" ∷ []))))
      merges

closes :
    close_run decode_pr target (session (reply 200 "OPEN" ∷ reply 200 "" ∷ []))
    ≡ (ok tt, after (close_run decode_pr target (session (reply 200 "OPEN" ∷ reply 200 "" ∷ []))))
unfolding api close_run close_fetched decline_pr
closes = refl

close_run_done_example :
    Closed decode_pr target
      (session (reply 200 "OPEN" ∷ reply 200 "" ∷ []))
      (after (close_run decode_pr target (session (reply 200 "OPEN" ∷ reply 200 "" ∷ []))))
close_run_done_example =
    close_run_done decode_pr target (session (reply 200 "OPEN" ∷ reply 200 "" ∷ []))
      (after (close_run decode_pr target (session (reply 200 "OPEN" ∷ reply 200 "" ∷ [])))) closes

abbrev merged_pr : Session sample_http
merged_pr = session (reply 200 "MERGED" ∷ [])

fetches :
    fetch_pull_request decode_pr base (pos 7) merged_pr
    ≡ (decode_pr merged_state, after (fetch_pull_request decode_pr base (pos 7) merged_pr))
unfolding api
fetches = refl

approves :
    review_run target false "approve" (session (reply 200 "" ∷ []))
    ≡ (ok tt, after (review_run target false "approve" (session (reply 200 "" ∷ []))))
unfolding api review_run review approve_pr send_review approve_error report
approves = refl

asks_to_approve : review_type true false false ≡ ok "approve"
unfolding review_type
asks_to_approve = refl

review_run_done_example :
    Reviewed true false target
      (session (reply 200 "" ∷ []))
      (after (review_run target false "approve" (session (reply 200 "" ∷ []))))
review_run_done_example =
    review_run_done target false true false false "approve" (session (reply 200 "" ∷ []))
      (after (review_run target false "approve" (session (reply 200 "" ∷ [])))) asks_to_approve
      approves

abbrev comment : ℕ → Comment
comment n = record {
  id = pos n;
  created_on = [];
  updated_on = [];
  raw = [];
  markup = [];
  html = [];
  user = nobody;
  inline = none;
  parent = none;
  deleted = false;
  links = no_links;
}

-- A page of two comments, whose next page has the body as its URL.
abbrev decode_comments : Text → Result (Page Comment)
decode_comments next = ok (record empty_page { next = next; values = comment 1 ∷ comment 2 ∷ [] })

abbrev two_pages : Session sample_http
two_pages = session (reply 200 "https://next" ∷ reply 200 "" ∷ [])

abbrev comments : Option (Result (List Comment) × Session sample_http)
comments = fetch_comments decode_comments 3 base (pos 7) two_pages

abbrev read_comments : Session sample_http
read_comments = record two_pages {
  server = [];
  sent =
      record {
        method = "GET";
        url = pr_url base (pos 7) (codes "/comments?pagelen=100");
        headers = accept_json ∷ [];
        body = none;
      }
      ∷ record {
        method = "GET";
        url = codes "https://next";
        headers = accept_json ∷ [];
        body = none;
      }
      ∷ [];
}

commented : comments ≡ some (ok (comment 1 ∷ comment 2 ∷ comment 1 ∷ comment 2 ∷ []), read_comments)
unfolding api fetch_comments fetch_pages after_page fetch_page
commented = refl

fetch_comments_iff_example :
    (n : ℕ) × (n < 3)
    × Walk decode_comments
        (pr_url base (pos 7) (codes "/comments?pagelen=100"))
        two_pages
        n
        (ok (comment 1 ∷ comment 2 ∷ comment 1 ∷ comment 2 ∷ []))
        read_comments
fetch_comments_iff_example =
    (fetch_comments_iff decode_comments 3 base (pos 7) two_pages
        (ok (comment 1 ∷ comment 2 ∷ comment 1 ∷ comment 2 ∷ [])) read_comments).0
      commented

acme : IsPart (codes "acme")
unfolding codes
acme = record { no_slash = refl; ne_nil = λ h. cc }

abbrev page_rest : Text
page_rest = codes "/diff"

no_digits : leading_digits page_rest ≡ []
unfolding codes
no_digits = refl

abbrev acme_repo : Repo
acme_repo = record { workspace = codes "acme"; slug = codes "acme"; hostname = codes "acme" }

parse_args-page_example :
    (parse_pr_arg (page pr_path acme_repo 42 page_rest)
      ≡ ok (pos 42, some (new_with_host (codes "acme") (codes "acme") (codes "acme"))))
    × (parse_pipeline_arg (page pipeline_path acme_repo 42 page_rest)
        ≡ ok (pos 42, some (new_with_host (codes "acme") (codes "acme") (codes "acme"))))
parse_args-page_example = parse_args-page acme_repo 42 page_rest acme acme acme no_digits refl

abbrev decode_pipelines : Text → Result (Page Pipeline)
decode_pipelines name = ok (record empty_page {
  values =
      record {
        uuid = codes "{1}";
        target = none;
        state = some (record { name = name; result = none; stage = none });
        html = [];
      }
      ∷ [];
})

abbrev running : Session sample_http
running = session (reply 200 "PAUSED" ∷ reply 204 "" ∷ [])

cancels :
    cancel_run decode_pipelines false target running
    ≡ (ok tt, after (cancel_run decode_pipelines false target running))
unfolding api cancel_run find_pipeline parse_pipeline_arg fetch_pipeline get rest rest_with_url
    number_path first_pipeline is_running stop_pipeline stop_path send_json rest_headers
cancels = refl

cancel_run_done_example :
    Cancelled decode_pipelines target running
      (after (cancel_run decode_pipelines false target running))
cancel_run_done_example =
    cancel_run_done decode_pipelines false target running
      (after (cancel_run decode_pipelines false target running)) cancels

-- ===== src/PullRequest.antt =====
-- pkg/cmd/pr/shared/shared.go and pkg/cmd/pr/list/http.go: pull requests, and the calls that fetch
-- them. PullRequest.Comments follows the pages of a list. Times stay texts, as in the source; the decoding of JSON is a parameter.
pub mod Comments
pub mod Fetched
pub mod Merge
pub mod Target
pub mod Asked
pub mod Close
pub mod Review
pub mod Checks
use bitbucket_cli.Prelude.{
  Bool, not, Option, none, List, [], ◌∷◌, ◌++◌, nat_eq, length, value_or, if◌then◌else◌,
}
use bitbucket_cli.Prelude.Codes.{Text, codes, text_eq, to_lower, to_upper, slash}
use bitbucket_cli.Prelude.Decimal.{ℤ, pos, show_int}
use bitbucket_cli.Prelude.Result.{text_error, Result}
use bitbucket_cli.Action.{Action, pure, raise, lift, ◌>>=◌}
use bitbucket_cli.Repo.{Repo, rest_prefix}
use bitbucket_cli.Api.{HttpLib, Session, do_request, handle_http_error, accept_json, get}

-- `Links`: the field `Href` of each.
pub record Links : Type 0 where
  pub html : Text
  pub self : Text
  pub avatar : Text

pub record User : Type 0 where
  pub display_name : Text
  pub uuid : Text
  pub account_id : Text
  pub nickname : Text
  pub links : Links

pub record RepositoryRef : Type 0 where
  pub full_name : Text
  pub uuid : Text
  pub name : Text
  pub links : Links

-- `Branch`, with the name of the branch and the hash of the commit as fields.
pub record Branch : Type 0 where
  pub name : Text
  pub hash : Text
  pub repository : RepositoryRef

pub record PullRequest : Type 0 where
  pub id : ℤ
  pub title : Text
  pub description : Text
  pub state : Text
  pub author : User
  pub source : Branch
  pub destination : Branch
  pub created_on : Text
  pub updated_on : Text
  pub close_source : Bool
  pub links : Links
  pub reviewers : List User
  pub merge_commit : Option Text
  pub comment_count : ℤ
  pub task_count : ℤ

pub record Inline : Type 0 where
  pub path : Text
  pub from : Option ℤ
  pub to : Option ℤ

pub record Comment : Type 0 where
  pub id : ℤ
  pub created_on : Text
  pub updated_on : Text
  pub raw : Text
  pub markup : Text
  pub html : Text
  pub user : User
  pub inline : Option Inline
  pub parent : Option ℤ
  pub deleted : Bool
  pub links : Links

-- A page of a list, as PullRequestList, CommentList and the other lists are.
pub record Page (A : Type 0) : Type 0 where
  pub size : ℤ
  pub page : ℤ
  pub page_len : ℤ
  pub next : Text
  pub previous : Text
  pub values : List A

abbrev pub empty_page : {A : Type 0} → Page A
empty_page = record {
  size = pos 0;
  page = pos 0;
  page_len = pos 0;
  next = [];
  previous = [];
  values = [];
}

-- The states of the API.
abbrev pub open_state : Text
open_state = codes "OPEN"

abbrev pub merged_state : Text
merged_state = codes "MERGED"

abbrev pub declined_state : Text
declined_state = codes "DECLINED"

abbrev pub superseded_state : Text
superseded_state = codes "SUPERSEDED"

-- `StateDisplay`
unfoldable pub state_display : PullRequest → Text
state_display pr =
    if text_eq pr.state open_state
    then codes "Open"
    else if text_eq pr.state merged_state
    then codes "Merged"
    else if text_eq pr.state declined_state
    then codes "Declined"
    else if text_eq pr.state superseded_state
    then codes "Superseded"
    else pr.state

-- `HeadBranch`, `BaseBranch` and `HTMLURL`
abbrev pub head_branch : PullRequest → Text
head_branch pr = pr.source.name

abbrev pub base_branch : PullRequest → Text
base_branch pr = pr.destination.name

abbrev pub html_url : PullRequest → Text
html_url pr = pr.links.html

-- `PRStateFromString`
unfoldable pub pr_state_from_string : Text → Text
pr_state_from_string state =
    let s = to_lower state in
    if text_eq s (codes "open")
    then open_state
    else if text_eq s (codes "merged")
    then merged_state
    else if text_eq s (codes "declined")
    then declined_state
    else if text_eq s (codes "closed")
    then declined_state
    else if text_eq s (codes "superseded")
    then superseded_state
    else if text_eq s (codes "all")
    then []
    else to_upper state

-- `repositories/WORKSPACE/SLUG/` and what follows.
unfoldable pub repository_path : Repo → Text → Text
repository_path r rest = codes "repositories/" ++ r.workspace ++ slash ∷ r.slug ++ slash ∷ rest

-- The URL of a pull request in the API, and what follows.
unfoldable pub pr_url : Repo → ℤ → Text → Text
unfolding repository_path
pr_url r id rest =
    rest_prefix r.hostname ++ repository_path r (codes "pullrequests/" ++ show_int id ++ rest)

module _ {H : HttpLib} where
  -- `FetchPullRequest`
  unfoldable pub fetch_pull_request :
      (Text → Result PullRequest) → Repo → ℤ → Action (Session H) PullRequest
  fetch_pull_request decode repo id = do
    let url = pr_url repo id []
    r ← do_request (record { method = "GET"; url = url; headers = accept_json ∷ []; body = none })
    if nat_eq r.status 404
        then raise (text_error "pull request #%d not found" (show_int id ∷ []))
        else if not (nat_eq r.status 200)
        then raise (handle_http_error H url r)
        else lift (λ s. decode r.body)

pub record ListOptions : Type 0 where
  pub http_client : Result (Unit {0})
  pub base_repo : Result Repo
  pub state : Text
  pub author : Text
  pub limit : ℤ

-- `state="…" AND author.nickname="…"`, of the parts that are asked for.
unfoldable pub list_query : ListOptions → List Text
list_query opts =
    let state = pr_state_from_string opts.state in
    (if text_eq state [] then [] else (codes "state=\"" ++ state ++ codes "\"") ∷ [])
    ++ (if text_eq opts.author []
        then []
        else (codes "author.nickname=\"" ++ opts.author ++ codes "\"") ∷ [])

abbrev pub join_and : List Text → Text
join_and [] = []
join_and (part ∷ []) = part
join_and (part ∷ next ∷ parts) = part ++ codes " AND " ++ join_and (next ∷ parts)

-- `params`, by name in the order in which `Encode` writes them.
unfoldable pub list_params : ListOptions → List (Text × Text)
unfolding list_query
list_params opts =
    let parts = list_query opts in
    (codes "pagelen", show_int opts.limit)
    ∷ (if nat_eq (length parts) 0 then [] else (codes "q", join_and parts) ∷ [])

module _ {H : HttpLib} where
  -- `fetchPullRequests`; `encode` is `Encode` of url.Values.
  unfoldable pub fetch_pull_requests :
      (List (Text × Text) → Text)
      → (Text → Result (Page PullRequest))
      → Repo
      → ListOptions
      → Action (Session H) (List PullRequest)
  unfolding list_params
  fetch_pull_requests encode decode repo opts = do
    found ←
        get repo.hostname
          (repository_path repo (codes "pullrequests?" ++ encode (list_params opts))) decode
    pure (value_or found empty_page).values

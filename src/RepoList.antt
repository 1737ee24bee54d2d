-- ===== src/RepoList.antt =====
-- pkg/cmd/repo/list/http.go: the repositories of a user or of a workspace, page by page, up to a
-- limit. The limit is a natural number: the command refuses one below 1. `encode` is `Encode` of
-- url.Values, and the decodings of the two kinds of page are parameters.
pub mod Listed
use bitbucket_cli.Prelude.{
  ℕ, zero, suc, String, Bool, true, false, ◌&&◌, not, Option, none, some, List, [], ◌∷◌, ◌++◌, leb,
  ltb, nat_eq, is_some, length, if◌then◌else◌,
}
use bitbucket_cli.Prelude.Codes.{Text, codes, text_eq, equal_fold}
use bitbucket_cli.Prelude.Decimal.{ℤ, pos, negsuc, show_nat, show_int}
use bitbucket_cli.Prelude.Result.{Result, ok, err, wrap}
use bitbucket_cli.Action.{re_error}
use bitbucket_cli.Repo.{rest_prefix}
use bitbucket_cli.Api.{HttpLib, Session}
use bitbucket_cli.PullRequest.{Page, join_and}
use bitbucket_cli.PullRequest.Comments.{fetch_page}

-- `Repository` of api/types.go, with the slug of its workspace and the full name of its parent.
pub record Repository : Type 0 where
  pub uuid : Text
  pub name : Text
  pub slug : Text
  pub full_name : Text
  pub description : Text
  pub is_private : Bool
  pub language : Text
  pub workspace : Text
  pub parent : Option Text

-- The filters that the functions read.
pub record FilterOptions : Type 0 where
  pub visibility : Text
  pub fork : Bool
  pub source : Bool
  pub language : Text

pub record RepositoryList : Type 0 where
  pub owner : Text
  pub repositories : List Repository
  pub total_count : ℤ
  pub from_search : Bool

-- The filters of the client: forks only, no forks, and for the user's list the language.
unfoldable pub is_kept : FilterOptions → Repository → Bool
is_kept filter repo =
    if filter.fork && not (is_some repo.parent)
    then false
    else if filter.source && is_some repo.parent
    then false
    else true

unfoldable pub is_kept_for_user : FilterOptions → Repository → Bool
unfolding is_kept
is_kept_for_user filter repo =
    is_kept filter repo
    && not (not (text_eq filter.language []) && not (equal_fold repo.language filter.language))

-- What is appended for one repository. The user's list takes its owner from the first repository
-- whose workspace has a slug.
unfoldable pub append_repo : RepositoryList → Repository → RepositoryList
append_repo result repo = record result { repositories = result.repositories ++ repo ∷ [] }

unfoldable pub append_user_repo : RepositoryList → Repository → RepositoryList
append_user_repo result repo = record result {
  repositories = result.repositories ++ repo ∷ [];
  owner =
      if text_eq result.owner [] && not (text_eq repo.workspace [])
      then repo.workspace
      else result.owner;
}

-- The loop over the values of a page, which stops at the limit.
unfoldable pub add_values :
    (Repository → Bool)
    → (RepositoryList → Repository → RepositoryList)
    → ℕ
    → RepositoryList
    → List Repository
    → RepositoryList
add_values keep append limit result [] = result
add_values keep append limit result (repo ∷ rest) =
    let skipped = add_values keep append limit result rest in
    let added = append result repo in
    let continued = add_values keep append limit added rest in
    if keep repo
    then (if leb limit (length added.repositories) then added else continued)
    else skipped

abbrev pub Loop : HttpLib → Type 0
Loop H = Text → RepositoryList → Session H → Option (Result RepositoryList × Session H)

module _ {H : HttpLib} (keep : Repository → Bool)
    (append : RepositoryList → Repository → RepositoryList) (limit : ℕ) where
  -- After a page: the next one, with its repositories added and the size that it gives.
  unfoldable pub after_list :
      Loop H
      → RepositoryList
      → Result (Page Repository) × Session H
      → Option (Result RepositoryList × Session H)
  after_list next result (ok p, s) =
      next p.next (record (add_values keep append limit result p.values) { total_count = p.size }) s
  after_list next result (err e, s) = some (err e, s)

  -- The loop over the pages, on fuel: `none` means that the fuel ran out.
  unfoldable pub list_pages : (Text → Result (Page Repository)) → ℕ → Loop H
  unfolding after_list
  list_pages decode zero url result s = none
  list_pages decode (suc fuel) url result s =
      let more = after_list (list_pages decode fuel) result (fetch_page decode url s) in
      if not (text_eq url []) && ltb (length result.repositories) limit
      then more
      else some (ok result, s)

-- The error of a body that does not decode.
abbrev pub decode_or_wrap : {A : Type 0} → (Text → Result A) → Text → Result A
decode_or_wrap decode body = re_error (wrap "failed to decode response: %w" []) (decode body)

abbrev pub page_length : ℕ → Text
page_length limit = show_nat (if leb limit 100 then limit else 100)

-- The part of the query for the visibility.
unfoldable pub visibility_query : Text → Text → List Text
visibility_query field visibility =
    if text_eq visibility (codes "private")
    then (field ++ codes "=true") ∷ []
    else if text_eq visibility (codes "public")
    then (field ++ codes "=false") ∷ []
    else []

abbrev pub list_url : (List (Text × Text) → Text) → Text → ℕ → List Text → Text
list_url encode api_url limit query =
    api_url
    ++ codes "?"
    ++ encode (
        (codes "pagelen", page_length limit)
        ∷ (if leb (length query) 0 then [] else (codes "q", join_and query) ∷ []))

unfoldable pub user_url : (List (Text × Text) → Text) → Text → ℕ → FilterOptions → Text
unfolding visibility_query
user_url encode hostname limit filter =
    list_url encode (rest_prefix hostname ++ codes "user/permissions/repositories") limit
      (visibility_query (codes "repository.is_private") filter.visibility)

-- `quote` is `%q`.
unfoldable pub workspace_url :
    (List (Text × Text) → Text) → (Text → Text) → Text → ℕ → Text → FilterOptions → Text
unfolding visibility_query
workspace_url encode quote hostname limit workspace filter =
    list_url encode (rest_prefix hostname ++ codes "repositories/" ++ workspace) limit (
      visibility_query (codes "is_private") filter.visibility
      ++ (if text_eq filter.language []
          then []
          else (codes "language=" ++ quote filter.language) ∷ []))

abbrev pub empty_list : Text → RepositoryList
empty_list owner = record {
  owner = owner;
  repositories = [];
  total_count = pos 0;
  from_search = false;
}

-- What the functions take from the libraries: the decodings of a page of permissions, whose values
-- hold a repository each, and of a page of repositories.
pub record Listing : Type 0 where
  pub encode : List (Text × Text) → Text
  pub quote : Text → Text
  pub decode_permissions : Text → Result (Page Repository)
  pub decode_repositories : Text → Result (Page Repository)

module _ {H : HttpLib} (l : Listing) (fuel : ℕ) (hostname : Text) (limit : ℕ) where
  -- `listUserRepos`
  unfoldable pub list_user_repos :
      FilterOptions → Session H → Option (Result RepositoryList × Session H)
  list_user_repos filter s =
      list_pages (is_kept_for_user filter) append_user_repo limit
        (decode_or_wrap l.decode_permissions) fuel (user_url l.encode hostname limit filter)
        (empty_list []) s

  -- `listWorkspaceRepos`
  unfoldable pub list_workspace_repos :
      Text → FilterOptions → Session H → Option (Result RepositoryList × Session H)
  list_workspace_repos workspace filter s =
      list_pages (is_kept filter) append_repo limit (decode_or_wrap l.decode_repositories) fuel
        (workspace_url l.encode l.quote hostname limit workspace filter) (empty_list workspace) s

  -- `listRepos`
  unfoldable pub list_repos :
      Text → FilterOptions → Session H → Option (Result RepositoryList × Session H)
  unfolding list_user_repos list_workspace_repos
  list_repos workspace filter s =
      if text_eq workspace []
      then list_user_repos filter s
      else list_workspace_repos workspace filter s

abbrev pub is_zero : ℤ → Bool
is_zero (pos n) = nat_eq n 0
is_zero (negsuc n) = false

-- `listHeader`; `count` is the number of repositories shown.
unfoldable pub list_header : Text → ℕ → ℤ → Bool → String × List Text
list_header workspace count total has_filters =
    let matching = if has_filters then codes " that match your search" else [] in
    if is_zero total
    then (if has_filters
        then ("No results match your search", [])
        else if text_eq workspace []
        then ("No results", [])
        else ("There are no repositories in workspace %s", workspace ∷ []))
    else if text_eq workspace []
    then ("Showing %d of %d repositories%s", show_nat count ∷ show_int total ∷ matching ∷ [])
    else (
      "Showing %d of %d repositories in workspace %s%s",
      show_nat count ∷ show_int total ∷ workspace ∷ matching ∷ [],
    )

-- `repoInfo`
unfoldable pub repo_info : Repository → List Text
repo_info r =
    (if r.is_private then codes "private" else codes "public")
    ∷ (if is_some r.parent then codes "fork" ∷ [] else [])

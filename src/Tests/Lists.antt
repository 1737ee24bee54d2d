-- ===== src/Tests/Lists.antt =====
-- Runs of the listing of repositories, of the text of a list, and of the git client.
use bitbucket_cli.Prelude.{
  ◌≡◌, refl, true, false, Option, none, some, List, [], ◌∷◌, map, All, filter, take, arith,
}
use bitbucket_cli.Prelude.Codes.{Text, codes}
use bitbucket_cli.Prelude.Result.{Result, ok}
use bitbucket_cli.Api.{Session}
use bitbucket_cli.PullRequest.{Page, empty_page}
use bitbucket_cli.PullRequest.Comments.{fetch_page}
use bitbucket_cli.PullRequest.Comments.Walk.{Walk, finished, followed}
use bitbucket_cli.RepoList.{Repository, FilterOptions, Listing, list_repos, workspace_url}
use bitbucket_cli.RepoList.Listed.{Lists, decode_for, keep_for, url_for, list_repos-take}
use bitbucket_cli.Slices.{format_slice, surround}
use bitbucket_cli.Slices.Lines.{IsShort}
use bitbucket_cli.Slices.Bounds.{Formats, format_slice-Formats}
use bitbucket_cli.GitUrl.{GitUrl, parse_git_url, normalize}
use bitbucket_cli.GitClient.{GitLib, Git}
use bitbucket_cli.GitClient.Output.Listing.{parse_remotes}
use bitbucket_cli.GitClient.Output.Listing.Matching.{IsWord}
use bitbucket_cli.GitClient.Output.Listing.RoundTrip.{
  Printed, IsPrinted, Differ, listing, listed, parse_remotes-listing,
}
use bitbucket_cli.GitClient.Placed.{Placed}
use bitbucket_cli.GitClient.Everywhere.{
  Call, fetch, current_branch, perform_all, perform_all-Placed,
}
use bitbucket_cli.Tests.Api.{sample_http, reply, session, api}

abbrev repository : Text → Option Text → Repository
repository name parent = record {
  uuid = [];
  name = name;
  slug = name;
  full_name = name;
  description = [];
  is_private = false;
  language = [];
  workspace = codes "acme";
  parent = parent;
}

-- A page of a repository and a fork, whose next page has the body as its URL.
abbrev repo_page : Text → Page Repository
repo_page next = record empty_page {
  next = next;
  values = repository (codes "a") none ∷ repository (codes "b") (some (codes "a")) ∷ [];
}

abbrev decode_repos : Text → Result (Page Repository)
decode_repos next = ok (repo_page next)

abbrev sample_listing : Listing
sample_listing = record {
  encode = λ query. [];
  quote = λ s. s;
  decode_permissions = decode_repos;
  decode_repositories = decode_repos;
}

-- No forks.
abbrev sources : FilterOptions
sources = record { visibility = []; fork = false; source = true; language = [] }

abbrev two_pages : Session sample_http
two_pages = session (reply 200 "https://next" ∷ reply 200 "" ∷ [])

abbrev owner : Text
owner = 97 ∷ []

abbrev first_url : Text
first_url = url_for sample_listing false (codes "bitbucket.org") 1 owner sources

abbrev acme_decode : Text → Result (Page Repository)
acme_decode = decode_for sample_listing false

abbrev one_page : Session sample_http
one_page = (fetch_page acme_decode first_url two_pages).1

abbrev no_page : Session sample_http
no_page = (fetch_page acme_decode (codes "https://next") one_page).1

abbrev repositories : List Repository
repositories =
    repository (codes "a") none
    ∷ repository (codes "b") (some (codes "a"))
    ∷ repository (codes "a") none
    ∷ repository (codes "b") (some (codes "a"))
    ∷ []

walked : Walk acme_decode first_url two_pages 2 (ok repositories) no_page
unfolding api fetch_page workspace_url
walked = followed refl refl (followed refl refl (finished refl) refl) refl

list_repos-take_example :
    Lists
      (list_repos sample_listing 3 (codes "bitbucket.org") 1 owner sources two_pages)
      (take 1 (filter (keep_for false sources) repositories))
list_repos-take_example =
    list_repos-take sample_listing 3 (codes "bitbucket.org") 1 owner sources two_pages no_page 2
      repositories walked (omega arith)

abbrev words : List Text
words = codes "one" ∷ codes "two" ∷ codes "three" ∷ []

short : All (IsShort 10) (surround (39 ∷ []) (39 ∷ []) words)
unfolding codes
short = ((refl, omega arith), ((refl, omega arith), ((refl, omega arith), tt)))

format_slice-Formats_example :
    Formats (format_slice (λ l. l) 7 words 10 2 (39 ∷ []) (39 ∷ []) false) 12
format_slice-Formats_example =
    format_slice-Formats (λ l. l) 7 words 10 2 (39 ∷ []) (39 ∷ []) false words refl short
      (omega arith)

abbrev sample_url : GitUrl
sample_url = record { scheme = codes "ssh"; host = codes "h"; path = codes "/a/b"; port = [] }

abbrev parse : Text → Option GitUrl
parse u = some sample_url

abbrev remote : Text → Printed
remote name = record {
  name = name;
  fetch_text = codes "ssh://h/a/b";
  push_text = codes "ssh://h/a/b";
  fetch_url = sample_url;
  push_url = sample_url;
}

printed : (name : Text) → IsWord name → IsPrinted parse (remote name)
unfolding codes parse_git_url normalize
printed name w = record {
  name_word = w;
  fetch_word = (refl, refl);
  push_word = (refl, refl);
  fetch_parsed = refl;
  push_parsed = refl;
}

origin-IsWord : IsWord (codes "origin")
unfolding codes
origin-IsWord = (refl, refl)

fork-IsWord : IsWord (codes "fork")
unfolding codes
fork-IsWord = (refl, refl)

other_name : Differ [] (remote (codes "origin") ∷ remote (codes "fork") ∷ [])
unfolding codes
other_name = (refl, (refl, tt))

parse_remotes-listing_example :
    parse_remotes parse (listing (remote (codes "origin") ∷ remote (codes "fork") ∷ []))
    ≡ map listed (remote (codes "origin") ∷ remote (codes "fork") ∷ [])
parse_remotes-listing_example =
    parse_remotes-listing parse (remote (codes "origin") ∷ remote (codes "fork") ∷ [])
      (printed _ origin-IsWord, (printed _ fork-IsWord, tt)) other_name

-- git answers every call with the name of a branch.
abbrev pub sample_git : GitLib
sample_git = record {
  Files = Unit;
  look_path = λ files. ok (codes "/usr/bin/git");
  is_not_found = λ e. false;
  windows = false;
  parse_url = parse;
  quote = λ s. s;
  run = λ path arguments files. (record { out = codes "refs/heads/main"; failure = none }, files);
}

abbrev pub in_work : Git sample_git
in_work = record {
  client = record {
    gh_path = [];
    repo_dir = codes "/work";
    git_path = [];
    captures_stderr = false;
  };
  files = tt;
  ran = [];
}

abbrev calls : List Call
calls = current_branch ∷ fetch (codes "origin") (codes "main") ∷ []

perform_all-Placed_example : Placed in_work (perform_all calls in_work).1
perform_all-Placed_example = perform_all-Placed calls in_work

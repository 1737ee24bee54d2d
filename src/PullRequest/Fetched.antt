-- ===== src/PullRequest/Fetched.antt =====
-- pkg/cmd/pr/list/http.go: what FetchPullRequest has done where it succeeds.
use bitbucket_cli.Prelude.{ℕ, ◌≡◌, subst, true, not, none, [], ◌∷◌, nat_eq, arith}
use bitbucket_cli.Prelude.Codes.{Text}
use bitbucket_cli.Prelude.Decimal.{ℤ}
use bitbucket_cli.Prelude.Result.{Result, ok}
use bitbucket_cli.Action.Inversion.{bind_ok, lift_ok, guard_ok}
use bitbucket_cli.Repo.{Repo, rest_prefix, is_cloud}
use bitbucket_cli.Api.{HttpLib, Session, Request, Response, do_request}
use bitbucket_cli.Api.Requests.{Answered, do_request_ok, of_not}
use bitbucket_cli.PullRequest.{PullRequest, repository_path, pr_url, fetch_pull_request}
use bitbucket_cli.PullRequest.Asked.{pull_request_address}

-- The request for a pull request, written out.
abbrev pub fetch_request : Repo → ℤ → Request
fetch_request repo id = record {
  method = "GET";
  url = pull_request_address repo id [];
  headers = ("Accept", "application/json") ∷ [];
  body = none;
}

-- The one request was answered by 200 with the pull request.
pub record Fetched {H : HttpLib} (decode : Text → Result PullRequest) (repo : Repo) (id : ℤ)
    (pr : PullRequest) (s t : Session H) : Type 0 where
  pub response : Response
  pub answered : Answered (fetch_request repo id) s t response
  pub status : response.status ≡ 200
  pub decoded : decode response.body ≡ ok pr

pub nat_eq-true : (a b : ℕ) → nat_eq a b ≡ true → a ≡ b
nat_eq-true a b h = ground (arith, h)

module _ {H : HttpLib} where
  pub fetch_ok :
      (decode : Text → Result PullRequest) (repo : Repo) (id : ℤ) (s : Session H) {pr : PullRequest}
      {t : Session H}
      → fetch_pull_request decode repo id s ≡ (ok pr, t)
      → Fetched decode repo id pr s t
  unfolding fetch_pull_request pr_url repository_path rest_prefix is_cloud
  fetch_ok decode repo id s {t = t} h =
      let (a, e, k) = bind_ok (do_request (fetch_request repo id)) _ s h in
      let (_, k') = guard_ok (nat_eq a.status 404) _ _ _ k in
      let (good, k'') = guard_ok (not (nat_eq a.status 200)) _ _ _ k' in
      let (d, same) = lift_ok (λ s. decode a.body) (do_request (fetch_request repo id) s).1 k'' in
      record {
        response = a;
        answered =
            subst (λ u. Answered (fetch_request repo id) s u a) same
              (do_request_ok (fetch_request repo id) s e);
        status = nat_eq-true a.status 200 (of_not (nat_eq a.status 200) good);
        decoded = d;
      }

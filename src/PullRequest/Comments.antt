-- ===== src/PullRequest/Comments.antt =====
-- pkg/cmd/pr/list/http.go: FetchPullRequestComments, a loop over the pages of a list.
pub mod Walk
use bitbucket_cli.Prelude.{
  ℕ, zero, suc, not, Option, none, some, List, [], ◌∷◌, ◌++◌, nat_eq, if◌then◌else◌,
}
use bitbucket_cli.Prelude.Codes.{Text, codes, text_eq}
use bitbucket_cli.Prelude.Decimal.{ℤ}
use bitbucket_cli.Prelude.Result.{Result, ok, err}
use bitbucket_cli.Action.{Action, raise, lift, ◌>>=◌, ◌>>◌}
use bitbucket_cli.Repo.{Repo}
use bitbucket_cli.Api.{HttpLib, Session, do_request, handle_http_error, accept_json}
use bitbucket_cli.PullRequest.{Page, Comment, pr_url}

module _ {H : HttpLib} {A : Type 0} where
  -- One round of the loop: the request and what is read of the answer.
  unfoldable pub fetch_page : (Text → Result (Page A)) → Text → Action (Session H) (Page A)
  fetch_page decode url = do
    r ← do_request (record { method = "GET"; url = url; headers = accept_json ∷ []; body = none })
    if not (nat_eq r.status 200)
        then raise (handle_http_error H url r)
        else lift (λ s. decode r.body)

  -- After a round: the next one, or the end of the loop with the error.
  unfoldable pub after_page :
      (Text → List A → Session H → Option (Result (List A) × Session H))
      → List A
      → Result (Page A) × Session H
      → Option (Result (List A) × Session H)
  after_page next all (ok p, s) = next p.next (all ++ p.values) s
  after_page next all (err e, s) = some (err e, s)

  -- The loop, on fuel: `none` means that the fuel ran out.
  unfoldable pub fetch_pages :
      (Text → Result (Page A))
      → ℕ
      → Text
      → List A
      → Session H
      → Option (Result (List A) × Session H)
  unfolding after_page
  fetch_pages decode zero url all s = none
  fetch_pages decode (suc fuel) url all s =
      let more = after_page (fetch_pages decode fuel) all (fetch_page decode url s) in
      if text_eq url [] then some (ok all, s) else more

-- `FetchPullRequestComments`
unfoldable pub fetch_comments :
    {H : HttpLib}
    → (Text → Result (Page Comment))
    → ℕ
    → Repo
    → ℤ
    → Session H
    → Option (Result (List Comment) × Session H)
fetch_comments decode fuel repo id s =
    fetch_pages decode fuel (pr_url repo id (codes "/comments?pagelen=100")) [] s

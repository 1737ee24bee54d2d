-- ===== src/PullRequest/Merge/Outcome.antt =====
-- pkg/cmd/pr/merge/merge.go: what a run sends to the server.
use mathlib.Core.List.{append_assoc}
use bitbucket_cli.Prelude.{
  String, ◌≡◌, ◌∙◌, ap, sym, not, Option, some, List, [], ◌∷◌, ◌++◌, value_or, nat_eq,
  if◌then◌else◌,
}
use bitbucket_cli.Prelude.Codes.{Text, codes, text_eq}
use bitbucket_cli.Prelude.Codes.Laws.{eq_of_text_eq}
use bitbucket_cli.Prelude.Decimal.{ℤ, show_int}
use bitbucket_cli.Prelude.Result.{Result, ok}
use bitbucket_cli.Action.{lift}
use bitbucket_cli.Action.Inversion.{bind_ok, guard_ok}
use bitbucket_cli.Repo.{Repo, rest_prefix, is_cloud}
use bitbucket_cli.Selector.{parse_pr_arg}
use bitbucket_cli.Api.{HttpLib, Scalar, text, flag, Request, Session, Response, Line, do_request}
use bitbucket_cli.Api.Requests.{of_not, do_request_ok}
use bitbucket_cli.PullRequest.{PullRequest, open_state, repository_path, pr_url, fetch_pull_request}
use bitbucket_cli.PullRequest.Asked.{pull_request_address}
use bitbucket_cli.PullRequest.Fetched.{Fetched, fetch_request, fetch_ok, nat_eq-true}
use bitbucket_cli.PullRequest.Merge.{
  MergeOptions, merge_body, merge_request, merge_pull_request, merge_open, merge_run,
}

abbrev pub merged_line : ℤ → Line
merged_line id = record { format = "%s Merged pull request #%d\n"; arguments = show_int id ∷ [] }

-- The fields of the merge request's body and the request itself, written out.
abbrev pub merge_fields : MergeOptions → List (String × Scalar)
merge_fields opts =
    ("close_source_branch", flag opts.close_source)
    ∷ ((if text_eq opts.merge_strategy []
          then []
          else ("merge_strategy", text opts.merge_strategy) ∷ [])
        ++ (if text_eq opts.message [] then [] else ("message", text opts.message) ∷ []))

abbrev pub merge_asked : Repo → ℤ → Text → Request
merge_asked repo id body = record {
  method = "POST";
  url = pull_request_address repo id (codes "/merge");
  headers = ("Content-Type", "application/json") ∷ ("Accept", "application/json") ∷ [];
  body = some body;
}

-- The pull request that the argument names, in the repository that it names or else the base one,
-- was open when it was fetched; then the one merge request, with the body that the options give, was
-- answered by 200.
pub record Merged {H : HttpLib} (decode : Text → Result PullRequest) (opts : MergeOptions)
    (s t : Session H) : Type 0 where
  pub base : Repo
  pub base_found : opts.base_repo ≡ ok base
  pub id : ℤ
  pub named : Option Repo
  pub parsed : parse_pr_arg opts.selector_arg ≡ ok (id, named)
  pub pr : PullRequest
  pub between : Session H
  pub fetched : Fetched decode (value_or named base) id pr s between
  pub was_open : pr.state ≡ codes "OPEN"
  pub body : Text
  pub marshalled : H.marshal (merge_fields opts) ≡ ok body
  pub response : Response
  pub accepted :
      H.send (merge_asked (value_or named base) id body) between.server ≡ (ok response, t.server)
  pub status : response.status ≡ 200
  pub sent :
      t.sent
      ≡ s.sent
        ++ fetch_request (value_or named base) id ∷ merge_asked (value_or named base) id body ∷ []
  pub reported : t.out ≡ s.out ++ merged_line id ∷ []

-- A run of `bb pr merge` that succeeds has sent two requests: a GET of the pull request of the
-- argument, in the argument's repository or else the base one, which was open, and a POST to its
-- `/merge`, whose body has the closing of the branch, the strategy and the message that the options
-- give, the last two where they are not empty; it was answered by 200.
pub merge_run_done :
    {H : HttpLib} (decode : Text → Result PullRequest) (opts : MergeOptions) (s t : Session H)
    → merge_run decode opts s ≡ (ok tt, t)
    → Merged decode opts s t
unfolding merge_run merge_open merge_pull_request merge_body merge_request pr_url repository_path
    rest_prefix is_cloud
merge_run_done {H} decode opts s t h =
    let (_, _, h1) = bind_ok (lift (λ s. opts.http_client)) _ s h in
    let (base, eb, h2) = bind_ok (lift (λ s. opts.base_repo)) _ s h1 in
    let (named, en, h3) = bind_ok (lift (λ s. parse_pr_arg opts.selector_arg)) _ s h2 in
    let repo = value_or named.1 base in
    let (pr, ef, h4) = bind_ok (fetch_pull_request decode repo named.0) _ s h3 in
    let u = (fetch_pull_request decode repo named.0 s).1 in
    let (is_open, h5) = guard_ok (not (text_eq pr.state open_state)) _ _ u h4 in
    let (_, em, h6) = bind_ok (merge_pull_request repo named.0 opts) _ u h5 in
    let (body, ej, h7) = bind_ok (lift (λ s. H.marshal (merge_body opts))) _ u em in
    let (r, ea, h8) = bind_ok (do_request (merge_request repo named.0 body)) _ u h7 in
    let v = (do_request {H = H} (merge_request repo named.0 body) u).1 in
    let (good, h9) = guard_ok (not (nat_eq r.status 200)) _ _ v h8 in
    let got = fetch_ok decode repo named.0 s ef in
    let done = do_request_ok (merge_request repo named.0 body) u ea in
    let first = ap (λ p. p.1) h9 in
    let last = ap (λ p. p.1) h6 in
    record {
      base = base;
      base_found = ap (λ p. p.0) eb;
      id = named.0;
      named = named.1;
      parsed = ap (λ p. p.0) en;
      pr = pr;
      between = u;
      fetched = got;
      was_open = eq_of_text_eq pr.state open_state (of_not _ is_open);
      body = body;
      marshalled = ap (λ p. p.0) ej;
      response = r;
      accepted =
          done.reply ∙ ap (λ w. (ok r, w)) (ap (λ w. w.server) first ∙ ap (λ w. w.server) last);
      status = nat_eq-true r.status 200 (of_not _ good);
      sent =
          sym (ap (λ w. w.sent) first ∙ ap (λ w. w.sent) last)
          ∙ done.sent
          ∙ ap (λ l. l ++ merge_request repo named.0 body ∷ []) got.answered.sent
          ∙ append_assoc s.sent _ _;
      reported =
          sym (ap (λ w. w.out) last)
          ∙ ap (λ l. l ++ merged_line named.0 ∷ [])
              (sym (ap (λ w. w.out) first) ∙ done.out ∙ got.answered.out);
    }

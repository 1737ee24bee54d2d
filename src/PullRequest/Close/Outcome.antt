-- ===== src/PullRequest/Close/Outcome.antt =====
-- pkg/cmd/pr/close/close.go: what a run sends to the server.
use bitbucket_cli.Prelude.{
  ◌≡◌, ◌≢◌, ◌⊎◌, none, inl, inr, refl, ap, sym, subst, false, not, [], ◌∷◌, ◌++◌, nat_eq,
  Bool-cases,
}
use bitbucket_cli.Prelude.Codes.{Text, codes, text_eq}
use bitbucket_cli.Prelude.Codes.Laws.{text_eq_iff, eq_of_text_eq}
use bitbucket_cli.Prelude.Decimal.{ℤ}
use bitbucket_cli.Prelude.Result.{Result, ok, err, wrap, silent}
use bitbucket_cli.Action.{lift, annotate}
use bitbucket_cli.Action.Inversion.{bind_ok, guard_ok, annotate_ok}
use bitbucket_cli.Repo.{Repo, rest_prefix, is_cloud}
use bitbucket_cli.Api.{HttpLib, Request, Session, Response, do_request}
use bitbucket_cli.Api.Requests.{of_not, Answered, do_request_ok}
use bitbucket_cli.PullRequest.{
  PullRequest, merged_state, declined_state, repository_path, pr_url, fetch_pull_request,
}
use bitbucket_cli.PullRequest.Asked.{pull_request_address, Names, find_target-Names}
use bitbucket_cli.PullRequest.Fetched.{Fetched, fetch_request, fetch_ok, nat_eq-true}
use bitbucket_cli.PullRequest.Target.{Target, find_target}
use bitbucket_cli.PullRequest.Close.{decline_request, decline_pr, close_fetched, close_run}

-- The request that declines, written out.
abbrev pub decline_asked : Repo → ℤ → Request
decline_asked repo id = record {
  method = "POST";
  url = pull_request_address repo id (codes "/decline");
  headers = ("Content-Type", "application/json") ∷ [];
  body = none;
}

-- The request that declines was sent and answered by 200.
pub record Declined {H : HttpLib} (repo : Repo) (id : ℤ) (s t : Session H) : Type 0 where
  pub response : Response
  pub answered : Answered (decline_asked repo id) s t response
  pub status : response.status ≡ 200

ne_of : (a b : Text) → text_eq a b ≡ false → a ≢ b
ne_of a b h e = absurd (cc ((text_eq_iff a b).1 e, h))

decline_ok :
    {H : HttpLib} (repo : Repo) (id : ℤ) (s : Session H) {t : Session H}
    → decline_pr repo id s ≡ (ok tt, t)
    → Declined repo id s t
unfolding decline_pr decline_request pr_url repository_path rest_prefix is_cloud
decline_ok repo id s h =
    let request = decline_request repo id in
    let (r, e, k) = bind_ok (do_request request) _ s h in
    let (_, k') = guard_ok (nat_eq r.status 404) _ _ _ k in
    let (good, k'') = guard_ok (not (nat_eq r.status 200)) _ _ _ k' in
    record {
      response = r;
      answered =
          subst (λ u. Answered request s u r) (ap (λ p. p.1) k'') (do_request_ok request s e);
      status = nat_eq-true r.status 200 (of_not (nat_eq r.status 200) good);
    }

-- What is sent for a pull request that was fetched: nothing where it is declined, or else the
-- request that declines it.
abbrev pub Closes : {H : HttpLib} → Repo → ℤ → PullRequest → Session H → Session H → Type 0
Closes {H} repo id pr s t =
    ((pr.state ≡ codes "DECLINED") × (t.sent ≡ s.sent) × (t.server ≡ s.server))
    ⊎ ((pr.state ≢ codes "DECLINED")
        × (u : Session H) × Declined repo id s u
        × (t.sent ≡ u.sent)
        × (t.server ≡ u.server))

unmerged_of :
    {H : HttpLib} (repo : Repo) (id : ℤ) (pr : PullRequest) (s : Session H) {t : Session H}
    → close_fetched repo id pr s ≡ (ok tt, t)
    → text_eq pr.state merged_state ≡ false
unfolding close_fetched
unmerged_of repo id pr s h = elim (Bool-cases (text_eq pr.state merged_state)) [
  | inl e ↦ absurd (cc (rw e at h))
  | inr e ↦ e
]

close_declined :
    {H : HttpLib} (repo : Repo) (id : ℤ) (pr : PullRequest) (s : Session H) {t : Session H}
    → text_eq pr.state merged_state ≡ false
    → close_fetched repo id pr s ≡ (ok tt, t)
    → Closes repo id pr s t
unfolding close_fetched
close_declined repo id pr s unmerged h = elim (Bool-cases (text_eq pr.state declined_state)) [
  | inl e ↦
      let k = rw (unmerged, e) at h in
      inl (
        eq_of_text_eq pr.state declined_state e,
        sym (ap (λ p. p.1.sent) k),
        sym (ap (λ p. p.1.server) k),
      )
  | inr e ↦
      let k = rw (unmerged, e) at h in
      let declining = annotate (wrap "failed to close pull request: %w" []) (decline_pr repo id) in
      let (_, d, last) = bind_ok declining _ s k in
      inr (
        ne_of pr.state declined_state e,
        (declining s).1,
        decline_ok repo id s (annotate_ok _ (decline_pr repo id) s d),
        sym (ap (λ p. p.1.sent) last),
        sym (ap (λ p. p.1.server) last),
      )
]

-- The pull request that the argument names was fetched and not merged, and then declined unless it
-- was declined before.
pub record Closed {H : HttpLib} (decode : Text → Result PullRequest) (opts : Target)
    (s t : Session H) : Type 0 where
  pub id : ℤ
  pub repo : Repo
  pub target : Names opts id repo
  pub pr : PullRequest
  pub between : Session H
  pub fetched : Fetched decode repo id pr s between
  pub unmerged : pr.state ≢ codes "MERGED"
  pub closes : Closes repo id pr between t

-- A run of `bb pr close` that succeeds has fetched the pull request of the argument, in the argument's
-- repository or else the base one, and its state was not MERGED; where it was DECLINED nothing else
-- was sent, and where it was not, one POST to its `/decline` was, which was answered by 200.
pub close_run_done :
    {H : HttpLib} (decode : Text → Result PullRequest) (opts : Target) (s t : Session H)
    → close_run decode opts s ≡ (ok tt, t)
    → Closed decode opts s t
unfolding close_run
close_run_done decode opts s t h =
    let (target, e, h1) = bind_ok (lift (λ s. find_target opts)) _ s h in
    let (pr, ef, h2) = bind_ok (fetch_pull_request decode target.1 target.0) _ s h1 in
    let u = (fetch_pull_request decode target.1 target.0 s).1 in
    let unmerged = unmerged_of target.1 target.0 pr u h2 in
    record {
      id = target.0;
      repo = target.1;
      target = find_target-Names opts (ap (λ p. p.0) e);
      pr = pr;
      between = u;
      fetched = fetch_ok decode target.1 target.0 s ef;
      unmerged = ne_of pr.state merged_state unmerged;
      closes = close_declined target.1 target.0 pr u unmerged h2;
    }

-- A run of `bb pr close` on a pull request that was merged fails with the silent error, and sends
-- nothing after the request that fetches it.
pub close_run_merged :
    {H : HttpLib} (decode : Text → Result PullRequest) (opts : Target) (id : ℤ) (repo : Repo)
    (pr : PullRequest) (s t : Session H)
    → find_target opts ≡ ok (id, repo)
    → fetch_pull_request decode repo id s ≡ (ok pr, t)
    → pr.state ≡ merged_state
    → ((close_run decode opts s).0 ≡ err silent)
      × ((close_run decode opts s).1.sent ≡ s.sent ++ fetch_request repo id ∷ [])
unfolding close_run close_fetched
close_run_merged decode opts id repo pr s t target fetch merged =
    let is_merged = (text_eq_iff pr.state merged_state).1 merged in
    (
      rw (target, fetch, is_merged) refl,
      rw (target, fetch, is_merged) (fetch_ok decode repo id s fetch).answered.sent,
    )

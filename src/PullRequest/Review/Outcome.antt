-- ===== src/PullRequest/Review/Outcome.antt =====
-- pkg/cmd/pr/review/review.go: what a run sends to the server.
use bitbucket_cli.Prelude.{
  ℕ, String, Bool, ◌≡◌, refl, ◌∙◌, ap, sym, subst, false, true, [], ◌∷◌, ◌++◌, nat_eq, Option, none,
  some, if◌then◌else◌, arith, ◌||◌,
}
use bitbucket_cli.Prelude.Codes.{codes}
use bitbucket_cli.Prelude.Decimal.{ℤ}
use bitbucket_cli.Prelude.Result.{ok_inj, Error, ok, wrap}
use bitbucket_cli.Action.{lift, annotate, ◌>>=◌, ◌>>◌}
use bitbucket_cli.Action.Inversion.{bind_ok, lift_ok, annotate_ok}
use bitbucket_cli.Repo.{Repo, rest_prefix, is_cloud}
use bitbucket_cli.Api.{HttpLib, Session, Request, Response, do_request, present}
use bitbucket_cli.Api.Requests.{Answered, do_request_ok}
use bitbucket_cli.PullRequest.{repository_path, pr_url}
use bitbucket_cli.PullRequest.Asked.{pull_request_address, Names, find_target-Names}
use bitbucket_cli.PullRequest.Target.{Target, find_target}
use bitbucket_cli.PullRequest.Review.{
  review_type, approve_request, unapprove_request, changes_request, approve_error, unapprove_error,
  changes_error, send_review, approve_pr, unapprove_pr, request_changes_pr, report, review,
  review_run,
}

-- The request that the flags ask for, written out, and the statuses that count as its success.
abbrev pub review_request : Bool → Bool → Repo → ℤ → Request
review_request approve unapprove repo id =
    if approve
    then record {
      method = "POST";
      url = pull_request_address repo id (codes "/approve");
      headers = ("Content-Type", "application/json") ∷ [];
      body = none;
    }
    else if unapprove
    then record {
      method = "DELETE";
      url = pull_request_address repo id (codes "/approve");
      headers = [];
      body = none;
    }
    else record {
      method = "POST";
      url = pull_request_address repo id (codes "/request-changes");
      headers = ("Content-Type", "application/json") ∷ [];
      body = some (codes "{}");
    }

abbrev pub is_accepted : Bool → Bool → ℕ → Bool
is_accepted approve unapprove status =
    if approve
    then nat_eq status 200 || nat_eq status 409
    else if unapprove
    then nat_eq status 204 || nat_eq status 200
    else nat_eq status 200 || nat_eq status 201 || nat_eq status 409

present_ok : (o : Option Error) → present o ≡ ok tt → o ≡ none
present_ok none h = refl
present_ok (some e) h = absurd (cc)

module _ {H : HttpLib} where
  send_ok :
      (request : Request) (error_of : Response → Option Error) (s : Session H) {t : Session H}
      → send_review request error_of s ≡ (ok tt, t)
      → (r : Response) × Answered request s t r × (error_of r ≡ none)
  unfolding send_review
  send_ok request error_of s h =
      let (r, e, k) = bind_ok (do_request request) _ s h in
      let (good, same) = lift_ok (λ s. present (error_of r)) (do_request request s).1 k in
      (
        r,
        subst (λ u. Answered request s u r) same (do_request_ok request s e),
        present_ok (error_of r) good,
      )

  report_sent :
      (is_tty : Bool) (format : String) (id : ℤ) (s : Session H) {t : Session H}
      → report is_tty format id s ≡ (ok tt, t)
      → (t.sent ≡ s.sent) × (t.server ≡ s.server)
  unfolding report
  report_sent true format id s h = (sym (ap (λ p. p.1.sent) h), sym (ap (λ p. p.1.server) h))
  report_sent false format id s h = (sym (ap (λ p. p.1.sent) h), sym (ap (λ p. p.1.server) h))

approve_accepted :
    (H : HttpLib) (repo : Repo) (id : ℤ) (r : Response)
    → approve_error H repo id r ≡ none
    → (nat_eq r.status 200 || nat_eq r.status 409) ≡ true
unfolding approve_error
approve_accepted H repo id r h = ground (arith, h)

unapprove_accepted :
    (H : HttpLib) (repo : Repo) (id : ℤ) (r : Response)
    → unapprove_error H repo id r ≡ none
    → (nat_eq r.status 204 || nat_eq r.status 200) ≡ true
unfolding unapprove_error
unapprove_accepted H repo id r h = ground (arith, h)

changes_accepted :
    (H : HttpLib) (repo : Repo) (id : ℤ) (r : Response)
    → changes_error H repo id r ≡ none
    → (nat_eq r.status 200 || nat_eq r.status 201 || nat_eq r.status 409) ≡ true
unfolding changes_error
changes_accepted H repo id r h = ground (arith, h)

-- The one request that the flags ask for was sent, and answered by a status that counts as success.
pub record Reviewed {H : HttpLib} (approve unapprove : Bool) (opts : Target) (s t : Session H)
    : Type 0 where
  pub id : ℤ
  pub repo : Repo
  pub target : Names opts id repo
  pub response : Response
  pub reply : H.send (review_request approve unapprove repo id) s.server ≡ (ok response, t.server)
  pub sent : t.sent ≡ s.sent ++ review_request approve unapprove repo id ∷ []
  pub accepted : is_accepted approve unapprove response.status ≡ true

abbrev pub Sends :
    {H : HttpLib} → Request → (Response → Option Error) → Session H → Session H → Type 0
Sends {H} request error_of s t =
    (r : Response) × (H.send request s.server ≡ (ok r, t.server))
    × (t.sent ≡ s.sent ++ request ∷ [])
    × (error_of r ≡ none)

module _ {H : HttpLib} where
  step_ok :
      (format message : String) (is_tty : Bool) (id : ℤ) (request : Request)
      (error_of : Response → Option Error) (s : Session H) {t : Session H}
      → (annotate (wrap format []) (send_review request error_of) >> report is_tty message id) s
        ≡ (ok tt, t)
      → Sends request error_of s t
  step_ok format message is_tty id request error_of s h =
      let sending = annotate (wrap format []) (send_review request error_of) in
      let (_, d, last) = bind_ok sending _ s h in
      let (r, answered, none_left) =
        send_ok request error_of s (annotate_ok _ (send_review request error_of) s d) in
      let (sent, server) = report_sent is_tty message id (sending s).1 last in
      (r, answered.reply ∙ ap (λ w. (ok r, w)) (sym server), sent ∙ answered.sent, none_left)

  -- The run of one kind of review.
  kind_ok :
      (format message : String) (request : Repo → ℤ → Request)
      (error_of : Repo → ℤ → Response → Option Error) (approve unapprove is_tty : Bool)
      (opts : Target) (s t : Session H)
      → ((repo : Repo) (id : ℤ) → request repo id ≡ review_request approve unapprove repo id)
      → ((repo : Repo) (id : ℤ) (r : Response)
          → error_of repo id r ≡ none
          → is_accepted approve unapprove r.status ≡ true)
      → (do
        target ← lift (λ s. find_target opts)
        annotate
            (wrap format [])
            (send_review (request target.1 target.0) (error_of target.1 target.0))
        report is_tty message target.0)
          s
        ≡ (ok tt, t)
      → Reviewed approve unapprove opts s t
  kind_ok format message request error_of approve unapprove is_tty opts s t same accepted h =
      let (target, e, k) = bind_ok (lift (λ s. find_target opts)) _ s h in
      let (r, reply, sent, good) =
        step_ok format message is_tty target.0 (request target.1 target.0)
          (error_of target.1 target.0) s k in
      let asked = same target.1 target.0 in
      record {
        id = target.0;
        repo = target.1;
        target = find_target-Names opts (ap (λ p. p.0) e);
        response = r;
        reply = subst (λ q. H.send q s.server ≡ (ok r, t.server)) asked reply;
        sent = subst (λ q. t.sent ≡ s.sent ++ q ∷ []) asked sent;
        accepted = accepted target.1 target.0 r good;
      }

  run_ok :
      (opts : Target) (is_tty : Bool) (kind kind' : String) (s t : Session H)
      → ok kind' ≡ ok kind
      → review_run opts is_tty kind s ≡ (ok tt, t)
      → review_run opts is_tty kind' s ≡ (ok tt, t)
  run_ok opts is_tty kind kind' s t same h =
      subst (λ v. review_run opts is_tty v s ≡ (ok tt, t)) (ok_inj (sym same)) h

  -- A run of `bb pr review` that succeeds, with a type of review that the flags gave, has sent one
  -- request about the pull request of the argument, in the argument's repository or else the base one:
  -- a POST to its `/approve` for --approve, a DELETE of it for --unapprove, and a POST to its
  -- `/request-changes` for --request-changes. The status of the answer was 200 or 409 for the first,
  -- 204 or 200 for the second, and 200, 201 or 409 for the third.
  pub review_run_done :
      (opts : Target) (is_tty approve unapprove request_changes : Bool) (kind : String)
      (s t : Session H)
      → review_type approve unapprove request_changes ≡ ok kind
      → review_run opts is_tty kind s ≡ (ok tt, t)
      → Reviewed approve unapprove opts s t
  unfolding review_run review review_type approve_pr unapprove_pr request_changes_pr approve_request
      unapprove_request changes_request pr_url repository_path rest_prefix is_cloud
  review_run_done opts is_tty true true c kind s t flags h = absurd (ground (arith, flags))
  review_run_done opts is_tty true false true kind s t flags h = absurd (ground (arith, flags))
  review_run_done opts is_tty false true true kind s t flags h = absurd (ground (arith, flags))
  review_run_done opts is_tty false false false kind s t flags h = absurd (ground (arith, flags))
  review_run_done opts is_tty true false false kind s t flags h =
      kind_ok "failed to approve pull request: %w" "%s Approved pull request #%d\n" approve_request
        (approve_error H) true false is_tty opts s t (λ _ _. refl) (approve_accepted H)
        (run_ok opts is_tty kind "approve" s t flags h)
  review_run_done opts is_tty false true false kind s t flags h =
      kind_ok "failed to unapprove pull request: %w" "%s Removed approval from pull request #%d\n"
        unapprove_request (unapprove_error H) false true is_tty opts s t (λ _ _. refl)
        (unapprove_accepted H) (run_ok opts is_tty kind "unapprove" s t flags h)
  review_run_done opts is_tty false false true kind s t flags h =
      kind_ok "failed to request changes: %w" "%s Requested changes on pull request #%d\n"
        changes_request (changes_error H) false false is_tty opts s t (λ _ _. refl)
        (changes_accepted H) (run_ok opts is_tty kind "request-changes" s t flags h)

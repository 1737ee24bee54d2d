-- ===== src/Pipeline/Cancelled.antt =====
-- pkg/cmd/pipeline/cancel/cancel.go: what a run sends to the server.
use bitbucket_cli.Prelude.{
  ℕ, ◌≤◌, ◌<◌, ◌⊎◌, inl, inr, refl, ◌||◌, arith, Bool-cases, ◌≡◌, ap, sym, subst, ◌∙◌, String, Bool,
  true, false, not, Option, none, some, List, [], ◌∷◌, ◌++◌, nat_eq, value_or, if◌then◌else◌,
}
use bitbucket_cli.Prelude.Codes.{Text, codes, text_eq, trim_prefix, slash}
use bitbucket_cli.Prelude.Codes.Laws.{eq_of_text_eq}
use bitbucket_cli.Prelude.Decimal.{ℤ, show_int}
use bitbucket_cli.Prelude.Result.{Result, ok, ok_inj}
use bitbucket_cli.Action.{lift}
use bitbucket_cli.Action.Inversion.{bind_ok, guard_ok}
use bitbucket_cli.Repo.{Repo, rest_prefix, is_cloud}
use bitbucket_cli.Api.{
  HttpLib, Request, Response, Session, get, rest, rest_headers, send_json, decoded, is_success,
  print_out,
}
use bitbucket_cli.Api.Requests.{Answered, rest_with_url_ok, of_not}
use bitbucket_cli.PullRequest.{Page, empty_page, repository_path}
use bitbucket_cli.PullRequest.Asked.{repository_address, NamedOrBase, named_or_base, result_ok}
use bitbucket_cli.Selector.{parse_pipeline_arg}
use bitbucket_cli.PullRequest.Target.{Target, or_base}
use bitbucket_cli.Pipeline.{
  State, Pipeline, is_running, is_running_state, find_pipeline, first_pipeline, number_path,
  stop_path, fetch_pipeline, stop_pipeline, cancel_run,
}

abbrev api_url : Repo → Text → Text
api_url repo path = rest_prefix repo.hostname ++ trim_prefix path (slash ∷ [])

-- The two requests, written out: that for the pipelines of a number, and that which stops one.
abbrev pub number_request : Repo → ℤ → Request
number_request repo number = record {
  method = "GET";
  url = repository_address repo (codes "pipelines?q=build_number=" ++ show_int number);
  headers = ("Accept", "application/json") ∷ [];
  body = none;
}

abbrev pub stop_request : Repo → Text → Request
stop_request repo uuid = record {
  method = "POST";
  url = repository_address repo (codes "pipelines/" ++ uuid ++ codes "/stopPipeline");
  headers = ("Accept", "application/json") ∷ [];
  body = none;
}

-- The pipeline that the argument names.
pub record NamesPipeline (opts : Target) (number : ℤ) (repo : Repo) : Type 0 where
  pub named : Option Repo
  pub parsed : parse_pipeline_arg opts.selector_arg ≡ ok (number, named)
  pub repository : NamedOrBase named opts.base_repo repo

find_pipeline-Names :
    (opts : Target) {number : ℤ} {repo : Repo}
    → find_pipeline opts ≡ ok (number, repo)
    → NamesPipeline opts number repo
unfolding find_pipeline
find_pipeline-Names opts {number} {repo} h =
    let (_, _, h1) = result_ok opts.http_client _ h in
    let (p, parsed, h2) = result_ok (parse_pipeline_arg opts.selector_arg) _ h1 in
    let (found, e, h3) = result_ok (or_base opts.base_repo p.1) _ h2 in
    let same = ok_inj h3 in
    record {
      named = p.1;
      parsed =
          subst (λ n. parse_pipeline_arg opts.selector_arg ≡ ok (n, p.1)) (ap (λ q. q.0) same)
            parsed;
      repository =
          subst (NamedOrBase p.1 opts.base_repo) (ap (λ q. q.1) same)
            (named_or_base p.1 opts.base_repo found e);
    }

-- What the code counts as running.
abbrev pub Runs : Pipeline → Type 0
Runs p =
    (state : State) × (p.state ≡ some state)
    × ((state.name ≡ codes "IN_PROGRESS")
        ⊎ ((state.name ≡ codes "PENDING") ⊎ (state.name ≡ codes "PAUSED")))

-- The pipelines of the number were fetched, the first of them was running, and then it was stopped:
-- by two requests, each answered by a status of success.
pub record Cancelled {H : HttpLib} (decode : Text → Result (Page Pipeline)) (opts : Target)
    (s t : Session H) : Type 0 where
  pub number : ℤ
  pub repo : Repo
  pub target : NamesPipeline opts number repo
  pub between : Session H
  pub found : Response
  pub fetched : Answered (number_request repo number) s between found
  pub page : Page Pipeline
  pub read : decode found.body ≡ ok page
  pub pipeline : Pipeline
  pub others : List Pipeline
  pub first : page.values ≡ pipeline ∷ others
  pub running : Runs pipeline
  pub stopped : Response
  pub reply : H.send (stop_request repo pipeline.uuid) between.server ≡ (ok stopped, t.server)
  pub sent : t.sent ≡ between.sent ++ stop_request repo pipeline.uuid ∷ []
  pub success : (200 ≤ stopped.status) × (stopped.status < 300)

running_named : (a b c : Bool) → (a || b || c) ≡ true → (a ≡ true) ⊎ ((b ≡ true) ⊎ (c ≡ true))
running_named true b c h = inl refl
running_named false true c h = inr (inl refl)
running_named false false true h = inr (inr refl)
running_named false false false h = absurd (cc)

state_runs : (o : Option State) (p : Pipeline) → p.state ≡ o → is_running p ≡ true → Runs p
unfolding is_running is_running_state
state_runs none p e h = absurd (cc (rw e at h))
state_runs (some state) p e h = (
  state,
  e,
  elim (running_named (text_eq state.name (codes "IN_PROGRESS"))
      (text_eq state.name (codes "PENDING")) (text_eq state.name (codes "PAUSED")) (rw e at h)) [
        | inl q ↦ inl (eq_of_text_eq state.name (codes "IN_PROGRESS") q)
        | inr (inl q) ↦ inr (inl (eq_of_text_eq state.name (codes "PENDING") q))
        | inr (inr q) ↦ inr (inr (eq_of_text_eq state.name (codes "PAUSED") q))
      ],
)

success_between : (n : ℕ) → is_success n ≡ true → (200 ≤ n) × (n < 300)
success_between n h = (ground (arith, h), ground (arith, h))

first_of :
    (number : ℤ) (l : List Pipeline) (p : Pipeline)
    → first_pipeline number l ≡ ok p
    → (others : List Pipeline) × (l ≡ p ∷ others)
unfolding first_pipeline
first_of number [] p h = absurd (cc)
first_of number (q ∷ others) p h = (others, ap (λ x. x ∷ others) (ok_inj h))

some_inj : {A : Type 0} {a b : A} → some a ≡ some b → a ≡ b
some_inj h = cc

-- A page whose first pipeline was taken was read from the answer.
page_read :
    (decode : Text → Result (Page Pipeline)) (r : Response) (number : ℤ)
    (o : Option (Page Pipeline)) (p : Pipeline)
    → (if nat_eq r.status 204 then ok none else decoded (some decode) r) ≡ ok o
    → first_pipeline number (value_or o empty_page).values ≡ ok p
    → (page : Page Pipeline) × (decode r.body ≡ ok page)
      × (others : List Pipeline) × (page.values ≡ p ∷ others)
unfolding first_pipeline
page_read decode r number none p h k = absurd (cc)
page_read decode r number (some page) p h k = elim (Bool-cases (nat_eq r.status 204)) [
  | inl e ↦ absurd (cc (rw e at h))
  | inr e ↦
      let (found, read, same) = result_ok (decode r.body) _ (rw e at h) in
      let (others, first) = first_of number page.values p k in
      (page, read ∙ ap ok (some_inj (ok_inj same)), others, first)
]

module _ {H : HttpLib} where
  fetch_ok :
      (decode : Text → Result (Page Pipeline)) (repo : Repo) (number : ℤ) (s : Session H)
      {p : Pipeline} {t : Session H}
      → fetch_pipeline decode repo number s ≡ (ok p, t)
      → (r : Response) × Answered (number_request repo number) s t r
        × (page : Page Pipeline) × (decode r.body ≡ ok page)
        × (others : List Pipeline) × (page.values ≡ p ∷ others)
  unfolding fetch_pipeline get rest number_path repository_path rest_headers rest_prefix is_cloud
      codes
  fetch_ok decode repo number s {t = t} h =
      let (found, e, k) = bind_ok (get repo.hostname (number_path repo number) decode) _ s h in
      let (r, answered, good, read) =
        rest_with_url_ok "GET" (api_url repo (number_path repo number)) none (some decode) s e in
      let (page, decoded_page, others, first) =
        page_read decode r number found _ read (ap (λ q. q.0) k) in
      (
        r,
        subst (λ u. Answered (number_request repo number) s u r) (ap (λ q. q.1) k) answered,
        page,
        decoded_page,
        others,
        first,
      )

  stop_ok :
      (repo : Repo) (uuid : Text) (s : Session H) {t : Session H}
      → stop_pipeline repo uuid s ≡ (ok tt, t)
      → (r : Response) × Answered (stop_request repo uuid) s t r × (is_success r.status ≡ true)
  unfolding stop_pipeline send_json rest stop_path repository_path rest_headers rest_prefix is_cloud
      codes
  stop_ok repo uuid s {t = t} h =
      let sending = send_json {A = Unit {0}} "POST" repo.hostname (stop_path repo uuid) none none in
      let (_, e, k) = bind_ok sending _ s h in
      let (r, answered, good, read) =
        rest_with_url_ok "POST" (api_url repo (stop_path repo uuid)) none none s e in
      (r, subst (λ u. Answered (stop_request repo uuid) s u r) (ap (λ q. q.1) k) answered, good)

  told :
      (is_tty : Bool) (format : String) (arguments : List Text) (s : Session H) {t : Session H}
      → (if is_tty then print_out format arguments else (λ u. (ok tt, u))) s ≡ (ok tt, t)
      → (t.sent ≡ s.sent) × (t.server ≡ s.server)
  told true format arguments s h = (sym (ap (λ p. p.1.sent) h), sym (ap (λ p. p.1.server) h))
  told false format arguments s h = (sym (ap (λ p. p.1.sent) h), sym (ap (λ p. p.1.server) h))

  -- A run of `bb pipeline cancel` that succeeds has fetched the pipelines of the number that the
  -- argument names, in the argument's repository or else the base one; the first of them was
  -- IN_PROGRESS, PENDING or PAUSED, and one POST to its `/stopPipeline` followed, which was answered by
  -- a status from 200 to 299. The first request was a GET.
  pub cancel_run_done :
      (decode : Text → Result (Page Pipeline)) (is_tty : Bool) (opts : Target) (s t : Session H)
      → cancel_run decode is_tty opts s ≡ (ok tt, t)
      → Cancelled decode opts s t
  unfolding cancel_run
  cancel_run_done decode is_tty opts s t h =
      let (target, e, h1) = bind_ok (lift (λ s. find_pipeline opts)) _ s h in
      let (p, ef, h2) = bind_ok (fetch_pipeline decode target.1 target.0) _ s h1 in
      let u = (fetch_pipeline decode target.1 target.0 s).1 in
      let (running, h3) = guard_ok (not (is_running p)) _ _ u h2 in
      let (_, es, last) = bind_ok (stop_pipeline target.1 p.uuid) _ u h3 in
      let (found, fetched, page, read, others, first) = fetch_ok decode target.1 target.0 s ef in
      let (r, answered, good) = stop_ok target.1 p.uuid u es in
      let (sent, server) = told is_tty _ _ _ last in
      record {
        number = target.0;
        repo = target.1;
        target = find_pipeline-Names opts (ap (λ q. q.0) e);
        between = u;
        found = found;
        fetched = fetched;
        page = page;
        read = read;
        pipeline = p;
        others = others;
        first = first;
        running = state_runs p.state p refl (of_not (is_running p) running);
        stopped = r;
        reply = answered.reply ∙ ap (λ w. (ok r, w)) (sym server);
        sent = sent ∙ answered.sent;
        success = success_between r.status good;
      }

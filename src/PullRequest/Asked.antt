-- ===== src/PullRequest/Asked.antt =====
-- pkg/cmd/pr and pkg/cmd/pipeline: the addresses of the API's documentation, written out, and the pull
-- request that an argument names.
use bitbucket_cli.Prelude.{
  ◌≡◌, refl, ap, subst, ◌⊎◌, inl, inr, Option, none, some, ◌∷◌, ◌++◌, if◌then◌else◌,
}
use bitbucket_cli.Prelude.Codes.{Text, codes, equal_fold, slash}
use bitbucket_cli.Prelude.Decimal.{ℤ, show_int}
use bitbucket_cli.Prelude.Result.{Result, ok, err, ok_inj, ◌>>=◌}
use bitbucket_cli.Repo.{Repo}
use bitbucket_cli.Selector.{parse_pr_arg}
use bitbucket_cli.PullRequest.Target.{Target, or_base, find_target}

-- `https://api.HOST/2.0/repositories/WORKSPACE/SLUG/` and what follows.
abbrev pub repository_address : Repo → Text → Text
repository_address repo rest =
    (if equal_fold repo.hostname (codes "bitbucket.org")
      then codes "https://api.bitbucket.org/2.0/"
      else codes "https://api." ++ repo.hostname ++ codes "/2.0/")
    ++ (codes "repositories/" ++ repo.workspace ++ slash ∷ repo.slug ++ slash ∷ rest)

abbrev pub pull_request_address : Repo → ℤ → Text → Text
pull_request_address repo id rest =
    repository_address repo (codes "pullrequests/" ++ show_int id ++ rest)

-- The repository is the one that was named, or else the base one.
abbrev pub NamedOrBase : Option Repo → Result Repo → Repo → Type 0
NamedOrBase named base repo = (named ≡ some repo) ⊎ ((named ≡ none) × (base ≡ ok repo))

pub named_or_base :
    (named : Option Repo) (base : Result Repo) (repo : Repo)
    → or_base base named ≡ ok repo
    → NamedOrBase named base repo
named_or_base none base repo h = inr (refl, h)
named_or_base (some r) base repo h = inl (cc)

-- The pull request that the argument of a command names.
pub record Names (opts : Target) (id : ℤ) (repo : Repo) : Type 0 where
  pub named : Option Repo
  pub parsed : parse_pr_arg opts.selector_arg ≡ ok (id, named)
  pub repository : NamedOrBase named opts.base_repo repo

-- What a bind of results that succeeds was made of.
pub result_ok :
    {A B : Type 0} (r : Result A) (f : A → Result B) {b : B}
    → r >>= f ≡ ok b
    → (a : A) × (r ≡ ok a) × (f a ≡ ok b)
result_ok (ok a) f h = (a, refl, h)
result_ok (err e) f h = absurd (cc)

pub find_target-Names :
    (opts : Target) {id : ℤ} {repo : Repo} → find_target opts ≡ ok (id, repo) → Names opts id repo
unfolding find_target
find_target-Names opts {id} {repo} h =
    let (_, _, h1) = result_ok opts.http_client _ h in
    let (p, parsed, h2) = result_ok (parse_pr_arg opts.selector_arg) _ h1 in
    let (found, e, h3) = result_ok (or_base opts.base_repo p.1) _ h2 in
    let same = ok_inj h3 in
    record {
      named = p.1;
      parsed =
          subst (λ i. parse_pr_arg opts.selector_arg ≡ ok (i, p.1)) (ap (λ q. q.0) same) parsed;
      repository =
          subst (NamedOrBase p.1 opts.base_repo) (ap (λ q. q.1) same)
            (named_or_base p.1 opts.base_repo found e);
    }

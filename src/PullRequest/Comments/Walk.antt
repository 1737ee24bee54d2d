-- ===== src/PullRequest/Comments/Walk.antt =====
-- pkg/cmd/pr/list/http.go: the loop of FetchPullRequestComments against the pages that the server
-- gives.
use mathlib.Core.List.{append_assoc, append-nil}
use bitbucket_cli.Prelude.{
  ℕ, zero, suc, ◌<◌, ◌≡◌, refl, ◌∙◌, ap, false, true, some, List, [], ◌++◌, ◌↔◌, sym, subst, inl,
  inr, Bool-cases, arith,
}
use bitbucket_cli.Prelude.Codes.{Text, codes, text_eq}
use bitbucket_cli.Prelude.Decimal.{ℤ}
use bitbucket_cli.Prelude.Result.{Error, Result, ok, err}
use bitbucket_cli.Repo.{Repo}
use bitbucket_cli.Api.{HttpLib, Session}
use bitbucket_cli.PullRequest.{Page, Comment, pr_url}
use bitbucket_cli.PullRequest.Comments.{fetch_page, after_page, fetch_pages, fetch_comments}

abbrev pub prefixed : {A : Type 0} → List A → Result (List A) → Result (List A)
prefixed values (ok rest) = ok (values ++ rest)
prefixed values (err e) = err e

-- How `n` pages follow one another from a URL, each answered in the state that the one before
-- leaves: to the page with no next one, with the values of all, or to the first that fails.
pub data Walk {H : HttpLib} {A : Type 0} (decode : Text → Result (Page A))
    : Text → Session H → ℕ → Result (List A) → Session H → Type 0 where
  finished : {url : Text} {s : Session H} → text_eq url [] ≡ true → Walk decode url s zero (ok []) s
  failed :
      {url : Text} {s t : Session H} {e : Error}
      → text_eq url [] ≡ false
      → fetch_page decode url s ≡ (err e, t)
      → Walk decode url s zero (err e) t
  followed :
      {url : Text} {s t u : Session H} {n : ℕ} {p : Page A} {rest r : Result (List A)}
      → text_eq url [] ≡ false
      → fetch_page decode url s ≡ (ok p, t)
      → Walk decode p.next t n rest u
      → r ≡ prefixed p.values rest
      → Walk decode url s (suc n) r u

prefixed-append :
    {A : Type 0} (all values : List A) (rest : Result (List A))
    → prefixed (all ++ values) rest ≡ prefixed all (prefixed values rest)
prefixed-append all values (ok rest) = ap ok (append_assoc all values rest)
prefixed-append all values (err e) = refl

prefixed_nil : {A : Type 0} (r : Result (List A)) → prefixed [] r ≡ r
prefixed_nil (ok rest) = refl
prefixed_nil (err e) = refl

module _ {H : HttpLib} {A : Type 0} (decode : Text → Result (Page A)) where
  fetch_pages-Walk :
      (fuel : ℕ) (all : List A) {url : Text} {s t : Session H} {n : ℕ} {r : Result (List A)}
      → Walk decode url s n r t
      → n < fuel
      → fetch_pages decode fuel url all s ≡ some (prefixed all r, t)
  unfolding fetch_pages after_page
  fetch_pages-Walk zero all w h = absurd (omega arith)
  fetch_pages-Walk (suc fuel) all (finished e) h = rw (e, append-nil all) refl
  fetch_pages-Walk (suc fuel) all (failed e page) h = rw (e, page) refl
  fetch_pages-Walk (suc fuel) all (followed {u = u} {p = p} {rest = rest} e page w more) h =
      rw (e, page, more)
        (fetch_pages-Walk fuel (all ++ p.values) w (omega arith)
          ∙ ap (λ v. some (v, u)) (prefixed-append all p.values rest))

  -- What a run that ends has followed.
  Followed : ℕ → Text → List A → Session H → Result (List A) → Session H → Type 0
  Followed fuel url all s r t =
      (n : ℕ) × (q : Result (List A)) × (n < fuel) × Walk decode url s n q t × (r ≡ prefixed all q)

  after_page-Followed :
      (fuel : ℕ)
      → ((url : Text) (all : List A) (s : Session H) (r : Result (List A)) (t : Session H)
          → fetch_pages decode fuel url all s ≡ some (r, t)
          → Followed fuel url all s r t)
      → (url : Text) (all : List A) (s : Session H) (r : Result (List A)) (t : Session H)
      → text_eq url [] ≡ false
      → (a : Result (Page A)) (u : Session H) → fetch_page decode url s ≡ (a, u)
      → after_page (fetch_pages decode fuel) all (a, u) ≡ some (r, t)
      → Followed (suc fuel) url all s r t
  unfolding after_page Followed
  after_page-Followed fuel ih url all s r t e (ok p) u page h =
      let (n, q, lt, w, out) = ih p.next (all ++ p.values) u r t h in
      (
        suc n,
        prefixed p.values q,
        omega arith,
        followed e page w refl,
        out ∙ prefixed-append all p.values q,
      )
  after_page-Followed fuel ih url all s r t e (err x) u page h = (
    zero,
    err x,
    omega arith,
    subst (λ v. Walk decode url s zero (err x) v) (cc) (failed e page),
    cc,
  )

  fetch_pages-Followed :
      (fuel : ℕ) (url : Text) (all : List A) (s : Session H) (r : Result (List A)) (t : Session H)
      → fetch_pages decode fuel url all s ≡ some (r, t)
      → Followed fuel url all s r t
  unfolding fetch_pages Followed
  fetch_pages-Followed zero url all s r t h = absurd (cc)
  fetch_pages-Followed (suc fuel) url all s r t h = elim (Bool-cases (text_eq url [])) [
    | inl e ↦ (
      zero,
      ok [],
      omega arith,
      subst (λ v. Walk decode url s zero (ok []) v) (ground (arith, e, h)) (finished e),
      ground (arith, e, h, append-nil all),
    )
    | inr e ↦
        after_page-Followed fuel (fetch_pages-Followed fuel) url all s r t e
          (fetch_page decode url s).0 (fetch_page decode url s).1 refl (rw e at h)
  ]

-- The loop of `FetchPullRequestComments` ends within its fuel, with a result and a state, exactly when
-- pages, fewer than the fuel, follow one another from the first URL to that result and state: the
-- result is the comments of all pages in their order, or the error of the first page that fails.
pub fetch_comments_iff :
    {H : HttpLib} (decode : Text → Result (Page Comment)) (fuel : ℕ) (repo : Repo) (id : ℤ)
    (s : Session H) (r : Result (List Comment)) (t : Session H)
    → (fetch_comments decode fuel repo id s ≡ some (r, t)) ↔ (
        (n : ℕ) × (n < fuel) × Walk decode (pr_url repo id (codes "/comments?pagelen=100")) s n r t)
unfolding fetch_comments Followed
fetch_comments_iff decode fuel repo id s r t = (
  λ h.
      let (n, q, lt, w, out) = fetch_pages-Followed decode fuel _ [] s r t h in
      (
        n,
        lt,
        subst (λ v. Walk decode (pr_url repo id (codes "/comments?pagelen=100")) s n v t)
            (sym (out ∙ prefixed_nil q)) w,
      ),
  λ (n, lt, w). fetch_pages-Walk decode fuel [] w lt ∙ ap (λ v. some (v, t)) (prefixed_nil r),
)

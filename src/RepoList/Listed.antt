-- ===== src/RepoList/Listed.antt =====
-- pkg/cmd/repo/list/http.go: the list is what a reference definition makes of all pages.
use mathlib.Core.List.{append_assoc, append-nil}
use bitbucket_cli.Prelude.{
  ℕ, zero, suc, ◌+◌, ◌<◌, ◌≤◌, ◌≡◌, refl, ◌∙◌, ap, sym, subst, false, true, not, ◌&&◌, Bool, Option,
  some, List, [], ◌∷◌, ◌++◌, inl, inr, Bool-cases, leb, ltb, length, length-append, filter, take,
  if◌then◌else◌, arith,
}
use bitbucket_cli.Prelude.Codes.{Text, text_eq}
use bitbucket_cli.Prelude.Result.{ok_inj, Result, ok, err}
use bitbucket_cli.Api.{HttpLib, Session}
use bitbucket_cli.PullRequest.{Page}
use bitbucket_cli.PullRequest.Comments.{fetch_page}
use bitbucket_cli.PullRequest.Comments.Walk.{Walk, finished, failed, followed, prefixed}
use bitbucket_cli.RepoList.{
  Repository, FilterOptions, RepositoryList, Listing, is_kept, is_kept_for_user, append_repo,
  append_user_repo, add_values, after_list, list_pages, list_user_repos, list_workspace_repos,
  list_repos, empty_list, decode_or_wrap, user_url, workspace_url,
}

take_all {ℓ} : {A : Type ℓ} (n : ℕ) (xs : List A) → length xs ≤ n → take n xs ≡ xs
take_all zero [] h = refl
take_all zero (x ∷ xs) h = absurd (omega arith)
take_all (suc n) [] h = refl
take_all (suc n) (x ∷ xs) h = ap (λ l. x ∷ l) (take_all n xs (omega arith))

take-append {ℓ} :
    {A : Type ℓ} (n : ℕ) (xs ys : List A) → n ≤ length xs → take n (xs ++ ys) ≡ take n xs
take-append zero xs ys h = refl
take-append (suc n) [] ys h = absurd (omega arith)
take-append (suc n) (x ∷ xs) ys h = ap (λ l. x ∷ l) (take-append n xs ys (omega arith))

take-take {ℓ} : {A : Type ℓ} (n : ℕ) (xs ys : List A) → take n (take n xs ++ ys) ≡ take n (xs ++ ys)
take-take zero xs ys = refl
take-take (suc n) [] ys = refl
take-take (suc n) (x ∷ xs) ys = ap (λ l. x ∷ l) (take-take n xs ys)

filter-append {ℓ} :
    {A : Type ℓ} (p : A → Bool) (xs ys : List A) → filter p (xs ++ ys) ≡ filter p xs ++ filter p ys
filter-append p [] ys = refl
filter-append p (x ∷ xs) ys = ground (arith, filter-append p xs ys)

-- The loop ends without an error, and what it has is the expected list.
abbrev pub Lists :
    {H : HttpLib} → Option (Result RepositoryList × Session H) → List Repository → Type 0
Lists {H} o expected =
    (out : RepositoryList) × (u : Session H) × (o ≡ some (ok out, u))
    × (out.repositories ≡ expected)

length-take {ℓ} : {A : Type ℓ} (n : ℕ) (xs : List A) → length (take n xs) ≤ n
length-take zero xs = omega arith
length-take (suc n) [] = omega arith
length-take (suc n) (x ∷ xs) = omega (arith, length-take n xs)

prefixed_ok :
    {A : Type 0} (values : List A) (rest : Result (List A)) {all : List A}
    → prefixed values rest ≡ ok all
    → (later : List A) × (rest ≡ ok later) × (all ≡ values ++ later)
prefixed_ok values (ok later) h = (later, refl, sym (ok_inj h))
prefixed_ok values (err e) h = absurd (cc)

module _ (keep : Repository → Bool) (append : RepositoryList → Repository → RepositoryList)
    (limit : ℕ)
    (appends : (l : RepositoryList) (r : Repository)
      → (append l r).repositories ≡ l.repositories ++ r ∷ []) where
  length-appended :
      (l : RepositoryList) (r : Repository)
      → length (append l r).repositories ≡ length l.repositories + 1
  length-appended l r = ap length (appends l r) ∙ length-append l.repositories (r ∷ [])

  appended_before :
      (l : RepositoryList) (r : Repository) (rest : List Repository)
      → take limit ((append l r).repositories ++ rest) ≡ take limit (l.repositories ++ r ∷ rest)
  appended_before l r rest =
      ap (λ v. take limit (v ++ rest)) (appends l r)
      ∙ ap (take limit) (append_assoc l.repositories (r ∷ []) rest)

  -- A list that has reached the limit.
  full_before :
      (xs rest : List Repository)
      → length xs ≤ limit
      → limit ≤ length xs
      → xs ≡ take limit (xs ++ rest)
  full_before xs rest h k = sym (take-append limit xs rest k ∙ take_all limit xs h)

  -- The values of a page, below the limit.
  add_values-take :
      (l : RepositoryList) (values : List Repository)
      → length l.repositories < limit
      → (add_values keep append limit l values).repositories
        ≡ take limit (l.repositories ++ filter keep values)
  unfolding add_values
  add_values-take l [] h =
      sym (take_all limit _ (omega (arith, length-append l.repositories [])) ∙ append-nil _)
  add_values-take l (r ∷ values) h = elim (Bool-cases (keep r)) [
    | inr skip ↦ rw skip (add_values-take l values h)
    | inl kept ↦ elim (Bool-cases (leb limit (length (append l r).repositories))) [
      | inl full ↦
          rw (kept, full)
            (full_before (append l r).repositories (filter keep values)
                (omega (arith, length-appended l r)) (ground (arith, full))
              ∙ appended_before l r (filter keep values))
      | inr room ↦
          rw (kept, room)
            (add_values-take (append l r) values (ground (arith, room))
              ∙ appended_before l r (filter keep values))
    ]
  ]

  -- The list after a page.
  next_list : RepositoryList → Page Repository → RepositoryList
  next_list l p = record (add_values keep append limit l p.values) { total_count = p.size }

  length-next :
      (l : RepositoryList) (p : Page Repository)
      → length l.repositories < limit
      → length (next_list l p).repositories ≤ limit
  unfolding next_list
  length-next l p h =
      rw (add_values-take l p.values h) (length-take limit (l.repositories ++ filter keep p.values))

  next_before :
      (l : RepositoryList) (p : Page Repository) (later : List Repository)
      → length l.repositories < limit
      → take limit ((next_list l p).repositories ++ filter keep later)
        ≡ take limit (l.repositories ++ filter keep (p.values ++ later))
  unfolding next_list
  next_before l p later h =
      ap (λ v. take limit (v ++ filter keep later)) (add_values-take l p.values h)
      ∙ take-take limit (l.repositories ++ filter keep p.values) (filter keep later)
      ∙ ap (take limit) (
          append_assoc l.repositories (filter keep p.values) (filter keep later)
          ∙ ap (λ v. l.repositories ++ v) (sym (filter-append keep p.values later)))

  module _ {H : HttpLib} (decode : Text → Result (Page Repository)) where
    list_step :
        (fuel : ℕ) (url : Text) (l : RepositoryList) (s u : Session H) (p : Page Repository)
        → text_eq url [] ≡ false
        → ltb (length l.repositories) limit ≡ true
        → fetch_page decode url s ≡ (ok p, u)
        → list_pages keep append limit decode (suc fuel) url l s
          ≡ list_pages keep append limit decode fuel p.next (next_list l p) u
    unfolding list_pages after_list next_list
    list_step fuel url l s u p more room page = rw (more, room, page) refl

    list_stopped :
        (fuel : ℕ) (url : Text) (l : RepositoryList) (s : Session H) (rest : List Repository)
        → (not (text_eq url []) && ltb (length l.repositories) limit) ≡ false
        → l.repositories ≡ take limit (l.repositories ++ rest)
        → Lists
            (list_pages keep append limit decode (suc fuel) url l s)
            (take limit (l.repositories ++ rest))
    unfolding list_pages
    list_stopped fuel url l s rest stop e = (l, s, rw stop refl, e)

    list_pages-Walk :
        (fuel : ℕ) (l : RepositoryList) {url : Text} {s t : Session H} {n : ℕ}
        {r : Result (List Repository)} (all : List Repository)
        → Walk decode url s n r t
        → r ≡ ok all
        → n < fuel
        → length l.repositories ≤ limit
        → Lists
            (list_pages keep append limit decode fuel url l s)
            (take limit (l.repositories ++ filter keep all))
    list_pages-Walk zero l all w e lt le = absurd (omega arith)
    list_pages-Walk (suc fuel) l all (finished {url = url} {s = s} last) e lt le =
        subst
          (λ v.
            Lists (list_pages keep append limit decode (suc fuel) url l s)
              (take limit (l.repositories ++ filter keep v)))
          (ok_inj e)
          (list_stopped fuel url l s [] (rw last refl) (
            sym (take_all limit _ (omega (arith, length-append l.repositories [])) ∙ append-nil _)))
    list_pages-Walk (suc fuel) l all (failed bad page) e lt le = absurd (cc)
    list_pages-Walk (suc fuel) l all
          (followed {url = url} {s = s} {t = u} {p = p} {rest = rest} more page w same) e lt le =
        let (later, ends, all_eq) = prefixed_ok p.values rest (sym same ∙ e) in
        let expected = λ (v : List Repository). take limit (l.repositories ++ filter keep v) in
        subst (λ v. Lists (list_pages keep append limit decode (suc fuel) url l s) (expected v))
          (sym all_eq)
          (elim (Bool-cases (ltb (length l.repositories) limit)) [
            | inl room ↦
                let next = next_list l p in
                let (out, v, runs, has) =
                  list_pages-Walk fuel next later w ends (omega arith)
                    (length-next l p (ground (arith, room))) in
                (
                  out,
                  v,
                  list_step fuel url l s u p more room page ∙ runs,
                  has ∙ next_before l p later (ground (arith, room)),
                )
            | inr full ↦
                list_stopped fuel url l s _ (rw (more, full) refl)
                  (full_before l.repositories _ le (ground (arith, full)))
          ])

appends_repo :
    (l : RepositoryList) (r : Repository)
    → (append_repo l r).repositories ≡ l.repositories ++ r ∷ []
unfolding append_repo
appends_repo l r = refl

appends_user_repo :
    (l : RepositoryList) (r : Repository)
    → (append_user_repo l r).repositories ≡ l.repositories ++ r ∷ []
unfolding append_user_repo
appends_user_repo l r = refl

-- Where the pages come from, and which repositories are kept: without a workspace those of the user.
abbrev pub decode_for : Listing → Bool → Text → Result (Page Repository)
decode_for l user = decode_or_wrap (if user then l.decode_permissions else l.decode_repositories)

abbrev pub keep_for : Bool → FilterOptions → Repository → Bool
keep_for user options = if user then is_kept_for_user options else is_kept options

abbrev pub url_for : Listing → Bool → Text → ℕ → Text → FilterOptions → Text
url_for l user hostname limit workspace options =
    if user
    then user_url l.encode hostname limit options
    else workspace_url l.encode l.quote hostname limit workspace options

-- Where the pages of a listing follow one another without an error, and the fuel is more than
-- their number, `listRepos` ends without an error, and its repositories are, in order, the first
-- of those on the pages that the filters keep, as many as the limit allows.
pub list_repos-take :
    {H : HttpLib} (l : Listing) (fuel : ℕ) (hostname : Text) (limit : ℕ) (workspace : Text)
    (options : FilterOptions) (s t : Session H) (n : ℕ) (all : List Repository)
    → Walk
        (decode_for l (text_eq workspace []))
        (url_for l (text_eq workspace []) hostname limit workspace options)
        s
        n
        (ok all)
        t
    → n < fuel
    → Lists
        (list_repos l fuel hostname limit workspace options s)
        (take limit (filter (keep_for (text_eq workspace []) options) all))
unfolding list_repos list_user_repos list_workspace_repos
list_repos-take {H} l fuel hostname limit workspace options s t n all w lt =
    elim (Bool-cases (text_eq workspace [])) [
      | inl user ↦ rw user (
          list_pages-Walk (is_kept_for_user options) append_user_repo limit appends_user_repo
            (decode_or_wrap l.decode_permissions) fuel (empty_list []) all (rw user at w) refl lt
            (omega arith))
      | inr named ↦ rw named (
          list_pages-Walk (is_kept options) append_repo limit appends_repo
            (decode_or_wrap l.decode_repositories) fuel (empty_list workspace) all (rw named at w)
            refl lt (omega arith))
    ]

-- ===== src/Remotes/Base.antt =====
-- context/context.go: what the base repository is.
use mathlib.Core.List.{Memᴰ}
use bitbucket_cli.Prelude.{
  All-weaken, All-Memᴰ, ◌≡◌, ◌≢◌, sym, String, ◌⊎◌, true, arith, subst, refl, Bool, false, List, [],
  ◌∷◌, All, Option, none, inl, inr, Bool-cases,
}
use bitbucket_cli.Prelude.Codes.{Text, codes, text_eq, to_lower}
use bitbucket_cli.Prelude.Codes.Laws.{eq_of_text_eq, text_eq_iff}
use bitbucket_cli.Repo.{Repo, Url, parsed, from_full_name}
use bitbucket_cli.Remotes.{
  Remote, base, remote_name_sort_score, less, insert, sort_stable, resolution, first_remote,
  base_repo, resolve_remotes_to_repos,
}
use bitbucket_cli.Remotes.Order.{IsSorted, sort_stable-IsSorted, sort_stable-All, All-sort_stable}

abbrev Unresolved : Remote → Type 0
Unresolved r = r.remote.resolved ≡ []

abbrev IsNamed : String → Remote → Type 0
IsNamed name r = to_lower r.remote.name ≡ codes name

abbrev IsNotNamed : String → Remote → Type 0
IsNotNamed name r = to_lower r.remote.name ≢ codes name

-- The name of the first is as good as that of the second, of the names that count.
abbrev pub AsGood : Remote → Remote → Type 0
AsGood r b =
    IsNamed "upstream" r
    ⊎ (IsNotNamed "upstream" b
        × (IsNamed "bitbucket" r
            ⊎ (IsNotNamed "bitbucket" b × (IsNamed "origin" r ⊎ IsNotNamed "origin" b))))

abbrev is_named : String → Remote → Bool
is_named name r = text_eq (to_lower r.remote.name) (codes name)

-- The second has no better name.
no_better :
    (r b : Remote)
    → less b r ≡ false
    → is_named "upstream" r ≡ false
    → (is_named "upstream" b ≡ false)
      × ((is_named "bitbucket" r ≡ true)
          ⊎ ((is_named "bitbucket" b ≡ false)
              × ((is_named "origin" r ≡ true) ⊎ (is_named "origin" b ≡ false))))
unfolding less remote_name_sort_score
no_better r b h up = (
  ground (arith, h, up),
  elim (Bool-cases (is_named "bitbucket" r)) [
    | inl mid ↦ inl mid
    | inr mid ↦ inr (
      ground (arith, h, up, mid),
      elim (Bool-cases (is_named "origin" r)) [
        | inl low ↦ inl low
        | inr low ↦ inr (ground (arith, h, up, mid, low))
      ],
    )
  ],
)

named : (name : String) (r : Remote) → is_named name r ≡ true → IsNamed name r
named name r = eq_of_text_eq (to_lower r.remote.name) (codes name)

not_named : (name : String) (r : Remote) → is_named name r ≡ false → IsNotNamed name r
not_named name r e q = absurd (cc ((text_eq_iff (to_lower r.remote.name) (codes name)).1 q, e))

pub as_good : (r b : Remote) → less b r ≡ false → AsGood r b
as_good r b h = elim (Bool-cases (is_named "upstream" r)) [
  | inl up ↦ inl (named "upstream" r up)
  | inr up ↦
      let (first, others) = no_better r b h up in
      inr (
        not_named "upstream" b first,
        elim others [
          | inl mid ↦ inl (named "bitbucket" r mid)
          | inr (second, inl low) ↦ inr (not_named "bitbucket" b second, inl (named "origin" r low))
          | inr (second, inr low) ↦
              inr (not_named "bitbucket" b second, inr (not_named "origin" b low))
        ],
      )
]

less_self : (r : Remote) → less r r ≡ false
unfolding less
less_self r = ground arith

AsGood-self : (r : Remote) → AsGood r r
AsGood-self r = as_good r r (less_self r)

module _ (parse_url : Text → Option Url) where
  resolution-none : (l : List Remote) → All Unresolved l → resolution parse_url l ≡ none
  unfolding resolution codes
  resolution-none [] h = refl
  resolution-none (r ∷ l) (e, h) = rw e (resolution-none l h)

  first_remote_lem :
      (r : Remote) (l : List Remote) → first_remote parse_url false (r ∷ l) ≡ base r.repo
  unfolding first_remote
  first_remote_lem r [] = refl
  first_remote_lem r (r' ∷ l) = refl

  insert_some :
      (a : Remote) (l : List Remote) → (r : Remote) × (rest : List Remote) × (insert a l ≡ r ∷ rest)
  unfolding insert
  insert_some a [] = (a, [], refl)
  insert_some a (b ∷ l) = elim (Bool-cases (less b a)) [
    | inl e ↦ (b, insert a l, rw e refl)
    | inr e ↦ (a, b ∷ l, rw e refl)
  ]

  sort_stable_some :
      (a : Remote) (l : List Remote)
      → (r : Remote) × (rest : List Remote) × (sort_stable (a ∷ l) ≡ r ∷ rest)
  unfolding sort_stable
  sort_stable_some a l = insert_some a (sort_stable l)

  base_repo_free :
      (r : Remote) (rest : List Remote)
      → resolution parse_url (r ∷ rest) ≡ none
      → base_repo parse_url false (record { base_override = none; remotes = r ∷ rest })
        ≡ base r.repo
  unfolding base_repo
  base_repo_free r rest free = rw (free, base_repo) (first_remote_lem r rest)

  resolve_remotes_blank :
      (l : List Remote)
      → (resolve_remotes_to_repos parse_url l []).0
        ≡ record { base_override = none; remotes = sort_stable l }
  unfolding resolve_remotes_to_repos
  resolve_remotes_blank l = refl

  -- Without a base that is given and with no remote that has a resolution, a clone with remotes has
  -- as its base, where the user cannot be asked, the repository of one of the remotes, whose name is as
  -- good as that of any: it is `upstream` where any is, or else `bitbucket` where any is, or else
  -- `origin` where any is, in upper or lower case.
  pub base_repo-best :
      (a : Remote) (l : List Remote)
      → All Unresolved (a ∷ l)
      → (r : Remote) × Memᴰ r (a ∷ l)
        × (base_repo parse_url false (resolve_remotes_to_repos parse_url (a ∷ l) []).0
            ≡ base r.repo)
        × All (AsGood r) (a ∷ l)
  base_repo-best a l free =
      let (r, rest, sorted) = sort_stable_some a l in
      let none_yet : resolution parse_url (r ∷ rest) ≡ none =
        resolution-none (r ∷ rest)
          (subst (All Unresolved) sorted (sort_stable-All Unresolved (a ∷ l) free)) in
      let ordered : IsSorted (r ∷ rest) = subst IsSorted sorted (sort_stable-IsSorted (a ∷ l)) in
      (
        r,
        (subst (All (λ x. Memᴰ x (a ∷ l))) sorted
            (sort_stable-All (λ x. Memᴰ x (a ∷ l)) (a ∷ l) (All-Memᴰ (a ∷ l)))).0,
        rw (resolve_remotes_blank (a ∷ l)) (rw sorted (base_repo_free r rest none_yet)),
        All-sort_stable (AsGood r) (a ∷ l) (
            subst (All (AsGood r)) (sym sorted)
              (AsGood-self r, All-weaken rest (as_good r) ordered.0)),
      )

  -- A base that is given is the base, whatever the remotes: `ResolveRemotesToRepos` reads it as
  -- `FromFullName` does.
  pub base_repo-override :
      (l : List Remote) (base_name : Text) (repo : Repo) (can_prompt : Bool)
      → text_eq base_name [] ≡ false
      → from_full_name parse_url base_name ≡ parsed repo
      → base_repo parse_url can_prompt (resolve_remotes_to_repos parse_url l base_name).0
        ≡ base repo
  unfolding base_repo resolve_remotes_to_repos
  base_repo-override l base_name repo can_prompt given read = rw given (rw read refl)

-- ===== src/Remotes.antt =====
-- context/remote.go and context/context.go: the git remotes of a clone, the repositories that they point
-- to, and the choice of the base repository.
pub mod Order
pub mod Base
pub mod Resolver
use bitbucket_cli.Prelude.{
  String, ℕ, Bool, true, false, ◌&&◌, ◌||◌, not, List, [], ◌∷◌, ◌++◌, if◌then◌else◌, Option, none,
  some, ltb, is_some,
}
use bitbucket_cli.Prelude.Codes.{Text, codes, text_eq, to_lower, equal_fold}
use bitbucket_cli.Repo.{
  Repo, Url, RepoError, Parsed, parsed, refused, from_url, from_full_name, new_with_host, is_same,
}

-- `git.Remote`
pub record GitRemote : Type 0 where
  pub name : Text
  pub resolved : Text
  pub fetch_url : Option Url
  pub push_url : Option Url

pub record Remote : Type 0 where
  pub remote : GitRemote
  pub repo : Repo

abbrev pub or_else {ℓ} : {A : Type ℓ} → Option A → Option A → Option A
or_else none later = later
or_else (some a) later = some a

with_name : Text → List Remote → Option Remote
with_name name [] = none
with_name name (rem ∷ rest) =
    let later = with_name name rest in
    if text_eq rem.remote.name name || text_eq name (codes "*") then some rem else later

-- `FindByName`
unfoldable pub find_by_name : List Remote → List Text → Option Remote
unfolding with_name
find_by_name r [] = none
find_by_name r (name ∷ names) = or_else (with_name name r) (find_by_name r names)

-- `FindByRepo`
unfoldable pub find_by_repo : List Remote → Text → Text → Option Remote
find_by_repo [] workspace slug = none
find_by_repo (rem ∷ rest) workspace slug =
    let later = find_by_repo rest workspace slug in
    if equal_fold rem.repo.workspace workspace && equal_fold rem.repo.slug slug
    then some rem
    else later

abbrev pub any_host : List Text → Text → Bool
any_host [] repo_host = false
any_host (host ∷ hosts) repo_host = equal_fold repo_host host || any_host hosts repo_host

-- `FilterByHosts`
unfoldable pub filter_by_hosts : List Remote → List Text → List Remote
filter_by_hosts [] hosts = []
filter_by_hosts (rr ∷ r) hosts =
    let rest = filter_by_hosts r hosts in
    if any_host hosts rr.repo.hostname then rr ∷ rest else rest

-- `ResolvedRemote`
unfoldable pub resolved_remote : List Remote → Option Remote
resolved_remote [] = none
resolved_remote (rr ∷ r) =
    let later = resolved_remote r in if text_eq rr.remote.resolved [] then later else some rr

-- `remoteNameSortScore`
unfoldable pub remote_name_sort_score : Text → ℕ
remote_name_sort_score name =
    if text_eq (to_lower name) (codes "upstream")
    then 3
    else if text_eq (to_lower name) (codes "bitbucket")
    then 2
    else if text_eq (to_lower name) (codes "origin")
    then 1
    else 0

-- `Less`
unfoldable pub less : Remote → Remote → Bool
unfolding remote_name_sort_score
less a b = ltb (remote_name_sort_score b.remote.name) (remote_name_sort_score a.remote.name)

-- `sort.Stable`, which has one answer, by insertion.
unfoldable pub insert : Remote → List Remote → List Remote
insert a [] = a ∷ []
insert a (b ∷ rest) = let later = insert a rest in if less b a then b ∷ later else a ∷ b ∷ rest

unfoldable pub sort_stable : List Remote → List Remote
unfolding insert
sort_stable [] = []
sort_stable (a ∷ rest) = insert a (sort_stable rest)

to_repo : (Url → Url) → Option Url → Option Repo
to_repo translate none = none
to_repo translate (some u) = elim (from_url (translate u)) [
  | parsed repo ↦ some repo
  | refused e ↦ none
]

add_remote : GitRemote → Option Repo → List Remote → List Remote
add_remote r none later = later
add_remote r (some repo) later = record { remote = r; repo = repo } ∷ later

-- `TranslateRemotes`
unfoldable pub translate_remotes : (Url → Url) → List GitRemote → List Remote
unfolding to_repo add_remote
translate_remotes translate [] = []
translate_remotes translate (r ∷ git_remotes) =
    add_remote r (or_else (to_repo translate r.fetch_url) (to_repo translate r.push_url))
      (translate_remotes translate git_remotes)

pub record ResolvedRemotes : Type 0 where
  pub base_override : Option Repo
  pub remotes : List Remote

override_with : List Remote → Parsed Repo → ResolvedRemotes × Option RepoError
override_with remotes (parsed repo) =
    (record { base_override = some repo; remotes = remotes }, none)
override_with remotes (refused e) = (record { base_override = none; remotes = remotes }, some e)

pub data BaseError : Type 0 where
  no_git_remotes : BaseError
  bad_resolution : RepoError → BaseError
  set_default_first : BaseError

pub data BaseRepo : Type 0 where
  base : Repo → BaseRepo
  no_base : BaseError → BaseRepo

module _ (parse_url : Text → Option Url) where
  -- `ResolveRemotesToRepos`
  unfoldable pub resolve_remotes_to_repos : List Remote → Text → ResolvedRemotes × Option RepoError
  unfolding override_with
  resolve_remotes_to_repos remotes base_name =
      let sorted = sort_stable remotes in
      if text_eq base_name []
      then (record { base_override = none; remotes = sorted }, none)
      else override_with sorted (from_full_name parse_url base_name)

  resolved_as : Remote → Parsed Repo → BaseRepo
  resolved_as r (parsed repo) = base (new_with_host repo.workspace repo.slug r.repo.hostname)
  resolved_as r (refused e) = no_base (bad_resolution e)

  -- The loop over the remotes that already have a resolution.
  resolution : List Remote → Option BaseRepo
  unfolding resolved_as
  resolution [] = none
  resolution (r ∷ rest) =
      let later = resolution rest in
      if text_eq r.remote.resolved (codes "base")
      then some (base r.repo)
      else if text_eq r.remote.resolved []
      then later
      else some (resolved_as r (from_full_name parse_url r.remote.resolved))

  first_remote : Bool → List Remote → BaseRepo
  first_remote can_prompt [] = no_base no_git_remotes
  first_remote can_prompt (r ∷ []) = base r.repo
  first_remote can_prompt (r ∷ r' ∷ rest) =
      if can_prompt then no_base set_default_first else base r.repo

  -- `BaseRepo`
  unfoldable pub base_repo : Bool → ResolvedRemotes → BaseRepo
  unfolding resolution first_remote
  base_repo can_prompt r = elim r.base_override [
    | some repo ↦ base repo
    | none ↦ elim (resolution r.remotes) [
      | some answer ↦ answer
      | none ↦ first_remote can_prompt r.remotes
    ]
  ]

first_same : Repo → List Remote → Option Remote
first_same repo [] = none
first_same repo (remote ∷ rest) =
    let later = first_same repo rest in if is_same remote.repo repo then some remote else later

-- `RemoteForRepo`
unfoldable pub remote_for_repo : ResolvedRemotes → Repo → Option Remote
unfolding first_same
remote_for_repo r repo = first_same repo r.remotes

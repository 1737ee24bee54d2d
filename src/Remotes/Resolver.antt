-- ===== src/Remotes/Resolver.antt =====
-- pkg/cmd/factory/remote_resolver.go: the remotes that commands work on, those of known hosts, kept
-- after the first call.
pub mod Found
use bitbucket_cli.Prelude.{
  String, ℕ, Bool, true, false, ◌==◌, ◌!=◌, ◌&&◌, ◌||◌, not, ◌≡◌, List, [], ◌∷◌, map, if◌then◌else◌,
  Option, none, some, All,
}
use bitbucket_cli.Prelude.Codes.{Text, codes}
use bitbucket_cli.Prelude.Result.{Error, Result, ok, err, errorf}
use bitbucket_cli.External.{Platform}
use bitbucket_cli.Action.{Action, pure, raise, ◌>>=◌, ◌>>◌}
use bitbucket_cli.World.{World}
use bitbucket_cli.Auth.{AuthConfig, hosts, default_host, has_env_token}
use bitbucket_cli.StringSet.{new_string_set, add_values, to_slice}
use bitbucket_cli.Repo.{Url}
use bitbucket_cli.Remotes.{GitRemote, Remote, translate_remotes, filter_by_hosts}
use bitbucket_cli.Remotes.Order.{IsSorted}

-- `sort.Sort`: the list in order. Among remotes of one score its answer is not specified.
pub record Sorting : Type 1 where
  pub sort : List Remote → List Remote
  pub sorted : (l : List Remote) → IsSorted (sort l)
  pub keeps : (Q : Remote → Type 0) (l : List Remote) → All Q l → All Q (sort l)

-- What the resolver is made with; the translator of SSH aliases is go-gh's.
pub record Sources : Type 1 where
  pub read_remotes : Result (List GitRemote)
  pub config : Result AuthConfig
  pub translate : Url → Url
  pub sorting : Sorting

pub record Resolver : Type 0 where
  pub cached_remotes : Option (List Remote)
  pub remotes_error : Option Error

abbrev pub new_resolver : Resolver
new_resolver = record { cached_remotes = none; remotes_error = none }

-- `isHostEnv`. go-gh reports its own GH_HOST as the source, so that only an override of the default
-- host has this one.
abbrev pub is_host_env : String → Bool
is_host_env src = src == "BB_HOST"

abbrev pub is_empty {ℓ} : {A : Type ℓ} → List A → Bool
is_empty [] = true
is_empty (x ∷ xs) = false

-- The hosts that remotes may point to.
unfoldable pub allowed_hosts : List String → String → List Text
allowed_hosts authed_hosts default_host_name = map codes (
    to_slice (
      add_values (add_values new_string_set authed_hosts)
        (default_host_name ∷ "bitbucket.org" ∷ [])))

-- The second filter, by the default host.
unfoldable pub narrow : String → String → List Remote → List Remote
narrow default_host_name src cached =
    let filtered = filter_by_hosts cached (codes default_host_name ∷ []) in
    if src != "default" && (is_host_env src || not (is_empty filtered)) then filtered else cached

none_left : String → Bool → Error
none_left src env_token =
    if is_host_env src
    then errorf
        "none of the git remotes configured for this repository correspond to the %s environment variable. Try adding a matching remote or unsetting the variable"
        (src ∷ [])
    else if env_token
    then errorf "set the BB_HOST environment variable to specify which Bitbucket host to use" []
    else errorf
        "none of the git remotes configured for this repository point to a known Bitbucket host. To tell bb about a new Bitbucket host, please use `bb auth login`"
        []

-- An error that the resolver keeps.
fail : Error → Action Resolver (List Remote)
fail e s = (err e, record s { remotes_error = some e })

keep : String → Bool → List Remote → Action Resolver (List Remote)
unfolding none_left
keep src env_token [] s = (
  err (none_left src env_token),
  record { cached_remotes = some []; remotes_error = some (none_left src env_token) },
)
keep src env_token (r ∷ rest) s = (ok (r ∷ rest), record s { cached_remotes = some (r ∷ rest) })

module _ {P : Platform} (sources : Sources) (w : World P) where
  -- The remotes that are kept, before the check that there are any.
  unfoldable pub known_remotes : AuthConfig → List GitRemote → List Remote
  unfolding allowed_hosts narrow
  known_remotes c git_remotes =
      let (default_host_name, src) = default_host c w in
      narrow default_host_name src (
        filter_by_hosts (sources.sorting.sort (translate_remotes sources.translate git_remotes))
          (allowed_hosts (hosts c w) default_host_name))

  with_config : List GitRemote → Result AuthConfig → Action Resolver (List Remote)
  unfolding keep
  with_config git_remotes (err e) = raise e
  with_config git_remotes (ok c) =
      if is_empty (hosts c w)
      then raise (errorf "could not find any host configurations" [])
      else keep (default_host c w).1 (has_env_token c w) (known_remotes c git_remotes)

  with_remotes : Result (List GitRemote) → Action Resolver (List Remote)
  unfolding with_config fail
  with_remotes (err e) = fail e
  with_remotes (ok []) = fail (errorf "no git remotes found" [])
  with_remotes (ok (r ∷ rest)) = with_config (r ∷ rest) sources.config

  -- The closure that `Resolver` returns. Where it has kept both remotes and an error, the error counts.
  unfoldable pub resolve : Action Resolver (List Remote)
  unfolding with_remotes
  resolve s = elim s.remotes_error [
    | some e ↦ (err e, s)
    | none ↦ elim s.cached_remotes [
      | some remotes ↦ (ok remotes, s)
      | none ↦ with_remotes sources.read_remotes s
    ]
  ]

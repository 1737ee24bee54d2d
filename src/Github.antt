-- ===== src/Github.antt =====
-- internal/ghinstance/host.go and internal/ghrepo/repo.go: the hosts and repositories of GitHub, which
-- parts of the program still use. go-gh's `NormalizeHostname`, `IsEnterprise` and `ParseWithHost` are
-- parameters.
use bitbucket_cli.Prelude.{Bool, ◌&&◌, ◌||◌, List, [], ◌∷◌, ◌++◌, if◌then◌else◌, Option, none, some}
use bitbucket_cli.Prelude.Codes.{
  Text, codes, text_eq, trim_suffix, trim, split_n, equal_fold, slash, colon,
}
use bitbucket_cli.Repo.{
  Url, no_hostname, invalid_path, Parsed, parsed, refused, normalize_hostname, git_suffix,
}

pub record GhAuth : Type 0 where
  pub normalize : Text → Text
  pub is_enterprise : Text → Bool

abbrev pub github_hostname : Text
github_hostname = codes "github.com"

abbrev pub localhost : Text
localhost = codes "github.localhost"

-- `strings.CutSuffix`, where the suffix is there; a suffix that is not empty.
cut_suffix : Text → Text → Option Text
cut_suffix s t = if text_eq (trim_suffix s t ++ t) s then some (trim_suffix s t) else none

unfoldable pub is_garage : Text → Bool
is_garage h = equal_fold h (codes "garage.github.com")

-- `HostPrefix`
unfoldable pub github_host_prefix : Text → Text
github_host_prefix hostname =
    (if equal_fold hostname localhost then codes "http://" else codes "https://")
    ++ hostname
    ++ slash ∷ []

module _ (auth : GhAuth) where
  -- `TenantName`: the name, where the host is a tenant's.
  unfoldable pub tenant_name : Text → Option Text
  unfolding cut_suffix
  tenant_name h = cut_suffix (auth.normalize h) (codes ".ghe.com")

  -- `GraphQLEndpoint`
  unfoldable pub graphql_endpoint : Text → Text
  unfolding is_garage
  graphql_endpoint hostname =
      if is_garage hostname || auth.is_enterprise hostname
      then codes "https://" ++ hostname ++ codes "/api/graphql"
      else if equal_fold hostname localhost
      then codes "http://api." ++ hostname ++ codes "/graphql"
      else codes "https://api." ++ hostname ++ codes "/graphql"

  -- `RESTPrefix`
  unfoldable pub github_rest_prefix : Text → Text
  unfolding is_garage
  github_rest_prefix hostname =
      if is_garage hostname || auth.is_enterprise hostname
      then codes "https://" ++ hostname ++ codes "/api/v3/"
      else if equal_fold hostname localhost
      then codes "http://api." ++ hostname ++ slash ∷ []
      else codes "https://api." ++ hostname ++ slash ∷ []

  -- `GistHost`
  unfoldable pub gist_host : Text → Text
  unfolding is_garage
  gist_host hostname =
      if is_garage hostname || auth.is_enterprise hostname || equal_fold hostname localhost
      then hostname ++ codes "/gist/"
      else codes "gist." ++ hostname ++ slash ∷ []

  -- `GistPrefix`
  unfoldable pub gist_prefix : Text → Text
  unfolding gist_host
  gist_prefix hostname =
      (if equal_fold hostname localhost then codes "http://" else codes "https://")
      ++ gist_host hostname

-- `ghRepo`
pub record GhRepo : Type 0 where
  pub owner : Text
  pub name : Text
  pub hostname : Text

-- `NewWithHost`
unfoldable pub gh_new_with_host : Text → Text → Text → GhRepo
unfolding normalize_hostname
gh_new_with_host owner name hostname = record {
  owner = owner;
  name = name;
  hostname = normalize_hostname hostname;
}

-- `New`
unfoldable pub gh_new : Text → Text → GhRepo
unfolding gh_new_with_host
gh_new owner name = gh_new_with_host owner name github_hostname

-- `FullName`
unfoldable pub gh_full_name : GhRepo → Text
gh_full_name r = r.owner ++ slash ∷ r.name

named_repo : Parsed GhRepo → Parsed GhRepo
named_repo (refused e) = refused e
named_repo (parsed r) = parsed (gh_new_with_host r.owner r.name r.hostname)

-- `FromFullNameWithHost`; `parse_with_host` is go-gh's.
unfoldable pub gh_from_full_name_with_host :
    (Text → Text → Parsed GhRepo) → Text → Text → Parsed GhRepo
unfolding named_repo
gh_from_full_name_with_host parse_with_host nwo fallback_host =
    named_repo (parse_with_host nwo fallback_host)

from_gh_path : Url → List Text → Parsed GhRepo
from_gh_path u (owner ∷ name ∷ []) =
    parsed (gh_new_with_host owner (trim_suffix name git_suffix) u.hostname)
from_gh_path u parts = refused (invalid_path u.path)

-- `FromURL`
unfoldable pub gh_from_url : Url → Parsed GhRepo
unfolding from_gh_path
gh_from_url u =
    if text_eq u.hostname []
    then refused no_hostname
    else from_gh_path u (split_n slash 2 (trim slash u.path))

-- `IsSame`
unfoldable pub gh_is_same : GhRepo → GhRepo → Bool
unfolding normalize_hostname
gh_is_same a b =
    equal_fold a.owner b.owner
    && equal_fold a.name b.name
    && text_eq (normalize_hostname a.hostname) (normalize_hostname b.hostname)

-- `GenerateRepoURL`, of the path that `fmt.Sprintf` makes.
unfoldable pub gh_generate_repo_url : GhRepo → Text → Text
unfolding github_host_prefix
gh_generate_repo_url r path =
    let base_url = github_host_prefix r.hostname ++ r.owner ++ slash ∷ r.name in
    if text_eq path [] then base_url else base_url ++ slash ∷ path

ssh_user : Option Text → Text
ssh_user none = codes "git"
ssh_user (some tenant) = tenant

-- `FormatRemoteURL`
unfoldable pub gh_format_remote_url : GhAuth → GhRepo → Bool → Text
unfolding ssh_user github_host_prefix tenant_name
gh_format_remote_url auth r ssh =
    if ssh
    then ssh_user (tenant_name auth r.hostname)
      ++ 64 ∷ r.hostname
      ++ colon ∷ r.owner
      ++ slash ∷ r.name
      ++ git_suffix
    else github_host_prefix r.hostname ++ r.owner ++ slash ∷ r.name ++ git_suffix

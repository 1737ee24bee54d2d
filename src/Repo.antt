-- ===== src/Repo.antt =====
-- internal/bbrepo/repo.go and internal/bbinstance/host.go: a repository's workspace, slug and host, and
-- the texts that name it. Texts are lists of code points.
pub mod RoundTrip
pub mod Same
use bitbucket_cli.Prelude.{
  String, ℕ, Bool, true, false, ◌&&◌, ◌||◌, List, [], ◌∷◌, ◌++◌, if◌then◌else◌, Option, none, some,
}
use bitbucket_cli.Prelude.Codes.{
  Text, codes, text_eq, has_prefix, trim_prefix, trim_suffix, trim, split_n, to_lower, equal_fold,
  has_code, is_blank, slash, colon,
}

-- The constants of the code.
abbrev pub http_prefix : Text
http_prefix = codes "http://"

abbrev pub https_prefix : Text
https_prefix = codes "https://"

abbrev pub git_suffix : Text
git_suffix = 46 ∷ 103 ∷ 105 ∷ 116 ∷ []

-- `Default` of internal/bbinstance
abbrev pub default_hostname : Text
default_hostname = codes "bitbucket.org"

-- `IsCloud`
unfoldable pub is_cloud : Text → Bool
is_cloud hostname = equal_fold hostname default_hostname

-- `NormalizeHostname` of internal/bbinstance
unfoldable pub normalize_instance : Text → Text
normalize_instance hostname =
    trim_prefix (trim_prefix (to_lower hostname) (codes "api.")) (codes "www.")

pub data HostError : Type 0 where
  value_required : HostError
  invalid_hostname : HostError

-- `HostnameValidator`: the error, if there is one.
unfoldable pub hostname_validator : Text → Option HostError
hostname_validator hostname =
    if is_blank hostname
    then some value_required
    else if has_code slash hostname || has_code colon hostname
    then some invalid_hostname
    else none

-- `RESTPrefix`
unfoldable pub rest_prefix : Text → Text
unfolding is_cloud
rest_prefix hostname =
    if is_cloud hostname
    then codes "https://api.bitbucket.org/2.0/"
    else codes "https://api." ++ hostname ++ codes "/2.0/"

-- `HostPrefix`
unfoldable pub host_prefix : Text → Text
host_prefix hostname = https_prefix ++ hostname ++ slash ∷ []

-- `RepoURL`, `CloneURL` and `AuthenticatedCloneURL`
unfoldable pub repo_url : Text → Text → Text → Text
repo_url hostname workspace slug = https_prefix ++ hostname ++ slash ∷ workspace ++ slash ∷ slug

unfoldable pub clone_url : Text → Text → Text → Text
clone_url hostname workspace slug =
    https_prefix ++ hostname ++ slash ∷ workspace ++ slash ∷ slug ++ git_suffix

unfoldable pub authenticated_clone_url : Text → Text → Text → Text → Text → Text
authenticated_clone_url hostname workspace slug username app_password =
    https_prefix
    ++ username
    ++ colon ∷ app_password
    ++ 64 ∷ hostname
    ++ slash ∷ workspace
    ++ slash ∷ slug
    ++ git_suffix

-- `bbRepo`
pub record Repo : Type 0 where
  pub workspace : Text
  pub slug : Text
  pub hostname : Text

-- The parts of a parsed URL that the code reads: `Hostname()` and `Path`.
pub record Url : Type 0 where
  pub hostname : Text
  pub path : Text

pub data RepoError : Type 0 where
  invalid_url : Text → RepoError
  no_hostname : RepoError
  invalid_path : Text → RepoError
  invalid_format : Text → RepoError

pub data Parsed (A : Type 0) : Type 0 where
  parsed : A → Parsed A
  refused : RepoError → Parsed A

unfoldable pub normalize_hostname : Text → Text
normalize_hostname h = to_lower (trim_prefix h (codes "www."))

-- `NewWithHost`
unfoldable pub new_with_host : Text → Text → Text → Repo
unfolding normalize_hostname
new_with_host workspace slug hostname = record {
  workspace = workspace;
  slug = slug;
  hostname = normalize_hostname hostname;
}

-- `New`
unfoldable pub new : Text → Text → Repo
unfolding new_with_host
new workspace slug = new_with_host workspace slug default_hostname

-- `FullName`
unfoldable pub full_name : Repo → Text
full_name r = r.workspace ++ slash ∷ r.slug

from_path : Url → List Text → Parsed Repo
from_path u (workspace ∷ slug ∷ []) =
    parsed (new_with_host workspace (trim_suffix slug git_suffix) u.hostname)
from_path u parts = refused (invalid_path u.path)

-- `FromURL`
unfoldable pub from_url : Url → Parsed Repo
unfolding from_path
from_url u =
    if text_eq u.hostname []
    then refused no_hostname
    else from_path u (split_n slash 2 (trim slash u.path))

from_parts : Text → Text → List Text → Parsed Repo
from_parts nwo fallback_host (workspace ∷ slug ∷ []) =
    parsed (new_with_host workspace slug fallback_host)
from_parts nwo fallback_host (host ∷ workspace ∷ slug ∷ []) =
    parsed (new_with_host workspace slug host)
from_parts nwo fallback_host parts = refused (invalid_format nwo)

from_parsed_url : Text → Option Url → Parsed Repo
from_parsed_url nwo none = refused (invalid_url nwo)
from_parsed_url nwo (some u) = from_url u

-- `FromFullNameWithHost`. `url.Parse` is a parameter; `none` stands for its error.
unfoldable pub from_full_name_with_host : (Text → Option Url) → Text → Text → Parsed Repo
unfolding from_parts from_parsed_url
from_full_name_with_host parse_url nwo fallback_host =
    if has_prefix nwo https_prefix || has_prefix nwo http_prefix
    then from_parsed_url nwo (parse_url nwo)
    else from_parts nwo fallback_host (split_n slash 3 nwo)

-- `FromFullName`
unfoldable pub from_full_name : (Text → Option Url) → Text → Parsed Repo
unfolding from_full_name_with_host
from_full_name parse_url nwo = from_full_name_with_host parse_url nwo default_hostname

-- `IsSame`
unfoldable pub is_same : Repo → Repo → Bool
unfolding normalize_hostname
is_same a b =
    equal_fold a.workspace b.workspace
    && equal_fold a.slug b.slug
    && text_eq (normalize_hostname a.hostname) (normalize_hostname b.hostname)

-- `GenerateRepoURL`, of the path that `fmt.Sprintf` makes.
unfoldable pub generate_repo_url : Repo → Text → Text
unfolding host_prefix
generate_repo_url r path =
    let base_url = host_prefix r.hostname ++ r.workspace ++ slash ∷ r.slug in
    if text_eq path [] then base_url else base_url ++ slash ∷ path

-- `FormatRemoteURL`
unfoldable pub format_remote_url : Repo → Bool → Text
unfolding host_prefix
format_remote_url r ssh =
    if ssh
    then codes "git@" ++ r.hostname ++ colon ∷ r.workspace ++ slash ∷ r.slug ++ git_suffix
    else host_prefix r.hostname ++ (r.workspace ++ (slash ∷ (r.slug ++ git_suffix)))

-- `FormatAuthenticatedRemoteURL`
unfoldable pub format_authenticated_remote_url : Repo → Text → Text → Text
format_authenticated_remote_url r username app_password =
    https_prefix
    ++ username
    ++ colon ∷ app_password
    ++ 64 ∷ r.hostname
    ++ slash ∷ r.workspace
    ++ slash ∷ r.slug
    ++ git_suffix

-- ===== src/Tests/Texts.antt =====
-- Repositories, remotes, URLs and arguments.
use mathlib.Core.List.{Memᴰ}
use bitbucket_cli.Prelude.{
  String, ℕ, ◌≡◌, ◌≢◌, refl, false, List, [], ◌∷◌, ◌++◌, Option, none, some, arith, All, ◌||◌,
}
use bitbucket_cli.Prelude.Codes.{
  Text, codes, text_eq, slash, colon, has_prefix, split_n, trim_prefix,
}
use bitbucket_cli.Prelude.Result.{ok}
use bitbucket_cli.Repo.{
  Repo, Url, parsed, new_with_host, full_name, from_full_name, from_url, format_remote_url,
  https_prefix, http_prefix, normalize_hostname,
}
use bitbucket_cli.Repo.RoundTrip.{
  IsNormal, remote_path, from_full_name-full_name, from_url-format_remote_url,
}
use bitbucket_cli.Auth.{AuthConfig, no_overrides, hosts, default_host, has_env_token}
use bitbucket_cli.Remotes.{
  Remote, sort_stable, base, base_repo, resolve_remotes_to_repos, translate_remotes,
  filter_by_hosts,
}
use bitbucket_cli.Remotes.Order.{sort_stable-IsSorted, sort_stable-All}
use bitbucket_cli.Remotes.Base.{AsGood, base_repo-best}
use bitbucket_cli.Remotes.Resolver.{
  Sorting, Sources, Resolver, new_resolver, allowed_hosts, narrow, known_remotes, resolve,
}
use bitbucket_cli.Remotes.Resolver.Found.{Allowed, resolve-Allowed}
use bitbucket_cli.StringSet.{new_string_set, add, add_values, to_slice}
use bitbucket_cli.GitUrl.{
  GitUrl, is_possible_protocol, is_supported_protocol, normalize, parse_git_url,
}
use bitbucket_cli.Tests.{bob_in, runs}

abbrev no_urls : Text → Option Url
no_urls = λ nwo. none

-- "a/b" on "h".
abbrev repo : Repo
repo = record { workspace = 97 ∷ []; slug = 98 ∷ []; hostname = 104 ∷ [] }

no_url :
    (has_prefix ((104 ∷ []) ++ slash ∷ full_name repo) https_prefix
      || has_prefix ((104 ∷ []) ++ slash ∷ full_name repo) http_prefix)
    ≡ false
unfolding full_name codes
no_url = refl

some_code : (c : ℕ) (t : Text) → ◌≢◌ {A = Text} (c ∷ t) []
some_code c t e = ground (arith, e)

-- A reading of URLs that takes what stands before the first slash after "https://" as the host.
abbrev host_and_path : List Text → Option Url
host_and_path (host ∷ path ∷ []) = some (record { hostname = host; path = slash ∷ path })
host_and_path parts = none

abbrev read_https : Text → Option Url
read_https url = host_and_path (split_n slash 1 (trim_prefix url https_prefix))

read_back :
    read_https (https_prefix ++ (repo.hostname ++ remote_path repo))
    ≡ some (record { hostname = repo.hostname; path = remote_path repo })
unfolding codes
read_back = refl

IsNormal-repo : IsNormal repo.hostname
unfolding codes normalize_hostname
IsNormal-repo = refl

from_url-format_remote_url_example :
    (format_remote_url repo false ≡ https_prefix ++ (repo.hostname ++ remote_path repo))
    × (from_full_name read_https (format_remote_url repo false) ≡ parsed repo)
from_url-format_remote_url_example =
    from_url-format_remote_url read_https repo read_back (some_code 104 []) IsNormal-repo
      (some_code 97 []) refl refl

-- "A/b" on "www.h".
abbrev spelled : Repo
spelled = record { workspace = 65 ∷ []; slug = 98 ∷ []; hostname = codes "www.h" }

abbrev remote_named : String → Remote
remote_named name = record {
  remote = record { name = codes name; resolved = []; fetch_url = none; push_url = none };
  repo = repo;
}

base_repo-best_example :
    (r : Remote) × Memᴰ r (remote_named "fork" ∷ remote_named "origin" ∷ [])
    × (base_repo no_urls false
          (resolve_remotes_to_repos no_urls (remote_named "fork" ∷ remote_named "origin" ∷ []) []).0
        ≡ base r.repo)
    × All (AsGood r) (remote_named "fork" ∷ remote_named "origin" ∷ [])
base_repo-best_example =
    base_repo-best no_urls (remote_named "fork") (remote_named "origin" ∷ []) (refl, (refl, tt))

reads :
    from_full_name no_urls (full_name repo)
    ≡ parsed (new_with_host (97 ∷ []) (98 ∷ []) (codes "bitbucket.org"))
unfolding from_full_name
reads = from_full_name-full_name no_urls repo (codes "bitbucket.org") refl refl

base_given : text_eq (full_name repo) [] ≡ false
unfolding full_name
base_given = refl

abbrev sorting : Sorting
sorting = record { sort = sort_stable; sorted = sort_stable-IsSorted; keeps = sort_stable-All }

abbrev sources : Sources
sources = record {
  read_remotes = ok (
      record {
        name = codes "origin";
        resolved = [];
        fetch_url = some (record { hostname = codes "bitbucket.org"; path = codes "/a/b.git" });
        push_url = none;
      }
      ∷ []);
  config = ok no_overrides;
  translate = λ u. u;
  sorting = sorting;
}

abbrev resolved : Resolver
resolved = (resolve sources bob_in new_resolver).1

abbrev origin : Remote
origin = record {
  remote = record {
    name = codes "origin";
    resolved = [];
    fetch_url = some (record { hostname = codes "bitbucket.org"; path = codes "/a/b.git" });
    push_url = none;
  };
  repo = new_with_host (97 ∷ []) (98 ∷ []) (codes "bitbucket.org");
}

resolves : resolve sources bob_in new_resolver ≡ (ok (origin ∷ []), resolved)
unfolding runs resolve known_remotes allowed_hosts narrow hosts default_host has_env_token
    translate_remotes from_url new_with_host filter_by_hosts sort_stable add_values new_string_set
    add to_slice codes
resolves = refl

resolve-Allowed_example :
    (c : AuthConfig) × (sources.config ≡ ok c)
    × (◌≢◌ {A = List Remote} (origin ∷ []) [])
    × Allowed (hosts c bob_in) (default_host c bob_in).0 (default_host c bob_in).1 (origin ∷ [])
resolve-Allowed_example = resolve-Allowed sources bob_in (origin ∷ []) resolved resolves

abbrev parse : Text → Option GitUrl
parse = λ u.
    some (record { scheme = codes "git+ssh"; host = codes "h"; path = codes "/a/b"; port = [] })

no_protocol : is_possible_protocol ((103 ∷ 64 ∷ 104 ∷ []) ++ colon ∷ (97 ∷ [])) ≡ false
unfolding is_possible_protocol is_supported_protocol codes
no_protocol = refl

abbrev ssh_url : GitUrl
ssh_url =
    normalize
      (record { scheme = codes "git+ssh"; host = codes "h"; path = codes "/a/b"; port = [] })

parses : parse_git_url parse (103 ∷ 64 ∷ 104 ∷ []) ≡ some ssh_url
unfolding parse_git_url
parses = refl

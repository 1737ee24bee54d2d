-- ===== src/Repo/RoundTrip.antt =====
-- internal/bbrepo/repo.go: a repository is read back from the texts that name it.
use mathlib.Core.List.{append_assoc}
use bitbucket_cli.Prelude.{
  ℕ, suc, ◌≡◌, ◌≢◌, refl, ap, ◌∙◌, false, ◌||◌, [], ◌∷◌, ◌++◌, Option, some, arith,
}
use bitbucket_cli.Prelude.Codes.{
  Text, codes, text_eq, has_prefix, trim_right, trim, split_n, has_code, slash,
}
use bitbucket_cli.Prelude.Codes.Laws.{
  eq_of_text_eq, occurrences, occurrences-append, occurrences-none, not_prefix, trim_suffix-append,
  trim_right-append, has_prefix-append,
}
use bitbucket_cli.Prelude.Codes.Splits.{
  split_n-append, split_n_whole, has_code-append, trim_left-append,
}
use bitbucket_cli.Repo.{
  Repo, Url, parsed, normalize_hostname, from_full_name, from_parsed_url, http_prefix, https_prefix,
  git_suffix, new_with_host, full_name, from_url, from_path, format_remote_url, host_prefix,
  from_parts, from_full_name_with_host,
}

slashes-full_name :
    (r : Repo)
    → has_code slash r.workspace ≡ false
    → has_code slash r.slug ≡ false
    → occurrences slash (full_name r) ≡ 1
unfolding full_name
slashes-full_name r w s = ground (
  arith,
  occurrences-append slash r.workspace (slash ∷ r.slug),
  occurrences-none slash r.workspace w,
  occurrences-none slash r.slug s,
)

not_url :
    (nwo : Text)
    → occurrences slash nwo ≡ 1
    → (has_prefix nwo https_prefix || has_prefix nwo http_prefix) ≡ false
unfolding codes
not_url nwo one = ground (
  arith,
  not_prefix slash nwo https_prefix (ground (arith, one)),
  not_prefix slash nwo http_prefix (ground (arith, one)),
)

split-full_name :
    (n : ℕ) (r : Repo)
    → has_code slash r.workspace ≡ false
    → has_code slash r.slug ≡ false
    → split_n slash (suc n) (full_name r) ≡ r.workspace ∷ r.slug ∷ []
unfolding full_name
split-full_name n r w s =
    split_n-append slash n r.workspace r.slug w
    ∙ ap (λ l. r.workspace ∷ l) (split_n_whole slash n r.slug s)

-- `FromFullNameWithHost` reads the workspace and the slug back from the full name of a repository
-- with no slash in either, and gives it the fallback host.
pub from_full_name-full_name :
    (parse_url : Text → Option Url) (r : Repo) (host : Text)
    → has_code slash r.workspace ≡ false
    → has_code slash r.slug ≡ false
    → from_full_name_with_host parse_url (full_name r) host
      ≡ parsed (new_with_host r.workspace r.slug host)
unfolding from_full_name_with_host
from_full_name-full_name parse_url r host w s =
    rw (not_url (full_name r) (slashes-full_name r w s))
      (ap (from_parts (full_name r) host) (split-full_name 2 r w s))

-- A name with a host before the workspace, that does not begin like a URL, is read as the three of
-- them, whatever the fallback host, where none of the three has a slash.
pub from_full_name-with_host :
    (parse_url : Text → Option Url) (r : Repo) (host fallback_host : Text)
    → has_code slash host ≡ false
    → has_code slash r.workspace ≡ false
    → has_code slash r.slug ≡ false
    → (has_prefix (host ++ slash ∷ full_name r) https_prefix
        || has_prefix (host ++ slash ∷ full_name r) http_prefix)
      ≡ false
    → from_full_name_with_host parse_url (host ++ slash ∷ full_name r) fallback_host
      ≡ parsed (new_with_host r.workspace r.slug host)
unfolding from_full_name_with_host
from_full_name-with_host parse_url r host fallback_host h w s no_url =
    let nwo = host ++ slash ∷ full_name r in
    rw no_url (
      ap (from_parts nwo fallback_host) (
        split_n-append slash 2 host (full_name r) h ∙ ap (λ l. host ∷ l) (split-full_name 1 r w s)))

-- The path of the URL that `FormatRemoteURL` makes.
abbrev pub remote_path : Repo → Text
remote_path r = slash ∷ (r.workspace ++ (slash ∷ (r.slug ++ git_suffix)))

trim-remote_path :
    (r : Repo)
    → r.workspace ≢ []
    → has_code slash r.workspace ≡ false
    → trim slash (remote_path r) ≡ r.workspace ++ (slash ∷ (r.slug ++ git_suffix))
trim-remote_path r ne w =
    ap (trim_right slash) (trim_left-append slash r.workspace (slash ∷ (r.slug ++ git_suffix)) w ne)
    ∙ trim_right-append slash r.workspace slash (r.slug ++ git_suffix)
        (trim_right-append slash (slash ∷ r.slug) 46 (103 ∷ 105 ∷ 116 ∷ []) refl)

split-remote_path :
    (r : Repo)
    → has_code slash r.workspace ≡ false
    → has_code slash r.slug ≡ false
    → split_n slash 2 (r.workspace ++ (slash ∷ (r.slug ++ git_suffix)))
      ≡ r.workspace ∷ (r.slug ++ git_suffix) ∷ []
split-remote_path r w s =
    split_n-append slash 1 r.workspace (r.slug ++ git_suffix) w
    ∙ ap (λ l. r.workspace ∷ l)
        (split_n_whole slash 1 (r.slug ++ git_suffix)
          (has_code-append slash r.slug git_suffix ∙ ground (arith, s)))

remote_url-parts :
    (r : Repo) → format_remote_url r false ≡ https_prefix ++ (r.hostname ++ remote_path r)
unfolding format_remote_url host_prefix
remote_url-parts r =
    append_assoc (https_prefix ++ r.hostname) (slash ∷ []) _
    ∙ append_assoc https_prefix r.hostname _

from_url-remote_path :
    (r : Repo)
    → r.hostname ≢ []
    → r.workspace ≢ []
    → has_code slash r.workspace ≡ false
    → has_code slash r.slug ≡ false
    → from_url (record { hostname = r.hostname; path = remote_path r })
      ≡ parsed (new_with_host r.workspace r.slug r.hostname)
unfolding from_url
from_url-remote_path r h ne w s =
    let hosted : text_eq r.hostname [] ≡ false = ground (arith, h, eq_of_text_eq r.hostname []) in
    rw hosted (
      ap (from_path _) (ap (split_n slash 2) (trim-remote_path r ne w) ∙ split-remote_path r w s)
      ∙ ap (λ t. parsed (new_with_host r.workspace t r.hostname))
          (trim_suffix-append r.slug git_suffix (ground arith)))

from_https :
    (parse_url : Text → Option Url) (rest : Text) (u : Url)
    → parse_url (https_prefix ++ rest) ≡ some u
    → from_full_name parse_url (https_prefix ++ rest) ≡ from_url u
unfolding from_full_name from_full_name_with_host from_parsed_url
from_https parse_url rest u reads = rw (has_prefix-append https_prefix rest, reads) refl

-- A host that `normalizeHostname` leaves as it is.
abbrev pub IsNormal : Text → Type 0
IsNormal hostname = normalize_hostname hostname ≡ hostname

-- The URL that `FormatRemoteURL` makes for https is `https://HOST/WORKSPACE/SLUG.git`, and where
-- url.Parse gives its host and its path, `FromFullName` reads the very repository back from it. The host
-- and the workspace are not empty, the host is in lower case without `www.`, and neither the workspace
-- nor the slug has a slash.
pub from_url-format_remote_url :
    (parse_url : Text → Option Url) (r : Repo)
    → parse_url (https_prefix ++ (r.hostname ++ remote_path r))
      ≡ some (record { hostname = r.hostname; path = remote_path r })
    → r.hostname ≢ []
    → IsNormal r.hostname
    → r.workspace ≢ []
    → has_code slash r.workspace ≡ false
    → has_code slash r.slug ≡ false
    → (format_remote_url r false ≡ https_prefix ++ (r.hostname ++ remote_path r))
      × (from_full_name parse_url (format_remote_url r false) ≡ parsed r)
unfolding new_with_host
from_url-format_remote_url parse_url r reads h normal ne w s = (
  remote_url-parts r,
  ap (from_full_name parse_url) (remote_url-parts r)
      ∙ from_https parse_url (r.hostname ++ remote_path r) _ reads
      ∙ from_url-remote_path r h ne w s
      ∙ ap (λ host. parsed (record { workspace = r.workspace; slug = r.slug; hostname = host }))
          normal,
)

-- ===== src/GitUrl.antt =====
-- git/url.go: the URLs of git remotes. `url.Parse` is a parameter.
pub mod Scp
use mathlib.Core.Option
use bitbucket_cli.Prelude.{
  ℕ, Bool, true, false, ◌||◌, ◌&&◌, not, List, [], ◌∷◌, ◌++◌, if◌then◌else◌, Option, none, some,
  nat_eq,
}
use bitbucket_cli.Prelude.Codes.{
  Text, codes, text_eq, has_prefix, has_code, trim_prefix, trim_suffix, slash, colon,
}

-- The fields of a `url.URL` that the code reads; `port` is what its method `Port` returns.
pub record GitUrl : Type 0 where
  pub scheme : Text
  pub host : Text
  pub path : Text
  pub port : Text

unfoldable pub is_supported_protocol : Text → Bool
is_supported_protocol u =
    has_prefix u (codes "ssh:")
    || has_prefix u (codes "git+ssh:")
    || has_prefix u (codes "git:")
    || has_prefix u (codes "http:")
    || has_prefix u (codes "git+https:")
    || has_prefix u (codes "https:")

-- `IsURL`
unfoldable pub is_url : Text → Bool
is_url u = has_prefix u (codes "git@") || is_supported_protocol u

unfoldable pub is_possible_protocol : Text → Bool
is_possible_protocol u =
    is_supported_protocol u
    || has_prefix u (codes "ftp:")
    || has_prefix u (codes "ftps:")
    || has_prefix u (codes "file:")

-- `strings.Replace(rawURL, ":", "/", 1)`
unfoldable pub replace_colon : Text → Text
replace_colon [] = []
replace_colon (c ∷ s) = let rest = replace_colon s in if nat_eq c colon then slash ∷ s else c ∷ rest

-- The URL that is parsed, for the syntax of scp too; 92 is the backslash of Windows.
unfoldable pub scp_to_url : Text → Text
scp_to_url raw_url =
    if not (is_possible_protocol raw_url) && has_code colon raw_url && not (has_code 92 raw_url)
    then codes "ssh://" ++ replace_colon raw_url
    else raw_url

plain_scheme : Text → Text
plain_scheme scheme =
    if text_eq scheme (codes "git+https")
    then codes "https"
    else if text_eq scheme (codes "git+ssh")
    then codes "ssh"
    else scheme

unfoldable pub normalize : GitUrl → GitUrl
unfolding plain_scheme
normalize u =
    let u' = record u { scheme = plain_scheme u.scheme } in
    if text_eq u'.scheme (codes "ssh")
    then record u' {
      path = if has_prefix u.path (codes "//") then trim_prefix u.path (codes "/") else u.path;
      host = trim_suffix u.host (colon ∷ u.port);
    }
    else u'

-- `ParseURL`
unfoldable pub parse_git_url : (Text → Option GitUrl) → Text → Option GitUrl
parse_git_url parse raw_url = Option.map normalize (parse (scp_to_url raw_url))

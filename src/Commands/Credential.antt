-- ===== src/Commands/Credential.antt =====
-- pkg/cmd/auth/gitcredential/helper.go: `bb auth git-credential`, which answers git's request for the
-- credentials of a host. The input's lines and their parser `url.Parse` are parameters.
pub mod Answer
use Prim.Native.String
use bitbucket_cli.Prelude.{
  ◌||◌, String, Option, none, some, List, [], ◌∷◌, Bool, true, false, ◌==◌, ◌!=◌, ◌&&◌, not,
  if◌then◌else◌, value_or, is_some,
}
use bitbucket_cli.Prelude.Texts.{has_suffix, has_prefix, trim_prefix, split_two}
use bitbucket_cli.Prelude.Codes.{codes, equal_fold}
use bitbucket_cli.Prelude.Result
use bitbucket_cli.Prelude.Result.{Error, Result, ok, err, errorf, silent}
use bitbucket_cli.External.{Platform}
use bitbucket_cli.World.{World, value_at}
use bitbucket_cli.Auth.Paths.{user_path}
use bitbucket_cli.Auth.{AuthConfig, active_token}
use bitbucket_cli.Aliases.{lookup}

-- The parts that the helper takes from a URL.
pub record Url : Type 0 where
  pub scheme : String
  pub host : String
  pub path : String
  pub username : String
  pub password : String

-- `lines` are the scanner's, and `scan_error` its error after the last.
pub record CredentialOptions : Type 0 where
  pub operation : String
  pub lines : List String
  pub scan_error : Option Error
  pub config : Result AuthConfig
  pub parse_url : String → Result Url

abbrev pub Wants : Type 0
Wants = List (String × String)

-- Go's map: a missing key reads as the empty text, and a later entry hides an earlier one.
abbrev pub want : Wants → String → String
want wants key = value_or (lookup wants key) ""

want_url : Url → Wants → Wants
want_url u wants =
    ("password", u.password)
    ∷ ("username", u.username)
    ∷ ("path", u.path)
    ∷ ("host", u.host)
    ∷ ("protocol", u.scheme)
    ∷ wants

module _ (parse_url : String → Result Url) where
  add_part : Wants → Option (String × String) → Result Wants
  unfolding want_url
  add_part wants none = ok wants
  add_part wants (some (key, value)) =
      if key == "url"
      then Result.◌>>=◌ (parse_url value) (λ u. ok (want_url u wants))
      else ok ((key, value) ∷ wants)

  -- The loop over the lines, up to a blank one.
  unfoldable pub read_wants : Wants → List String → Result Wants
  unfolding add_part
  read_wants wants [] = ok wants
  read_wants wants (line ∷ rest) =
      if line == ""
      then ok wants
      else Result.◌>>=◌ (add_part wants (split_two line "=")) (λ wants'. read_wants wants' rest)

abbrev pub token_user : String
token_user = "x-access-token"

-- What is printed for a user and a token.
unfoldable pub answer : Wants → String → String → Result (List String)
answer wants user token =
    if user == "" || token == ""
    then err silent
    else if want wants "username" != ""
        && user != token_user
        && not (equal_fold (codes (want wants "username")) (codes user))
    then err silent
    else ok (
        "protocol=https"
        ∷ String.◌++◌ "host=" (want wants "host")
        ∷ String.◌++◌ "username=" user
        ∷ String.◌++◌ "password=" token
        ∷ [])

module _ {P : Platform} where
  -- The host to look up, its token and the token's source.
  unfoldable pub find_token : AuthConfig → World P → String → String × String × String
  find_token c w host =
      let (token, source) = active_token c w host in
      if token == "" && has_prefix host "gist."
      then (let lookup_host = trim_prefix host "gist." in
          let (token', source') = active_token c w lookup_host in (lookup_host, token', source'))
      else (host, token, source)

  unfoldable pub find_user : World P → String → String → String
  find_user w lookup_host source =
      let user = value_at w (user_path lookup_host) in
      if has_suffix source "_TOKEN" then token_user else if user == "" then token_user else user

  unfoldable pub credentials : AuthConfig → World P → Wants → Result (List String)
  credentials c w wants =
      let (lookup_host, token, source) = find_token c w (want wants "host") in
      answer wants (find_user w lookup_host source) token

  -- What follows the loop over the input.
  unfoldable pub respond : CredentialOptions → World P → Wants → Result (List String)
  respond opts w wants =
      if is_some opts.scan_error
      then err (value_or opts.scan_error silent)
      else if want wants "protocol" != "https"
      then err silent
      else Result.◌>>=◌ opts.config (λ c. credentials c w wants)

  -- `helperRun`: the lines that it prints.
  unfoldable pub helper_run : CredentialOptions → World P → Result (List String)
  helper_run opts w =
      if opts.operation == "store"
      then ok []
      else if opts.operation == "erase"
      then ok []
      else if opts.operation != "get"
      then err (errorf "gh auth git-credential: %q operation not supported" (opts.operation ∷ []))
      else Result.◌>>=◌ (read_wants opts.parse_url [] opts.lines) (respond opts w)

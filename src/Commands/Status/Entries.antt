-- ===== src/Commands/Status/Entries.antt =====
-- pkg/cmd/auth/status/status.go: the entry of an account, the check of its token, and the text that is
-- written of both.
use bitbucket_cli.Prelude.{
  ℕ, zero, suc, ◌-◌, String, Bool, true, false, ◌&&◌, not, ◌==◌, Option, none, some, List, [], ◌∷◌,
  ◌++◌, ltb, nat_eq, length, take, if◌then◌else◌,
}
use bitbucket_cli.Prelude.Codes.{Text, codes, text_eq, colon}
use bitbucket_cli.Prelude.Texts.{has_suffix}
use bitbucket_cli.Prelude.Decimal.{show_nat}
use bitbucket_cli.Prelude.Result.{Error, errorf, text_error, Result, ok, err}
use bitbucket_cli.Action.{Action, pure, raise, ◌>>=◌}
use bitbucket_cli.Repo.{rest_prefix}
use bitbucket_cli.Auth.{AuthConfig}
use bitbucket_cli.Api.{HttpLib, Request, Response, Session, Line, accept_json, do_request}

pub data EntryState : Type 0 where
  success timed_out failed : EntryState

-- `authEntry`
pub record Entry : Type 0 where
  pub state : EntryState
  pub error : Option Error
  pub active : Bool
  pub host : String
  pub login : Text
  pub token_source : String
  pub token : Text
  pub git_protocol : String

-- `buildEntryOptions`
pub record Account : Type 0 where
  pub active : Bool
  pub git_protocol : String
  pub hostname : String
  pub token : Text
  pub token_source : String
  pub username : String

-- What the command calls: the header of SetBasicAuth, whether an error is a network error that timed
-- out, the path of hosts.yml, and the exporter's `Write`.
pub record StatusLib : Type 0 where
  pub basic_auth : Text → Text → String
  pub is_timeout : Error → Bool
  pub hosts_file : String
  pub export : List (String × List Entry) → List Line

-- `json` where there is an exporter.
pub record StatusOptions : Type 0 where
  pub config : Result AuthConfig
  pub json : Bool
  pub hostname : String
  pub show_token : Bool
  pub active : Bool

-- What stands before the first colon, and what after it.
unfoldable pub after_code : ℕ → Option (Text × Text) → Option (Text × Text)
after_code c none = none
after_code c (some (before, after)) = some (c ∷ before, after)

unfoldable pub cut_colon : Text → Option (Text × Text)
unfolding after_code
cut_colon [] = none
cut_colon (c ∷ s) =
    let later = after_code c (cut_colon s) in if nat_eq c colon then some ([], s) else later

abbrev pub stars : ℕ → Text
stars zero = []
stars (suc n) = 42 ∷ stars n

-- All but the first four characters are masked, or all where there are no more.
unfoldable pub mask_rest : Text → Text
mask_rest s = if ltb 4 (length s) then take 4 s ++ stars (length s - 4) else stars (length s)

unfoldable pub mask_parts : Text → Option (Text × Text) → Text
mask_parts token none = mask_rest token
mask_parts token (some (before, after)) = before ++ colon ∷ mask_rest after

-- `maskToken`
unfoldable pub mask_token : Text → Text
unfolding mask_parts
mask_token token = mask_parts token (cut_colon token)

-- `authTokenWriteable` of the command
abbrev pub token_writeable : String → Bool
token_writeable src = not (has_suffix src "_TOKEN")

abbrev pub user_request : StatusLib → String → Text → Text → Request
user_request lib hostname email api_token = record {
  method = "GET";
  url = rest_prefix (codes hostname) ++ codes "user";
  headers = ("Authorization", lib.basic_auth email api_token) ∷ accept_json ∷ [];
  body = none;
}

abbrev pub refusal : Response → Option Text → Error
refusal r none = text_error "authentication failed with status %d" (show_nat r.status ∷ [])
refusal r (some message) =
    if text_eq message []
    then text_error "authentication failed with status %d" (show_nat r.status ∷ [])
    else text_error "authentication failed: %s" (message ∷ [])

module _ {H : HttpLib} (lib : StatusLib) where
  unfoldable pub verify_parts : String → Option (Text × Text) → Action (Session H) (Unit {0})
  verify_parts hostname none = raise (errorf "invalid token format: expected email:api_token" [])
  verify_parts hostname (some (email, api_token)) = do
    r ← do_request (user_request lib hostname email api_token)
    if not (nat_eq r.status 200) then raise (refusal r (H.error_message r.body)) else pure tt

  -- `verifyToken`
  unfoldable pub verify_token : String → Text → Action (Session H) (Unit {0})
  unfolding verify_parts
  verify_token hostname token =
      if text_eq token []
      then raise (errorf "no token provided" [])
      else verify_parts hostname (cut_colon token)

email_of : Text → Option (Text × Text) → Text
email_of login none = login
email_of login (some (email, rest)) = email

unfoldable pub state_of : StatusLib → Result (Unit {0}) → EntryState
state_of lib (ok x) = success
state_of lib (err e) = if lib.is_timeout e then timed_out else failed

error_of : Result (Unit {0}) → Option Error
error_of (ok x) = none
error_of (err e) = some e

-- The entry of an account whose token was verified with a result. The email of a token from the
-- environment is the login.
unfoldable pub entry_of : StatusLib → Account → Result (Unit {0}) → Entry
unfolding email_of state_of error_of
entry_of lib a verified =
    let source = if a.token_source == "oauth_token" then lib.hosts_file else a.token_source in
    record {
      state = state_of lib verified;
      error = error_of verified;
      active = a.active;
      host = a.hostname;
      login =
          if not (token_writeable source) && not (text_eq a.token [])
          then email_of (codes a.username) (cut_colon a.token)
          else codes a.username;
      token_source = source;
      token = a.token;
      git_protocol = a.git_protocol;
    }

abbrev bool_text : Bool → Text
bool_text true = codes "true"
bool_text false = codes "false"

abbrev pub line : String → List Text → Line
line format arguments = record { format = format; arguments = arguments }

-- The first line where the login failed or timed out.
failure_line : String → String → Entry → Line
failure_line with_login without_login e =
    if text_eq e.login []
    then line without_login (codes e.host ∷ codes e.token_source ∷ [])
    else line with_login (codes e.host ∷ e.login ∷ codes e.token_source ∷ [])

entry_lines_at : EntryState → Entry → List Line
unfolding failure_line
entry_lines_at success e =
    line "  %s Logged in to %s account %s (%s)\n"
      (codes e.host ∷ e.login ∷ codes e.token_source ∷ [])
    ∷ line "  - Active account: %s\n" (bool_text e.active ∷ [])
    ∷ line "  - Git operations protocol: %s\n" (codes e.git_protocol ∷ [])
    ∷ line "  - Token: %s\n" (e.token ∷ [])
    ∷ []
entry_lines_at failed e =
    failure_line "  %s Failed to log in to %s account %s (%s)\n"
      "  %s Failed to log in to %s using token (%s)\n" e
    ∷ line "  - Active account: %s\n" (bool_text e.active ∷ [])
    ∷ line "  - The token in %s is invalid.\n" (codes e.token_source ∷ [])
    ∷ (if token_writeable e.token_source
        then line "  - To re-authenticate, run: %s\n"
            ((codes "bb auth login -h " ++ codes e.host) ∷ [])
          ∷ line "  - To forget about this account, run: %s\n"
              ((codes "bb auth logout -h " ++ codes e.host ++ codes " -u " ++ e.login) ∷ [])
          ∷ []
        else [])
entry_lines_at timed_out e =
    failure_line "  %s Timeout trying to log in to %s account %s (%s)\n"
      "  %s Timeout trying to log in to %s using token (%s)\n" e
    ∷ line "  - Active account: %s\n" (bool_text e.active ∷ [])
    ∷ []

-- `String` of an entry
unfoldable pub entry_lines : Entry → List Line
unfolding entry_lines_at
entry_lines e = entry_lines_at e.state e

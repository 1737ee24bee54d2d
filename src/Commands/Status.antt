-- ===== src/Commands/Status.antt =====
-- pkg/cmd/auth/status/status.go: `bb auth status`. The hosts are distinct, as go-gh gives them; a
-- token is masked by code points, which are its bytes in ASCII.
pub mod Masked
pub mod Wanted
pub mod Verified
mod Entries
pub use Entries.{
  EntryState, success, timed_out, failed, Entry, Account, StatusLib, StatusOptions, stars,
  token_writeable, user_request, refusal,
}
unfoldable pub use Entries.{
  after_code, cut_colon, mask_rest, mask_parts, mask_token, verify_parts, verify_token, state_of,
  entry_of, entry_lines,
}
use Entries.{line}
use bitbucket_cli.Prelude.{
  ℕ, zero, suc, ◌-◌, String, Bool, true, false, ◌&&◌, ◌||◌, not, ◌==◌, ◌!=◌, Option, none, some,
  List, [], ◌∷◌, ◌++◌, map, filter, contains, value_or, ltb, leb, nat_eq, length, take,
  if◌then◌else◌,
}
use bitbucket_cli.Prelude.Codes.{Text, codes, text_eq, has_prefix, colon}
use bitbucket_cli.Prelude.Texts.{has_suffix}
use bitbucket_cli.Prelude.Decimal.{show_nat}
use bitbucket_cli.Prelude.Result.{Error, errorf, text_error, silent, Result, ok, err}
use bitbucket_cli.Action.{Action, pure, raise, lift, attempt, ◌>>=◌, ◌>>◌}
use bitbucket_cli.External.{Platform}
use bitbucket_cli.World.{World}
use bitbucket_cli.Repo.{rest_prefix}
use bitbucket_cli.Config.{get_or_default}
use bitbucket_cli.Config.Keys.{git_protocol_key}
use bitbucket_cli.Config.Options.{value_of}
use bitbucket_cli.Auth.{
  AuthConfig, hosts, users_for_host, active_token, active_user, token_for_user,
}
use bitbucket_cli.Api.{
  HttpLib, Request, Response, Session, Line, accept_json, do_request, print_err,
}

abbrev pub is_success : EntryState → Bool
is_success success = true
is_success timed_out = false
is_success failed = false

abbrev pub all_verified : List Entry → Bool
all_verified [] = true
all_verified (e ∷ rest) = is_success e.state && all_verified rest

abbrev pub hosts_verified : List (String × List Entry) → Bool
hosts_verified [] = true
hosts_verified ((host, entries) ∷ rest) = all_verified entries && hosts_verified rest

abbrev pub user_or_blank : Result String → String
user_or_blank (ok user) = user
user_or_blank (err e) = ""

-- The token and the source that `TokenForUser` returns, whose source is "default" beside its error.
abbrev pub token_or_blank : Result (String × String) → String × String
token_or_blank (ok found) = found
token_or_blank (err e) = ("", "default")

module _ {P : Platform} where
  abbrev active_login : AuthConfig → World P → String → String
  active_login c w hostname =
      if token_writeable (active_token c w hostname).1
      then user_or_blank (active_user w hostname)
      else ""

  -- The protocol has a default, so that its reader always gives a value.
  abbrev protocol : World P → String → String
  protocol w hostname = value_or (value_of (get_or_default w hostname git_protocol_key)) ""

  -- The active account of a host, and the others, whose tokens are looked up by their names.
  active_account : AuthConfig → World P → String → Account
  active_account c w hostname = record {
    active = true;
    git_protocol = protocol w hostname;
    hostname = hostname;
    token = codes (active_token c w hostname).0;
    token_source = (active_token c w hostname).1;
    username = active_login c w hostname;
  }

  other_account : World P → String → String → Account
  other_account w hostname username = record {
    active = false;
    git_protocol = protocol w hostname;
    hostname = hostname;
    token = codes (token_or_blank (token_for_user w hostname username)).0;
    token_source = (token_or_blank (token_for_user w hostname username)).1;
    username = username;
  }

  unfoldable pub host_accounts : AuthConfig → World P → Bool → String → List Account
  unfolding active_account other_account
  host_accounts c w only_active hostname =
      active_account c w hostname
      ∷ (if only_active
          then []
          else map (other_account w hostname)
              (filter (λ user. user != active_login c w hostname) (users_for_host w hostname)))

module _ {H : HttpLib} (lib : StatusLib) where
  -- `buildEntry`, for the accounts of a host.
  unfoldable pub build_entries : List Account → Action (Session H) (List Entry)
  build_entries [] = pure []
  build_entries (a ∷ rest) = do
    verified ← attempt (verify_token lib a.hostname a.token)
    entries ← build_entries rest
    pure (entry_of lib a verified ∷ entries)

  unfoldable pub build_hosts :
      List (String × List Account) → Action (Session H) (List (String × List Entry))
  build_hosts [] = pure []
  build_hosts ((host, accounts) ∷ rest) = do
    entries ← build_entries accounts
    later ← build_hosts rest
    pure ((host, entries) ∷ later)

-- Without `--show-token` a token is masked, or left out of what is exported.
abbrev pub hide : StatusOptions → Entry → Entry
hide opts e =
    if opts.show_token
    then e
    else if opts.json
    then record e { token = [] }
    else record e { token = mask_token e.token }

abbrev pub hide_all : StatusOptions → List (String × List Entry) → List (String × List Entry)
hide_all opts [] = []
hide_all opts ((host, entries) ∷ rest) = (host, map (hide opts) entries) ∷ hide_all opts rest

-- An empty line stands between entries, and between hosts.
unfoldable pub entries_lines : List Entry → List Line
entries_lines [] = []
entries_lines (e ∷ []) = entry_lines e
entries_lines (e ∷ f ∷ rest) = entry_lines e ++ line "\n" [] ∷ entries_lines (f ∷ rest)

unfoldable pub hosts_lines : Bool → List (String × List Entry) → List Line
hosts_lines printed [] = []
hosts_lines printed ((host, entries) ∷ rest) =
    (if printed then line "\n" [] ∷ [] else [])
    ++ line "%s\n" (codes host ∷ []) ∷ entries_lines entries
    ++ hosts_lines true rest

-- `strings.Contains(h, "github.com")`
abbrev pub has_infix : Text → Text → Bool
has_infix [] t = text_eq t []
has_infix (c ∷ s) t = has_prefix (c ∷ s) t || has_infix s t

abbrev pub bitbucket_hosts : List String → List String
bitbucket_hosts = filter (λ h. not (has_infix (codes h) (codes "github.com")))

abbrev pub chosen : String → List String → List String
chosen hostname = filter (λ h. hostname == "" || hostname == h)

abbrev is_none_of : List String → Bool
is_none_of [] = true
is_none_of (h ∷ rest) = false

module _ {P : Platform} where
  abbrev pub accounts_of :
      AuthConfig → World P → StatusOptions → List String → List (String × List Account)
  accounts_of c w opts = map (λ h. (h, host_accounts c w opts.active h))

module _ {H : HttpLib} (lib : StatusLib) where
  abbrev pub print_at : Bool → List Line → Action (Session H) (Unit {0})
  print_at to_out lines s =
      if to_out
      then (ok tt, record s { out = s.out ++ lines })
      else (ok tt, record s { err_out = s.err_out ++ lines })

  -- Without hosts the exporter writes nothing but the empty status, and the run fails otherwise.
  no_hosts : StatusOptions → String → List Text → Action (Session H) (Unit {0})
  no_hosts opts format arguments = do
    print_err format arguments
    if opts.json then print_at true (lib.export []) else raise silent

  -- What is written of the entries that were built.
  unfoldable pub show_entries :
      StatusOptions → List (String × List Entry) → Action (Session H) (Unit {0})
  show_entries opts found =
      if opts.json then print_at true (lib.export (hide_all opts found)) else (do
        print_at (hosts_verified found) (hosts_lines false (hide_all opts found))
        if hosts_verified found then pure tt else raise silent)

  -- `statusRun`
  unfoldable pub status_run :
      {P : Platform} → StatusOptions → World P → Action (Session H) (Unit {0})
  unfolding no_hosts
  status_run opts w = do
    c ← lift (λ s. opts.config)
    let known = bitbucket_hosts (hosts c w)
    if is_none_of known
        then no_hosts opts "You are not logged into any Bitbucket hosts. To log in, run: %s\n"
            (codes "bb auth login" ∷ [])
        else if opts.hostname != "" && not (contains known opts.hostname)
        then no_hosts opts "You are not logged into any accounts on %s\n" (codes opts.hostname ∷ [])
        else (do
          found ← build_hosts lib (accounts_of c w opts (chosen opts.hostname known))
          show_entries opts found)

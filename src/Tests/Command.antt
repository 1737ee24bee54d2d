-- ===== src/Tests/Command.antt =====
-- Runs of the commands.
use bitbucket_cli.Prelude.{
  String, ◌≡◌, ◌≢◌, refl, false, List, [], ◌∷◌, none, some, arith, eq_iff, ◌==◌, if◌then◌else◌,
  is_some, Option, true, ◌⊎◌,
}
use bitbucket_cli.Prelude.Texts.{has_suffix, split_two}
use bitbucket_cli.Prelude.Codes.{codes}
use bitbucket_cli.Prelude.Result.{ok, err, errorf, silent}
use bitbucket_cli.External.Sample.{sample_platform}
use bitbucket_cli.Auth.{AuthConfig, no_overrides, active_user, hosts, users_for_host}
use bitbucket_cli.Auth.Paths.{account_path, user_path}
use bitbucket_cli.Commands.{Console, auth_token_writeable}
use bitbucket_cli.Commands.Switch.{
  SwitchOptions, switch_target, switch_run, check_known, candidates, host_candidates, choose,
}
use bitbucket_cli.Commands.Switch.Candidates.{Selected}
use bitbucket_cli.Commands.Switch.Outcome.{switch_run_done}
use bitbucket_cli.Commands.Logout.{
  LogoutOptions, logout_run, logout_target, accounts, host_accounts, choose_account,
}
use bitbucket_cli.Commands.Logout.Outcome.{logout_run_done}
use bitbucket_cli.Commands.Credential.{
  CredentialOptions, Wants, want, read_wants, helper_run, respond, credentials, answer, find_token,
  find_user,
}
use bitbucket_cli.Commands.Credential.Answer.{Answers, helper_run-Answers}
use bitbucket_cli.Aliases.{lookup, alias_path, get_alias, add_alias, all_aliases}
use bitbucket_cli.Commands.AliasSet.{
  SetOptions, FoundCommand, valid_alias_name, valid_alias_expansion, get_expansion, shell_expansion,
  check_alias, alias_set_run,
}
use bitbucket_cli.Commands.AliasSet.Outcome.{alias_set_run_done}
use bitbucket_cli.Tests.{host, bob_in, runs}

abbrev switch_options : SwitchOptions
switch_options = record {
  config = ok no_overrides;
  can_prompt = false;
  select = λ message choices. err silent;
  hostname = "";
  username = "";
}

abbrev before : Console sample_platform
before = record { world = bob_in; err_out = [] }

-- Tests of the commands name this on their `unfolding` line.
unfoldable commands : Unit {0}
unfolding runs switch_run switch_target check_known candidates host_candidates choose hosts
    users_for_host auth_token_writeable has_suffix logout_run logout_target accounts host_accounts
    choose_account
commands = tt

two_users : users_for_host bob_in host ≡ "bob" ∷ "alice" ∷ []
unfolding commands
two_users = refl

abbrev after_switch : Console sample_platform
after_switch = (switch_run switch_options before).1

switch_runs : switch_run switch_options before ≡ (ok tt, after_switch)
unfolding commands
switch_runs = refl

switch_run_done_example :
    (c : AuthConfig) × (h : String) × (u : String) × Selected bob_in (hosts c bob_in) "" "" h u
    × (active_user after_switch.world h ≡ ok u)
    × (after_switch.world.disk ≡ after_switch.world.file)
switch_run_done_example = switch_run_done switch_options before after_switch switch_runs

abbrev logout_options : LogoutOptions
logout_options = record {
  config = ok no_overrides;
  can_prompt = false;
  select = λ message choices. err silent;
  hostname = "";
  username = "bob";
}

abbrev after_logout : Console sample_platform
after_logout = (logout_run logout_options before).1

logout_runs : logout_run logout_options before ≡ (ok tt, after_logout)
unfolding commands
logout_runs = refl

logout_run_done_example :
    (c : AuthConfig) × (h : String) × (u : String) × Selected bob_in (hosts c bob_in) "" "bob" h u
    × (sample_platform.config.get after_logout.world.file (account_path h u) ≡ none)
    × (sample_platform.config.get after_logout.world.file (user_path h) ≢ some u)
    × (after_logout.world.disk ≡ after_logout.world.file)
logout_run_done_example = logout_run_done logout_options before after_logout logout_runs

abbrev get_options : CredentialOptions
get_options = record {
  operation = "get";
  lines = "protocol=https" ∷ "host=bitbucket.org" ∷ "username=Bob" ∷ [];
  scan_error = none;
  config = ok no_overrides;
  parse_url = λ text. err (errorf "no url" []);
}

abbrev printed : List String
printed = "protocol=https" ∷ "host=bitbucket.org" ∷ "username=bob" ∷ "password=tb" ∷ []

helper_runs : helper_run get_options bob_in ≡ ok printed
unfolding commands helper_run respond credentials answer find_token find_user read_wants split_two
    codes
helper_runs = refl

helper_run-Answers_example :
    (c : AuthConfig) × (wants : Wants) × (get_options.config ≡ ok c)
    × (read_wants get_options.parse_url [] get_options.lines ≡ ok wants)
    × (want wants "protocol" ≡ "https")
    × Answers c bob_in wants printed
helper_run-Answers_example = helper_run-Answers get_options bob_in printed refl helper_runs

abbrev store_options : CredentialOptions
store_options = record get_options { operation = "store" }

not_get : ◌≢◌ {A = String} "store" "get"
not_get e = ground (arith, (eq_iff "store" "get").1 e)

-- Each text is one word, and the search finds the root command, with the words left over.
abbrev split_words : String → Option (List String)
split_words = λ s. some (s ∷ [])

abbrev find_command : List String → Option FoundCommand
find_command = λ words. some (record { is_root = true; runnable = false; args = words })

abbrev set_options : SetOptions
set_options = record {
  config = none;
  stdin = ok "";
  is_terminal = true;
  name = "co";
  expansion = "git checkout";
  is_shell = true;
  overwrite_existing = false;
  name_is_valid = valid_alias_name split_words find_command;
  expansion_is_valid = valid_alias_expansion split_words find_command;
}

abbrev after_set : Console sample_platform
after_set = (alias_set_run set_options before).1

set_runs : alias_set_run set_options before ≡ (ok tt, after_set)
unfolding commands alias_set_run valid_alias_name valid_alias_expansion get_expansion
    shell_expansion check_alias get_alias add_alias
set_runs = refl

alias_set_run_done_example :
    (given : String) × (get_expansion set_options ≡ ok given)
    × (set_options.expansion_is_valid (shell_expansion set_options given) ≡ true)
    × ((set_options.name_is_valid "co" ≡ true)
        ⊎ ((is_some (sample_platform.config.get bob_in.file (alias_path "co")) ≡ true)
            × (false ≡ true)))
    × ((k : String)
        → lookup (all_aliases after_set.world) k ≡ (
            if "co" == k
            then some (shell_expansion set_options given)
            else sample_platform.config.get bob_in.file (alias_path k)))
    × (after_set.world.disk ≡ after_set.world.file)
alias_set_run_done_example = alias_set_run_done set_options before after_set set_runs

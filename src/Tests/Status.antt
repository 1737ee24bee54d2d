-- ===== src/Tests/Status.antt =====
-- Runs of `bb auth status` and `bb auth token`.
use bitbucket_cli.Prelude.{List, String, ◌≡◌, ◌≢◌, refl, arith, eq_iff, true, false, [], ◌∷◌, ◌++◌}
use bitbucket_cli.Prelude.Codes.{codes, colon}
use bitbucket_cli.Prelude.Texts.{has_suffix}
use bitbucket_cli.Prelude.Result.{ok}
use bitbucket_cli.External.Sample.{sample_platform}
use bitbucket_cli.World.{World}
use bitbucket_cli.Auth.{AuthConfig, no_overrides, login, hosts}
use bitbucket_cli.Api.{Session, do_request}
use bitbucket_cli.Commands.Status.{
  StatusLib, StatusOptions, mask_token, cut_colon, verify_token, entry_of, host_accounts,
  build_entries, build_hosts, show_entries, status_run,
}
use bitbucket_cli.Commands.Status.Masked.{mask_token-same}
use bitbucket_cli.Commands.Status.Wanted.{wanted, chosen_hosts}
use bitbucket_cli.Commands.Status.Verified.{AllVerified, status_run_done}
use bitbucket_cli.Commands.Token.{token_run}
use bitbucket_cli.Commands.Token.AfterLogin.{token_run-login}
use bitbucket_cli.Tests.{start, host, alice_in, alice_named, runs}
use bitbucket_cli.Tests.Accounts.{login_runs}
use bitbucket_cli.Tests.Api.{sample_http, reply, session, scripted}

mask_token-same_example :
    mask_token ((97 ∷ []) ++ colon ∷ (1 ∷ 2 ∷ 3 ∷ 4 ∷ 5 ∷ []))
    ≡ mask_token ((97 ∷ []) ++ colon ∷ (1 ∷ 2 ∷ 3 ∷ 4 ∷ 6 ∷ []))
mask_token-same_example =
    mask_token-same (97 ∷ []) (1 ∷ 2 ∷ 3 ∷ 4 ∷ 5 ∷ []) (1 ∷ 2 ∷ 3 ∷ 4 ∷ 6 ∷ []) refl refl refl

host_named : ◌≢◌ {A = String} host ""
host_named e = ground (arith, (eq_iff "bitbucket.org" "").1 e)

token_named : ◌≢◌ {A = String} "ta" ""
token_named e = ground (arith, (eq_iff "ta" "").1 e)

token_run-login_example :
    token_run
      (record {
        config = ok no_overrides;
        hostname = host;
        username = "alice";
        secure_storage = false;
      })
      alice_in
    ≡ ok "ta"
token_run-login_example =
    token_run-login host "alice" "ta" "ssh" start alice_in true no_overrides false host_named
      alice_named token_named login_runs

abbrev sample_lib : StatusLib
sample_lib = record {
  basic_auth = λ email secret. "Basic";
  is_timeout = λ e. false;
  hosts_file = "hosts.yml";
  export = λ found. [];
}

abbrev carol_in : World sample_platform
carol_in = (login host "carol" "c@d:secret" "ssh" true start).1

abbrev options : StatusOptions
options = record {
  config = ok no_overrides;
  json = false;
  hostname = "";
  show_token = false;
  active = false;
}

abbrev asked : Session sample_http
asked = session (reply 200 "" ∷ [])

abbrev shown : Session sample_http
shown = (status_run sample_lib options carol_in asked).1

status_runs : status_run sample_lib options carol_in asked ≡ (ok tt, shown)
unfolding runs scripted status_run hosts codes build_hosts build_entries host_accounts has_suffix
    show_entries entry_of verify_token cut_colon do_request
status_runs = refl

status_run_done_example :
    (c : AuthConfig) × (options.config ≡ ok c)
    × (◌≢◌ {A = List String} (chosen_hosts options (hosts c carol_in)) [])
    × (u : Session sample_http) × AllVerified sample_lib
        (wanted c carol_in false (chosen_hosts options (hosts c carol_in)))
        asked
        u
    × (shown.sent ≡ u.sent)
    × (shown.err_out ≡ u.err_out)
status_run_done_example = status_run_done sample_lib options carol_in asked shown refl status_runs

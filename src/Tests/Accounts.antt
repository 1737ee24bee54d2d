-- ===== src/Tests/Accounts.antt =====
-- Logins, switches and logouts of two accounts.
use bitbucket_cli.Prelude.{
  String, ◌≡◌, ◌≢◌, refl, sym, true, false, [], ◌∷◌, none, some, arith, is_some, eq_iff, ltb,
  length,
}
use bitbucket_cli.Prelude.Result.{Error, ok, err, errorf, secret_not_found}
use bitbucket_cli.External.Sample.{sample_platform, full_platform}
use bitbucket_cli.World.{World}
use bitbucket_cli.Keyring
use bitbucket_cli.Action.Frame.{Frames}
use bitbucket_cli.Auth.{
  login, switch_user, logout, active_user, active_token, no_overrides, users_for_host,
}
use bitbucket_cli.Auth.Paths.{account_path, user_path, token_path, account_token_path, service}
use bitbucket_cli.Auth.Login.{login_done, TokenStored}
use bitbucket_cli.Auth.Switch.{
  switch_done, switch_failed, NoTokenInEnvironment, switch_failed-active_token,
}
use bitbucket_cli.Auth.Switch.WrongToken.{switch_failed-wrong_token}
use bitbucket_cli.Auth.Logout.{logout_done, logout-KeepsAccount}
use bitbucket_cli.Auth.Leftover.{logout-keeps_secret}
use bitbucket_cli.Auth.Frame.{others}
use bitbucket_cli.Auth.Frame.Operations.{login-others}
use bitbucket_cli.Auth.Accounts.{KeepsAccount}
use bitbucket_cli.Auth.Session.{reload, Reach, begin, later, logs_in, logs_out}
use bitbucket_cli.Auth.Session.Known.{ActiveKnown, Reach-ActiveKnown}
use bitbucket_cli.Tests.{start, host, alice_in, bob_in, runs, alice_named, alice-ne-bob}

alice_blank : ◌≢◌ {A = String} "" "alice"
alice_blank e = alice_named (sym e)

bob_blank : ◌≢◌ {A = String} "" "bob"
bob_blank e = ground (arith, (eq_iff "" "bob").1 e)

pub login_runs :
    login {P = sample_platform} host "alice" "ta" "ssh" true start ≡ (ok (false, ok tt), alice_in)
unfolding runs
login_runs = refl

login_done_example :
    (active_user alice_in host ≡ ok "alice")
    × (is_some (sample_platform.config.get alice_in.file (account_path host "alice")) ≡ true)
    × TokenStored host "alice" "ta" "ssh" false alice_in
    × (alice_in.disk ≡ alice_in.file)
login_done_example =
    login_done host "alice" "ta" "ssh" start alice_in true false alice_named login_runs

abbrev switched : World sample_platform
switched = (switch_user no_overrides host "alice" bob_in).1

switch_runs : switch_user no_overrides host "alice" bob_in ≡ (ok tt, switched)
unfolding runs
switch_runs = refl

switch_done_example :
    (active_user switched host ≡ ok "alice")
    × (sample_platform.config.get switched.file (token_path host)
        ≡ sample_platform.config.get bob_in.file (account_token_path host "alice"))
    × ((t : String)
        → ◌≢◌ {A = String} "alice" ""
        → Keyring.get sample_platform.keyring bob_in.ring (service host) "alice" ≡ ok t
        → Keyring.get sample_platform.keyring switched.ring (service host) "" ≡ ok t)
    × (switched.disk ≡ switched.file)
switch_done_example = switch_done no_overrides host "alice" bob_in switched switch_runs

-- Nobody called carol has a token, so the switch fails.
abbrev not_switched : World sample_platform
not_switched = (switch_user no_overrides host "carol" bob_in).1

abbrev no_token : Error
no_token = errorf "no token found for %s" ("carol" ∷ [])

switch_fails : switch_user no_overrides host "carol" bob_in ≡ (err no_token, not_switched)
unfolding runs
switch_fails = refl

switch_failed_example :
    (not_switched.disk ≡ bob_in.disk) × (active_user not_switched host ≡ active_user bob_in host)
switch_failed_example =
    switch_failed no_overrides host "carol" bob_in not_switched no_token switch_fails

tb_named : ◌≢◌ {A = String} "tb" ""
tb_named e = ground (arith, (eq_iff "tb" "").1 e)

bob_token : active_token no_overrides bob_in host ≡ ("tb", "oauth_token")
unfolding runs
bob_token = refl

no_env : NoTokenInEnvironment sample_platform host
unfolding runs
no_env f = refl

switch_failed-active_token_example :
    active_token no_overrides not_switched host ≡ ("tb", "oauth_token")
switch_failed-active_token_example =
    switch_failed-active_token host "carol" no_env bob_in not_switched "tb" no_token tb_named
      bob_token switch_fails

abbrev logged_out : World sample_platform
logged_out = (logout host "bob" bob_in).1

logout_runs : logout host "bob" bob_in ≡ (ok tt, logged_out)
unfolding runs
logout_runs = refl

logout_done_example :
    (sample_platform.config.get logged_out.file (account_path host "bob") ≡ none)
    × (sample_platform.config.get logged_out.file (user_path host) ≢ some "bob")
    × (logged_out.disk ≡ logged_out.file)
logout_done_example = logout_done host "bob" bob_in logged_out logout_runs

two_users : ltb (length (users_for_host bob_in host)) 2 ≡ false
unfolding runs
two_users = refl

logout-keeps_secret_example :
    Keyring.get sample_platform.keyring (logout host "alice" bob_in).1.ring (service host) "alice"
    ≡ Keyring.get sample_platform.keyring bob_in.ring (service host) "alice"
logout-keeps_secret_example = logout-keeps_secret host "alice" alice_blank bob_in two_users

logout-KeepsAccount_example : KeepsAccount host "bob" bob_in (logout host "alice" bob_in).1
logout-KeepsAccount_example =
    logout-KeepsAccount host "alice" bob_in "bob" two_users bob_blank alice-ne-bob

login-others_example : Frames (others {P = sample_platform} host) (login host "bob" "tb" "" false)
login-others_example = login-others host "bob" "tb" "" false

-- Alice is active with her token in the keyring, Bob's stands in the configuration, the disk is full.
abbrev stuck : World full_platform
stuck = record { file = switched.file; disk = switched.disk; ring = switched.ring }

bob_named : ◌≢◌ {A = String} "bob" ""
bob_named e = bob_blank (sym e)

alice_token : active_token no_overrides stuck host ≡ ("ta", "keyring")
unfolding runs
alice_token = refl

alice_active : active_user stuck host ≡ ok "alice"
unfolding runs
alice_active = refl

no_bob : Keyring.get full_platform.keyring stuck.ring (service host) "bob" ≡ err secret_not_found
unfolding runs
no_bob = refl

bobs_token : full_platform.config.get stuck.file (account_token_path host "bob") ≡ some "tb"
unfolding runs
bobs_token = refl

full_no_env : NoTokenInEnvironment full_platform host
unfolding runs
full_no_env f = refl

switch_failed-wrong_token_example :
    (active_token no_overrides (switch_user no_overrides host "bob" stuck).1 host
      ≡ ("tb", "oauth_token"))
    × (active_user (switch_user no_overrides host "bob" stuck).1 host ≡ ok "alice")
switch_failed-wrong_token_example =
    switch_failed-wrong_token host "bob" full_no_env stuck "ta" "tb" "alice" (errorf "disk full" [])
      secret_not_found (λ d f. refl) alice_token alice_active bob_named no_bob bobs_token tb_named

abbrev both_in : World sample_platform
both_in = (login host "bob" "tb" "" false (reload alice_in)).1

abbrev bob_out : World sample_platform
bob_out = (logout host "bob" (reload both_in)).1

session : Reach start bob_out
session =
    later both_in bob_out
      (later alice_in both_in
        (later start alice_in begin (logs_in host "alice" "ta" "ssh" true alice_named))
        (logs_in host "bob" "tb" "" false bob_named))
      (logs_out host "bob")

no_accounts : ActiveKnown sample_platform start.disk
unfolding runs
no_accounts h u named active = ground (arith, active)

Reach-ActiveKnown_example : ActiveKnown sample_platform bob_out.disk
Reach-ActiveKnown_example = Reach-ActiveKnown sample_platform start bob_out no_accounts session

-- ===== src/Tests.antt =====
-- Runs of the development's definitions on small inputs.
mod Accounts
mod Settings
mod Command
mod Texts
mod Api
mod Lists
mod Helper
mod Status
use bitbucket_cli.Prelude.{String, List, [], ◌∷◌, Bool, true, false, ◌≢◌, arith, eq_iff}
use bitbucket_cli.External.Sample.{sample_platform}
use bitbucket_cli.External.Sample.Files.{sample_files}
use bitbucket_cli.External.Sample.Rings.{sample_rings}
use bitbucket_cli.Keyring
use bitbucket_cli.World.{World}
use bitbucket_cli.Auth.Paths.{service}
use bitbucket_cli.Auth.{login, activate_user, switch_user, logout, active_token, users_for_host}

-- Nobody is logged in.
abbrev pub start : World sample_platform
start = record { file = []; disk = []; ring = [] }

abbrev pub host : String
host = "bitbucket.org"

-- Alice is logged in with her token in the keyring.
abbrev pub alice_in : World sample_platform
alice_in = (login host "alice" "ta" "ssh" true start).1

-- Bob too, with his token in the configuration; he is active.
abbrev pub bob_in : World sample_platform
bob_in = (login host "bob" "tb" "" false alice_in).1

-- Tests that run the operations on accounts name this on their `unfolding` line.
unfoldable pub runs : Unit {0}
unfolding login activate_user switch_user logout active_token users_for_host Keyring.get Keyring.set
    Keyring.delete service sample_files sample_rings
runs = tt

pub alice_named : ◌≢◌ {A = String} "alice" ""
alice_named e = ground (arith, (eq_iff "alice" "").1 e)

pub alice-ne-bob : ◌≢◌ {A = String} "alice" "bob"
alice-ne-bob e = ground (arith, (eq_iff "alice" "bob").1 e)

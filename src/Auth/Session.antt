-- ===== src/Auth/Session.antt =====
-- Commands run one after another, each in a process of its own: what a command leaves in memory is
-- forgotten, and the next one reads the disk (`NewConfig` of internal/config/config.go).
pub mod Known
pub mod Outcomes
use bitbucket_cli.Prelude.{String, ◌≡◌, ◌≢◌, Bool, true, contains}
use bitbucket_cli.External.{Platform}
use bitbucket_cli.World.{World}
use bitbucket_cli.Auth.{AuthConfig, users_for_host, login, switch_user, logout}

module _ {P : Platform} where
  -- The configuration as a new process reads it.
  abbrev pub reload : World P → World P
  reload w = record w { file = w.disk }

  -- What the commands do to the accounts, whatever it returns. `bb auth switch` switches to known users.
  pub data Step (w : World P) : World P → Type 0 where
    logs_in : (h u t p : String) (secure : Bool) → u ≢ "" → Step w (login h u t p secure w).1
    switches :
        (c : AuthConfig) (h u : String)
        → contains (users_for_host w h) u ≡ true
        → Step w (switch_user c h u w).1
    logs_out : (h u : String) → Step w (logout h u w).1

  pub data Reach (start : World P) : World P → Type 0 where
    begin : Reach start start
    later : (w w' : World P) → Reach start w → Step (reload w) w' → Reach start w'

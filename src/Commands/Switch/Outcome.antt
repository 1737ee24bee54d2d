-- ===== src/Commands/Switch/Outcome.antt =====
-- pkg/cmd/auth/switch/switch.go: what the command does.
use bitbucket_cli.Prelude.{String, ◌≡◌, arith, inl, inr, Bool-cases}
use bitbucket_cli.Prelude.Result.{ok, Result-cases}
use bitbucket_cli.External.{Platform}
use bitbucket_cli.Auth.{AuthConfig, hosts, active_user, switch_user}
use bitbucket_cli.Auth.Switch.{switch_done}
use bitbucket_cli.Commands.{Console, auth_token_writeable}
use bitbucket_cli.Commands.Switch.{SwitchOptions, switch_target, refuse_env, report, switch_run}
use bitbucket_cli.Commands.Switch.Candidates.{Selected, switch_target-Selected}

module _ {P : Platform} (opts : SwitchOptions) where
  -- The one call that a run makes on the accounts, where it succeeds.
  record Switches (s s' : Console P) : Type 0 where
    c : AuthConfig
    h : String
    u : String
    configured : opts.config ≡ ok c
    target : switch_target opts c s.world ≡ ok (h, u)
    switched : switch_user c h u s.world ≡ (ok tt, s'.world)

  switches : (s s' : Console P) → switch_run opts s ≡ (ok tt, s') → Switches s s'
  unfolding switch_run refuse_env report
  switches s s' e = elim (Result-cases opts.config) [
    | inr (x, failed) ↦ ground (arith, e, failed)
    | inl (c, configured) ↦ elim (Result-cases (switch_target opts c s.world)) [
      | inr (x, failed) ↦ ground (arith, e, configured, failed)
      | inl ((h, u), target) ↦ elim (Bool-cases (auth_token_writeable c s.world h).1) [
        | inr fixed ↦ ground (arith, e, configured, target, fixed)
        | inl free ↦ elim (Result-cases (switch_user c h u s.world).0) [
          | inr (x, failed) ↦ ground (arith, e, configured, target, free, failed)
          | inl (_, done) ↦ record {
            c = c;
            h = h;
            u = u;
            configured = configured;
            target = target;
            switched = ground (arith, e, configured, target, free, done);
          }
        ]
      ]
    ]
  ]

  -- A run of `bb auth switch` that succeeds leaves a logged in account active, on the host and with the
  -- name that were given, where they were, and the disk holds the configuration in memory.
  pub switch_run_done :
      (s s' : Console P)
      → switch_run opts s ≡ (ok tt, s')
      → (c : AuthConfig) × (h : String) × (u : String) × Selected s.world
          (hosts c s.world)
          opts.hostname
          opts.username
          h
          u
        × (active_user s'.world h ≡ ok u)
        × (s'.world.disk ≡ s'.world.file)
  switch_run_done s s' e =
      let r = switches s s' e in
      let (active, _, _, disk) = switch_done r.c r.h r.u s.world s'.world r.switched in
      (r.c, r.h, r.u, switch_target-Selected opts r.c s.world r.h r.u r.target, active, disk)

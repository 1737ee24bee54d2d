-- ===== src/Commands/Logout/Outcome.antt =====
-- pkg/cmd/auth/logout/logout.go: what the command does.
use bitbucket_cli.Prelude.{
  String, ◌≡◌, ◌≢◌, List, [], ◌∷◌, map, true, ◌!=◌, ◌&&◌, ℕ, zero, suc, none, some, arith, eq_iff,
  eq_refl, inl, inr, Bool-cases, contains, All, All-append, subst,
}
use bitbucket_cli.Prelude.Result.{ok, Result-cases}
use bitbucket_cli.External.{Platform}
use bitbucket_cli.World.{World}
use bitbucket_cli.Auth.Paths.{account_path, user_path}
use bitbucket_cli.Auth.{AuthConfig, hosts, users_for_host, logout}
use bitbucket_cli.Auth.Logout.{logout_done}
use bitbucket_cli.Commands.{Console, auth_token_writeable, at}
use bitbucket_cli.Commands.Switch.{check_known}
use bitbucket_cli.Commands.Switch.Candidates.{Selected}
use bitbucket_cli.Commands.Logout.{
  LogoutOptions, host_accounts, account_text, choose_account, accounts, logout_target, refuse_env,
  report, logout_run,
}

module _ {P : Platform} (w : World P) (hostname username : String) where
  abbrev Found : List String → String × String → Type 0
  Found known (h, u) = Selected w known hostname username h u

  host_accounts-Found :
      (known : List String) (host : String) (users : List String)
      → contains known host ≡ true
      → (hostname ≢ "" → host ≡ hostname)
      → ((u : String) → contains users u ≡ true → contains (users_for_host w host) u ≡ true)
      → All (Found known) (host_accounts username host users)
  unfolding host_accounts
  host_accounts-Found known host [] k r us = tt
  host_accounts-Found known host (u ∷ rest) k r us =
      let later = host_accounts-Found known host rest k r (λ v e. us v (ground (arith, e))) in
      elim (Bool-cases (username != "" && u != username)) [
        | inl skipped ↦ rw skipped later
        | inr taken ↦ rw taken (
          record {
            host_known = k;
            user_known = us u (ground (arith, eq_refl u));
            right_host = r;
            right_user = λ given. ground (arith, taken, eq_iff username "", eq_iff u username);
          },
          later,
        )
      ]

  Found-weaken :
      (known : List String) (host : String) (l : List (String × String))
      → All (Found known) l
      → All (Found (host ∷ known)) l
  Found-weaken known host [] _ = tt
  Found-weaken known host ((h, u) ∷ l) (p, ps) = (
    record {
      host_known = ground (arith, p.host_known);
      user_known = p.user_known;
      right_host = p.right_host;
      right_user = p.right_user;
    },
    Found-weaken known host l ps,
  )

  accounts-Found : (known : List String) → All (Found known) (accounts w hostname username known)
  unfolding accounts
  accounts-Found [] = tt
  accounts-Found (host ∷ rest) =
      let later = Found-weaken rest host _ (accounts-Found rest) in
      elim (Bool-cases (hostname != "" && host != hostname)) [
        | inl skipped ↦ rw skipped later
        | inr taken ↦ rw taken (
            All-append (Found (host ∷ rest)) _ _
              (host_accounts-Found (host ∷ rest) host (users_for_host w host)
                (ground (arith, eq_refl host))
                (λ given. ground (arith, taken, eq_iff hostname "", eq_iff host hostname))
                (λ u known. known))
              later)
      ]

module _ (Q : String × String → Type 0) where
  at-All :
      (l : List (String × String)) (n : ℕ) (a : String × String) → All Q l → at l n ≡ ok a → Q a
  at-All [] n a all e = ground (arith, e)
  at-All (d ∷ l) zero a (p, ps) e = let same : d ≡ a = ground (arith, e) in subst Q same p
  at-All (d ∷ l) (suc n) a (p, ps) e = at-All l n a ps e

  choose_account-All :
      (opts : LogoutOptions) (l : List (String × String)) (a : String × String)
      → All Q l
      → choose_account opts l ≡ ok a
      → Q a
  unfolding choose_account
  choose_account-All opts [] a all e = ground (arith, e)
  choose_account-All opts (d ∷ []) a (p, _) e =
      let same : d ≡ a = ground (arith, e) in subst Q same p
  choose_account-All opts (d ∷ d' ∷ rest) a all e = elim (Bool-cases opts.can_prompt) [
    | inr mute ↦ ground (arith, e, mute)
    | inl asks ↦
        elim (Result-cases (
          opts.select "What account do you want to log out of?"
            (map account_text (d ∷ d' ∷ rest)))) [
              | inr (x, failed) ↦ ground (arith, e, asks, failed)
              | inl (n, selected) ↦
                  at-All (d ∷ d' ∷ rest) n a all (ground (arith, e, asks, selected))
            ]
  ]

module _ {P : Platform} (opts : LogoutOptions) where
  logout_target-Selected :
      (c : AuthConfig) (w : World P) (h u : String)
      → logout_target opts c w ≡ ok (h, u)
      → Selected w (hosts c w) opts.hostname opts.username h u
  unfolding logout_target
  logout_target-Selected c w h u e =
      elim (Result-cases (check_known c w opts.hostname opts.username)) [
        | inr (x, refused) ↦ ground (arith, e, refused)
        | inl (_, passed) ↦
            choose_account-All (Found w opts.hostname opts.username (hosts c w)) opts
              (accounts w opts.hostname opts.username (hosts c w)) (h, u)
              (accounts-Found w opts.hostname opts.username (hosts c w)) (ground (arith, e, passed))
      ]

  -- The one call that a run makes on the accounts, where it succeeds.
  record LogsOut (s s' : Console P) : Type 0 where
    c : AuthConfig
    h : String
    u : String
    target : logout_target opts c s.world ≡ ok (h, u)
    logged_out : logout h u s.world ≡ (ok tt, s'.world)

  logs_out : (s s' : Console P) → logout_run opts s ≡ (ok tt, s') → LogsOut s s'
  unfolding logout_run refuse_env report
  logs_out s s' e = elim (Result-cases opts.config) [
    | inr (x, failed) ↦ ground (arith, e, failed)
    | inl (c, configured) ↦ elim (Result-cases (logout_target opts c s.world)) [
      | inr (x, failed) ↦ ground (arith, e, configured, failed)
      | inl ((h, u), target) ↦ elim (Bool-cases (auth_token_writeable c s.world h).1) [
        | inr fixed ↦ ground (arith, e, configured, target, fixed)
        | inl free ↦ elim (Result-cases (logout h u s.world).0) [
          | inr (x, failed) ↦ ground (arith, e, configured, target, free, failed)
          | inl (_, done) ↦ record {
            c = c;
            h = h;
            u = u;
            target = target;
            logged_out = ground (arith, e, configured, target, free, done);
          }
        ]
      ]
    ]
  ]

  -- A run of `bb auth logout` that succeeds was about a logged in account, with the host and the name
  -- that were given, where they were; after it the account has no entry and is not active on its host,
  -- and the disk holds the configuration in memory.
  pub logout_run_done :
      (s s' : Console P)
      → logout_run opts s ≡ (ok tt, s')
      → (c : AuthConfig) × (h : String) × (u : String) × Selected s.world
          (hosts c s.world)
          opts.hostname
          opts.username
          h
          u
        × (P.config.get s'.world.file (account_path h u) ≡ none)
        × (P.config.get s'.world.file (user_path h) ≢ some u)
        × (s'.world.disk ≡ s'.world.file)
  logout_run_done s s' e =
      let r = logs_out s s' e in
      let (gone, passive, disk) = logout_done r.h r.u s.world s'.world r.logged_out in
      (r.c, r.h, r.u, logout_target-Selected r.c s.world r.h r.u r.target, gone, passive, disk)

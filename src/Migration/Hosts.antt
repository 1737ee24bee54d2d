-- ===== src/Migration/Hosts.antt =====
-- internal/config/migration/multi_account.go: the entries that the migration makes.
use bitbucket_cli.Prelude.{
  String, subst, text_cases, ◌≡◌, ◌≢◌, refl, sym, ◌∙◌, ap, some, List, [], ◌∷◌, ◌++◌, true, false,
  ◌!=◌, ◌&&◌, arith, eq_iff, eq_refl, eq-false_of_ne, inl, inr, contains, Distinct,
}
use bitbucket_cli.Prelude.Result.{ok}
use bitbucket_cli.External.{Platform}
use bitbucket_cli.World.{World}
use bitbucket_cli.Config.Keys.{hosts_key}
use bitbucket_cli.Auth.Paths.{host_path, user_path, token_path, account_path, account_token_path}
use bitbucket_cli.Migration.{
  ViewerQuery, get_token, get_username, migrate_config, migrate_token, migrate_host, migrate_hosts,
  multi_account,
}

module _ (P : Platform) where
  -- The token of the host stands in the configuration, beside the name of a user.
  pub record PlainHost (f : P.config.File) (h : String) : Type 0 where
    pub user : String
    pub token : String
    pub user_set : P.config.get f (user_path h) ≡ some user
    pub token_set : P.config.get f (token_path h) ≡ some token
    pub named : (user != "" && user != "x-access-token") ≡ true
    pub not_blank : (token != "") ≡ true

  pub record MigratedHost (f f' : P.config.File) (h : String) : Type 0 where
    pub user : String
    pub token : String
    pub user_set : P.config.get f (user_path h) ≡ some user
    pub token_set : P.config.get f (token_path h) ≡ some token
    pub keeps_user : P.config.get f' (user_path h) ≡ some user
    pub keeps_token : P.config.get f' (token_path h) ≡ some token
    pub has_account : P.config.get f' (account_token_path h user) ≡ some token

  -- The configuration after the migration of a plain host.
  abbrev migrated_file : String → String → String → P.config.File → P.config.File
  migrated_file h user token f =
      P.config.set (P.config.set (P.config.set f (user_path h) user) (account_path h user) "")
        (account_token_path h user) token

  migrate_host_lem :
      (viewer : ViewerQuery) (h : String) (w : World P) (plain : PlainHost w.file h)
      → migrate_host viewer h w
        ≡ (ok tt, record w { file = migrated_file h plain.user plain.token w.file })
  unfolding migrate_host get_token get_username migrate_config migrate_token
  migrate_host_lem viewer h w plain = ground (
    arith,
    plain.token_set,
    plain.not_blank,
    plain.user_set,
    plain.named,
    P.config.get-set w.file (user_path h) (token_path h) plain.user,
    P.config.get-set (P.config.set w.file (user_path h) plain.user) (account_path h plain.user)
        (token_path h) "",
    eq_refl h,
  )

  elsewhere :
      (h u t h' : String) (q : List String) (f : P.config.File)
      → h ≢ h'
      → P.config.get (migrated_file h u t f) (host_path h' ++ q)
        ≡ P.config.get f (host_path h' ++ q)
  elsewhere h u t h' q f other = simp (P.config.get-set, eq_refl, eq-false_of_ne h h' other)

  migrated_here :
      (f : P.config.File) (h : String) (plain : PlainHost f h)
      → MigratedHost f (migrated_file h plain.user plain.token f) h
  migrated_here f h plain = record {
    user = plain.user;
    token = plain.token;
    user_set = plain.user_set;
    token_set = plain.token_set;
    keeps_user = simp (P.config.get-set, eq_refl);
    keeps_token = simp (P.config.get-set, eq_refl) plain.token_set;
    has_account = simp (P.config.get-set, eq_refl);
  }

  -- One host alone differs: what holds of another host's settings goes on.
  plain_still :
      (f f' : P.config.File) (h : String)
      → ((q : List String) → P.config.get f' (host_path h ++ q) ≡ P.config.get f (host_path h ++ q))
      → PlainHost f h
      → PlainHost f' h
  plain_still f f' h same plain = record {
    user = plain.user;
    token = plain.token;
    named = plain.named;
    not_blank = plain.not_blank;
    user_set = same ("user" ∷ []) ∙ plain.user_set;
    token_set = same ("oauth_token" ∷ []) ∙ plain.token_set;
  }

  migrated_still :
      (f f1 f' : P.config.File) (h : String)
      → ((q : List String)
          → P.config.get f' (host_path h ++ q) ≡ P.config.get f1 (host_path h ++ q))
      → MigratedHost f f1 h
      → MigratedHost f f' h
  migrated_still f f1 f' h same m = record {
    user = m.user;
    token = m.token;
    user_set = m.user_set;
    token_set = m.token_set;
    keeps_user = same ("user" ∷ []) ∙ m.keeps_user;
    keeps_token = same ("oauth_token" ∷ []) ∙ m.keeps_token;
    has_account = same ("users" ∷ m.user ∷ "oauth_token" ∷ []) ∙ m.has_account;
  }

  migrated_since :
      (f f1 f' : P.config.File) (h : String)
      → ((q : List String) → P.config.get f1 (host_path h ++ q) ≡ P.config.get f (host_path h ++ q))
      → MigratedHost f1 f' h
      → MigratedHost f f' h
  migrated_since f f1 f' h same m = record {
    user = m.user;
    token = m.token;
    user_set = sym (same ("user" ∷ [])) ∙ m.user_set;
    token_set = sym (same ("oauth_token" ∷ [])) ∙ m.token_set;
    keeps_user = m.keeps_user;
    keeps_token = m.keeps_token;
    has_account = m.has_account;
  }

  record AllMigrated (l : List String) (w w' : World P) : Type 0 where
    each : (h : String) → contains l h ≡ true → MigratedHost w.file w'.file h
    others :
        (h : String) (q : List String)
        → contains l h ≡ false
        → P.config.get w'.file (host_path h ++ q) ≡ P.config.get w.file (host_path h ++ q)

  AllMigrated-cons :
      (h : String) (l : List String) (w w1 w' : World P)
      → contains l h ≡ false
      → MigratedHost w.file w1.file h
      → ((h' : String) (q : List String)
          → h ≢ h'
          → P.config.get w1.file (host_path h' ++ q) ≡ P.config.get w.file (host_path h' ++ q))
      → AllMigrated l w1 w'
      → AllMigrated (h ∷ l) w w'
  AllMigrated-cons h l w w1 w' fresh here keeps all = record {
    each = λ h' e. elim (text_cases h h') [
      | inl same ↦
          subst (MigratedHost w.file w'.file) same
            (migrated_still w.file w1.file w'.file h (λ q. all.others h q fresh) here)
      | inr (other, differs) ↦
          migrated_since w.file w1.file w'.file h' (λ q. keeps h' q other)
            (all.each h' (ground (arith, e, differs)))
    ];
    others = λ h' q e. elim (text_cases h h') [
      | inl same ↦ ground (arith, e, (eq_iff h h').1 same)
      | inr (other, differs) ↦ all.others h' q (ground (arith, e, differs)) ∙ keeps h' q other
    ];
  }

  hosts_migrated :
      (viewer : ViewerQuery) (l : List String) (w : World P)
      → Distinct l
      → ((h : String) → contains l h ≡ true → PlainHost w.file h)
      → (f' : P.config.File) × (migrate_hosts viewer l w ≡ (ok tt, record w { file = f' }))
        × AllMigrated l w (record w { file = f' })
  unfolding migrate_hosts
  hosts_migrated viewer [] w d plain =
      (w.file, refl, record { each = λ h e. ground arith; others = λ h q e. refl })
  hosts_migrated viewer (h ∷ l) w (fresh, d) plain =
      let here = plain h (rw (eq_refl h) refl) in
      let w1 : World P = record w { file = migrated_file h here.user here.token w.file } in
      let keeps : (h' : String) (q : List String)
          → h ≢ h'
          → P.config.get w1.file (host_path h' ++ q) ≡ P.config.get w.file (host_path h' ++ q) =
        λ h' q. elsewhere h here.user here.token h' q w.file in
      let later : (h' : String) → contains l h' ≡ true → h ≢ h' =
        λ h' e same. cc (fresh, e, ap (contains l) same) in
      let (f', runs, all) = hosts_migrated viewer l w1 d (λ h' e.
        plain_still w.file w1.file h' (λ q. keeps h' q (later h' e))
          (plain h' (ground (arith, e)))) in
      (
        f',
        ground (arith, runs, migrate_host_lem viewer h w here),
        AllMigrated-cons h l w w1 (record w { file = f' }) fresh (migrated_here w.file h here) keeps
            all,
      )

  -- Where every host of the configuration has a user's name and a token in it, the migration succeeds,
  -- changes the configuration in memory alone, and enters each host's user with the host's token under
  -- the host's accounts; the user and the token of the host stay.
  pub multi_account_done :
      (viewer : ViewerQuery) (l : List String) (w : World P)
      → P.config.keys w.file (hosts_key ∷ []) ≡ some l
      → ((h : String) → contains l h ≡ true → PlainHost w.file h)
      → (f' : P.config.File) × ((multi_account viewer).run w ≡ (ok tt, record w { file = f' }))
        × ((h : String) → contains l h ≡ true → MigratedHost w.file f' h)
  unfolding multi_account
  multi_account_done viewer l w hosts plain =
      let (f', runs, all) =
        hosts_migrated viewer l w (P.config.keys-Distinct w.file (hosts_key ∷ []) l hosts) plain in
      (f', rw hosts runs, all.each)

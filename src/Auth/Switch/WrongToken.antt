-- ===== src/Auth/Switch/WrongToken.antt =====
-- A `SwitchUser` that fails where the active token stood in the keyring, and whose account has its
-- token in the configuration.
use bitbucket_cli.Prelude.{String, ◌≡◌, ◌≢◌, refl, ◌∙◌, ap, some, arith, eq_refl}
use bitbucket_cli.Prelude.Result.{Error, Result, ok, err}
use bitbucket_cli.External.{Platform}
use bitbucket_cli.Action.{◌>>=◌}
use bitbucket_cli.Auth.Switch.{
  NoTokenInEnvironment, active_token_config, user-restored_file, token-restored_file,
  file-undo_switch, restored_file,
}
use bitbucket_cli.Keyring
use bitbucket_cli.World.{World, found, file-changed, delete_secret}
use bitbucket_cli.Auth.Paths.{user_path, token_path, account_token_path, service}
use bitbucket_cli.Auth.Activate.{changed-reading}
use bitbucket_cli.Auth.{
  no_overrides, active_token, active_user, activate_user, move_secret, move_token, finish_switch,
  switch_user,
}

module _ (P : Platform) (h u : String) where
  abbrev stopped_file : P.config.File → String → P.config.File
  stopped_file f t = P.config.set (P.config.set f (token_path h) t) (user_path h) u

module _ {P : Platform} (h u : String) where
  module _ (x : Error) (full : (d f : P.config.File) → P.write_error d f ≡ some x) where
    stopped_write :
        (w : World P) (t : String) (y : Error)
        → Keyring.get P.keyring w.ring (service h) u ≡ err y
        → P.config.get w.file (account_token_path h u) ≡ some t
        → (do
          in_keyring ← move_secret h u
          switched ← move_token h u in_keyring
          finish_switch h u switched)
            w
          ≡ (err x, record w { file = stopped_file P h u w.file t })
    unfolding move_secret move_token finish_switch
    stopped_write w t y none_stored theirs =
        ground (arith, full w.disk (stopped_file P h u w.file t))

    stopped_activation :
        (w : World P) (t : String) (y : Error)
        → u ≢ ""
        → Keyring.get P.keyring w.ring (service h) u ≡ err y
        → P.config.get w.file (account_token_path h u) ≡ some t
        → ((activate_user h u w).0 ≡ err x)
          × (P.config.get (activate_user h u w).1.file (token_path h) ≡ some t)
    unfolding activate_user
    stopped_activation w t y named none_stored theirs =
        let w1 : World P = record (delete_secret {P = P} (service h) "" w).1 {
          file = P.config.remove (delete_secret {P = P} (service h) "" w).1.file (token_path h);
        } in
        let kept : P.config.get w1.file (account_token_path h u) ≡ some t =
          simp (P.config.get-remove, eq_refl)
            (ap (λ f. P.config.get f (account_token_path h u)) (file-changed _ w) ∙ theirs) in
        let e = stopped_write w1 t y (changed-reading h u _ w refl named ∙ none_stored) kept in
        (
          ap (λ (r : Result (Unit {0}) × World P). r.0) e,
          ap (λ (r : Result (Unit {0}) × World P). P.config.get r.1.file (token_path h)) e
              ∙ simp (P.config.get-set, eq_refl),
        )

  undone_switch :
      (w : World P) (t previous : String) (x : Error)
      → active_token no_overrides w h ≡ (t, "keyring")
      → active_user w h ≡ ok previous
      → (activate_user h u w).0 ≡ err x
      → (switch_user no_overrides h u w).1.file
        ≡ restored_file P h previous t "keyring" (activate_user h u w).1.file
  unfolding switch_user
  undone_switch w t previous x before known failed =
      rw (known, before, failed)
        (file-undo_switch no_overrides h u previous t "keyring" x (activate_user {P = P} h u w).1)

  -- Where the active token stood in the keyring, and the account to switch to is named and has a
  -- token in the configuration and no secret that the keyring gives, a `SwitchUser` that fails as it
  -- writes to the disk leaves that account's token as the active token of the host, though the
  -- account that was active before is still the active one. No token is set in the environment.
  pub switch_failed-wrong_token :
      NoTokenInEnvironment P h
      → (w : World P) (t t' previous : String) (x y : Error)
      → ((d f : P.config.File) → P.write_error d f ≡ some x)
      → active_token no_overrides w h ≡ (t, "keyring")
      → active_user w h ≡ ok previous
      → u ≢ ""
      → Keyring.get P.keyring w.ring (service h) u ≡ err y
      → P.config.get w.file (account_token_path h u) ≡ some t'
      → t' ≢ ""
      → (active_token no_overrides (switch_user no_overrides h u w).1 h ≡ (t', "oauth_token"))
        × (active_user (switch_user no_overrides h u w).1 h ≡ ok previous)
  switch_failed-wrong_token no_env w t t' previous x y full before known named none_stored theirs
        ne =
      let (failed, left) = stopped_activation x full w t' y named none_stored theirs in
      let w1 = (activate_user {P = P} h u w).1 in
      let file = undone_switch w t previous x before known failed in
      (
        active_token_config h u no_env (switch_user no_overrides h u w).1 t' ne (
            ap (λ f. P.config.get f (token_path h)) file
            ∙ token-restored_file P h previous t "keyring" w1.file
            ∙ left),
        ap (λ f. found (P.config.get f (user_path h))) file
            ∙ ap found (user-restored_file P h previous t "keyring" w1.file),
      )

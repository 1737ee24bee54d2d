-- ===== src/Auth/Switch.antt =====
-- `SwitchUser` of internal/config/config.go.
pub mod WrongToken
use bitbucket_cli.Prelude.{
  String, ◌≡◌, ◌≢◌, ◌⊎◌, refl, sym, ◌∙◌, ap, Option, none, some, List, [], ◌∷◌, ◌++◌, Bool, true,
  false, ◌&&◌, ◌==◌, ◌!=◌, arith, eq_iff, eq_refl, is_some, if◌then◌else◌, inl, inr, Bool-cases,
  Option-cases, eq-false_of_ne, value_or, text_cases,
}
use bitbucket_cli.Prelude.Result.{Error, Result, ok, err, Result-cases}
use bitbucket_cli.External.{Platform}
use bitbucket_cli.Action.Frame.{Frames}
use bitbucket_cli.Keyring
use bitbucket_cli.World.{World, value_at, changed, written, found}
use bitbucket_cli.Config.Keys.{user_key, oauth_token_key, hosts_key}
use bitbucket_cli.Auth.Paths.{user_path, token_path, account_path, account_token_path, service}
use bitbucket_cli.Auth.Activate.{
  activated_file, lookup-activated_file, token-activated_file, file-activate_user,
  secret-activate_user,
}
use bitbucket_cli.Auth.{
  AuthConfig, no_overrides, active_token, active_user, activate_user, restore_secret, restore_token,
  keep_secret, keep_token, undo_switch, try_switch, switch_user,
}

module _ (P : Platform) (h previous token source : String) where
  -- The configuration after a failed activation was undone, from the one that the activation left.
  pub restored_file : P.config.File → P.config.File
  restored_file f =
      let with_token = P.config.set f (token_path h) token in
      P.config.set (if source == "oauth_token" then with_token else f) (user_path h) previous

  pub user-restored_file :
      (f : P.config.File) → P.config.get (restored_file f) (user_path h) ≡ some previous
  unfolding restored_file
  user-restored_file f = simp (P.config.get-set, eq_refl)

  pub token-restored_file :
      (f : P.config.File)
      → P.config.get (restored_file f) (token_path h)
        ≡ (if source == "oauth_token" then some token else P.config.get f (token_path h))
  unfolding restored_file
  token-restored_file f = elim (Bool-cases (source == "oauth_token")) [
    | inl e ↦ simp (P.config.get-set, eq_refl, e)
    | inr e ↦ simp (P.config.get-set, eq_refl, e)
  ]

module _ {P : Platform} (c : AuthConfig) (h u : String) where
  activated_of_switched :
      (w w' : World P) → switch_user c h u w ≡ (ok tt, w') → activate_user h u w ≡ (ok tt, w')
  unfolding switch_user undo_switch restore_secret restore_token
  activated_of_switched w w' e = ground arith

  -- A failed activation has written nothing to the disk.
  disk-activate_user :
      (w : World P) (x : Error)
      → (activate_user h u w).0 ≡ err x
      → (activate_user h u w).1.disk ≡ w.disk
  unfolding activate_user keep_secret keep_token
  disk-activate_user w x e = ground arith

  -- What the undoing leaves, from the state that the activation left.
  module _ (previous token source : String) (x : Error) where
    disk-undo_switch :
        (w : World P) → (undo_switch h previous token source (err x) w).1.disk ≡ w.disk
    unfolding undo_switch restore_secret restore_token
    disk-undo_switch w = ground arith

    pub file-undo_switch :
        (w : World P)
        → (undo_switch h previous token source (err x) w).1.file
          ≡ restored_file P h previous token source w.file
    unfolding undo_switch restore_secret restore_token restored_file
    file-undo_switch w = ground arith

  -- A switch that fails has stopped before it changed anything, or has undone an activation.
  failed_switch :
      (w w' : World P) (e : Error)
      → switch_user c h u w ≡ (err e, w')
      → (w' ≡ w)
        ⊎ ((x : Error) × (previous : String) × ((activate_user h u w).0 ≡ err x)
            × (active_user w h ≡ ok previous)
            × (w'
                ≡ (undo_switch h previous
                    (active_token c w h).0
                    (active_token c w h).1
                    (err x)
                    (activate_user h u w).1).1))
  unfolding switch_user
  failed_switch w w' e f = elim (Result-cases (active_user w h)) [
    | inr (x, unknown) ↦ inl (ground arith)
    | inl (previous, known) ↦
        elim (Bool-cases
          ((active_token c w h).1 != "keyring" && (active_token c w h).1 != "oauth_token")) [
            | inl foreign ↦ inl (ground arith)
            | inr ours ↦ elim (Result-cases (activate_user h u w).0) [
              | inl (done, activated) ↦ inl (ground arith)
              | inr (x, failed) ↦ inr (x, previous, failed, known, ground arith)
            ]
          ]
  ]

  -- A `SwitchUser` that fails leaves the disk as it was, and the account that was active is active.
  pub switch_failed :
      (w w' : World P) (e : Error)
      → switch_user c h u w ≡ (err e, w')
      → (w'.disk ≡ w.disk) × (active_user w' h ≡ active_user w h)
  switch_failed w w' e f = elim (failed_switch w w' e f) [
    | inl same ↦ (ap (λ (v : World P). v.disk) same, ap (λ v. active_user v h) same)
    | inr (x, previous, failed, known, undone) ↦
        let token = active_token c w h in
        let w1 = (activate_user {P = P} h u w).1 in
        (
          ap (λ (v : World P). v.disk) undone
              ∙ disk-undo_switch previous token.0 token.1 x w1
              ∙ disk-activate_user w x failed,
          ap (λ v. active_user v h) undone
              ∙ ap (λ f. found (P.config.get f (user_path h)))
                  (file-undo_switch previous token.0 token.1 x w1)
              ∙ ap found (user-restored_file P h previous token.0 token.1 w1.file)
              ∙ sym known,
        )
  ]

  -- After a `SwitchUser` that returns without an error the account is active, the host's own token
  -- in the configuration is the account's (or none, as the account's), a named account's secret is
  -- the host's own secret in the keyring, and the disk holds the configuration in memory.
  pub switch_done :
      (w w' : World P)
      → switch_user c h u w ≡ (ok tt, w')
      → (active_user w' h ≡ ok u)
        × (P.config.get w'.file (token_path h) ≡ P.config.get w.file (account_token_path h u))
        × ((t : String)
            → u ≢ ""
            → Keyring.get P.keyring w.ring (service h) u ≡ ok t
            → Keyring.get P.keyring w'.ring (service h) "" ≡ ok t)
        × (w'.disk ≡ w'.file)
  switch_done w w' e =
      let activated = activated_of_switched w w' e in
      let (file, disk) = file-activate_user h u w w' activated in
      (
        ap (λ f. found (P.config.get f (user_path h))) file
            ∙ ap found (lookup-activated_file P h u w.file),
        ap (λ (f : P.config.File). P.config.get f (token_path h)) file
            ∙ token-activated_file P h u w.file,
        λ t named stored. secret-activate_user h u w w' t named stored activated,
        disk,
      )

-- No variable of the environment holds a token for the host: go-gh then reads the configuration, and
-- names "oauth_token" as the source also where it finds none.
abbrev pub NoTokenInEnvironment : Platform → String → Type 0
NoTokenInEnvironment P h =
    (f : P.config.File)
    → P.token_from_env_or_config f h ≡ (value_or (P.config.get f (token_path h)) "", "oauth_token")

module _ {P : Platform} (h u : String) (no_env : NoTokenInEnvironment P h) where
  pub active_token_config :
      (w : World P) (t : String)
      → t ≢ ""
      → P.config.get w.file (token_path h) ≡ some t
      → active_token no_overrides w h ≡ (t, "oauth_token")
  unfolding active_token
  active_token_config w t ne e = rw (no_env w.file, e, eq-false_of_ne t "" ne)

  config_token_of_active :
      (w : World P) (t : String)
      → active_token no_overrides w h ≡ (t, "oauth_token")
      → t ≢ ""
      → P.config.get w.file (token_path h) ≡ some t
  unfolding active_token
  config_token_of_active w t e ne =
      ground (arith, no_env w.file, eq_iff t "", eq_iff "keyring" "oauth_token")

  token_of_failed :
      (w w' : World P) (t : String) (x : Error) (previous : String)
      → active_token no_overrides w h ≡ (t, "oauth_token")
      → w'
        ≡ (undo_switch h previous
            (active_token no_overrides w h).0
            (active_token no_overrides w h).1
            (err x)
            (activate_user h u w).1).1
      → P.config.get w'.file (token_path h) ≡ some t
  token_of_failed w w' t x previous before undone =
      let token = active_token no_overrides w h in
      let w1 = (activate_user {P = P} h u w).1 in
      let same_token : token.0 ≡ t = ap (λ (p : String × String). p.0) before in
      let same_source : token.1 ≡ "oauth_token" = ap (λ (p : String × String). p.1) before in
      ap (λ (v : World P). P.config.get v.file (token_path h)) undone
      ∙ ap (λ f. P.config.get f (token_path h))
          (file-undo_switch no_overrides h u previous token.0 token.1 x w1)
      ∙ token-restored_file P h previous token.0 token.1 w1.file
      ∙ rw (same_source, same_token)

  -- Where the active token stood in the configuration, a `SwitchUser` that fails gives it back: the
  -- active token and its source are as before.
  pub switch_failed-active_token :
      (w w' : World P) (t : String) (e : Error)
      → t ≢ ""
      → active_token no_overrides w h ≡ (t, "oauth_token")
      → switch_user no_overrides h u w ≡ (err e, w')
      → active_token no_overrides w' h ≡ (t, "oauth_token")
  switch_failed-active_token w w' t e ne before f = elim (failed_switch no_overrides h u w w' e f) [
    | inl same ↦ rw same before
    | inr (x, previous, failed, known, undone) ↦
        active_token_config w' t ne (token_of_failed w w' t x previous before undone)
  ]

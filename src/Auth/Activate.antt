-- ===== src/Auth/Activate.antt =====
-- `activateUser` of internal/config/config.go: what a host holds once an account was activated.
use bitbucket_cli.Prelude.{
  String, ◌≡◌, ◌≢◌, refl, ◌∙◌, Option, none, some, List, ◌++◌, arith, eq_iff, eq_refl, inl, inr,
  Option-cases,
}
use bitbucket_cli.Prelude.Result.{Result, ok, err, Result-cases}
use bitbucket_cli.External.{Platform}
use bitbucket_cli.Action.{◌>>=◌}
use bitbucket_cli.Keyring
use bitbucket_cli.World.{World, changed}
use bitbucket_cli.Auth.Paths.{account_path, user_path, token_path, account_token_path, service}
use bitbucket_cli.Auth.{
  keep_secret, keep_token, move_secret, move_token, finish_switch, activate_user,
}

module _ (P : Platform) (h u : String) where
  with_token : Option String → P.config.File → P.config.File
  with_token none f = f
  with_token (some token) f = P.config.set f (token_path h) token

  -- The configuration that `activateUser` leaves when it succeeds.
  pub activated_file : P.config.File → P.config.File
  unfolding with_token
  activated_file f =
      let cleared = P.config.remove f (token_path h) in
      P.config.set (with_token (P.config.get cleared (account_token_path h u)) cleared)
        (user_path h) u

  pub lookup-activated_file :
      (f : P.config.File) → P.config.get (activated_file f) (user_path h) ≡ some u
  unfolding activated_file
  lookup-activated_file f = simp (P.config.get-set, eq_refl)

  pub token-activated_file :
      (f : P.config.File)
      → P.config.get (activated_file f) (token_path h) ≡ P.config.get f (account_token_path h u)
  unfolding activated_file
  token-activated_file f =
      simp (P.config.get-set, P.config.get-remove, eq_refl)
        (elim (Option-cases (P.config.get f (account_token_path h u))) [
          | inl absent ↦ rw absent (simp (P.config.get-set, P.config.get-remove, eq_refl))
          | inr (token, there) ↦ rw there (simp (P.config.get-set, P.config.get-remove, eq_refl))
        ])

  -- The entries of accounts are left alone.
  pub account-activated_file :
      (f : P.config.File) (v : String) (q : List String)
      → P.config.get (activated_file f) (account_path h v ++ q)
        ≡ P.config.get f (account_path h v ++ q)
  unfolding activated_file
  account-activated_file f v q =
      simp (P.config.get-set, P.config.get-remove, eq_refl)
        (elim (Option-cases (P.config.get f (account_token_path h u))) [
          | inl absent ↦ rw absent (simp (P.config.get-set, P.config.get-remove, eq_refl))
          | inr (token, there) ↦ rw there (simp (P.config.get-set, P.config.get-remove, eq_refl))
        ])

module _ {P : Platform} (h u : String) where
  pub changed-reading :
      (r : Result (P.keyring.Ring)) (w : World P)
      → Keyring.delete P.keyring w.ring (service h) "" ≡ r
      → u ≢ ""
      → Keyring.get P.keyring (changed r w).1.ring (service h) u
        ≡ Keyring.get P.keyring w.ring (service h) u
  changed-reading (ok r) w e named =
      ground (
        arith,
        Keyring.reading-delete P.keyring w.ring r (service h) "" (service h) u e,
        eq_iff "" u,
      )
  changed-reading (err x) w e named = refl

  -- From a state in which the keyring holds the account's token.
  moved-reading :
      (w w' : World P) (t : String)
      → Keyring.get P.keyring w.ring (service h) u ≡ ok t
      → (do
        in_keyring ← move_secret h u
        switched ← move_token h u in_keyring
        finish_switch h u switched)
          w
        ≡ (ok tt, w')
      → Keyring.get P.keyring w'.ring (service h) "" ≡ ok t
  unfolding move_secret move_token finish_switch
  moved-reading w w' t stored e =
      elim (Result-cases (Keyring.set P.keyring w.ring (service h) "" t)) [
        | inl (r, set) ↦ ground (
          arith,
          Keyring.reading-set P.keyring w.ring r (service h) "" t (service h) "" set,
          eq_refl (service h),
        )
        | inr (x, refused) ↦ ground arith
      ]

  pub file-activate_user :
      (w w' : World P)
      → activate_user h u w ≡ (ok tt, w')
      → (w'.file ≡ activated_file P h u w.file) × (w'.disk ≡ w'.file)
  unfolding activate_user activated_file keep_secret keep_token
  file-activate_user w w' e = ground arith

  -- The slot "" of the host in the keyring.
  pub secret-activate_user :
      (w w' : World P) (t : String)
      → u ≢ ""
      → Keyring.get P.keyring w.ring (service h) u ≡ ok t
      → activate_user h u w ≡ (ok tt, w')
      → Keyring.get P.keyring w'.ring (service h) "" ≡ ok t
  unfolding activate_user keep_secret keep_token
  secret-activate_user w w' t named stored e =
      moved-reading _ w' t (changed-reading _ w refl named ∙ stored) e

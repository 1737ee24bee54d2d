-- ===== src/Auth/Session/Outcomes.antt =====
-- Login and Logout write to the disk when they succeed, and only then.
use bitbucket_cli.Prelude.{
  String, ◌≡◌, ◌⊎◌, sym, ap, ◌∙◌, Bool, true, false, none, some, List, ◌==◌, ◌!=◌, arith, inl, inr,
  Bool-cases, ltb, length, find, contains, eq_refl,
}
use bitbucket_cli.Prelude.Result.{Error, Result, ok, err, Result-cases}
use bitbucket_cli.External.{Platform}
use bitbucket_cli.Action.{◌>>=◌}
use bitbucket_cli.World.{World, value_at, written}
use bitbucket_cli.Auth.Paths.{account_path, user_path}
use bitbucket_cli.Auth.Activate.{lookup-activated_file, file-activate_user}
use bitbucket_cli.Auth.Login.{stored, ready, login_after}
use bitbucket_cli.Auth.Logout.{
  logout_few, logout_many, logout_index, written_ok, file-remove_host, cleared,
}
use bitbucket_cli.Auth.{
  activate_user, keep_secret, keep_token, store_secret, store_token, login, remove_host,
  remove_account, logout, users_for_host, forget_token,
}

module _ {P : Platform} (h u : String) where
  disk-activate_user_err :
      (w : World P) (x : Error)
      → (activate_user h u w).0 ≡ err x
      → (activate_user h u w).1.disk ≡ w.disk
  unfolding activate_user keep_secret keep_token
  disk-activate_user_err w x e = ground arith

  disk-remove_host_err :
      (w : World P) (x : Error)
      → (remove_host h u w).0 ≡ err x
      → (remove_host h u w).1.disk ≡ w.disk
  unfolding remove_host
  disk-remove_host_err w x e = ground arith

module _ {P : Platform} where
  disk-written_err :
      (w : World P) (x : Error)
      → (written (P.write_error w.disk w.file) w).0 ≡ err x
      → (written (P.write_error w.disk w.file) w).1.disk ≡ w.disk
  disk-written_err w x e = ground arith

module _ {P : Platform} (h u : String) where
  remove_account-fails :
      (w : World P) (us : List String) (n : String) (x : Error)
      → find (λ a. a != u) us ≡ some n
      → (remove_account h u us w).0 ≡ err x
      → (remove_account h u us w).1.disk ≡ w.disk
  unfolding remove_account
  remove_account-fails w us n x other e =
      let w1 : World P = record w { file = P.config.remove w.file (account_path h u) } in
      elim (Bool-cases (value_at w1 (user_path h) == u)) [
        | inl active ↦ ground (arith, e, other, active, disk-activate_user_err h n w1 x)
        | inr passive ↦ ground (arith, e, passive, disk-written_err w1 x)
      ]

  pub logout-fails :
      (w : World P) (x : Error) → (logout h u w).0 ≡ err x → (logout h u w).1.disk ≡ w.disk
  logout-fails w x e = elim (Bool-cases (ltb (length (users_for_host w h)) 2)) [
    | inl few ↦ rw (logout_few h u w few) (
        disk-remove_host_err h u w x
          (ap (λ (r : Result (Unit {0}) × World P). r.0) (sym (logout_few h u w few)) ∙ e))
    | inr many ↦
        let (n, there, _, _) = logout_index h u w many in
        rw (logout_many h u w many) (
          remove_account-fails w (users_for_host w h) n x there
            (ap (λ (r : Result (Unit {0}) × World P). r.0) (sym (logout_many h u w many)) ∙ e))
  ]

  -- The user that is active after a `Logout` that succeeds was active before or is another known user.
  remove_account-active :
      (w w' : World P) (us : List String) (n : String)
      → find (λ a. a != u) us ≡ some n
      → remove_account h u us w ≡ (ok tt, w')
      → (P.config.get w'.file (user_path h) ≡ P.config.get w.file (user_path h))
        ⊎ (P.config.get w'.file (user_path h) ≡ some n)
  unfolding remove_account
  remove_account-active w w' us n other e =
      let w1 : World P = record w { file = P.config.remove w.file (account_path h u) } in
      let kept : P.config.get w1.file (user_path h) ≡ P.config.get w.file (user_path h) =
        simp (P.config.get-remove, eq_refl) in
      elim (Bool-cases (value_at w1 (user_path h) == u)) [
        | inl active ↦
            let activated : activate_user h n w1 ≡ (ok tt, w') = ground arith in
            let (file, _) = file-activate_user h n w1 w' activated in
            inr (
              ap (λ (f : P.config.File). P.config.get f (user_path h)) file
              ∙ lookup-activated_file P h n w1.file)
        | inr passive ↦
            let saved : written (P.write_error w1.disk w1.file) w1 ≡ (ok tt, w') = ground arith in
            let (file, _) = written_ok h u w1 w' saved in
            inl (ap (λ (f : P.config.File). P.config.get f (user_path h)) file ∙ kept)
      ]

  pub logout-active :
      (w w' : World P)
      → ltb (length (users_for_host w h)) 2 ≡ false
      → logout h u w ≡ (ok tt, w')
      → (P.config.get w'.file (user_path h) ≡ P.config.get w.file (user_path h))
        ⊎ ((n : String) × (contains (users_for_host w h) n ≡ true)
            × (P.config.get w'.file (user_path h) ≡ some n))
  logout-active w w' many e =
      let (n, there, _, known) = logout_index h u w many in
      elim (remove_account-active w w' (users_for_host w h) n there
        (sym (logout_many h u w many) ∙ e)) [
          | inl kept ↦ inl kept
          | inr other ↦ inr (n, known, other)
        ]

  pub logout_few-active :
      (w w' : World P)
      → ltb (length (users_for_host w h)) 2 ≡ true
      → logout h u w ≡ (ok tt, w')
      → P.config.get w'.file (user_path h) ≡ none
  logout_few-active w w' few e =
      let (file, _) = file-remove_host h u w w' (sym (logout_few h u w few) ∙ e) in
      ap (λ (f : P.config.File). P.config.get f (user_path h)) file ∙ cleared P h w.file

module _ {P : Platform} (h u t p : String) where
  disk-stored :
      (w : World P) (secure : Bool)
      → ((do in_keyring ← store_secret h u t secure; store_token h u t in_keyring) w).1.disk
        ≡ w.disk
  unfolding store_secret store_token forget_token
  disk-stored w secure = ground arith

  -- `Login` always returns its flag, beside the outcome of the activation.
  pub login-outcome :
      (w : World P) (secure : Bool)
      → ((insecure : Bool) × (login h u t p secure w
            ≡ (ok (insecure, ok tt), (login h u t p secure w).1)))
        ⊎ ((login h u t p secure w).1.disk ≡ w.disk)
  login-outcome w secure =
      let (insecure, w1, stores, _) = stored h u t p w secure in
      let runs = login_after h u t p w w1 secure insecure stores in
      let same : w1.disk ≡ w.disk =
        ap (λ (r : Result Bool × World P). r.1.disk) (sym stores) ∙ disk-stored w secure in
      let activated = activate_user h u (ready h u t p w1) in
      elim (Result-cases activated.0) [
        | inl (_, done) ↦ inl (insecure, ground (arith, runs, done))
        | inr (x, failed) ↦ inr (
            ap (λ (r : Result (Bool × Result (Unit {0})) × World P). r.1.disk) runs
            ∙ disk-activate_user_err h u (ready h u t p w1) x failed
            ∙ same)
      ]

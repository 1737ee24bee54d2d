-- ===== src/Auth/Logout.antt =====
-- `Logout` of internal/config/config.go.
use bitbucket_cli.Prelude.{
  String, ◌≡◌, ◌≢◌, sym, ◌∙◌, ap, none, some, List, [], ◌∷◌, true, false, ◌==◌, ◌!=◌, arith, eq_iff,
  eq_refl, inl, inr, Bool-cases, Option-cases, ltb, length, find, contains, Distinct, text_cases,
}
use mathlib.Core.Option.{some-injective}
use bitbucket_cli.Prelude.Result.{ok}
use bitbucket_cli.External.{Platform}
use bitbucket_cli.World.{World, value_at, written}
use bitbucket_cli.Auth.Paths.{user_path, users_path, host_path, account_path}
use bitbucket_cli.Auth.Activate.{lookup-activated_file, file-activate_user, account-activated_file}
use bitbucket_cli.Auth.Accounts.{KeepsAccount}
use bitbucket_cli.Auth.Accounts.Operations.{remove_account-others}
use bitbucket_cli.Auth.{users_for_host, activate_user, remove_host, remove_account, logout}

-- Among two texts or more with no repetition there is another one than `u`, and the search finds it.
find_other :
    (u : String) (us : List String)
    → Distinct us
    → ltb (length us) 2 ≡ false
    → (n : String) × (find (λ x. x != u) us ≡ some n) × (n ≢ u) × (contains us n ≡ true)
find_other u [] d many = absurd (ground (arith, many))
find_other u (a ∷ []) d many = absurd (ground (arith, many))
find_other u (a ∷ b ∷ us) d many = elim (text_cases a u) [
  | inl same ↦ (
    b,
    ground (arith, eq_iff a u, eq_iff b u, eq_iff b a),
    ground (arith, eq_iff b a, eq_iff a b),
    rw (eq_refl b) (ground arith),
  )
  | inr (other, test) ↦ (a, rw test, other, rw (eq_refl a))
]

module _ (P : Platform) (h : String) where
  pub cleared :
      (f : P.config.File) → P.config.get (P.config.remove f (host_path h)) (user_path h) ≡ none
  cleared f = rw P.config.get-remove (simp eq_refl)

module _ {P : Platform} (h u : String) where
  -- `Logout` with two accounts or more on the host is the removal of one account.
  pub logout_many :
      (w : World P)
      → ltb (length (users_for_host w h)) 2 ≡ false
      → logout h u w ≡ remove_account h u (users_for_host w h) w
  unfolding logout
  logout_many w many = rw many

  pub logout_few :
      (w : World P) → ltb (length (users_for_host w h)) 2 ≡ true → logout h u w ≡ remove_host h u w
  unfolding logout
  logout_few w few = rw few

  users-Distinct : (w : World P) → Distinct (users_for_host w h)
  unfolding users_for_host
  users-Distinct w = elim (Option-cases (P.config.keys w.file (users_path h))) [
    | inl absent ↦ rw absent tt
    | inr (l, there) ↦ rw there (P.config.keys-Distinct w.file (users_path h) l there)
  ]

  -- An account remains to be activated whenever `Logout` looks for one: the index that it takes is
  -- that of another known account of the host, so the slice access does not panic.
  pub logout_index :
      (w : World P)
      → ltb (length (users_for_host w h)) 2 ≡ false
      → (n : String) × (find (λ x. x != u) (users_for_host w h) ≡ some n)
        × (n ≢ u)
        × (contains (users_for_host w h) n ≡ true)
  logout_index w many = find_other u (users_for_host w h) (users-Distinct w) many

  -- With two accounts or more on the host, `Logout` of one of them leaves each other account its
  -- entry and its secret, whatever its outcome.
  pub logout-KeepsAccount :
      (w : World P) (v : String)
      → ltb (length (users_for_host w h)) 2 ≡ false
      → "" ≢ v
      → u ≢ v
      → KeepsAccount h v w (logout h u w).1
  logout-KeepsAccount w v many named other =
      rw (logout_many w many) ((remove_account-others h v named u other (users_for_host w h)).at w)

  pub written_ok :
      (w w' : World P)
      → written (P.write_error w.disk w.file) w ≡ (ok tt, w')
      → (w'.file ≡ w.file) × (w'.disk ≡ w.file)
  written_ok w w' e = ground arith

  pub file-remove_host :
      (w w' : World P)
      → remove_host h u w ≡ (ok tt, w')
      → (w'.file ≡ P.config.remove w.file (host_path h)) × (w'.disk ≡ w'.file)
  unfolding remove_host
  file-remove_host w w' e = ground arith

  -- The account is gone from the configuration and is not active, and the disk holds that.
  abbrev IsLoggedOut : World P → Type 0
  IsLoggedOut w' =
      (P.config.get w'.file (account_path h u) ≡ none)
      × (P.config.get w'.file (user_path h) ≢ some u)
      × (w'.disk ≡ w'.file)

  remove_host-IsLoggedOut : (w w' : World P) → remove_host h u w ≡ (ok tt, w') → IsLoggedOut w'
  remove_host-IsLoggedOut w w' e =
      let (file, disk) = file-remove_host w w' e in
      (
        rw (file, P.config.get-remove) (simp eq_refl),
        λ active. cc (
          active,
          ap (λ (f : P.config.File). P.config.get f (user_path h)) file,
          cleared P h w.file,
        ),
        disk,
      )

  activated-IsLoggedOut :
      (w w' : World P) (n : String)
      → P.config.get w.file (account_path h u) ≡ none
      → n ≢ u
      → activate_user h n w ≡ (ok tt, w')
      → IsLoggedOut w'
  activated-IsLoggedOut w w' n gone ne e =
      let (file, disk) = file-activate_user h n w w' e in
      (
        cc (
          file,
          gone,
          account-activated_file P h n w.file u [],
          ap (λ (f : P.config.File). P.config.get f (account_path h u)) file,
        ),
        λ active. ne (
            some-injective n u (
              sym (lookup-activated_file P h n w.file)
              ∙ ap (λ (f : P.config.File). P.config.get f (user_path h)) (sym file)
              ∙ active)),
        disk,
      )

  written-IsLoggedOut :
      (w w' : World P)
      → P.config.get w.file (account_path h u) ≡ none
      → (value_at w (user_path h) == u) ≡ false
      → written (P.write_error w.disk w.file) w ≡ (ok tt, w')
      → IsLoggedOut w'
  written-IsLoggedOut w w' gone passive e =
      let (file, disk) = written_ok w w' e in
      (
        rw file gone,
        λ active. ground (
          arith,
          eq_refl u,
          active,
          file,
          ap (λ (f : P.config.File). P.config.get f (user_path h)) file,
        ),
        disk ∙ sym file,
      )

  remove_account-IsLoggedOut :
      (w w' : World P) (us : List String) (n : String)
      → find (λ x. x != u) us ≡ some n
      → n ≢ u
      → remove_account h u us w ≡ (ok tt, w')
      → IsLoggedOut w'
  unfolding remove_account
  remove_account-IsLoggedOut w w' us n other ne e =
      let w1 : World P = record w { file = P.config.remove w.file (account_path h u) } in
      let gone : P.config.get w1.file (account_path h u) ≡ none =
        simp (P.config.get-remove, eq_refl) in
      elim (Bool-cases (value_at w1 (user_path h) == u)) [
        | inl active ↦
            let activated : activate_user h n w1 ≡ (ok tt, w') = ground arith in
            activated-IsLoggedOut w1 w' n gone ne activated
        | inr passive ↦
            let saved : written (P.write_error w1.disk w1.file) w1 ≡ (ok tt, w') = ground arith in
            written-IsLoggedOut w1 w' gone passive saved
      ]

  -- After a `Logout` that returns without an error the account has no entry, it is not the active
  -- account of the host, and the disk holds the configuration in memory.
  pub logout_done :
      (w w' : World P)
      → logout h u w ≡ (ok tt, w')
      → (P.config.get w'.file (account_path h u) ≡ none)
        × (P.config.get w'.file (user_path h) ≢ some u)
        × (w'.disk ≡ w'.file)
  logout_done w w' e = elim (Bool-cases (ltb (length (users_for_host w h)) 2)) [
    | inl few ↦ remove_host-IsLoggedOut w w' (sym (logout_few w few) ∙ e)
    | inr many ↦
        let (n, there, ne, _) = logout_index w many in
        remove_account-IsLoggedOut w w' (users_for_host w h) n there ne
          (sym (logout_many w many) ∙ e)
  ]

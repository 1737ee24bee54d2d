-- ===== src/Config/Settings.antt =====
-- What a setting reads after a setting was written, and the table of the options.
use bitbucket_cli.Prelude.{
  String, ◌≡◌, ◌≢◌, ◌⊎◌, some, List, [], ◌∷◌, ◌==◌, arith, eq_iff, eq_refl, inl, inr, Bool-cases,
  text_cases, ap, ◌∙◌, eq-false_of_ne, if◌then◌else◌,
}
use bitbucket_cli.External.{Platform, after_set}
use bitbucket_cli.World.{World, value_at, set_key}
use bitbucket_cli.Config.{get, set}
use bitbucket_cli.Config.Keys.{hosts_key, users_key, user_key}

abbrev user_path : String → List String
user_path h = hosts_key ∷ h ∷ user_key ∷ []

module _ {P : Platform} where
  -- The account under which `set` makes its copy.
  copied_user : World P → String → String → String → String
  copied_user w h k v = value_at (set_key (hosts_key ∷ h ∷ k ∷ []) v w).1 (user_path h)

  lookup-set :
      (w : World P) (h k v : String) (q : List String)
      → h ≢ ""
      → P.config.get (set h k v w).file q ≡ (
          if copied_user w h k v == ""
          then after_set (hosts_key ∷ h ∷ k ∷ []) q v (P.config.get w.file q)
          else after_set
              (hosts_key ∷ h ∷ users_key ∷ copied_user w h k v ∷ k ∷ [])
              q
              v
              (after_set (hosts_key ∷ h ∷ k ∷ []) q v (P.config.get w.file q)))
  unfolding set copied_user
  lookup-set w h k v q host =
      rw (eq-false_of_ne h "" host)
        (elim (Bool-cases (value_at (set_key (hosts_key ∷ h ∷ k ∷ []) v w).1 (user_path h) == "")) [
          | inl anonymous ↦ rw anonymous (P.config.get-set w.file _ q v)
          | inr named ↦ rw named (
              P.config.get-set _
                (hosts_key
                  ∷ h
                  ∷ users_key
                  ∷ value_at (set_key {P = P} (hosts_key ∷ h ∷ k ∷ []) v w).1 (user_path h)
                  ∷ k
                  ∷ [])
                q v
              ∙ ap
                  (after_set
                    (hosts_key
                      ∷ h
                      ∷ users_key
                      ∷ value_at (set_key {P = P} (hosts_key ∷ h ∷ k ∷ []) v w).1 (user_path h)
                      ∷ k
                      ∷ [])
                    q v)
                  (P.config.get-set w.file (hosts_key ∷ h ∷ k ∷ []) q v))
        ])

  lookup-set_general :
      (w : World P) (k v : String) (q : List String)
      → P.config.get (set "" k v w).file q ≡ after_set (k ∷ []) q v (P.config.get w.file q)
  unfolding set
  lookup-set_general w k v q = P.config.get-set w.file (k ∷ []) q v

  -- A setting reads back as it was written, for a host or in general, whatever the host, the key
  -- and the accounts of the host.
  pub get-set : (w : World P) (h k v : String) → get (set h k v w) h k ≡ some v
  unfolding get
  get-set w h k v = elim (text_cases h "") [
    | inl general ↦ rw general (simp (lookup-set_general, eq_refl))
    | inr (host, test) ↦ rw test (
        simp (lookup-set w h k v _ host, eq_refl)
          (ground (arith, eq_iff users_key k, eq_iff k users_key)))
  ]

  -- Writing a setting of a host leaves the other settings of that host and every setting of the
  -- other hosts and in general as they were. Keys named like the sections `hosts` and `users`
  -- are excepted.
  pub get-set_other :
      (w : World P) (h k v h' k' : String)
      → h ≢ ""
      → (h ≢ h') ⊎ (k ≢ k')
      → k' ≢ users_key
      → k' ≢ hosts_key
      → get (set h k v w) h' k' ≡ get w h' k'
  unfolding get
  get-set_other w h k v h' k' host other not_users not_hosts =
      simp (lookup-set w h k v _ host, eq_refl)
        (ground (
          arith,
          eq_iff h h',
          eq_iff h' h,
          eq_iff k k',
          eq_iff users_key k',
          eq_iff hosts_key k',
          eq_iff k' users_key,
          eq_iff k' hosts_key,
        ))

  -- Writing a general setting leaves the other settings, those of hosts included, as they were.
  pub get-set_general :
      (w : World P) (k v h' k' : String)
      → k ≢ k'
      → k ≢ hosts_key
      → get (set "" k v w) h' k' ≡ get w h' k'
  unfolding get
  get-set_general w k v h' k' other not_hosts =
      simp (lookup-set_general, eq_refl)
        (ground (arith, eq_iff k k', eq_iff k hosts_key, eq_iff hosts_key k))

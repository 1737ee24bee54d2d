-- ===== src/Auth/Session/Known.antt =====
-- An account that is active on the disk is a known one (internal/config/config.go).
use bitbucket_cli.Prelude.{
  String, ◌≡◌, ◌≢◌, ◌⊎◌, sym, ap, ◌∙◌, subst, true, some, List, [], ◌∷◌, arith, inl, inr,
  Bool-cases, Option-cases, text_cases, eq-false_of_ne, is_some, ltb, length, contains, eq_refl,
}
use bitbucket_cli.Prelude.Result.{Result, ok, Result-cases}
use bitbucket_cli.External.{Platform}
use bitbucket_cli.World.{World}
use bitbucket_cli.Config.Keys.{hosts_key, users_key, user_key}
use bitbucket_cli.Auth.Paths.{account_path, user_path, users_path}
use bitbucket_cli.Auth.{AuthConfig, active_user, users_for_host, login, switch_user, logout}
use bitbucket_cli.Auth.Frame.{KeepsOthers, elsewhere}
use bitbucket_cli.Auth.Frame.Operations.{login-others, switch_user-others, logout-others}
use bitbucket_cli.Auth.Accounts.Operations.{switch_user-account}
use bitbucket_cli.Auth.Login.{login_done}
use bitbucket_cli.Auth.Switch.{switch_done, switch_failed}
use bitbucket_cli.Auth.Logout.{logout_done, logout-KeepsAccount}
use bitbucket_cli.Auth.Session.{reload, Step, logs_in, switches, logs_out, Reach, begin, later}
use bitbucket_cli.Auth.Session.Outcomes.{
  login-outcome, logout-fails, logout-active, logout_few-active,
}

module _ (P : Platform) where
  -- A user that is named as the active one of a host has an entry among the host's accounts.
  abbrev KnownAt : P.config.File → String → Type 0
  KnownAt f h =
      (u : String)
      → u ≢ ""
      → P.config.get f (user_path h) ≡ some u
      → is_some (P.config.get f (account_path h u)) ≡ true

  abbrev pub ActiveKnown : P.config.File → Type 0
  ActiveKnown f = (h : String) → KnownAt f h

  KnownAt-other :
      (h h' : String) (w w' : World P)
      → h ≢ h'
      → KeepsOthers h w w'
      → KnownAt w.file h'
      → KnownAt w'.file h'
  KnownAt-other h h' w w' other keeps known u named active =
      let apart : (q : List String) → elsewhere h (hosts_key ∷ h' ∷ q) ≡ true =
        λ q. ground (arith, eq-false_of_ne h h' other, eq_refl hosts_key) in
      ap is_some (keeps.settings (account_path h' u) (apart (users_key ∷ u ∷ [])))
      ∙ known u named (sym (keeps.settings (user_path h') (apart (user_key ∷ []))) ∙ active)

  -- A command on one host has left the disk alone, or has written what it has in memory.
  disk_after :
      (h : String) (w w' : World P)
      → ActiveKnown w.file
      → ActiveKnown w.disk
      → KeepsOthers h w w'
      → ((w'.disk ≡ w.disk) ⊎ ((w'.disk ≡ w'.file) × KnownAt w'.file h))
      → ActiveKnown w'.disk
  disk_after h w w' file disk keeps (inl same) = subst ActiveKnown (sym same) disk
  disk_after h w w' file disk keeps (inr (same, here)) = subst ActiveKnown (sym same) (λ h'.
      elim (text_cases h h') [
        | inl equal ↦ subst (KnownAt w'.file) equal here
        | inr (other, _) ↦ KnownAt-other h h' w w' other keeps (file h')
      ])

  KnownAt-active :
      (h u : String) (w' : World P)
      → active_user w' h ≡ ok u
      → is_some (P.config.get w'.file (account_path h u)) ≡ true
      → KnownAt w'.file h
  KnownAt-active h u w' active entry v named active' =
      let same : u ≡ v = ground (arith, active, active') in
      subst (λ x. is_some (P.config.get w'.file (account_path h x)) ≡ true) same entry

  -- A user of the host has an entry.
  entry_of_user :
      (w : World P) (h u : String)
      → contains (users_for_host w h) u ≡ true
      → is_some (P.config.get w.file (account_path h u)) ≡ true
  unfolding users_for_host
  entry_of_user w h u e = elim (Option-cases (P.config.keys w.file (users_path h))) [
    | inl absent ↦ ground (arith, e, absent)
    | inr (l, keys) ↦
        sym (P.config.contains-keys w.file (users_path h) l u keys) ∙ ground (arith, e, keys)
  ]

  switch_here :
      (c : AuthConfig) (h u : String) (w w' : World P)
      → contains (users_for_host w h) u ≡ true
      → switch_user c h u w ≡ (ok tt, w')
      → KnownAt w'.file h
  switch_here c h u w w' known e v named active =
      let (done, _, _, _) = switch_done c h u w w' e in
      let same : u ≡ v = ground (arith, done, active) in
      let kept = (switch_user-account h v (λ blank. named (sym blank)) c u).at w in
      let entry = entry_of_user w h u known in
      subst (λ (s : World P). is_some (P.config.get s.file (account_path h v)) ≡ true)
        (ap (λ (r : Result (Unit {0}) × World P). r.1) e)
        (ap is_some (kept.entry [])
          ∙ subst (λ x. is_some (P.config.get w.file (account_path h x)) ≡ true) same entry)

  logout_here :
      (h u : String) (w w' : World P)
      → KnownAt w.file h
      → logout h u w ≡ (ok tt, w')
      → KnownAt w'.file h
  logout_here h u w w' known e v named active =
      elim (Bool-cases (ltb (length (users_for_host w h)) 2)) [
        | inl few ↦ ground (arith, active, logout_few-active h u w w' few e)
        | inr many ↦
            let (_, passive, _) = logout_done h u w w' e in
            let other : u ≢ v = λ same. passive (active ∙ ap some (sym same)) in
            let kept = logout-KeepsAccount h u w v many (λ blank. named (sym blank)) other in
            let before : is_some (P.config.get w.file (account_path h v)) ≡ true =
              elim (logout-active h u w w' many e) [
                | inl same ↦ known v named (sym same ∙ active)
                | inr (n, there, now) ↦
                    let equal : n ≡ v = ground (arith, now, active) in
                    subst (λ x. is_some (P.config.get w.file (account_path h x)) ≡ true) equal
                      (entry_of_user w h n there)
              ] in
            subst (λ (s : World P). is_some (P.config.get s.file (account_path h v)) ≡ true)
              (ap (λ (r : Result (Unit {0}) × World P). r.1) e)
              (ap is_some (kept.entry []) ∙ before)
      ]

  Step-ActiveKnown :
      (w w' : World P) → ActiveKnown w.file → ActiveKnown w.disk → Step w w' → ActiveKnown w'.disk
  Step-ActiveKnown w w' file disk (logs_in h u t p secure named) =
      disk_after h w (login h u t p secure w).1 file disk ((login-others h u t p secure).at w)
        (elim (login-outcome h u t p w secure) [
          | inr same ↦ inl same
          | inl (insecure, done) ↦
              let (active, entry, _, written) =
                login_done h u t p w (login h u t p secure w).1 secure insecure named done in
              inr (written, KnownAt-active h u (login h u t p secure w).1 active entry)
        ])
  Step-ActiveKnown w w' file disk (switches c h u known) =
      let w'' = (switch_user c h u w).1 in
      disk_after h w w'' file disk ((switch_user-others h c u).at w)
        (elim (Result-cases (switch_user c h u w).0) [
          | inr (x, failed) ↦ inl (switch_failed c h u w w'' x (ground (arith, failed))).0
          | inl (_, ok_now) ↦
              let done : switch_user c h u w ≡ (ok tt, w'') = ground (arith, ok_now) in
              let (_, _, _, written) = switch_done c h u w w'' done in
              inr (written, switch_here c h u w w'' known done)
        ])
  Step-ActiveKnown w w' file disk (logs_out h u) =
      let w'' = (logout h u w).1 in
      disk_after h w w'' file disk ((logout-others h u).at w)
        (elim (Result-cases (logout h u w).0) [
          | inr (x, failed) ↦ inl (logout-fails h u w x failed)
          | inl (_, ok_now) ↦
              let done : logout h u w ≡ (ok tt, w'') = ground (arith, ok_now) in
              let (_, _, written) = logout_done h u w w'' done in
              inr (written, logout_here h u w w'' (file h) done)
        ])

  -- However logins, switches to known users and logouts follow one another, and whatever each returns,
  -- the active user of a host on the disk, where one is named, has an entry among the host's accounts,
  -- if this holds at the start.
  pub Reach-ActiveKnown :
      (start w : World P) → ActiveKnown start.disk → Reach start w → ActiveKnown w.disk
  Reach-ActiveKnown start w known begin = known
  Reach-ActiveKnown start w known (later v w' r s) =
      let disk = Reach-ActiveKnown start v known r in Step-ActiveKnown (reload v) w' disk disk s

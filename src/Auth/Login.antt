-- ===== src/Auth/Login.antt =====
-- `Login` of internal/config/config.go.
use bitbucket_cli.Prelude.{
  String, subst, ◌≡◌, ◌≢◌, refl, sym, ◌∙◌, ap, none, some, List, [], ◌∷◌, ◌++◌, Bool, true, false,
  ◌==◌, arith, eq_refl, is_some, if◌then◌else◌, inl, inr, Bool-cases,
}
use bitbucket_cli.Prelude.Result.{ok, Result-cases}
use bitbucket_cli.External.{Platform}
use bitbucket_cli.Action.{◌>>=◌, ◌>>◌}
use bitbucket_cli.Keyring
use bitbucket_cli.World.{World, found}
use bitbucket_cli.Config.Keys.{oauth_token_key}
use bitbucket_cli.Auth.Paths.{token_path, protocol_path, account_path, account_token_path, service}
use bitbucket_cli.Auth.Activate.{
  lookup-activated_file, token-activated_file, account-activated_file, file-activate_user,
  secret-activate_user,
}
use bitbucket_cli.Auth.Accounts.{KeepsAccount}
use bitbucket_cli.Auth.Accounts.Operations.{activate_user-account}
use bitbucket_cli.Auth.{
  active_user, store_secret, forget_token, store_token, set_protocol, add_account, activate_user,
  login,
}

module _ (P : Platform) (h u : String) where
  -- The configuration after the protocol and the account's entry were set.
  add_entry : P.config.File → P.config.File
  add_entry f =
      if is_some (P.config.get f (account_path h u))
      then f
      else P.config.set f (account_path h u) ""

  add_protocol : String → P.config.File → P.config.File
  add_protocol p f = if p == "" then f else P.config.set f (protocol_path h) p

  pub prepared_file : String → P.config.File → P.config.File
  unfolding add_entry add_protocol
  prepared_file p f = add_entry (add_protocol p f)

  account-add_protocol :
      (p : String) (f : P.config.File) (q : List String)
      → P.config.get (add_protocol p f) (account_path h u ++ q)
        ≡ P.config.get f (account_path h u ++ q)
  unfolding add_protocol
  account-add_protocol p f q = elim (Bool-cases (p == "")) [
    | inl e ↦ rw e
    | inr e ↦ rw e (simp (P.config.get-set, eq_refl))
  ]

  entry-add_entry :
      (f : P.config.File) → is_some (P.config.get (add_entry f) (account_path h u)) ≡ true
  unfolding add_entry
  entry-add_entry f = elim (Bool-cases (is_some (P.config.get f (account_path h u)))) [
    | inl e ↦ simp (e, e)
    | inr e ↦ rw e (simp (P.config.get-set, eq_refl))
  ]

  token-add_entry :
      (f : P.config.File)
      → (is_some (P.config.get f (account_token_path h u)) ≡ true
          → is_some (P.config.get f (account_path h u)) ≡ true)
      → P.config.get (add_entry f) (account_token_path h u)
        ≡ P.config.get f (account_token_path h u)
  unfolding add_entry
  token-add_entry f k = elim (Bool-cases (is_some (P.config.get f (account_path h u)))) [
    | inl e ↦ rw e
    | inr e ↦ rw e (simp (P.config.get-set, eq_refl) (ground (arith, k)))
  ]

  token-prepared_set :
      (p t : String) (f : P.config.File)
      → P.config.get
          (prepared_file p (P.config.set f (account_token_path h u) t))
          (account_token_path h u)
        ≡ some t
  unfolding prepared_file
  token-prepared_set p t f =
      let f' = P.config.set f (account_token_path h u) t in
      token-add_entry (add_protocol p f')
        (λ _. ap is_some (account-add_protocol p f' []) ∙ simp (P.config.get-set, eq_refl))
      ∙ account-add_protocol p f' (oauth_token_key ∷ [])
      ∙ simp (P.config.get-set, eq_refl)

  token-prepared_remove :
      (p : String) (f : P.config.File)
      → P.config.get
          (prepared_file p (P.config.remove f (account_token_path h u)))
          (account_token_path h u)
        ≡ none
  unfolding prepared_file
  token-prepared_remove p f =
      let f' = P.config.remove f (account_token_path h u) in
      let gone : P.config.get (add_protocol p f') (account_token_path h u) ≡ none =
        account-add_protocol p f' (oauth_token_key ∷ []) ∙ simp (P.config.get-remove, eq_refl) in
      token-add_entry (add_protocol p f') (λ there. cc (there, ap is_some gone)) ∙ gone

  entry-prepared :
      (p : String) (f : P.config.File)
      → is_some (P.config.get (prepared_file p f) (account_path h u)) ≡ true
  unfolding prepared_file
  entry-prepared p f = entry-add_entry (add_protocol p f)

module _ {P : Platform} (h u t p : String) where
  -- How `Login` has stored the token: the flag, the configuration and the keyring.
  abbrev pub Stored : World P → Bool → World P → Type 0
  Stored w true w' = (w'.file ≡ P.config.set w.file (account_token_path h u) t) × (w'.ring ≡ w.ring)
  Stored w false w' =
      (w'.file ≡ P.config.remove w.file (account_token_path h u))
      × (Keyring.get P.keyring w'.ring (service h) u ≡ ok t)

  pub stored :
      (w : World P) (secure : Bool)
      → (insecure : Bool) × (w1 : World P) × ((do
        in_keyring ← store_secret h u t secure
        store_token h u t in_keyring)
            w
          ≡ (ok insecure, w1))
        × Stored w insecure w1
  unfolding store_secret store_token forget_token
  stored w false = (true, _, refl, (refl, refl))
  stored w true = elim (Result-cases (Keyring.set P.keyring w.ring (service h) u t)) [
    | inl (r, set) ↦ (
      false,
      record w { file = P.config.remove w.file (account_token_path h u); ring = r },
      ground arith,
      (
        refl,
        rw (Keyring.reading-set P.keyring w.ring r (service h) u t (service h) u set)
            (simp eq_refl),
      ),
    )
    | inr (x, refused) ↦ (
      true,
      record w { file = P.config.set w.file (account_token_path h u) t },
      ground arith,
      (refl, refl),
    )
  ]

  prepared :
      (w : World P)
      → (do set_protocol h p; add_account h u) w
        ≡ (ok tt, record w { file = prepared_file P h u p w.file })
  unfolding set_protocol add_account prepared_file
  prepared w = ground arith

  abbrev pub ready : World P → World P
  ready w = record w { file = prepared_file P h u p w.file }

  pub login_after :
      (w w1 : World P) (secure insecure : Bool)
      → (do in_keyring ← store_secret h u t secure; store_token h u t in_keyring) w
        ≡ (ok insecure, w1)
      → login h u t p secure w
        ≡ (ok (insecure, (activate_user h u (ready w1)).0), (activate_user h u (ready w1)).1)
  unfolding login
  login_after w w1 secure insecure e = ground (arith, prepared w1, e)

  -- Where the token of a logged in account stands: in the plain text configuration, under the account
  -- and as the host's own, or in the keyring, as both, and nowhere in the configuration.
  abbrev pub TokenStored : Bool → World P → Type 0
  TokenStored true w' =
      (P.config.get w'.file (account_token_path h u) ≡ some t)
      × (P.config.get w'.file (token_path h) ≡ some t)
  TokenStored false w' =
      (P.config.get w'.file (account_token_path h u) ≡ none)
      × (P.config.get w'.file (token_path h) ≡ none)
      × (Keyring.get P.keyring w'.ring (service h) u ≡ ok t)
      × (Keyring.get P.keyring w'.ring (service h) "" ≡ ok t)

  record Prepared (w1 : World P) (insecure : Bool) : Type 0 where
    token :
        P.config.get (ready w1).file (account_token_path h u) ≡ (if insecure then some t else none)
    secret : insecure ≡ false → Keyring.get P.keyring (ready w1).ring (service h) u ≡ ok t

  Stored-Prepared : (w w1 : World P) (insecure : Bool) → Stored w insecure w1 → Prepared w1 insecure
  Stored-Prepared w w1 true (file, ring) = record {
    token = rw file (token-prepared_set P h u p t w.file);
    secret = λ e. cc;
  }
  Stored-Prepared w w1 false (file, kept) = record {
    token = rw file (token-prepared_remove P h u p w.file);
    secret = λ e. kept;
  }

  TokenStored-activated :
      (w1 w' : World P) (insecure : Bool)
      → u ≢ ""
      → Prepared w1 insecure
      → activate_user h u (ready w1) ≡ (ok tt, w')
      → TokenStored insecure w'
  TokenStored-activated w1 w' true named ready_ok e =
      let (file, _) = file-activate_user h u (ready w1) w' e in
      let own = account-activated_file P h u (ready w1).file u (oauth_token_key ∷ []) in
      let shared = token-activated_file P h u (ready w1).file in
      (rw file (own ∙ ready_ok.token), rw file (shared ∙ ready_ok.token))
  TokenStored-activated w1 w' false named ready_ok e =
      let (file, _) = file-activate_user h u (ready w1) w' e in
      let own = account-activated_file P h u (ready w1).file u (oauth_token_key ∷ []) in
      let shared = token-activated_file P h u (ready w1).file in
      let kept = (activate_user-account h u (λ blank. named (sym blank)) u).at (ready w1) in
      (
        rw file (own ∙ ready_ok.token),
        rw file (shared ∙ ready_ok.token),
        (subst (λ s. KeepsAccount h u (ready w1) s.1) e kept).secret ∙ ready_ok.secret refl,
        secret-activate_user h u (ready w1) w' t named (ready_ok.secret refl) e,
      )

  -- After a `Login` of a named account that returns without an error the account is active and has an
  -- entry, its token stands where the returned flag says, also as the host's own, and the disk holds
  -- the configuration in memory.
  pub login_done :
      (w w' : World P) (secure insecure : Bool)
      → u ≢ ""
      → login h u t p secure w ≡ (ok (insecure, ok tt), w')
      → (active_user w' h ≡ ok u)
        × (is_some (P.config.get w'.file (account_path h u)) ≡ true)
        × TokenStored insecure w'
        × (w'.disk ≡ w'.file)
  login_done w w' secure insecure named e =
      let (insecure', w1, stores, how) = stored w secure in
      let e' = sym (login_after w w1 secure insecure' stores) ∙ e in
      let same : insecure' ≡ insecure = ground arith in
      let activates : activate_user h u (ready w1) ≡ (ok tt, w') = ground arith in
      let (file, disk) = file-activate_user h u (ready w1) w' activates in
      let entry = account-activated_file P h u (ready w1).file u [] in
      (
        rw file (ap found (lookup-activated_file P h u (ready w1).file)),
        rw file (ap is_some entry ∙ entry-prepared P h u p w1.file),
        subst (λ i. TokenStored i w') same
            (TokenStored-activated w1 w' insecure' named (Stored-Prepared w w1 insecure' how)
              activates),
        disk,
      )

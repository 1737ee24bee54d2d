-- ===== src/Auth/Accounts/Operations.antt =====
-- The operations of AuthConfig, step by step: every account that they are not about keeps its entry
-- and its secret.
use bitbucket_cli.Prelude.{
  String, ◌≢◌, Option, none, some, List, [], ◌∷◌, Bool, true, false, is_some, Bool-cases, inl, inr,
}
use bitbucket_cli.Prelude.Result.{Error, Result, ok, err}
use bitbucket_cli.External.{Platform}
use bitbucket_cli.Action.Frame.{Relation, Frames}
use bitbucket_cli.Config.Keys.{oauth_token_key}
use bitbucket_cli.World.{remove_key}
use bitbucket_cli.Auth.Paths.{account_path}
use bitbucket_cli.Auth.{
  AuthConfig, keep_secret, keep_token, finish_switch, activate_user, forget_token, store_secret,
  store_token, set_protocol, add_account, login, restore_secret, restore_token, undo_switch,
  try_switch, switch_user, activate_other, remove_account,
}
use bitbucket_cli.Auth.Accounts.{
  KeepsAccount, account, account_rules, set_account-account, remove_account-account,
}

module _ {P : Platform} (h v : String) (named : "" ≢ v) where
  keep_secret-account : (r : Result String) → Frames (account {P = P} h v) (keep_secret h r)
  unfolding keep_secret
  keep_secret-account (ok token) = search account_rules
  keep_secret-account (err e) = search account_rules

  keep_token-account :
      (b : Bool) (r : Result String) → Frames (account {P = P} h v) (keep_token h b r)
  unfolding keep_token
  keep_token-account b (ok token) = search account_rules
  keep_token-account b (err e) = search account_rules

  finish_switch-account :
      (u : String) (b : Bool) → Frames (account {P = P} h v) (finish_switch h u b)
  unfolding finish_switch
  finish_switch-account u true = search account_rules
  finish_switch-account u false = search account_rules

  pub activate_user-account : (u : String) → Frames (account {P = P} h v) (activate_user h u)
  unfolding activate_user
  activate_user-account u =
      search (account_rules, keep_secret-account, keep_token-account, finish_switch-account) depth
        12

  restore_secret-account :
      (t s : String) (e : Error) → Frames (account {P = P} h v) (restore_secret h t s e)
  unfolding restore_secret
  restore_secret-account t s e = search account_rules

  restore_token-account : (t s : String) → Frames (account {P = P} h v) (restore_token h t s)
  unfolding restore_token
  restore_token-account t s = search account_rules

  undo_switch-account :
      (u t s : String) (r : Result (Unit {0}))
      → Frames (account {P = P} h v) (undo_switch h u t s r)
  unfolding undo_switch
  undo_switch-account u t s (ok x) = search account_rules
  undo_switch-account u t s (err e) =
      search (account_rules, restore_secret-account, restore_token-account) depth 10

  try_switch-account : (u u' t s : String) → Frames (account {P = P} h v) (try_switch h u u' t s)
  unfolding try_switch
  try_switch-account u u' t s = search (account_rules, activate_user-account, undo_switch-account)

  -- `SwitchUser` to any account, whatever its outcome, leaves the entry of each named account of the
  -- host, with all below it, and its secret as they were.
  pub switch_user-account :
      (c : AuthConfig) (u : String) → Frames (account {P = P} h v) (switch_user c h u)
  unfolding switch_user
  switch_user-account c u = search (account_rules, try_switch-account) depth 10

  module _ (u : String) (other : u ≢ v) where
    forget_token-account :
        (r : Result (Unit {0})) → Frames (account {P = P} h v) (forget_token h u r)
    unfolding forget_token
    forget_token-account (ok x) =
        search (account_rules, remove_account-account {P = P} h v u (oauth_token_key ∷ []) other)
    forget_token-account (err e) = search account_rules

    store_secret-account :
        (t : String) (b : Bool) → Frames (account {P = P} h v) (store_secret h u t b)
    unfolding store_secret
    store_secret-account t true = search (account_rules, forget_token-account)
    store_secret-account t false = search account_rules

    store_token-account :
        (t : String) (b : Bool) → Frames (account {P = P} h v) (store_token h u t b)
    unfolding store_token
    store_token-account t true = search account_rules
    store_token-account t false =
        search (account_rules, set_account-account {P = P} h v u t (oauth_token_key ∷ []) other)

    set_protocol-account : (p : String) → Frames (account {P = P} h v) (set_protocol h p)
    unfolding set_protocol
    set_protocol-account p = search account_rules

    add_account-account : Frames (account {P = P} h v) (add_account h u)
    unfolding add_account
    add_account-account = record {
      at = λ w. elim (Bool-cases (is_some (P.config.get w.file (account_path h u)))) [
        | inl e ↦
            rw e (let same : KeepsAccount h v w w = Relation.same (account {P = P} h v) w in same)
        | inr e ↦ rw e ((set_account-account {P = P} h v u "" [] other).at w)
      ];
    }

    -- `Login` of another account, whatever its outcome, leaves the entry of a named account of the host,
    -- with all below it, and its secret as they were.
    pub login-account :
        (t p : String) (secure : Bool) → Frames (account {P = P} h v) (login h u t p secure)
    unfolding login
    login-account t p secure =
        search
          (
            account_rules, activate_user-account, store_secret-account, store_token-account,
            set_protocol-account, add_account-account,
          )
          depth 12

    activate_other-account : (o : Option String) → Frames (account {P = P} h v) (activate_other h o)
    unfolding activate_other
    activate_other-account none = search account_rules
    activate_other-account (some n) = activate_user-account n

    remove_entry-account : Frames (account {P = P} h v) (remove_key (account_path h u))
    remove_entry-account = remove_account-account h v u [] other

    pub remove_account-others :
        (us : List String) → Frames (account {P = P} h v) (remove_account h u us)
    unfolding remove_account
    remove_account-others us =
        search (account_rules, remove_entry-account, activate_other-account) depth 10

-- ===== src/Auth/Frame/Operations.antt =====
-- The operations of AuthConfig on one host, step by step: the other hosts keep all they have.
use bitbucket_cli.Prelude.{
  String, Option, none, some, List, [], ◌∷◌, Bool, true, false, is_some, Bool-cases, inl, inr,
}
use bitbucket_cli.Prelude.Result.{Error, Result, ok, err}
use bitbucket_cli.External.{Platform}
use bitbucket_cli.Action.Frame.{Relation, Frames}
use bitbucket_cli.Config.Keys.{users_key}
use bitbucket_cli.Auth.Paths.{account_path}
use bitbucket_cli.Auth.{
  keep_secret, keep_token, finish_switch, activate_user, forget_token, store_secret, store_token,
  set_protocol, add_account, login, AuthConfig, restore_secret, restore_token, undo_switch,
  try_switch, switch_user, remove_host, activate_other, remove_account, logout,
}
use bitbucket_cli.Auth.Frame.{KeepsOthers, others, others_rules, set_key-others}

module _ {P : Platform} (h : String) where
  keep_secret-others : (r : Result String) → Frames (others {P = P} h) (keep_secret h r)
  unfolding keep_secret
  keep_secret-others (ok token) = search others_rules
  keep_secret-others (err e) = search others_rules

  keep_token-others : (b : Bool) (r : Result String) → Frames (others {P = P} h) (keep_token h b r)
  unfolding keep_token
  keep_token-others b (ok token) = search others_rules
  keep_token-others b (err e) = search others_rules

  finish_switch-others : (u : String) (b : Bool) → Frames (others {P = P} h) (finish_switch h u b)
  unfolding finish_switch
  finish_switch-others u true = search others_rules
  finish_switch-others u false = search others_rules

  pub activate_user-others : (u : String) → Frames (others {P = P} h) (activate_user h u)
  unfolding activate_user
  activate_user-others u =
      search (others_rules, keep_secret-others, keep_token-others, finish_switch-others) depth 12

ruleset account_rules = (others_rules, activate_user-others)

module _ {P : Platform} (h : String) where
  forget_token-others :
      (u : String) (r : Result (Unit {0})) → Frames (others {P = P} h) (forget_token h u r)
  unfolding forget_token
  forget_token-others u (ok x) = search others_rules
  forget_token-others u (err e) = search others_rules

  store_secret-others : (u t : String) (b : Bool) → Frames (others {P = P} h) (store_secret h u t b)
  unfolding store_secret
  store_secret-others u t true = search (others_rules, forget_token-others)
  store_secret-others u t false = search others_rules

  store_token-others : (u t : String) (b : Bool) → Frames (others {P = P} h) (store_token h u t b)
  unfolding store_token
  store_token-others u t true = search others_rules
  store_token-others u t false = search others_rules

  set_protocol-others : (p : String) → Frames (others {P = P} h) (set_protocol h p)
  unfolding set_protocol
  set_protocol-others p = search others_rules

  add_account-others : (u : String) → Frames (others {P = P} h) (add_account h u)
  unfolding add_account
  add_account-others u = record {
    at = λ w. elim (Bool-cases (is_some (P.config.get w.file (account_path h u)))) [
      | inl e ↦ rw e (let same : KeepsOthers h w w = Relation.same (others {P = P} h) w in same)
      | inr e ↦ rw e ((set_key-others {P = P} h (users_key ∷ u ∷ []) "").at w)
    ];
  }

  -- `Login` on a host, whatever its outcome, leaves the settings and the secrets of every other host as
  -- they were.
  pub login-others :
      (u t p : String) (secure : Bool) → Frames (others {P = P} h) (login h u t p secure)
  unfolding login
  login-others u t p secure =
      search
        (
          account_rules, store_secret-others, store_token-others, set_protocol-others,
          add_account-others,
        )
        depth 12

  restore_secret-others :
      (t s : String) (e : Error) → Frames (others {P = P} h) (restore_secret h t s e)
  unfolding restore_secret
  restore_secret-others t s e = search others_rules

  restore_token-others : (t s : String) → Frames (others {P = P} h) (restore_token h t s)
  unfolding restore_token
  restore_token-others t s = search others_rules

  undo_switch-others :
      (u t s : String) (r : Result (Unit {0})) → Frames (others {P = P} h) (undo_switch h u t s r)
  unfolding undo_switch
  undo_switch-others u t s (ok x) = search others_rules
  undo_switch-others u t s (err e) =
      search (others_rules, restore_secret-others, restore_token-others) depth 10

  try_switch-others : (u u' t s : String) → Frames (others {P = P} h) (try_switch h u u' t s)
  unfolding try_switch
  try_switch-others u u' t s = search (account_rules, undo_switch-others)

  -- `SwitchUser` on a host, whatever its outcome, leaves the settings and the secrets of every other
  -- host as they were.
  pub switch_user-others :
      (c : AuthConfig) (u : String) → Frames (others {P = P} h) (switch_user c h u)
  unfolding switch_user
  switch_user-others c u = search (others_rules, try_switch-others) depth 10

  remove_host-others : (u : String) → Frames (others {P = P} h) (remove_host h u)
  unfolding remove_host
  remove_host-others u = search others_rules depth 10

  activate_other-others : (o : Option String) → Frames (others {P = P} h) (activate_other h o)
  unfolding activate_other
  activate_other-others none = search others_rules
  activate_other-others (some u) = activate_user-others h u

  remove_account-others :
      (u : String) (us : List String) → Frames (others {P = P} h) (remove_account h u us)
  unfolding remove_account
  remove_account-others u us = search (others_rules, activate_other-others) depth 10

  -- `Logout` on a host, whatever its outcome, leaves the settings and the secrets of every other host as
  -- they were.
  pub logout-others : (u : String) → Frames (others {P = P} h) (logout h u)
  unfolding logout
  logout-others u = search (others_rules, remove_host-others, remove_account-others) depth 10

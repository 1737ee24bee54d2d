-- ===== src/Auth.antt =====
-- internal/config/config.go: `AuthConfig`, the accounts of each host and their tokens. Tokens stand
-- in the configuration or in the keyring; the active account's token is copied to the host's own
-- entry of the store that holds it.
pub mod Paths
pub mod Leftover
pub mod Switch
pub mod Login
pub mod Logout
pub mod Accounts
pub mod Activate
pub mod Frame
pub mod Session
mod Tokens
pub use Tokens.{
  AuthConfig, no_overrides, set_active_token, set_hosts, set_default_host, active_user,
  token_from_keyring,
}
unfoldable pub use Tokens.{
  token_from_keyring_for_user, keyring_token, active_token, has_active_token, has_env_token, hosts,
  default_host, users_for_host, token_for_user,
}
use bitbucket_cli.Prelude.{
  String, Option, none, some, List, [], ◌∷◌, Bool, true, false, ◌==◌, ◌!=◌, ◌&&◌, ◌||◌, not,
  is_some, value_or, find, length, ltb, if◌then◌else◌,
}
use bitbucket_cli.Prelude.Result
use bitbucket_cli.Prelude.Result.{Error, errorf, wrap, join, panic, Result, ok, err}
use bitbucket_cli.External.{Platform}
use bitbucket_cli.Action.{Action, pure, raise, lift, attempt, annotate, ◌>>=◌, ◌>>◌}
use bitbucket_cli.Keyring
use bitbucket_cli.World.{
  World, found, value_at, get_key, set_key, remove_key, write, get_secret, set_secret,
  delete_secret,
}
use Paths.{
  host_path, user_path, token_path, protocol_path, users_path, account_path, account_token_path,
  service,
}

module _ {P : Platform} where
  -- The steps of `activateUser`.
  keep_secret : String → Result String → Action (World P) Bool
  keep_secret hostname (ok token) = do
    annotate (wrap "failed to move active token in keyring: %v" [])
        (set_secret (service hostname) "" token)
    pure true
  keep_secret hostname (err e) = pure false

  move_secret : String → String → Action (World P) Bool
  unfolding keep_secret
  move_secret hostname user = do
    token ← attempt (get_secret (service hostname) user)
    keep_secret hostname token

  keep_token : String → Bool → Result String → Action (World P) Bool
  keep_token hostname switched (ok token) = do set_key (token_path hostname) token; pure true
  keep_token hostname switched (err e) = pure switched

  move_token : String → String → Bool → Action (World P) Bool
  unfolding keep_token
  move_token hostname user switched = do
    token ← attempt (get_key (account_token_path hostname user))
    keep_token hostname switched token

  finish_switch : String → String → Bool → Action (World P) (Unit {0})
  finish_switch hostname user switched =
      if switched
      then (do set_key (user_path hostname) user; write)
      else raise (errorf "no token found for %s" (user ∷ []))

  -- `activateUser`
  unfoldable pub activate_user : String → String → Action (World P) (Unit {0})
  unfolding move_secret move_token finish_switch
  activate_user hostname user = do
    attempt (delete_secret (service hostname) "")
    attempt (remove_key (token_path hostname))
    in_keyring ← move_secret hostname user
    switched ← move_token hostname user in_keyring
    finish_switch hostname user switched

  -- The first part of `Login`: the keyring keeps the token, and the configuration's is removed.
  -- The result is whether the keyring took it.
  forget_token : String → String → Result (Unit {0}) → Action (World P) Bool
  forget_token hostname username (ok _) = do
    attempt (remove_key (account_token_path hostname username))
    pure true
  forget_token hostname username (err e) = pure false

  pub store_secret : String → String → String → Bool → Action (World P) Bool
  unfolding forget_token
  store_secret hostname username token secure =
      if secure
      then (do
        stored ← attempt (set_secret (service hostname) username token)
        forget_token hostname username stored)
      else pure false

  pub store_token : String → String → String → Bool → Action (World P) Bool
  store_token hostname username token in_keyring =
      if in_keyring
      then pure false
      else (do set_key (account_token_path hostname username) token; pure true)

  set_protocol : String → String → Action (World P) (Unit {0})
  set_protocol hostname git_protocol =
      if git_protocol == "" then pure tt else set_key (protocol_path hostname) git_protocol

  -- The account's own key, with an empty value, where there is none.
  add_account : String → String → Action (World P) (Unit {0})
  add_account hostname username w =
      if is_some (P.config.get w.file (account_path hostname username))
      then (ok tt, w)
      else set_key (account_path hostname username) "" w

  -- `Login`: whether the token went to the plain text configuration, beside the outcome.
  unfoldable pub login :
      String → String → String → String → Bool → Action (World P) (Bool × Result (Unit {0}))
  unfolding store_secret store_token set_protocol add_account
  login hostname username token git_protocol secure = do
    in_keyring ← store_secret hostname username token secure
    insecure_storage_used ← store_token hostname username token in_keyring
    set_protocol hostname git_protocol
    add_account hostname username
    activated ← attempt (activate_user hostname username)
    pure (insecure_storage_used, activated)

  -- What `SwitchUser` puts back when the account cannot be activated, and the error that it returns.
  restore_secret : String → String → String → Error → Action (World P) Error
  restore_secret hostname token source e =
      if source == "keyring"
      then (do
        restored ← attempt (set_secret (service hostname) "" token)
        pure (elim restored [ ok _ ↦ e | err set_err ↦ join e set_err ]))
      else pure e

  restore_token : String → String → String → Action (World P) (Unit {0})
  restore_token hostname token source =
      if source == "oauth_token" then set_key (token_path hostname) token else pure tt

  pub undo_switch :
      String → String → String → String → Result (Unit {0}) → Action (World P) (Unit {0})
  unfolding restore_secret restore_token
  undo_switch hostname user token source (ok _) = pure tt
  undo_switch hostname user token source (err e) = do
    e' ← restore_secret hostname token source e
    restore_token hostname token source
    set_key (user_path hostname) user
    raise e'

  try_switch : String → String → String → String → String → Action (World P) (Unit {0})
  unfolding undo_switch
  try_switch hostname user previous_user previous_token previous_source = do
    activated ← attempt (activate_user hostname user)
    undo_switch hostname previous_user previous_token previous_source activated

  -- `SwitchUser`
  unfoldable pub switch_user : AuthConfig → String → String → Action (World P) (Unit {0})
  unfolding try_switch
  switch_user c hostname user = do
    previous_user ←
        annotate (wrap "failed to get active user: %s" []) (lift (λ w. active_user w hostname))
    previous ← lift (λ w. ok (active_token c w hostname))
    if previous.1 != "keyring" && previous.1 != "oauth_token"
        then raise (errorf "currently active token for %s is from %s" (hostname ∷ previous.1 ∷ []))
        else try_switch hostname user previous_user previous.0 previous.1

  -- The host's last account goes: the host goes with it, and the secrets of both.
  pub remove_host : String → String → Action (World P) (Unit {0})
  remove_host hostname username = do
    attempt (remove_key (host_path hostname))
    attempt (delete_secret (service hostname) "")
    attempt (delete_secret (service hostname) username)
    write

  -- The first other account of the slice takes over; Go panics where there is none.
  activate_other : String → Option String → Action (World P) (Unit {0})
  activate_other hostname none = raise (panic "index out of range [-1]")
  activate_other hostname (some user) = activate_user hostname user

  pub remove_account : String → String → List String → Action (World P) (Unit {0})
  unfolding activate_other
  remove_account hostname username users = do
    attempt (remove_key (account_path hostname username))
    active ← lift (λ w. ok (value_at w (user_path hostname)))
    if active != username then write else activate_other hostname (find (λ n. n != username) users)

  -- `Logout`
  unfoldable pub logout : String → String → Action (World P) (Unit {0})
  unfolding users_for_host remove_host remove_account
  logout hostname username = do
    users ← lift (λ w. ok (users_for_host w hostname))
    if ltb (length users) 2
        then remove_host hostname username
        else remove_account hostname username users

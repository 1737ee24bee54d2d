-- ===== src/Auth/Leftover.antt =====
-- The secret of an account that is logged out while other accounts remain on its host.
use bitbucket_cli.Prelude.{
  String, ◌≡◌, ◌≢◌, refl, ◌∙◌, Option, none, some, List, Bool, false, arith, eq_iff, ltb, length,
}
use bitbucket_cli.Prelude.Result.{Error, Result, ok, err}
use bitbucket_cli.External.{Platform}
use bitbucket_cli.Action.Frame.{Relation, Frames, frame_rules}
use bitbucket_cli.Keyring
use bitbucket_cli.World.{
  World, get_key, set_key, remove_key, write, get_secret, set_secret, delete_secret, changed,
  written,
}
use bitbucket_cli.Auth.Paths.{service}
use bitbucket_cli.Auth.{
  keep_secret, keep_token, finish_switch, activate_user, activate_other, remove_account, logout,
  users_for_host,
}
use bitbucket_cli.Auth.Logout.{logout_many}

module _ {P : Platform} (h v : String) where
  abbrev reading : World P → Result String
  reading w = Keyring.get P.keyring w.ring (service h) v

  abbrev secret : Relation (World P)
  secret = record {
    Rel = λ w w'. reading w' ≡ reading w;
    same = λ w. refl;
    chain = λ w1 w2 w3 a b. b ∙ a;
  }

  changed-secret :
      (r : Result (P.keyring.Ring)) (w : World P)
      → ((r' : P.keyring.Ring) → r ≡ ok r' → Keyring.get P.keyring r' (service h) v ≡ reading w)
      → reading (changed r w).1 ≡ reading w
  changed-secret (ok r) w k = k r refl
  changed-secret (err e) w k = refl

  set_secret-secret : (x : String) → "" ≢ v → Frames secret (set_secret (service h) "" x)
  set_secret-secret x other = record {
    at = λ w. changed-secret (Keyring.set P.keyring w.ring (service h) "" x) w (λ r' e. ground (
      arith,
      Keyring.reading-set P.keyring w.ring r' (service h) "" x (service h) v e,
      eq_iff "" v,
    ));
  }

  delete_secret-secret : "" ≢ v → Frames secret (delete_secret (service h) "")
  delete_secret-secret other = record {
    at = λ w. changed-secret (Keyring.delete P.keyring w.ring (service h) "") w (λ r' e. ground (
      arith,
      Keyring.reading-delete P.keyring w.ring r' (service h) "" (service h) v e,
      eq_iff "" v,
    ));
  }

  written-secret : (e : Option Error) (w : World P) → reading (written e w).1 ≡ reading w
  written-secret none w = refl
  written-secret (some e) w = refl

  write-secret : Frames secret write
  write-secret = record { at = λ w. written-secret (P.write_error w.disk w.file) w }

  set_key-secret : (p : List String) (x : String) → Frames secret (set_key p x)
  set_key-secret p x = record { at = λ w. refl }

  remove_key-secret : (p : List String) → Frames secret (remove_key p)
  remove_key-secret p = record { at = λ w. refl }

  get_key-secret : (p : List String) → Frames secret (get_key p)
  get_key-secret p = record { at = λ w. refl }

  get_secret-secret : (s u : String) → Frames secret (get_secret s u)
  get_secret-secret s u = record { at = λ w. refl }

ruleset secret_rules = (
  frame_rules, set_secret-secret, delete_secret-secret, write-secret, set_key-secret,
  remove_key-secret, get_key-secret, get_secret-secret,
)

module _ {P : Platform} (h v : String) (named : "" ≢ v) where
  keep_secret-secret : (r : Result String) → Frames (secret {P = P} h v) (keep_secret h r)
  unfolding keep_secret
  keep_secret-secret (ok token) = search secret_rules
  keep_secret-secret (err e) = search secret_rules

  keep_token-secret :
      (b : Bool) (r : Result String) → Frames (secret {P = P} h v) (keep_token h b r)
  unfolding keep_token
  keep_token-secret b (ok token) = search secret_rules
  keep_token-secret b (err e) = search secret_rules

  finish_switch-secret : (u : String) (b : Bool) → Frames (secret {P = P} h v) (finish_switch h u b)
  unfolding finish_switch
  finish_switch-secret u b = search secret_rules

  activate_user-secret : (u : String) → Frames (secret {P = P} h v) (activate_user h u)
  unfolding activate_user
  activate_user-secret u =
      search (secret_rules, keep_secret-secret, keep_token-secret, finish_switch-secret) depth 12

  activate_other-secret : (o : Option String) → Frames (secret {P = P} h v) (activate_other h o)
  unfolding activate_other
  activate_other-secret none = search secret_rules
  activate_other-secret (some n) = activate_user-secret n

  remove_account-secret : (us : List String) → Frames (secret {P = P} h v) (remove_account h v us)
  unfolding remove_account
  remove_account-secret us = search (secret_rules, activate_other-secret) depth 10

  -- With two accounts or more on the host, `Logout` of a named account leaves the account's secret
  -- in the keyring, whatever its outcome.
  pub logout-keeps_secret :
      (w : World P)
      → ltb (length (users_for_host w h)) 2 ≡ false
      → Keyring.get P.keyring (logout h v w).1.ring (service h) v
        ≡ Keyring.get P.keyring w.ring (service h) v
  logout-keeps_secret w many =
      rw (logout_many h v w many) ((remove_account-secret (users_for_host w h)).at w)

-- ===== src/Auth/Accounts.antt =====
-- What the operations of AuthConfig leave of an account that they are not about: its entry in the
-- configuration with all below it, and its secret in the keyring.
pub mod Operations
use bitbucket_cli.Prelude.{
  String, ◌≡◌, ◌≢◌, refl, ◌∙◌, Option, none, some, List, [], ◌∷◌, ◌++◌, Bool, true, false, ◌==◌,
  arith, eq_iff, eq_refl, eq-false_of_ne, is_some, if◌then◌else◌,
}
use bitbucket_cli.Prelude.Result.{Error, Result, ok, err}
use bitbucket_cli.External.{Platform}
use bitbucket_cli.Action.Frame.{Relation, Frames, frame_rules}
use bitbucket_cli.Keyring
use bitbucket_cli.World.{
  World, get_key, set_key, remove_key, write, get_secret, set_secret, delete_secret, changed,
  written,
}
use bitbucket_cli.Auth.Paths.{
  service, account_path, user_path, token_path, protocol_path, account_token_path,
}
use bitbucket_cli.Auth.{
  AuthConfig, keep_secret, keep_token, finish_switch, activate_user, forget_token, store_secret,
  store_token, set_protocol, add_account, login, restore_secret, restore_token, undo_switch,
  try_switch, switch_user, activate_other, remove_account,
}

module _ {P : Platform} where
  pub record KeepsAccount (h v : String) (w w' : World P) : Type 0 where
    pub entry :
        (q : List String)
        → P.config.get w'.file (account_path h v ++ q) ≡ P.config.get w.file (account_path h v ++ q)
    pub secret :
        Keyring.get P.keyring w'.ring (service h) v ≡ Keyring.get P.keyring w.ring (service h) v

module _ {P : Platform} (h v : String) where
  abbrev pub account : Relation (World P)
  account = record {
    Rel = KeepsAccount h v;
    same = λ w. record { entry = λ q. refl; secret = refl };
    chain =
        λ w1 w2 w3 a b. record { entry = λ q. b.entry q ∙ a.entry q; secret = b.secret ∙ a.secret };
  }

  -- A write or a removal at a key of the host other than `users`.
  pub set_user-account : (x : String) → Frames account (set_key (user_path h) x)
  set_user-account x = record {
    at = λ w. record { entry = λ q. simp (P.config.get-set, eq_refl); secret = refl };
  }

  pub set_token-account : (x : String) → Frames account (set_key (token_path h) x)
  set_token-account x = record {
    at = λ w. record { entry = λ q. simp (P.config.get-set, eq_refl); secret = refl };
  }

  pub set_protocol_key-account : (x : String) → Frames account (set_key (protocol_path h) x)
  set_protocol_key-account x = record {
    at = λ w. record { entry = λ q. simp (P.config.get-set, eq_refl); secret = refl };
  }

  pub remove_token-account : Frames account (remove_key (token_path h))
  remove_token-account = record {
    at = λ w. record { entry = λ q. simp (P.config.get-remove, eq_refl); secret = refl };
  }

  changed-account :
      (r : Result (P.keyring.Ring)) (w : World P)
      → ((r' : P.keyring.Ring)
          → r ≡ ok r'
          → Keyring.get P.keyring r' (service h) v ≡ Keyring.get P.keyring w.ring (service h) v)
      → KeepsAccount h v w (changed r w).1
  changed-account (ok r) w k = record { entry = λ q. refl; secret = k r refl }
  changed-account (err e) w k = record { entry = λ q. refl; secret = refl }

  pub set_secret-account : (u x : String) → u ≢ v → Frames account (set_secret (service h) u x)
  set_secret-account u x other = record {
    at = λ w. changed-account (Keyring.set P.keyring w.ring (service h) u x) w (λ r' e. ground (
      arith,
      Keyring.reading-set P.keyring w.ring r' (service h) u x (service h) v e,
      eq_iff u v,
    ));
  }

  pub delete_secret-account : (u : String) → u ≢ v → Frames account (delete_secret (service h) u)
  delete_secret-account u other = record {
    at = λ w. changed-account (Keyring.delete P.keyring w.ring (service h) u) w (λ r' e. ground (
      arith,
      Keyring.reading-delete P.keyring w.ring r' (service h) u (service h) v e,
      eq_iff u v,
    ));
  }

  written-account : (e : Option Error) (w : World P) → KeepsAccount h v w (written e w).1
  written-account none w = record { entry = λ q. refl; secret = refl }
  written-account (some e) w = record { entry = λ q. refl; secret = refl }

  pub write-account : Frames account write
  write-account = record { at = λ w. written-account (P.write_error w.disk w.file) w }

  pub get_key-account : (p : List String) → Frames account (get_key p)
  get_key-account p = record { at = account.same }

  pub get_secret-account : (s u : String) → Frames account (get_secret s u)
  get_secret-account s u = record { at = account.same }

  -- The same below the entry of another account of the host.
  pub set_account-account :
      (u x : String) (q : List String) → u ≢ v → Frames account (set_key (account_path h u ++ q) x)
  set_account-account u x q other = record {
    at = λ w. record {
      entry = λ q'. simp (P.config.get-set, eq_refl, eq-false_of_ne u v other);
      secret = refl;
    };
  }

  pub remove_account-account :
      (u : String) (q : List String) → u ≢ v → Frames account (remove_key (account_path h u ++ q))
  remove_account-account u q other = record {
    at = λ w. record {
      entry = λ q'. simp (P.config.get-remove, eq_refl, eq-false_of_ne u v other);
      secret = refl;
    };
  }

pub ruleset account_rules = (
  frame_rules, set_user-account, set_token-account, set_protocol_key-account, remove_token-account,
  set_secret-account, delete_secret-account, write-account, get_key-account, get_secret-account,
)

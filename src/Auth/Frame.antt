-- ===== src/Auth/Frame.antt =====
-- What no operation on the accounts of a host changes: the settings and the secrets of the other
-- hosts, and the general settings.
pub mod Operations
use text.Mathlib.TextLemmas.{append_cancel_left}
use bitbucket_cli.Prelude.{
  String, ◌≡◌, ◌≢◌, refl, sym, ◌∙◌, Option, none, some, List, [], ◌∷◌, Bool, true, false, ◌==◌,
  ◌&&◌, not, arith, eq_iff, is_some, if◌then◌else◌, find, ltb, length, Bool-cases, inl, inr,
}
use bitbucket_cli.Prelude.Result.{Error, Result, ok, err}
use bitbucket_cli.External.{
  Platform, after_set, is_prefix, done, missing, failed, no_reply, Reply, same_entry,
}
use bitbucket_cli.Action.{Action, pure, raise}
use bitbucket_cli.Action.Frame.{Relation, Frames, frame_rules}
use bitbucket_cli.Keyring
use bitbucket_cli.World.{
  World, get_key, set_key, remove_key, write, get_secret, set_secret, delete_secret, changed,
  written,
}
use bitbucket_cli.Config.Keys.{hosts_key, users_key}
use bitbucket_cli.Auth.Paths.{service, account_path}
use bitbucket_cli.Auth.{
  keep_secret, keep_token, move_secret, move_token, finish_switch, activate_user, forget_token,
  store_secret, store_token, set_protocol, add_account, login, AuthConfig, restore_secret,
  restore_token, undo_switch, try_switch, switch_user, remove_host, activate_other, remove_account,
  logout,
}

-- A path that is not in the host's section and does not lead to it.
abbrev pub elsewhere : String → List String → Bool
elsewhere h [] = false
elsewhere h (k ∷ []) = not (hosts_key == k)
elsewhere h (k ∷ j ∷ q) = not (hosts_key == k && h == j)

after_set-elsewhere :
    (h : String) (rest q : List String) (v : String) (old : Option String)
    → elsewhere h q ≡ true
    → after_set (hosts_key ∷ h ∷ rest) q v old ≡ old
after_set-elsewhere h rest [] v old e = ground arith
after_set-elsewhere h rest (k ∷ []) v old e = ground arith
after_set-elsewhere h rest (k ∷ j ∷ q) v old e = ground arith

is_prefix-elsewhere :
    (h : String) (rest q : List String)
    → elsewhere h q ≡ true
    → is_prefix (hosts_key ∷ h ∷ rest) q ≡ false
is_prefix-elsewhere h rest [] e = ground arith
is_prefix-elsewhere h rest (k ∷ []) e = ground arith
is_prefix-elsewhere h rest (k ∷ j ∷ q) e = ground arith

module _ {P : Platform} where
  pub record KeepsOthers (h : String) (w w' : World P) : Type 0 where
    pub settings :
        (q : List String) → elsewhere h q ≡ true → P.config.get w'.file q ≡ P.config.get w.file q
    pub secrets :
        (s u : String) → s ≢ service h → P.keyring.get w'.ring s u ≡ P.keyring.get w.ring s u

module _ {P : Platform} (h : String) where
  abbrev pub others : Relation (World P)
  others = record {
    Rel = KeepsOthers h;
    same = λ w. record { settings = λ q e. refl; secrets = λ s u n. refl };
    chain = λ w1 w2 w3 a b. record {
      settings = λ q e. b.settings q e ∙ a.settings q e;
      secrets = λ s u n. b.secrets s u n ∙ a.secrets s u n;
    };
  }

  pub set_key-others :
      (rest : List String) (v : String) → Frames others (set_key (hosts_key ∷ h ∷ rest) v)
  set_key-others rest v = record {
    at = λ w. record {
      settings = λ q e. P.config.get-set w.file _ q v ∙ after_set-elsewhere h rest q v _ e;
      secrets = λ s u n. refl;
    };
  }

  pub remove_key-others : (rest : List String) → Frames others (remove_key (hosts_key ∷ h ∷ rest))
  remove_key-others rest = record {
    at = λ w. record {
      settings = λ q e. rw (P.config.get-remove, is_prefix-elsewhere h rest q e);
      secrets = λ s u n. refl;
    };
  }

  changed-others :
      (r : Result (P.keyring.Ring)) (w : World P)
      → ((r' : P.keyring.Ring) (s u : String)
          → r ≡ ok r'
          → s ≢ service h
          → P.keyring.get r' s u ≡ P.keyring.get w.ring s u)
      → KeepsOthers h w (changed r w).1
  changed-others (ok r) w k = record { settings = λ q e. refl; secrets = λ s u n. k r s u refl n }
  changed-others (err e) w k = others.same w

  pub set_secret-others : (u x : String) → Frames others (set_secret (service h) u x)
  set_secret-others u x = record {
    at = λ w. changed-others (Keyring.set P.keyring w.ring (service h) u x) w (λ r' s u' e n.
        ground (
          arith,
          Keyring.get-set P.keyring w.ring r' (service h) u x s u' e,
          eq_iff (service h) s,
        ));
  }

  pub delete_secret-others : (u : String) → Frames others (delete_secret (service h) u)
  delete_secret-others u = record {
    at = λ w. changed-others (Keyring.delete P.keyring w.ring (service h) u) w (λ r' s u' e n.
        ground (
          arith,
          Keyring.get-delete P.keyring w.ring r' (service h) u s u' e,
          eq_iff (service h) s,
        ));
  }

  written-others : (e : Option Error) (w : World P) → KeepsOthers h w (written e w).1
  written-others none w = record { settings = λ q e. refl; secrets = λ s u n. refl }
  written-others (some e) w = others.same w

  pub write-others : Frames others write
  write-others = record { at = λ w. written-others (P.write_error w.disk w.file) w }

  pub get_key-others : (p : List String) → Frames others (get_key p)
  get_key-others p = record { at = others.same }

  pub get_secret-others : (s u : String) → Frames others (get_secret s u)
  get_secret-others s u = record { at = others.same }

pub ruleset others_rules = (
  frame_rules, set_key-others, remove_key-others, set_secret-others, delete_secret-others,
  write-others, get_key-others, get_secret-others,
)

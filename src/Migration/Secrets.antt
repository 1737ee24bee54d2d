-- ===== src/Migration/Secrets.antt =====
-- internal/config/migration/multi_account.go: what the migration leaves in the keyring. It keeps
-- tokens under the service "gh:" of a host, where internal/config/config.go does not look.
use Prim.Native.String
use mathlib.Core.Bool.{false≢true}
use text.Mathlib.TextPositions.{slice-append_left}
use bitbucket_cli.Prelude.{
  String, ◌≡◌, ◌≢◌, refl, sym, ◌∙◌, ap, List, [], ◌∷◌, eq_iff, eq-false_of_ne,
}
use bitbucket_cli.Prelude.Result.{key_not_found, Result, ok, err}
use bitbucket_cli.External.{Platform}
use bitbucket_cli.Action.Frame.{Relation, Frames, Frames-bind, frame_rules}
use bitbucket_cli.Keyring
use bitbucket_cli.World.{World, get_key, set_key, remove_key, set_secret, changed}
use bitbucket_cli.Auth.Paths.{service}
use bitbucket_cli.Auth.{token_from_keyring, token_from_keyring_for_user}
use bitbucket_cli.Migration.{
  ViewerQuery, TokenLookup, no_token, lookup_failed, token_found, migration_service, copy_token,
  migrate_config, migrate_token, migrate_found, migrate_host, migrate_hosts, multi_account,
}

prefix-service : (s t : String) → String.slice (String.◌++◌ s t) 0 (String.len s) ≡ s
prefix-service s t = slice-append_left s t

abbrev bb : String
bb = "bb:"

abbrev gh : String
gh = "gh:"

gh-ne-bb : gh ≢ bb
gh-ne-bb same = false≢true ((eq_iff gh bb).1 same)

prefixes-eq : (h h' : String) → migration_service h' ≡ service h → gh ≡ bb
unfolding migration_service service
prefixes-eq h h' same =
    sym (prefix-service gh h') ∙ ap (λ s. String.slice s 0 3) same ∙ prefix-service bb h

service-ne : (h h' : String) → migration_service h' ≢ service h
service-ne h h' same = gh-ne-bb (prefixes-eq h h' same)

module _ {P : Platform} where
  record KeepsSecrets (w w' : World P) : Type 0 where
    secret :
        (h u : String)
        → Keyring.get P.keyring w'.ring (service h) u ≡ Keyring.get P.keyring w.ring (service h) u

  abbrev secrets : Relation (World P)
  secrets = record {
    Rel = KeepsSecrets;
    same = λ w. record { secret = λ h u. refl };
    chain = λ w1 w2 w3 a b. record { secret = λ h u. b.secret h u ∙ a.secret h u };
  }

  get_key-secrets : (p : List String) → Frames secrets (get_key p)
  get_key-secrets p = record { at = secrets.same }

  set_key-secrets : (p : List String) (x : String) → Frames secrets (set_key p x)
  set_key-secrets p x = record { at = λ w. record { secret = λ h u. refl } }

  remove_key-secrets : (p : List String) → Frames secrets (remove_key p)
  remove_key-secrets p = record { at = λ w. record { secret = λ h u. refl } }

  changed-secrets :
      (r : Result (P.keyring.Ring)) (w : World P)
      → ((r' : P.keyring.Ring) (h u : String)
          → r ≡ ok r'
          → Keyring.get P.keyring r' (service h) u ≡ Keyring.get P.keyring w.ring (service h) u)
      → KeepsSecrets w (changed r w).1
  changed-secrets (ok r) w k = record { secret = λ h u. k r h u refl }
  changed-secrets (err e) w k = record { secret = λ h u. refl }

  set_secret-secrets : (h' u' x : String) → Frames secrets (set_secret (migration_service h') u' x)
  set_secret-secrets h' u' x = record {
    at = λ w.
        changed-secrets (Keyring.set P.keyring w.ring (migration_service h') u' x) w (λ r' h u e.
          Keyring.reading-set P.keyring w.ring r' (migration_service h') u' x (service h) u e
          ∙ simp (eq-false_of_ne (migration_service h') (service h) (service-ne h h')));
  }

ruleset secret_rules =
    (frame_rules, get_key-secrets, set_key-secrets, remove_key-secrets, set_secret-secrets)

module _ {P : Platform} where
  copy_token-secrets :
      (h u : String) (r : Result String) → Frames (secrets {P = P}) (copy_token h u r)
  unfolding copy_token
  copy_token-secrets h u (ok t) = search secret_rules
  copy_token-secrets h u (err key_not_found) = search secret_rules
  copy_token-secrets h u (err e) = search secret_rules

  migrate_config-secrets : (h u : String) → Frames (secrets {P = P}) (migrate_config h u)
  unfolding migrate_config
  migrate_config-secrets h u = search (secret_rules, copy_token-secrets) depth 10

  migrate_found-secrets :
      (viewer : ViewerQuery) (h : String) (l : TokenLookup)
      → Frames (secrets {P = P}) (migrate_found viewer h l)
  unfolding migrate_found migrate_token
  migrate_found-secrets viewer h no_token = search secret_rules
  migrate_found-secrets viewer h (lookup_failed e) = search secret_rules
  migrate_found-secrets viewer h (token_found source) =
      search (secret_rules, migrate_config-secrets) depth 10

  migrate_host-secrets :
      (viewer : ViewerQuery) (h : String) → Frames (secrets {P = P}) (migrate_host viewer h)
  unfolding migrate_host
  migrate_host-secrets viewer h = record { at = λ w. (migrate_found-secrets viewer h _).at w }

  migrate_hosts-secrets :
      (viewer : ViewerQuery) (l : List String) → Frames (secrets {P = P}) (migrate_hosts viewer l)
  unfolding migrate_hosts
  migrate_hosts-secrets viewer [] = search secret_rules
  migrate_hosts-secrets viewer (h ∷ l) =
      Frames-bind secrets (migrate_host viewer h) (λ _. migrate_hosts viewer l)
        (migrate_host-secrets viewer h) (λ _. migrate_hosts-secrets viewer l)

  -- The migration changes nothing that AuthConfig reads from the keyring, whatever it returns: where a
  -- host's tokens stand in the keyring, they are not moved to an entry that is read.
  pub multi_account-token_from_keyring :
      (viewer : ViewerQuery) (w : World P) (h u : String)
      → (token_from_keyring ((multi_account viewer).run w).1 h ≡ token_from_keyring w h)
        × (token_from_keyring_for_user ((multi_account viewer).run w).1 h u
            ≡ token_from_keyring_for_user w h u)
  unfolding multi_account token_from_keyring_for_user
  multi_account-token_from_keyring viewer w h u =
      let keeps = (migrate_hosts-secrets viewer _).at w in
      (keeps.secret h "", rw (keeps.secret h u) refl)

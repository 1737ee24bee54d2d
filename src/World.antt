-- ===== src/World.antt =====
-- The state that the commands share: the configuration in memory, what the disk holds of it, and
-- the keyring; and the calls that read and write it.
use bitbucket_cli.Prelude.{
  String, ◌≡◌, refl, Option, none, some, List, is_some, value_or, if◌then◌else◌,
}
use bitbucket_cli.Prelude.Result.{Error, key_not_found, Result, ok, err}
use bitbucket_cli.External.{Platform}
use bitbucket_cli.Action.{Action}
use bitbucket_cli.Keyring

pub record World (P : Platform) : Type 0 where
  pub file : P.config.File
  pub disk : P.config.File
  pub ring : P.keyring.Ring

abbrev pub found : Option String → Result String
found none = err key_not_found
found (some v) = ok v

module _ {P : Platform} where
  -- `c.cfg.Get`
  abbrev pub get_key : List String → Action (World P) String
  get_key path w = (found (P.config.get w.file path), w)

  -- The value alone of `c.cfg.Get`, empty where it returns an error.
  abbrev pub value_at : World P → List String → String
  value_at w path = value_or (P.config.get w.file path) ""

  -- `c.cfg.Set`
  abbrev pub set_key : List String → String → Action (World P) (Unit {0})
  set_key path v w = (ok tt, record w { file = P.config.set w.file path v })

  -- `c.cfg.Remove`
  abbrev pub remove_key : List String → Action (World P) (Unit {0})
  remove_key path w = (
    if is_some (P.config.get w.file path) then ok tt else err key_not_found,
    record w { file = P.config.remove w.file path },
  )

  abbrev pub written : Option Error → World P → Result (Unit {0}) × World P
  written none w = (ok tt, record w { disk = w.file })
  written (some e) w = (err e, w)

  -- `ghConfig.Write(c.cfg)`
  abbrev pub write : Action (World P) (Unit {0})
  write w = written (P.write_error w.disk w.file) w

  -- The calls of internal/keyring, on the ring of the state.
  abbrev pub get_secret : String → String → Action (World P) String
  get_secret service user w = (Keyring.get P.keyring w.ring service user, w)

  abbrev pub changed : Result (P.keyring.Ring) → World P → Result (Unit {0}) × World P
  changed (ok r) w = (ok tt, record w { ring = r })
  changed (err e) w = (err e, w)

  abbrev pub set_secret : String → String → String → Action (World P) (Unit {0})
  set_secret service user secret w = changed (Keyring.set P.keyring w.ring service user secret) w

  abbrev pub delete_secret : String → String → Action (World P) (Unit {0})
  delete_secret service user w = changed (Keyring.delete P.keyring w.ring service user) w

  -- A call of the keyring leaves the configuration alone.
  pub file-changed : (r : Result (P.keyring.Ring)) (w : World P) → (changed r w).1.file ≡ w.file
  file-changed (ok r) w = refl
  file-changed (err e) w = refl

-- ===== src/External.antt =====
-- The code that the repository calls and does not hold: go-gh's configuration file and host
-- lookups, and the operating system's keyring behind go-keyring. Each is a record of operations
-- with the laws that its documentation gives; `Platform` joins them.
pub mod Sample
use bitbucket_cli.Prelude.{
  ℕ, String, Bool, true, false, ◌≡◌, Option, none, some, List, [], ◌∷◌, ◌++◌, ◌==◌, ◌&&◌,
  if◌then◌else◌, is_some, value_or, contains, Distinct,
}
use bitbucket_cli.Prelude.Result.{Error}

-- One key path leads to another or to something below it.
abbrev pub is_prefix : List String → List String → Bool
is_prefix [] q = true
is_prefix (k ∷ p) [] = false
is_prefix (k ∷ p) (j ∷ q) = k == j && is_prefix p q

-- What stands at `q` once `v` is written at `p`: writing replaces what stood at `p` and below it,
-- and creates the mappings on the way.
abbrev pub after_set : List String → List String → String → Option String → Option String
after_set [] [] v old = some v
after_set [] (j ∷ q) v old = none
after_set (k ∷ p) [] v old = some (value_or old "")
after_set (k ∷ p) (j ∷ q) v old = if k == j then after_set p q v old else old

-- `Config` of go-gh. `get` answers `none` where `Get` returns a KeyNotFoundError; `remove` is the
-- file after `Remove`, which changes nothing where the path is missing.
pub record ConfigLib : Type 1 where
  pub File : Type 0
  pub get : File → List String → Option String
  pub keys : File → List String → Option (List String)
  pub set : File → List String → String → File
  pub remove : File → List String → File
  pub get-set :
      (c : File) (p q : List String) (v : String) → get (set c p v) q ≡ after_set p q v (get c q)
  pub get-remove :
      (c : File) (p q : List String)
      → get (remove c p) q ≡ (if is_prefix p q then none else get c q)
  pub is_some-keys : (c : File) (p : List String) → is_some (keys c p) ≡ is_some (get c p)
  pub contains-keys :
      (c : File) (p l : List String) (k : String)
      → keys c p ≡ some l
      → contains l k ≡ is_some (get c (p ++ k ∷ []))
  pub keys-Distinct : (c : File) (p l : List String) → keys c p ≡ some l → Distinct l

-- How a call of the keyring ends within the three seconds that it is given: `no_reply` is none.
pub data Reply (A : Type 0) : Type 0 where
  done : A → Reply A
  missing : Reply A
  failed : String → Reply A
  no_reply : Reply A

-- Two entries of a keyring are one entry.
abbrev pub same_entry : String → String → String → String → Bool
same_entry service user service' user' = service == service' && user == user'

-- go-keyring. A call that does not end with `done` leaves the ring as it was.
pub record KeyringLib : Type 1 where
  pub Ring : Type 0
  pub get : Ring → String → String → Reply String
  pub set : Ring → String → String → String → Reply Ring
  pub delete : Ring → String → String → Reply Ring
  pub get-set :
      (r r' : Ring) (service user secret service' user' : String)
      → set r service user secret ≡ done r'
      → get r' service' user'
        ≡ (if same_entry service user service' user' then done secret else get r service' user')
  pub get-delete :
      (r r' : Ring) (service user service' user' : String)
      → delete r service user ≡ done r'
      → get r' service' user'
        ≡ (if same_entry service user service' user' then missing else get r service' user')

-- `write_error disk file` is the error of writing `file` over what the disk holds, if there is one.
-- `token_from_env_or_config`, `known_hosts` and `default_host` are go-gh's; they read the process's
-- environment and the one configuration in memory.
pub record Platform : Type 1 where
  pub config : ConfigLib
  pub keyring : KeyringLib
  pub write_error : config.File → config.File → Option Error
  pub token_from_env_or_config : config.File → String → String × String
  pub known_hosts : config.File → List String
  pub default_host : config.File → String × String

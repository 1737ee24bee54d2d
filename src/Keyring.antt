-- ===== src/Keyring.antt =====
-- internal/keyring/keyring.go: go-keyring with a time limit. A call that is given up leaves the
-- ring as it was; that go-keyring may still finish it later is not modelled.
use bitbucket_cli.Prelude.{String, ◌≡◌, arith, if◌then◌else◌}
use bitbucket_cli.Prelude.Result.{Error, secret_not_found, timeout, backend, Result, ok, err}
use bitbucket_cli.External.{done, missing, failed, no_reply, same_entry, KeyringLib}

-- go-keyring's own ErrNotFound as it comes back from `Set` and `Delete`, which do not translate it.
abbrev backend_not_found : Error
backend_not_found = backend "secret not found in keyring"

module _ (K : KeyringLib) where
  open K use {Ring}

  unfoldable pub set : Ring → String → String → String → Result Ring
  set r service user secret = elim (K.set r service user secret) [
    | done r' ↦ ok r'
    | missing ↦ err backend_not_found
    | failed m ↦ err (backend m)
    | no_reply ↦ err (timeout "timeout while trying to set secret in keyring")
  ]

  unfoldable pub get : Ring → String → String → Result String
  get r service user = elim (K.get r service user) [
    | done secret ↦ ok secret
    | missing ↦ err secret_not_found
    | failed m ↦ err (backend m)
    | no_reply ↦ err (timeout "timeout while trying to get secret from keyring")
  ]

  unfoldable pub delete : Ring → String → String → Result Ring
  delete r service user = elim (K.delete r service user) [
    | done r' ↦ ok r'
    | missing ↦ err backend_not_found
    | failed m ↦ err (backend m)
    | no_reply ↦ err (timeout "timeout while trying to delete secret from keyring")
  ]

  -- A call that succeeds is go-keyring's, so its laws hold of the wrapper.
  pub get-set :
      (r r' : Ring) (service user secret service' user' : String)
      → set r service user secret ≡ ok r'
      → K.get r' service' user'
        ≡ (if same_entry service user service' user' then done secret else K.get r service' user')
  unfolding set
  get-set r r' s u x s' u' e = K.get-set r r' s u x s' u' (ground arith)

  pub get-delete :
      (r r' : Ring) (service user service' user' : String)
      → delete r service user ≡ ok r'
      → K.get r' service' user'
        ≡ (if same_entry service user service' user' then missing else K.get r service' user')
  unfolding delete
  get-delete r r' s u s' u' e = K.get-delete r r' s u s' u' (ground arith)

  pub reading-set :
      (r r' : Ring) (s u secret s' u' : String)
      → set r s u secret ≡ ok r'
      → get r' s' u' ≡ (if same_entry s u s' u' then ok secret else get r s' u')
  unfolding get
  reading-set r r' s u x s' u' e = ground (arith, get-set r r' s u x s' u' e)

  pub reading-delete :
      (r r' : Ring) (s u s' u' : String)
      → delete r s u ≡ ok r'
      → get r' s' u' ≡ (if same_entry s u s' u' then err secret_not_found else get r s' u')
  unfolding get
  reading-delete r r' s u s' u' e = ground (arith, get-delete r r' s u s' u' e)

-- ===== src/Commands/Token/AfterLogin.antt =====
-- pkg/cmd/auth/token/token.go after a login of internal/config/config.go.
use bitbucket_cli.Prelude.{
  String, ◌≡◌, ◌≢◌, refl, false, Bool, eq-false_of_ne, Bool-cases, inl, inr,
}
use bitbucket_cli.Prelude.Result.{ok}
use bitbucket_cli.External.{Platform}
use bitbucket_cli.Keyring
use bitbucket_cli.World.{World}
use bitbucket_cli.Auth.{AuthConfig, login, token_for_user}
use bitbucket_cli.Auth.Paths.{service}
use bitbucket_cli.Auth.{token_from_keyring_for_user}
use bitbucket_cli.Auth.Login.{login_done}
use bitbucket_cli.Commands.Token.{token_value, token_run}

module _ {P : Platform} where
  kept_token :
      (w : World P) (h u t : String)
      → Keyring.get P.keyring w.ring (service h) u ≡ ok t
      → token_for_user w h u ≡ ok (t, "keyring")
  unfolding token_for_user
  kept_token w h u t e = rw (token_for_user, e) refl

  -- A named account that logs in with its token in the keyring gets that token back from
  -- `bb auth token` for the host and the account, with and without `--secure-storage`, where neither
  -- the host nor the token is empty.
  pub token_run-login :
      (h u t p : String) (w w' : World P) (secure : Bool) (c : AuthConfig) (only_secure : Bool)
      → h ≢ ""
      → u ≢ ""
      → t ≢ ""
      → login h u t p secure w ≡ (ok (false, ok tt), w')
      → token_run
          (record { config = ok c; hostname = h; username = u; secure_storage = only_secure })
          w'
        ≡ ok t
  unfolding token_run token_value token_from_keyring_for_user
  token_run-login h u t p w w' secure c only_secure host_named named given e =
      let (_, _, stored, _) = login_done h u t p w w' secure false named e in
      let (_, _, kept, _) = stored in
      elim (Bool-cases only_secure) [
        | inl s ↦
            rw
              (
                s,
                eq-false_of_ne h "" host_named,
                eq-false_of_ne u "" named,
                kept,
                eq-false_of_ne t "" given,
              )
              refl
        | inr s ↦
            rw
              (
                s,
                eq-false_of_ne h "" host_named,
                eq-false_of_ne u "" named,
                kept_token w' h u t kept,
                eq-false_of_ne t "" given,
              )
              refl
      ]

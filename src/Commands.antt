-- ===== src/Commands.antt =====
-- The commands of pkg/cmd/auth and `bb alias set`: a command works on the shared state and prints to the terminal.
pub mod Switch
pub mod Logout
pub mod Credential
pub mod AliasSet
pub mod GitHelper
pub mod Status
pub mod Token
use bitbucket_cli.Prelude.{
  String, List, [], ◌∷◌, ◌++◌, Bool, true, false, ◌==◌, ◌||◌, not, ℕ, zero, suc, Option, none, some,
}
use bitbucket_cli.Prelude.Texts.{has_suffix}
use bitbucket_cli.Prelude.Result.{Result, ok, err, panic}
use bitbucket_cli.External.{Platform}
use bitbucket_cli.Action.{Action}
use bitbucket_cli.World.{World}
use bitbucket_cli.Auth.{AuthConfig, active_token}

-- A call of `fmt.Fprintf`: the format and its text arguments, without the icon and the bold face.
pub record Message : Type 0 where
  pub format : String
  pub arguments : List String

pub record Console (P : Platform) : Type 0 where
  pub world : World P
  pub err_out : List Message

-- `Prompter.Select`: the place of the choice that the user makes among the texts.
abbrev pub Select : Type 0
Select = String → List String → Result ℕ

module _ {P : Platform} where
  abbrev pub on_world : {A : Type 0} → Action (World P) A → Action (Console P) A
  on_world m s = ((m s.world).0, record s { world = (m s.world).1 })

  -- `fmt.Fprintf(opts.IO.ErrOut, …)`
  abbrev pub print : String → List String → Action (Console P) (Unit {0})
  print format arguments s = (
    ok tt,
    record s { err_out = s.err_out ++ record { format = format; arguments = arguments } ∷ [] },
  )

  -- `AuthTokenWriteable` of pkg/cmd/auth/shared/writeable.go
  unfoldable pub auth_token_writeable : AuthConfig → World P → String → String × Bool
  auth_token_writeable c w hostname =
      let (token, src) = active_token c w hostname in
      (src, token == "" || not (has_suffix src "_TOKEN"))

-- Go panics past the end of a slice.
abbrev pub at {ℓ} : {A : Type ℓ} → List A → ℕ → Result A
at [] n = err (panic "index out of range")
at (x ∷ xs) zero = ok x
at (x ∷ xs) (suc n) = at xs n

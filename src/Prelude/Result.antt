-- ===== src/Prelude/Result.antt =====
-- Go's `(value, error)` results. An error keeps its format string, its text arguments and the
-- error that it wraps; `text_error` has arguments that are lists of code points, `http_error` is the
-- API's HTTPError: the status, the message, the URL of the request and the body, `git_error` a
-- GitError of package git: the exit code, what git wrote to standard error, and the error of the call.
use Prim.Native.String.{String}
use mathlib.Core.Path.{◌≡◌, refl}
use Prim.Native.Nat.{ℕ}
use mathlib.Core.List.{List}
use bitbucket_cli.Prelude.Int.{ℤ}
use mathlib.Core.Logic.{◌⊎◌, inl, inr}

pub data Error : Type 0 where
  key_not_found : Error
  secret_not_found : Error
  timeout : String → Error
  backend : String → Error
  silent : Error
  panic : String → Error
  errorf : String → List String → Error
  wrap : String → List String → Error → Error
  join : Error → Error → Error
  text_error : String → List (List ℕ) → Error
  http_error : ℕ → List ℕ → List ℕ → List ℕ → Error
  git_error : ℤ → List ℕ → Error → Error

pub data Result {ℓ} (A : Type ℓ) : Type ℓ where
  ok : A → Result A
  err : Error → Result A

infixl 5 ◌>>=◌
abbrev pub ◌>>=◌ {ℓ κ} : {A : Type ℓ} {B : Type κ} → Result A → (A → Result B) → Result B
ok a >>= f = f a
err e >>= f = err e

pub Result-cases {ℓ} :
    {A : Type ℓ} (r : Result A) → ((a : A) × (r ≡ ok a)) ⊎ ((e : Error) × (r ≡ err e))
Result-cases (ok a) = inl (a, refl)
Result-cases (err e) = inr (e, refl)

pub ok_inj {ℓ} : {A : Type ℓ} {a b : A} → ok a ≡ ok b → a ≡ b
ok_inj h = cc

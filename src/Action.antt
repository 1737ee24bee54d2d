-- ===== src/Action.antt =====
-- Methods that change shared state and may return an error. What was changed before the error stays
-- changed, so the state comes back beside the result in both cases.
pub mod Frame
pub mod Inversion
use mathlib.Core.Path.{◌≡◌, refl}
use bitbucket_cli.Prelude.Result.{Error, Result, ok, err}

abbrev pub Action {ℓ} : Type ℓ → Type ℓ → Type ℓ
Action S A = S → Result A × S

abbrev pub re_error {ℓ} : {A : Type ℓ} → (Error → Error) → Result A → Result A
re_error f (ok a) = ok a
re_error f (err e) = err (f e)

module _ {ℓ} {S A : Type ℓ} where
  abbrev pub pure : A → Action S A
  pure a s = (ok a, s)

  abbrev pub raise : Error → Action S A
  raise e s = (err e, s)

  -- The pure results of calls that read and do not write.
  abbrev pub lift : (S → Result A) → Action S A
  lift f s = (f s, s)

  -- `_ = m` and `x, err := m`: an error becomes a value, and the method goes on.
  abbrev pub attempt : Action S A → Action S (Result A)
  attempt m s = (ok (m s).0, (m s).1)

  -- `if err != nil { return fmt.Errorf(…, err) }`
  abbrev pub annotate : (Error → Error) → Action S A → Action S A
  annotate f m s = (re_error f (m s).0, (m s).1)

module _ {ℓ} {S A B : Type ℓ} where
  abbrev pub follow : Result A → (A → Action S B) → Action S B
  follow (ok a) f s = f a s
  follow (err e) f s = (err e, s)

  infixl 5 ◌>>=◌ ◌>>◌
  abbrev pub ◌>>=◌ : Action S A → (A → Action S B) → Action S B
  ◌>>=◌ m f s = follow (m s).0 f (m s).1

  abbrev pub ◌>>◌ : Action S A → Action S B → Action S B
  m >> n = m >>= λ _. n

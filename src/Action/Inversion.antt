-- ===== src/Action/Inversion.antt =====
-- What an action that succeeds has done: one rule for each way to build an action.
use bitbucket_cli.Prelude.{◌≡◌, refl, ap, Bool, true, false, if◌then◌else◌}
use bitbucket_cli.Prelude.Result.{Error, Result, ok, err}
use bitbucket_cli.Action.{Action, raise, lift, annotate, re_error, follow, ◌>>=◌}

re_error_ok {ℓ} :
    {A : Type ℓ} (f : Error → Error) (r : Result A) {a : A} → re_error f r ≡ ok a → r ≡ ok a
re_error_ok f (ok a) h = h
re_error_ok f (err e) h = cc

module _ {ℓ} {S A B : Type ℓ} where
  follow_ok :
      (r : Result A) (u : S) (f : A → Action S B) {b : B} {t : S}
      → follow r f u ≡ (ok b, t)
      → (a : A) × (r ≡ ok a) × (f a u ≡ (ok b, t))
  follow_ok (ok a) u f h = (a, refl, h)
  follow_ok (err e) u f h = cc

  -- A success in sequence is two successes.
  pub bind_ok :
      (m : Action S A) (f : A → Action S B) (s : S) {b : B} {t : S}
      → (m >>= f) s ≡ (ok b, t)
      → (a : A) × (m s ≡ (ok a, (m s).1)) × (f a (m s).1 ≡ (ok b, t))
  bind_ok m f s h =
      let (a, e, k) = follow_ok (m s).0 (m s).1 f h in (a, ap (λ r. (r, (m s).1)) e, k)

module _ {ℓ} {S A : Type ℓ} where
  pub lift_ok :
      (f : S → Result A) (s : S) {a : A} {t : S} → lift f s ≡ (ok a, t) → (f s ≡ ok a) × (s ≡ t)
  lift_ok f s h = (ap (λ p. p.0) h, ap (λ p. p.1) h)

  -- A guard that raises an error was passed.
  pub guard_ok :
      (b : Bool) (e : Error) (m : Action S A) (s : S) {a : A} {t : S}
      → (if b then raise e else m) s ≡ (ok a, t)
      → (b ≡ false) × (m s ≡ (ok a, t))
  guard_ok true e m s h = cc
  guard_ok false e m s h = (refl, h)

  pub annotate_ok :
      (f : Error → Error) (m : Action S A) (s : S) {a : A} {t : S}
      → annotate f m s ≡ (ok a, t)
      → m s ≡ (ok a, t)
  annotate_ok f m s {t = t} h = λ i. (re_error_ok f (m s).0 (ap (λ p. p.0) h) i, (h i).1)

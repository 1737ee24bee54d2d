-- ===== src/Action/Frame.antt =====
-- What an action leaves alone, or keeps true, whatever its result: one rule for each way to build an
-- action, so that `search` proves a whole `do` block.
use bitbucket_cli.Prelude.{Bool, true, false, if◌then◌else◌}
use bitbucket_cli.Prelude.Result.{Error, Result, ok, err}
use bitbucket_cli.Action.{Action, pure, raise, lift, attempt, annotate, follow, ◌>>=◌}

-- A reflexive and transitive relation between the states before and after.
pub record Relation {ℓ} (S : Type ℓ) : Type (ℓ + 1) where
  pub Rel : S → S → Type ℓ
  pub same : (s : S) → Rel s s
  pub chain : (s t u : S) → Rel s t → Rel t u → Rel s u

pub record Frames {ℓ} {S A : Type ℓ} (R : Relation S) (m : Action S A) : Type ℓ where
  pub at : (s : S) → R.Rel s (m s).1

module _ {ℓ} {S : Type ℓ} (R : Relation S) {A : Type ℓ} where
  pub Frames-pure : (a : A) → Frames R (pure a)
  Frames-pure a = record { at = R.same }

  pub Frames-raise : (e : Error) → Frames R (raise {A = A} e)
  Frames-raise e = record { at = R.same }

  pub Frames-lift : (f : S → Result A) → Frames R (lift f)
  Frames-lift f = record { at = R.same }

  pub Frames-attempt : (m : Action S A) → Frames R m → Frames R (attempt m)
  Frames-attempt m h = record { at = h.at }

  pub Frames-annotate : (f : Error → Error) (m : Action S A) → Frames R m → Frames R (annotate f m)
  Frames-annotate f m h = record { at = h.at }

  pub Frames-if :
      (b : Bool) (m n : Action S A) → Frames R m → Frames R n → Frames R (if b then m else n)
  Frames-if true m n h k = h
  Frames-if false m n h k = k

module _ {ℓ} {S : Type ℓ} (R : Relation S) {A B : Type ℓ} where
  Frames-follow :
      (r : Result A) (f : A → Action S B) → ((a : A) → Frames R (f a)) → Frames R (follow r f)
  Frames-follow (ok a) f h = record { at = (h a).at }
  Frames-follow (err e) f h = record { at = R.same }

  pub Frames-bind :
      (m : Action S A) (f : A → Action S B)
      → Frames R m
      → ((a : A) → Frames R (f a))
      → Frames R (m >>= f)
  Frames-bind m f h k = record {
    at = λ s. R.chain s (m s).1 _ (h.at s) ((Frames-follow (m s).0 f k).at (m s).1);
  }

pub ruleset frame_rules = (
  Frames-pure, Frames-raise, Frames-lift, Frames-attempt, Frames-annotate, Frames-if, Frames-bind,
)

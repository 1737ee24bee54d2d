-- ===== src/Optional.antt =====
-- pkg/option/option.go: the operations on `Option`, which is the library's. A panic is an error.
use bitbucket_cli.Prelude.{String, Bool, not, Option, none, some, is_some, if◌then◌else◌}
use bitbucket_cli.Prelude.Result.{Result, ok, err, panic}

-- `SomeIfNonZero`; `is_zero` tests for the type's zero value.
unfoldable pub some_if_non_zero : {A : Type 0} → (A → Bool) → A → Option A
some_if_non_zero is_zero value = if is_zero value then none else some value

module _ {A : Type 0} where
  -- `Expect`
  unfoldable pub expect : Option A → String → Result A
  expect none message = err (panic message)
  expect (some value) message = ok value

  -- `Unwrap`
  unfoldable pub unwrap : Option A → Result A
  unfolding expect
  unwrap o = expect o "called `Option.Unwrap()` on a `None` value"

  -- `UnwrapOr`
  unfoldable pub unwrap_or : Option A → A → A
  unwrap_or none value = value
  unwrap_or (some a) value = a

  -- `UnwrapOrElse`
  unfoldable pub unwrap_or_else : Option A → (Unit {0} → A) → A
  unwrap_or_else none f = f tt
  unwrap_or_else (some a) f = a

  -- `UnwrapOrZero`, with the type's zero value.
  unfoldable pub unwrap_or_zero : A → Option A → A
  unwrap_or_zero zero_value none = zero_value
  unwrap_or_zero zero_value (some a) = a

  -- `IsNone`
  unfoldable pub is_none : Option A → Bool
  is_none o = not (is_some o)

  -- `Value`
  unfoldable pub value : A → Option A → A × Bool
  unfolding unwrap_or_zero
  value zero_value o = (unwrap_or_zero zero_value o, is_some o)

-- `Map`
unfoldable pub map_option : {A B : Type 0} → Option A → (A → B) → Option B
map_option none f = none
map_option (some a) f = some (f a)

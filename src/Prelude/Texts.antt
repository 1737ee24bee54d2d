-- ===== src/Prelude/Texts.antt =====
-- What the code uses of Go's `strings`, on texts. Positions count bytes, as Go's do.
use Prim.Native.Nat.{◌+◌, ◌-◌}
use Prim.Native.String
use Prim.Native.String.{String}
use mathlib.Core.Bool.{Bool, false, ◌&&◌}
use mathlib.Core.Option.{Option, none, some}
use text.Mathlib.Text
use bitbucket_cli.Prelude.Tests.{leb, ◌==◌, if◌then◌else◌}

is_text : String → Option String → Bool
is_text t none = false
is_text t (some s) = s == t

-- `strings.HasSuffix`
unfoldable pub has_suffix : String → String → Bool
unfolding is_text
has_suffix s t =
    leb (String.len t) (String.len s)
    && is_text t (Text.get? s (String.len s - String.len t) (String.len s))

-- `strings.HasPrefix`
abbrev pub has_prefix : String → String → Bool
has_prefix = Text.starts_with

-- `strings.TrimPrefix`
unfoldable pub trim_prefix : String → String → String
trim_prefix s t = if has_prefix s t then String.slice s (String.len t) (String.len s) else s

-- `strings.SplitN(s, sep, 2)`: the parts, where there are two.
unfoldable pub split_two : String → String → Option (String × String)
split_two s sep = elim (Text.find? s sep) [
  | none ↦ none
  | some i ↦ some (String.slice s 0 i, String.slice s (i + String.len sep) (String.len s))
]

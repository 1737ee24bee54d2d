-- ===== src/StringSet.antt =====
-- pkg/set/string_set.go: a set of texts that remembers the order of insertion. The Go map is the
-- list of its keys. Slices are values: what `ToSlice` returned is not changed by a later removal.
pub mod Invariant
pub mod Equality
use bitbucket_cli.Prelude.{
  ℕ, String, Bool, true, false, Option, none, some, List, [], ◌∷◌, ◌++◌, suc, ◌==◌, if◌then◌else◌,
  contains, without, take, drop, length, nat_eq,
}
use mathlib.Core.Option

pub record StringSet : Type 0 where
  pub v : List String
  pub m : List String

unfoldable pub new_string_set : StringSet
new_string_set = record { v = []; m = [] }

unfoldable pub contains_value : StringSet → String → Bool
contains_value s value = contains s.m value

unfoldable pub add : StringSet → String → StringSet
unfolding contains_value
add s value =
    if contains_value s value then s else record { v = s.v ++ value ∷ []; m = value ∷ s.m }

unfoldable pub add_values : StringSet → List String → StringSet
add_values s [] = s
add_values s (value ∷ values) = add_values (add s value) values

-- The loop that finds `idx`; no index is Go's -1.
index_of : List String → String → Option ℕ
index_of [] v = none
index_of (item ∷ s) v =
    let later = Option.map suc (index_of s v) in if item == v then some 0 else later

slice_without : List String → String → List String
unfolding index_of
slice_without s v = elim (index_of s v) [ none ↦ s | some idx ↦ take idx s ++ drop (suc idx) s ]

unfoldable pub remove : StringSet → String → StringSet
unfolding contains_value slice_without
remove s value =
    if contains_value s value
    then record { v = slice_without s.v value; m = without value s.m }
    else s

unfoldable pub remove_values : StringSet → List String → StringSet
remove_values s [] = s
remove_values s (value ∷ values) = remove_values (remove s value) values

unfoldable pub len : StringSet → ℕ
len s = length s.m

unfoldable pub to_slice : StringSet → List String
to_slice s = s.v

-- The loop of `Equal`, with its early exit.
all_in : StringSet → List String → Bool
all_in s [] = true
all_in s (v ∷ vs) = let rest = all_in s vs in if contains_value s v then rest else false

unfoldable pub equal : StringSet → StringSet → Bool
unfolding len all_in
equal s1 s2 = if nat_eq (len s1) (len s2) then all_in s2 s1.v else false

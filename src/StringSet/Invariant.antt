-- ===== src/StringSet/Invariant.antt =====
-- The map and the slice of a set hold the same texts, each once, under every operation.
use bitbucket_cli.Prelude.{
  String, false, ◌≡◌, refl, sym, ap, ◌∙◌, inl, inr, Bool-cases, List, [], ◌∷◌, ◌++◌, ◌||◌, arith,
  ◌==◌, eq_iff, if◌then◌else◌, contains, without, length, Distinct, contains-append,
  contains-without, without-Distinct, length-without, length-append,
}
use bitbucket_cli.StringSet.{
  StringSet, new_string_set, contains_value, add, add_values, slice_without, remove, remove_values,
}

pub record IsValid (s : StringSet) : Type 0 where
  pub same : (x : String) → contains s.m x ≡ contains s.v x
  pub distinct_v : Distinct s.v
  pub distinct_m : Distinct s.m
  pub size : length s.m ≡ length s.v

pub new_string_set-IsValid : IsValid new_string_set
unfolding new_string_set
new_string_set-IsValid = record { same = λ x. refl; distinct_v = tt; distinct_m = tt; size = refl }

Distinct-concat :
    (xs : List String) (v : String) → Distinct xs → contains xs v ≡ false → Distinct (xs ++ v ∷ [])
Distinct-concat [] v d h = (refl, tt)
Distinct-concat (x ∷ xs) v (fresh, d) h = (
  ground (arith, contains-append xs (v ∷ []) x, eq_iff x v, eq_iff v x),
  Distinct-concat xs v d (ground arith),
)

slice_without-eq-without : (s : List String) (v : String) → slice_without s v ≡ without v s
unfolding slice_without
slice_without-eq-without [] v = refl
slice_without-eq-without (x ∷ s) v = ground (arith, slice_without-eq-without s v)

pub add-IsValid : (s : StringSet) (x : String) → IsValid s → IsValid (add s x)
unfolding add
add-IsValid s x h = elim (Bool-cases (contains s.m x)) [
  | inl old ↦ rw old h
  | inr new ↦
      let fresh : contains s.v x ≡ false = sym (h.same x) ∙ new in
      rw new (record {
        same = λ y. ground (arith, h.same y, contains-append s.v (x ∷ []) y);
        distinct_v = Distinct-concat s.v x h.distinct_v fresh;
        distinct_m = (new, h.distinct_m);
        size = omega (arith, h.size, length-append s.v (x ∷ []));
      })
]

pub remove-IsValid : (s : StringSet) (x : String) → IsValid s → IsValid (remove s x)
unfolding remove
remove-IsValid s x h = elim (Bool-cases (contains s.m x)) [
  | inl old ↦
      rw (old, slice_without-eq-without)
        (record {
          same = λ y.
              rw (contains-without x y s.m h.distinct_m, contains-without x y s.v h.distinct_v)
                (ap (λ b. if x == y then false else b) (h.same y));
          distinct_v = without-Distinct x s.v h.distinct_v;
          distinct_m = without-Distinct x s.m h.distinct_m;
          size = omega (
            arith,
            h.size,
            length-without x s.m old,
            length-without x s.v (sym (h.same x) ∙ old),
          );
        })
  | inr absent ↦ rw absent h
]

-- Whatever values are added or removed in a row, the map and the slice stay in step.
pub add_values-IsValid : (s : StringSet) (xs : List String) → IsValid s → IsValid (add_values s xs)
unfolding add_values
add_values-IsValid s [] h = h
add_values-IsValid s (x ∷ xs) h = add_values-IsValid (add s x) xs (add-IsValid s x h)

pub remove_values-IsValid :
    (s : StringSet) (xs : List String) → IsValid s → IsValid (remove_values s xs)
unfolding remove_values
remove_values-IsValid s [] h = h
remove_values-IsValid s (x ∷ xs) h = remove_values-IsValid (remove s x) xs (remove-IsValid s x h)

contains_value-add :
    (s : StringSet) (x y : String) → contains_value (add s x) y ≡ (x == y || contains_value s y)
unfolding contains_value add
contains_value-add s x y = ground (arith, eq_iff x y)

contains_value-remove :
    (s : StringSet) (x y : String)
    → IsValid s
    → contains_value (remove s x) y ≡ (if x == y then false else contains_value s y)
unfolding contains_value remove
contains_value-remove s x y h = ground (arith, contains-without x y s.m h.distinct_m, eq_iff x y)

-- After `AddValues` a set contains exactly what it contained and the added values.
pub contains_value-add_values :
    (s : StringSet) (xs : List String) (y : String)
    → contains_value (add_values s xs) y ≡ (contains_value s y || contains xs y)
unfolding add_values
contains_value-add_values s [] y = ground arith
contains_value-add_values s (x ∷ xs) y =
    ground (arith, contains_value-add_values (add s x) xs y, contains_value-add s x y)

-- After `RemoveValues` a set in which the map and the slice agree contains exactly what it
-- contained, less the removed values.
pub contains_value-remove_values :
    (s : StringSet) (xs : List String) (y : String)
    → IsValid s
    → contains_value (remove_values s xs) y ≡ (if contains xs y then false else contains_value s y)
unfolding remove_values
contains_value-remove_values s [] y h = refl
contains_value-remove_values s (x ∷ xs) y h = ground (
  arith,
  contains_value-remove_values (remove s x) xs y (remove-IsValid s x h),
  contains_value-remove s x y h,
)

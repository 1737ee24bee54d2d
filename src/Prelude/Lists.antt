-- ===== src/Prelude/Lists.antt =====
-- Lists measured by native numbers, and the searches and predicates that the components share.
use Prim.Native.Nat.{ℕ, zero, suc, ◌+◌, ◌≤◌}
use Prim.Native.String.{String}
use mathlib.Core.Path.{◌≡◌, refl, subst}
use mathlib.Core.Logic.{inl, inr}
use mathlib.Core.Bool.{Bool, true, false, ◌||◌, false≢true}
use mathlib.Core.Option.{Option, none, some}
use mathlib.Core.List.{List, [], ◌∷◌, ◌++◌, Memᴰ}
use native.Mathlib.Omega.{arith}
use text.Mathlib.TextEquality.{eq_iff}
use text.Mathlib.TextPositions.{eq_refl}
use bitbucket_cli.Prelude.Tests.{◌==◌, if◌then◌else◌, Bool-cases}

module _ {ℓ} {A : Type ℓ} where
  abbrev pub length : List A → ℕ
  length [] = 0
  length (x ∷ xs) = suc (length xs)

  pub length-append : (xs ys : List A) → length (xs ++ ys) ≡ length xs + length ys
  length-append [] ys = omega arith
  length-append (x ∷ xs) ys = omega (arith, length-append xs ys)

  -- `slices.IndexFunc` with the element in place of its index.
  abbrev pub find : (A → Bool) → List A → Option A
  find p [] = none
  find p (x ∷ xs) = let rest = find p xs in if p x then some x else rest

  abbrev pub filter : (A → Bool) → List A → List A
  filter p [] = []
  filter p (x ∷ xs) = let rest = filter p xs in if p x then x ∷ rest else rest

module _ {ℓ κ} {A : Type ℓ} (P : A → Type κ) where
  abbrev pub All : List A → Type κ
  All [] = Unit
  All (x ∷ xs) = P x × All xs

  pub All-append : (xs ys : List A) → All xs → All ys → All (xs ++ ys)
  All-append [] ys _ k = k
  All-append (x ∷ xs) ys (p, h) k = (p, All-append xs ys h k)

pub All-weaken {ℓ κ μ} :
    {A : Type ℓ} {P : A → Type κ} {Q : A → Type μ} (l : List A)
    → ((x : A) → P x → Q x)
    → All P l
    → All Q l
All-weaken [] f h = tt
All-weaken (x ∷ l) f (p, h) = (f x p, All-weaken l f h)

pub All-Memᴰ {ℓ} : {A : Type ℓ} (l : List A) → All (λ x. Memᴰ x l) l
All-Memᴰ [] = tt
All-Memᴰ (x ∷ l) = (Memᴰ.head refl, All-weaken l (λ y m. Memᴰ.tail m) (All-Memᴰ l))

-- `slices.Contains` on texts.
abbrev pub contains : List String → String → Bool
contains [] v = false
contains (x ∷ xs) v = x == v || contains xs v

-- No text occurs twice.
abbrev pub Distinct : List String → Type 0
Distinct [] = Unit
Distinct (x ∷ xs) = (contains xs x ≡ false) × Distinct xs

pub contains-append :
    (xs ys : List String) (v : String) → contains (xs ++ ys) v ≡ (contains xs v || contains ys v)
contains-append [] ys v = refl
contains-append (x ∷ xs) ys v = ground (arith, contains-append xs ys v)

module _ {ℓ} {A : Type ℓ} where
  abbrev pub take : ℕ → List A → List A
  take zero xs = []
  take (suc n) [] = []
  take (suc n) (x ∷ xs) = x ∷ take n xs

  abbrev pub drop : ℕ → List A → List A
  drop zero xs = xs
  drop (suc n) [] = []
  drop (suc n) (x ∷ xs) = drop n xs

-- The list without the first occurrence of a text.
abbrev pub without : String → List String → List String
without v [] = []
without v (x ∷ xs) = let rest = without v xs in if x == v then xs else x ∷ rest

pub contains-without :
    (v w : String) (xs : List String)
    → Distinct xs
    → contains (without v xs) w ≡ (if v == w then false else contains xs w)
contains-without v w [] d = ground arith
contains-without v w (x ∷ xs) (fresh, d) =
    ground (arith, contains-without v w xs d, eq_iff x v, eq_iff x w, eq_iff v w)

pub contains-without-false :
    (v w : String) (xs : List String) → contains xs w ≡ false → contains (without v xs) w ≡ false
contains-without-false v w [] h = h
contains-without-false v w (x ∷ xs) h = ground (arith, contains-without-false v w xs)

pub without-Distinct : (v : String) (xs : List String) → Distinct xs → Distinct (without v xs)
without-Distinct v [] d = d
without-Distinct v (x ∷ xs) (fresh, d) =
    ground (arith, without-Distinct v xs d, contains-without-false v x xs fresh)

pub length-without :
    (v : String) (xs : List String) → contains xs v ≡ true → suc (length (without v xs)) ≡ length xs
length-without v [] h = ground arith
length-without v (x ∷ xs) h = ground (arith, length-without v xs)

-- Every text of the first list is in the second.
abbrev pub Included : List String → List String → Type 0
Included xs ys = All (λ x. contains ys x ≡ true) xs

Included-without :
    (v : String) (xs ys : List String)
    → contains xs v ≡ false
    → Distinct ys
    → Included xs ys
    → Included xs (without v ys)
Included-without v [] ys h d i = tt
Included-without v (x ∷ xs) ys h d (p, i) = (
  ground (arith, contains-without v x ys d, eq_iff v x, eq_iff x v),
  Included-without v xs ys (ground arith) d i,
)

length-le_of_Included :
    (xs ys : List String) → Distinct xs → Distinct ys → Included xs ys → length xs ≤ length ys
length-le_of_Included [] ys d e i = omega arith
length-le_of_Included (x ∷ xs) ys (fresh, d) e (p, i) = omega (
  arith,
  length-le_of_Included xs (without x ys) d (without-Distinct x ys e)
      (Included-without x xs ys fresh e i),
  length-without x ys p,
)

-- Among lists of one length with no text twice, inclusion goes both ways.
pub Included-back :
    (xs ys : List String)
    → Distinct xs
    → Distinct ys
    → length xs ≡ length ys
    → Included xs ys
    → (v : String) → contains ys v ≡ true
    → contains xs v ≡ true
Included-back xs ys d e same i v h = elim (Bool-cases (contains xs v)) [
  | inl old ↦ old
  | inr new ↦ absurd (
      omega (
        arith,
        length-le_of_Included xs (without v ys) d (without-Distinct v ys e)
            (Included-without v xs ys new e i),
        length-without v ys h,
      ))
]

pub All_at :
    (P : String → Type 0) (xs : List String) (v : String) → All P xs → contains xs v ≡ true → P v
All_at P [] v h e = absurd (false≢true e)
All_at P (x ∷ xs) v (p, h) e = elim (Bool-cases (x == v)) [
  | inl same ↦ subst P ((eq_iff x v).0 same) p
  | inr other ↦ All_at P xs v h (rw other at e)
]

pub Included-of :
    (xs ys : List String)
    → ((v : String) → contains xs v ≡ true → contains ys v ≡ true)
    → Included xs ys
Included-of [] ys h = tt
Included-of (x ∷ xs) ys h =
    (h x (rw (eq_refl x)), Included-of xs ys (λ v p. h v (ground (arith, p))))

pub length-eq_of_Included :
    (xs ys : List String)
    → Distinct xs
    → Distinct ys
    → Included xs ys
    → Included ys xs
    → length xs ≡ length ys
length-eq_of_Included xs ys d e i j =
    omega (arith, length-le_of_Included xs ys d e i, length-le_of_Included ys xs e d j)

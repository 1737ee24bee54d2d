-- ===== src/External/Sample/Files.antt =====
-- Configuration files as lists of paths with their values.
use bitbucket_cli.Prelude.{
  String, Bool, true, false, ◌≡◌, refl, subst, Option, none, some, List, [], ◌∷◌, ◌++◌, ◌==◌, ◌&&◌,
  arith, eq_iff, if◌then◌else◌, is_some, value_or, contains, Distinct, ◌||◌,
}
use bitbucket_cli.External.{is_prefix, after_set, ConfigLib}

abbrev pub Entries : Type 0
Entries = List (List String × String)

abbrev same_path : List String → List String → Bool
same_path p q = is_prefix p q && is_prefix q p

unfoldable pub lookup : Entries → List String → Option String
lookup [] q = none
lookup ((p, v) ∷ c) q = if same_path p q then some v else lookup c q

-- The entries that are not at `p` or below it.
unfoldable pub outside : List String → Entries → Entries
outside p [] = []
outside p ((q, v) ∷ c) = let rest = outside p c in if is_prefix p q then rest else (q, v) ∷ rest

unfoldable pub below : String → Entries → Entries
below k [] = []
below k ((q, v) ∷ c) = (k ∷ q, v) ∷ below k c

-- The mappings that lead to a path, each with the value that `f` gives it.
unfoldable pub ancestors : (List String → String) → List String → Entries
ancestors f [] = []
ancestors f (k ∷ p) = ([], f []) ∷ below k (ancestors (λ q. f (k ∷ q)) p)

unfoldable pub write_at : Entries → List String → String → Entries
write_at c p v = (p, v) ∷ (ancestors (λ q. value_or (lookup c q) "") p ++ outside p c)

same_path_prefix : (p q r : List String) → same_path p q ≡ true → is_prefix r p ≡ is_prefix r q
same_path_prefix [] [] r h = refl
same_path_prefix [] (k ∷ q) r h = ground arith
same_path_prefix (k ∷ p) [] r h = ground arith
same_path_prefix (k ∷ p) (j ∷ q) [] h = refl
same_path_prefix (k ∷ p) (j ∷ q) (i ∷ r) h =
    ground (arith, same_path_prefix p q r, eq_iff k j, eq_iff i k, eq_iff i j)

pub lookup-outside :
    (c : Entries) (p q : List String)
    → lookup (outside p c) q ≡ (if is_prefix p q then none else lookup c q)
unfolding lookup outside
lookup-outside [] p q = ground arith
lookup-outside ((r, v) ∷ c) p q = ground (arith, lookup-outside c p q, same_path_prefix r q p)

lookup-append :
    (c d : Entries) (q : List String)
    → lookup (c ++ d) q ≡ (if is_some (lookup c q) then lookup c q else lookup d q)
unfolding lookup
lookup-append [] d q = refl
lookup-append ((r, v) ∷ c) d q = ground (arith, lookup-append c d q)

lookup-below :
    (k j : String) (c : Entries) (q : List String)
    → lookup (below k c) (j ∷ q) ≡ (if k == j then lookup c q else none)
unfolding lookup below
lookup-below k j [] q = ground arith
lookup-below k j ((r, v) ∷ c) q = ground (arith, lookup-below k j c q, eq_iff k j, eq_iff j k)

lookup-below_nil : (k : String) (c : Entries) → lookup (below k c) [] ≡ none
unfolding lookup below
lookup-below_nil k [] = refl
lookup-below_nil k ((r, v) ∷ c) = lookup-below_nil k c

lookup-ancestors :
    (f : List String → String) (p q : List String)
    → lookup (ancestors f p) q
      ≡ (if is_prefix q p && (if is_prefix p q then false else true) then some (f q) else none)
unfolding lookup ancestors
lookup-ancestors f [] q = ground arith
lookup-ancestors f (k ∷ p) [] = refl
lookup-ancestors f (k ∷ p) (j ∷ q) = ground (
  arith,
  lookup-below k j (ancestors (λ r. f (k ∷ r)) p) q,
  lookup-ancestors (λ r. f (k ∷ r)) p q,
  eq_iff k j,
  eq_iff j k,
)

after_set-prefixes :
    (p q : List String) (v : String) (old : Option String)
    → after_set p q v old ≡ (
        if is_prefix p q
        then (if is_prefix q p then some v else none)
        else if is_prefix q p
        then some (value_or old "")
        else old)
after_set-prefixes [] [] v old = refl
after_set-prefixes [] (j ∷ q) v old = refl
after_set-prefixes (k ∷ p) [] v old = refl
after_set-prefixes (k ∷ p) (j ∷ q) v old =
    ground (arith, after_set-prefixes p q v old, eq_iff k j, eq_iff j k)

pub lookup-write_at :
    (c : Entries) (p q : List String) (v : String)
    → lookup (write_at c p v) q ≡ after_set p q v (lookup c q)
unfolding lookup write_at
lookup-write_at c p q v = ground (
  arith,
  after_set-prefixes p q v (lookup c q),
  lookup-append (ancestors (λ r. value_or (lookup c r) "") p) (outside p c) q,
  lookup-ancestors (λ r. value_or (lookup c r) "") p q,
  lookup-outside c p q,
)

-- The key of an entry that stands directly under `p`.
child : List String → List String → Option String
child [] [] = none
child [] (k ∷ []) = some k
child [] (k ∷ j ∷ q) = none
child (i ∷ p) [] = none
child (i ∷ p) (k ∷ q) = let deeper = child p q in if i == k then deeper else none

add_key : Option String → List String → List String
add_key none l = l
add_key (some k) l = if contains l k then l else k ∷ l

unfoldable pub children : List String → Entries → List String
unfolding add_key child
children p [] = []
children p ((q, v) ∷ c) = add_key (child p q) (children p c)

key_is : Option String → String → Bool
key_is none k = false
key_is (some j) k = j == k

child_lem : (p q : List String) (k : String) → key_is (child p q) k ≡ same_path q (p ++ k ∷ [])
unfolding child key_is
child_lem [] [] k = refl
child_lem [] (j ∷ []) k = ground (arith, eq_iff j k, eq_iff k j)
child_lem [] (j ∷ i ∷ q) k = ground arith
child_lem (i ∷ p) [] k = refl
child_lem (i ∷ p) (j ∷ q) k = ground (arith, child_lem p q k, eq_iff i j, eq_iff j i)

contains-add_key :
    (o : Option String) (l : List String) (k : String)
    → contains (add_key o l) k ≡ (key_is o k || contains l k)
unfolding add_key key_is
contains-add_key none l k = refl
contains-add_key (some j) l k = ground (arith, eq_iff j k)

add_key-Distinct : (o : Option String) (l : List String) → Distinct l → Distinct (add_key o l)
unfolding add_key
add_key-Distinct none l d = d
add_key-Distinct (some j) l d = ground arith

pub contains-children :
    (p : List String) (c : Entries) (k : String)
    → contains (children p c) k ≡ is_some (lookup c (p ++ k ∷ []))
unfolding children lookup
contains-children p [] k = refl
contains-children p ((q, v) ∷ c) k =
    ground (
      arith,
      contains-add_key (child p q) (children p c) k,
      child_lem p q k,
      contains-children p c k,
    )

pub children-Distinct : (p : List String) (c : Entries) → Distinct (children p c)
unfolding children
children-Distinct p [] = tt
children-Distinct p ((q, v) ∷ c) =
    add_key-Distinct (child p q) (children p c) (children-Distinct p c)

unfoldable pub keys_of : Entries → List String → Option (List String)
keys_of c p = if is_some (lookup c p) then some (children p c) else none

pub keys_of-some : (c : Entries) (p l : List String) → keys_of c p ≡ some l → children p c ≡ l
unfolding keys_of
keys_of-some c p l e = ground arith

pub is_some-keys_of : (c : Entries) (p : List String) → is_some (keys_of c p) ≡ is_some (lookup c p)
unfolding keys_of
is_some-keys_of c p = ground arith

abbrev pub sample_config : ConfigLib
sample_config = record {
  File = Entries;
  get = lookup;
  keys = keys_of;
  set = write_at;
  remove = λ c p. outside p c;
  get-set = lookup-write_at;
  get-remove = lookup-outside;
  is_some-keys = is_some-keys_of;
  contains-keys = λ c p l k e.
      subst (λ m. contains m k ≡ is_some (lookup c (p ++ k ∷ []))) (keys_of-some c p l e)
        (contains-children p c k);
  keys-Distinct = λ c p l e. subst Distinct (keys_of-some c p l e) (children-Distinct p c);
}

-- Tests that run over the sample name this on their `unfolding` line.
unfoldable pub sample_files : Unit {0}
unfolding lookup outside below ancestors write_at keys_of children
sample_files = tt

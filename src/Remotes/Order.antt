-- ===== src/Remotes/Order.antt =====
-- context/remote.go: the order of remotes, the best name first.
use bitbucket_cli.Prelude.{◌≡◌, true, false, List, [], ◌∷◌, All, arith, inl, inr, Bool-cases}
use bitbucket_cli.Prelude.Codes.{Text}
use bitbucket_cli.Remotes.{Remote, less, insert, sort_stable, filter_by_hosts, any_host}

-- Each remote comes before those of a lower score, or the same.
abbrev pub IsSorted : List Remote → Type 0
IsSorted [] = Unit
IsSorted (a ∷ rest) = All (λ b. less b a ≡ false) rest × IsSorted rest

module _ (Q : Remote → Type 0) where
  pub insert-All : (a : Remote) (l : List Remote) → Q a → All Q l → All Q (insert a l)
  unfolding insert
  insert-All a [] q h = (q, tt)
  insert-All a (b ∷ rest) q (p, h) = elim (Bool-cases (less b a)) [
    | inl e ↦ rw e (p, insert-All a rest q h)
    | inr e ↦ rw e (q, (p, h))
  ]

  pub sort_stable-All : (l : List Remote) → All Q l → All Q (sort_stable l)
  unfolding sort_stable
  sort_stable-All [] h = tt
  sort_stable-All (a ∷ l) (q, h) = insert-All a (sort_stable l) q (sort_stable-All l h)

  -- What holds of the remotes in order holds of all.
  All-insert : (a : Remote) (l : List Remote) → All Q (insert a l) → Q a × All Q l
  unfolding insert
  All-insert a [] (q, h) = (q, tt)
  All-insert a (b ∷ rest) h = elim (Bool-cases (less b a)) [
    | inl e ↦ let (p, k) = rw e at h in let (q, h') = All-insert a rest k in (q, (p, h'))
    | inr e ↦ rw e at h
  ]

  pub All-sort_stable : (l : List Remote) → All Q (sort_stable l) → All Q l
  unfolding sort_stable
  All-sort_stable [] h = tt
  All-sort_stable (a ∷ l) h =
      let (q, k) = All-insert a (sort_stable l) h in (q, All-sort_stable l k)

  pub filter_by_hosts-All :
      (l : List Remote) (hosts : List Text) → All Q l → All Q (filter_by_hosts l hosts)
  unfolding filter_by_hosts
  filter_by_hosts-All [] hosts h = tt
  filter_by_hosts-All (a ∷ l) hosts (q, h) = elim (Bool-cases (any_host hosts a.repo.hostname)) [
    | inl e ↦ rw e (q, filter_by_hosts-All l hosts h)
    | inr e ↦ rw e (filter_by_hosts-All l hosts h)
  ]

-- `Less` is a strict order of scores.
less_weaken : (a b c : Remote) → less b a ≡ false → less c b ≡ false → less c a ≡ false
unfolding less
less_weaken a b c h k = ground (arith, h, k)

less_asym : (a b : Remote) → less b a ≡ true → less a b ≡ false
unfolding less
less_asym a b h = ground (arith, h)

coming_after :
    (a b : Remote) (l : List Remote)
    → less b a ≡ false
    → All (λ c. less c b ≡ false) l
    → All (λ c. less c a ≡ false) l
coming_after a b [] h _ = tt
coming_after a b (c ∷ l) h (k, ks) = (less_weaken a b c h k, coming_after a b l h ks)

insert-IsSorted : (a : Remote) (l : List Remote) → IsSorted l → IsSorted (insert a l)
unfolding insert
insert-IsSorted a [] _ = (tt, tt)
insert-IsSorted a (b ∷ rest) (first, h) = elim (Bool-cases (less b a)) [
  | inl e ↦
      rw e (
        insert-All (λ c. less c b ≡ false) a rest (less_asym a b e) first,
        insert-IsSorted a rest h,
      )
  | inr e ↦ rw e ((e, coming_after a b rest e first), (first, h))
]

pub sort_stable-IsSorted : (l : List Remote) → IsSorted (sort_stable l)
unfolding sort_stable
sort_stable-IsSorted [] = tt
sort_stable-IsSorted (a ∷ l) = insert-IsSorted a (sort_stable l) (sort_stable-IsSorted l)

pub filter_by_hosts-IsSorted :
    (l : List Remote) (hosts : List Text) → IsSorted l → IsSorted (filter_by_hosts l hosts)
unfolding filter_by_hosts
filter_by_hosts-IsSorted [] hosts _ = tt
filter_by_hosts-IsSorted (a ∷ l) hosts (first, h) =
    elim (Bool-cases (any_host hosts a.repo.hostname)) [
      | inl e ↦ rw e (
        filter_by_hosts-All (λ b. less b a ≡ false) l hosts first,
        filter_by_hosts-IsSorted l hosts h,
      )
      | inr e ↦ rw e (filter_by_hosts-IsSorted l hosts h)
    ]

-- What is left has one of the hosts.
pub filter_by_hosts-any_host :
    (l : List Remote) (hosts : List Text)
    → All (λ a. any_host hosts a.repo.hostname ≡ true) (filter_by_hosts l hosts)
unfolding filter_by_hosts
filter_by_hosts-any_host [] hosts = tt
filter_by_hosts-any_host (a ∷ l) hosts = elim (Bool-cases (any_host hosts a.repo.hostname)) [
  | inl e ↦ rw e (e, filter_by_hosts-any_host l hosts)
  | inr e ↦ rw e (filter_by_hosts-any_host l hosts)
]

-- ===== src/StringSet/Equality.antt =====
-- `Equal` decides that two sets hold the same texts, and `ToSlice` keeps the order of insertion.
use bitbucket_cli.Prelude.{
  String, true, ◌≡◌, ◌↔◌, sym, ◌∙◌, refl, List, [], ◌∷◌, arith, eq_refl, contains, length, All,
  All_at, Included, Included-back, Included-of, length-eq_of_Included, Bool-ext,
}
use bitbucket_cli.StringSet.{StringSet, contains_value, all_in, equal, len}
use bitbucket_cli.StringSet.Invariant.{IsValid}

all_in_sound :
    (s : StringSet) (vs : List String)
    → IsValid s
    → all_in s vs ≡ true
    → All (λ x. contains s.v x ≡ true) vs
unfolding all_in contains_value
all_in_sound s [] h e = tt
all_in_sound s (v ∷ vs) h e = (ground (arith, h.same v), all_in_sound s vs h (ground arith))

all_in_complete :
    (s : StringSet) (vs : List String)
    → ((x : String) → contains vs x ≡ true → contains_value s x ≡ true)
    → all_in s vs ≡ true
unfolding all_in
all_in_complete s [] k = refl
all_in_complete s (v ∷ vs) k =
    rw (k v (rw (eq_refl v))) (all_in_complete s vs (λ x p. k x (ground (arith, p))))

module _ (s t : StringSet) (hs : IsValid s) (ht : IsValid t) where
  texts_of_equal : equal s t ≡ true → (x : String) → contains s.v x ≡ contains t.v x
  unfolding equal len
  texts_of_equal e x =
      let sizes : length s.m ≡ length t.m = ground arith in
      let all : Included s.v t.v = all_in_sound t s.v ht (ground arith) in
      Bool-ext _ _ (All_at _ s.v x all) (
        Included-back s.v t.v hs.distinct_v ht.distinct_v (omega (arith, hs.size, ht.size, sizes))
          all x)

  size_of_texts : ((x : String) → contains s.v x ≡ contains t.v x) → length s.m ≡ length t.m
  size_of_texts h =
      let sizes : length s.v ≡ length t.v =
        length-eq_of_Included s.v t.v hs.distinct_v ht.distinct_v
          (Included-of s.v t.v (λ x p. sym (h x) ∙ p)) (Included-of t.v s.v (λ x p. h x ∙ p)) in
      omega (arith, hs.size, ht.size, sizes)

-- `Equal` answers true exactly when the two sets contain the same texts, for sets in which the map
-- and the slice agree.
pub equal_iff :
    (s t : StringSet)
    → IsValid s
    → IsValid t
    → (equal s t ≡ true) ↔ ((x : String) → contains_value s x ≡ contains_value t x)
unfolding equal len
equal_iff s t hs ht = (
  λ e x. unfold contains_value in hs.same x ∙ texts_of_equal s t hs ht e x ∙ sym (ht.same x),
  λ h.
      let texts : (x : String) → contains s.v x ≡ contains t.v x =
        λ x. sym (hs.same x) ∙ unfold contains_value in h x ∙ ht.same x in
      ground (
        arith,
        size_of_texts s t hs ht texts,
        all_in_complete t s.v (λ x p. unfold contains_value in ht.same x ∙ sym (texts x) ∙ p),
      ),
)

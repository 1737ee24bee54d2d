-- ===== src/PullRequest/Checks/Tally.antt =====
-- pkg/cmd/pr/checks/checks.go: what the counters of printStatuses and its last line say.
use bitbucket_cli.Prelude.{
  ℕ, ◌+◌, ◌≡◌, ◌↔◌, ◌≢◌, eq_iff, refl, false, true, Bool, List, [], ◌∷◌, arith, subst, sym, ltb,
  length, filter, Bool-cases, inl, inr,
}
use bitbucket_cli.Prelude.Codes.{Text, codes, text_eq}
use bitbucket_cli.Prelude.Codes.Laws.{eq_of_text_eq}
use bitbucket_cli.PullRequest.Checks.{
  BuildStatus, Counts, successful, failed_state, in_progress, counted, tally, summary, all_passed,
}

-- How many statuses are in a state.
abbrev pub number_in : Text → List BuildStatus → ℕ
number_in state statuses = length (filter (λ s. text_eq s.state state) statuses)

other_state : (s a b : Text) → text_eq a b ≡ false → text_eq s a ≡ true → text_eq s b ≡ false
other_state s a b differ h = subst (λ t. text_eq t b ≡ false) (sym (eq_of_text_eq s a h)) differ

not_failed : text_eq successful failed_state ≡ false
unfolding codes
not_failed = refl

not_pending : text_eq successful in_progress ≡ false
unfolding codes
not_pending = refl

failed-not_pending : text_eq failed_state in_progress ≡ false
unfolding codes
failed-not_pending = refl

-- What a state adds to a counter.
one_if : Bool → ℕ
one_if true = 1
one_if false = 0

counted_lem :
    (state : Text) (c : Counts)
    → ((counted state c).passed ≡ c.passed + one_if (text_eq state successful))
      × ((counted state c).failed ≡ c.failed + one_if (text_eq state failed_state))
      × ((counted state c).pending ≡ c.pending + one_if (text_eq state in_progress))
unfolding counted one_if
counted_lem state c = elim (Bool-cases (text_eq state successful)) [
  | inl e ↦
      rw
        (
          e,
          other_state state successful failed_state not_failed e,
          other_state state successful in_progress not_pending e,
        )
        (omega arith, omega arith, omega arith)
  | inr e ↦ elim (Bool-cases (text_eq state failed_state)) [
    | inl f ↦
        rw (e, f, other_state state failed_state in_progress failed-not_pending f)
          (omega arith, omega arith, omega arith)
    | inr f ↦ elim (Bool-cases (text_eq state in_progress)) [
      | inl g ↦ rw (e, f, g) (omega arith, omega arith, omega arith)
      | inr g ↦ rw (e, f, g) (omega arith, omega arith, omega arith)
    ]
  ]
]

number_in_cons :
    (state : Text) (s : BuildStatus) (rest : List BuildStatus)
    → number_in state (s ∷ rest) ≡ one_if (text_eq s.state state) + number_in state rest
unfolding one_if
number_in_cons state s rest = elim (Bool-cases (text_eq s.state state)) [
  | inl e ↦ rw e (omega arith)
  | inr e ↦ rw e (omega arith)
]

tally-number_in :
    (statuses : List BuildStatus) (c : Counts)
    → ((tally statuses c).passed ≡ c.passed + number_in successful statuses)
      × ((tally statuses c).failed ≡ c.failed + number_in failed_state statuses)
      × ((tally statuses c).pending ≡ c.pending + number_in in_progress statuses)
unfolding tally
tally-number_in [] c = (omega arith, omega arith, omega arith)
tally-number_in (s ∷ rest) c =
    let (p, f, w) = tally-number_in rest (counted s.state c) in
    let (p', f', w') = counted_lem s.state c in
    (
      omega (arith, number_in_cons successful s rest),
      omega (arith, number_in_cons failed_state s rest),
      omega (arith, number_in_cons in_progress s rest),
    )

-- The counters before the loop.
abbrev pub no_counts : Counts
no_counts = record { passed = 0; failed = 0; pending = 0 }

fails_some : "%s %d/%d checks passing\n" ≢ all_passed
fails_some e = ground (arith, (eq_iff "%s %d/%d checks passing\n" all_passed).1 e)

waits_some : "%s %d/%d checks passing, %d pending\n" ≢ all_passed
waits_some e = ground (arith, (eq_iff "%s %d/%d checks passing, %d pending\n" all_passed).1 e)

summary-all_passed :
    (c : Counts) (total : ℕ)
    → ((summary c total).format ≡ all_passed) ↔ ((c.failed ≡ 0) × (c.pending ≡ 0))
unfolding summary
summary-all_passed c total = elim (Bool-cases (ltb 0 c.failed)) [
  | inl e ↦ (λ h. absurd (fails_some (rw e at h)), λ (f, w). ground (arith, e, f))
  | inr e ↦ elim (Bool-cases (ltb 0 c.pending)) [
    | inl g ↦ (λ h. absurd (waits_some (rw (e, g) at h)), λ (f, w). ground (arith, g, w))
    | inr g ↦ (λ h. (ground (arith, e), ground (arith, g)), λ (f, w). rw (e, g) refl)
  ]
]

counts_eq :
    {c : Counts} {p f w : ℕ}
    → c.passed ≡ 0 + p
    → c.failed ≡ 0 + f
    → c.pending ≡ 0 + w
    → c ≡ record { passed = p; failed = f; pending = w }
counts_eq {c = c} {p = p} {f = f} {w = w} h k l =
    let h' : c.passed ≡ p = omega arith in
    let k' : c.failed ≡ f = omega arith in
    let l' : c.pending ≡ w = omega arith in
    λ i. record { passed = h' i; failed = k' i; pending = l' i }

-- The counters of `printStatuses` are the numbers of the statuses that are successful, failed and in
-- progress; and the last line says that all checks passed exactly where none has failed and none is
-- in progress.
pub summary-tally :
    (statuses : List BuildStatus) (total : ℕ)
    → (tally statuses no_counts ≡ record {
      passed = number_in successful statuses;
      failed = number_in failed_state statuses;
      pending = number_in in_progress statuses;
    })
      × (((summary (tally statuses no_counts) total).format ≡ all_passed)
          ↔ ((number_in failed_state statuses ≡ 0) × (number_in in_progress statuses ≡ 0)))
summary-tally statuses total =
    let (p, f, w) = tally-number_in statuses no_counts in
    let counts : tally statuses no_counts ≡ record {
      passed = number_in successful statuses;
      failed = number_in failed_state statuses;
      pending = number_in in_progress statuses;
    } =
      counts_eq p f w in
    (counts, rw counts (summary-all_passed _ total))
